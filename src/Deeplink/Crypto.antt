-- ===== src/Deeplink/Crypto.antt =====
-- The encrypted messages between the app and Phantom: what one side writes the other reads.
use terra_ledger.Base.{◌≡◌, refl, ok, Option, some, [], ◌∷◌, Text, text}
use terra_ledger.Bytes.{Bytes}
use terra_ledger.Platform.{Kit}
use terra_ledger.Deeplink.{
  Browser, DappKeyPair, sign_payload, decrypt_json, decrypt_sign_response, decrypt_connect_response,
}

-- A channel between the app's pair and Phantom's, as `nacl.box` documents it: both sides compute the
-- same shared secret, and opening undoes sealing under the same nonce. `phantom_text` is Phantom's
-- public key in base58.
pub record Channel (browser : Browser) (app phantom : DappKeyPair) (phantom_text : Text)
    (shared : Bytes) : Type 0 where
  pub app_side : browser.box_before phantom.public_key app.secret_key ≡ ok shared
  pub phantom_side : browser.box_before app.public_key phantom.secret_key ≡ ok shared
  pub phantom_key : browser.b58decode phantom_text ≡ ok phantom.public_key
  pub b58decode-encode : (b : Bytes) → browser.b58decode (browser.b58encode b) ≡ ok b
  pub seals :
      (message nonce : Bytes)
      → (sealed : Bytes) × (browser.box_after message nonce shared ≡ ok sealed)
        × (browser.box_open_after sealed nonce shared ≡ ok (some message))

module _ (kit : Kit) (browser : Browser) (app phantom : DappKeyPair) (phantom_text : Text)
    (shared : Bytes) (channel : Channel browser app phantom phantom_text shared) where
  -- The payload of the link for signing opens, on Phantom's side, to the JSON text of the
  -- transaction and the session.
  pub sign_payload-opens :
      (session_token transaction : Text) (nonce : Bytes)
      → (sealed : Bytes) × (sign_payload kit browser app session_token phantom_text transaction
            nonce
          ≡ ok sealed)
        × (browser.box_open_after sealed nonce shared
            ≡ ok (
                some (
                  kit.utf8_encode (
                    browser.stringify
                      ((text "transaction", transaction) ∷ (text "session", session_token) ∷ [])))))
  unfolding sign_payload
  sign_payload-opens session_token transaction nonce =
      let (sealed, after, opens) =
        channel.seals
          (kit.utf8_encode (
            browser.stringify
              ((text "transaction", transaction) ∷ (text "session", session_token) ∷ [])))
          nonce in
      (sealed, rw (channel.phantom_key, channel.app_side, after) refl, opens)

  decrypt_json-sealed :
      (failure json : Text) (nonce sealed : Bytes) (object : Text → Option Text)
      → browser.box_open_after sealed nonce shared ≡ ok (some (kit.utf8_encode json))
      → kit.utf8_decode (kit.utf8_encode json) ≡ json
      → browser.parse json ≡ ok object
      → decrypt_json kit browser failure phantom_text
          (browser.b58encode nonce)
          (browser.b58encode sealed)
          app
        ≡ ok object
  unfolding decrypt_json
  decrypt_json-sealed failure json nonce sealed object opens plain parsed =
      rw
        (
          channel.phantom_key,
          channel.b58decode-encode nonce,
          channel.b58decode-encode sealed,
          channel.app_side,
          opens,
          plain,
          parsed,
        )
        refl

  -- What Phantom seals for the app, sent in base58 with its nonce, decrypts to what the JSON text
  -- has under `transaction`, and under `public_key` and `session` for a connection.
  pub decrypt-sealed :
      (json : Text) (nonce : Bytes) (object : Text → Option Text)
      → kit.utf8_decode (kit.utf8_encode json) ≡ json
      → browser.parse json ≡ ok object
      → (sealed : Bytes) × (browser.box_after (kit.utf8_encode json) nonce shared ≡ ok sealed)
        × (decrypt_sign_response kit browser phantom_text
              (browser.b58encode nonce)
              (browser.b58encode sealed)
              app
            ≡ ok (object (text "transaction")))
        × (decrypt_connect_response kit browser phantom_text
              (browser.b58encode nonce)
              (browser.b58encode sealed)
              app
            ≡ ok (record {
              public_key = object (text "public_key");
              session = object (text "session");
            }))
  unfolding decrypt_sign_response decrypt_connect_response
  decrypt-sealed json nonce object plain parsed =
      let (sealed, after, opens) = channel.seals (kit.utf8_encode json) nonce in
      (
        sealed,
        after,
        rw (decrypt_json-sealed _ json nonce sealed object opens plain parsed) refl,
        rw (decrypt_json-sealed _ json nonce sealed object opens plain parsed) refl,
      )
