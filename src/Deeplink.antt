-- ===== src/Deeplink.antt =====
-- web/src/solana/phantom-deeplink.ts: the key pair of the app, the links to Phantom and the
-- decryption of its answers. tweetnacl, the browser's `URLSearchParams`, JSON and the base58 codec
-- are the record `Browser`; what is random is an argument.
pub mod Crypto
pub mod KeyPair
pub mod Connect
pub mod Sessions
pub mod Reach
pub mod Answers
pub mod Sign
pub mod Signing
pub mod Polling
pub mod LateAnswers
use terra_ledger.Base.{
  Outcome, ok, throws, Thrown, error, ◌>>=◌, Option, none, some, List, [], ◌∷◌, ◌++◌, Text, text,
}
use terra_ledger.Bytes.{Bytes}
use terra_ledger.Platform.{Kit}

pub record DappKeyPair : Type 0 where
  pub public_key : Bytes
  pub secret_key : Bytes

pub record Browser : Type 0 where
  -- `import.meta.env.VITE_API_URL`, where it is set and not empty, and `window.location.origin`
  pub api_url : Option Text
  pub origin : Text
  -- `new URLSearchParams(record).toString()`
  pub query_string : List (Text × Text) → Text
  -- `JSON.stringify` of an object of strings, and `JSON.parse` with the string properties of its
  -- result
  pub stringify : List (Text × Text) → Text
  pub parse : Text → Outcome (Text → Option Text)
  -- the same for a key pair as two arrays of numbers
  pub stringify_key_pair : DappKeyPair → Text
  pub parse_key_pair : Text → Outcome DappKeyPair
  -- `nacl.box.before`, `nacl.box.after` and `nacl.box.open.after`
  pub box_before : Bytes → Bytes → Outcome Bytes
  pub box_after : Bytes → Bytes → Bytes → Outcome Bytes
  pub box_open_after : Bytes → Bytes → Bytes → Outcome (Option Bytes)
  -- `getBase58Decoder().decode` and `getBase58Encoder().encode`
  pub b58encode : Bytes → Text
  pub b58decode : Text → Outcome Bytes
  -- `err instanceof Error ? err.message : ...` of what is thrown
  pub message : Thrown → Option Text

-- The four entries of `localStorage`.
pub record Storage : Type 0 where
  pub keypair : Option Text
  pub wallet : Option Text
  pub session : Option Text
  pub pubkey : Option Text

pub record ConnectResponse : Type 0 where
  pub public_key : Option Text
  pub session : Option Text

-- `if (s)` for what `localStorage` gives
unfoldable pub present : Option Text → Option Text
present none = none
present (some []) = none
present (some (c ∷ s)) = some (c ∷ s)

module _ (browser : Browser) where
  -- with the pair that `nacl.box.keyPair()` would make
  unfoldable pub get_dapp_key_pair : DappKeyPair → Storage → Outcome (DappKeyPair × Storage)
  get_dapp_key_pair fresh storage = elim (present storage.keypair) [
    | some stored ↦ browser.parse_key_pair stored >>= λ kp. ok (kp, storage)
    | none ↦ ok (fresh, record storage { keypair = some (browser.stringify_key_pair fresh) })
  ]

  unfoldable pub redirect_link : Text → Text
  redirect_link session_id =
      (elim browser.api_url [ some url ↦ url | none ↦ browser.origin ])
      ++ (text "/api/v1/phantom/callback?session=" ++ session_id)

  unfoldable pub build_connect_url : DappKeyPair → Text → Text
  build_connect_url key_pair session_id =
      text "https://phantom.app/ul/v1/connect?"
      ++ browser.query_string (
          (text "dapp_encryption_public_key", browser.b58encode key_pair.public_key)
          ∷ (text "cluster", text "devnet")
          ∷ (text "app_url", browser.origin)
          ∷ (text "redirect_link", redirect_link session_id)
          ∷ [])

module _ (kit : Kit) (browser : Browser) where
  -- with the nonce that `nacl.randomBytes(24)` gives
  unfoldable pub sign_payload : DappKeyPair → Text → Text → Text → Bytes → Outcome Bytes
  sign_payload key_pair session_token phantom_pub_key_b58 transaction_b58 nonce = do
    phantom_pub_key ← browser.b58decode phantom_pub_key_b58
    shared_secret ← browser.box_before phantom_pub_key key_pair.secret_key
    let payload =
        browser.stringify
          ((text "transaction", transaction_b58) ∷ (text "session", session_token) ∷ [])
    browser.box_after (kit.utf8_encode payload) nonce shared_secret

  unfoldable pub build_sign_transaction_url :
      DappKeyPair → Text → Text → Text → Text → Bytes → Outcome Text
  build_sign_transaction_url key_pair session_token phantom_pub_key_b58 transaction_b58 session_id
        nonce =
      do
        encrypted ← sign_payload key_pair session_token phantom_pub_key_b58 transaction_b58 nonce
        ok (
            text "https://phantom.app/ul/v1/signTransaction?"
            ++ browser.query_string (
                (text "dapp_encryption_public_key", browser.b58encode key_pair.public_key)
                ∷ (text "nonce", browser.b58encode nonce)
                ∷ (text "redirect_link", redirect_link browser session_id)
                ∷ (text "payload", browser.b58encode encrypted)
                ∷ []))

  -- what both decryptions do up to `JSON.parse`, with the message of the failure
  unfoldable pub decrypt_json :
      Text → Text → Text → Text → DappKeyPair → Outcome (Text → Option Text)
  decrypt_json failure phantom_pub_key_b58 nonce_b58 data_b58 key_pair = do
    phantom_pub_key ← browser.b58decode phantom_pub_key_b58
    nonce ← browser.b58decode nonce_b58
    encrypted_data ← browser.b58decode data_b58
    shared_secret ← browser.box_before phantom_pub_key key_pair.secret_key
    decrypted ← browser.box_open_after encrypted_data nonce shared_secret
    elim decrypted [
      | none ↦ throws (error failure)
      | some bytes ↦ browser.parse (kit.utf8_decode bytes)
    ]

  unfoldable pub decrypt_sign_response : Text → Text → Text → DappKeyPair → Outcome (Option Text)
  decrypt_sign_response phantom_pub_key_b58 nonce_b58 data_b58 key_pair = do
    json ←
        decrypt_json (text "Failed to decrypt Phantom sign response") phantom_pub_key_b58 nonce_b58
          data_b58 key_pair
    ok (json (text "transaction"))

  unfoldable pub decrypt_connect_response :
      Text → Text → Text → DappKeyPair → Outcome ConnectResponse
  decrypt_connect_response phantom_pub_key_b58 nonce_b58 data_b58 key_pair = do
    json ←
        decrypt_json (text "Failed to decrypt Phantom response") phantom_pub_key_b58 nonce_b58
          data_b58 key_pair
    ok (record { public_key = json (text "public_key"); session = json (text "session") })
