-- ===== src/Examples/Deeplink.antt =====
-- Connecting to Phantom and signing with it, with a sample codec and cipher.
use terra_ledger.Base.{
  ℕ, zero, suc, ◌*◌, ap, arith, List, length, throws, type_error, false, true, ◌⊎◌, ◌≡◌, ◌≢◌, refl,
  ok, none, some, [], ◌∷◌, ◌++◌, text,
}
use terra_ledger.Bytes.{Bytes}
use terra_ledger.Platform.Sample.{sample}
use terra_ledger.Deeplink.{
  Browser, DappKeyPair, Storage, ConnectResponse, present, decrypt_json, decrypt_sign_response,
  decrypt_connect_response,
}
use terra_ledger.Deeplink.Crypto.{Channel, decrypt-sealed}
use terra_ledger.Deeplink.Connect.{
  Hook, PollResponse, status_connected, status_expired, restore, sealed_fields, settle_poll,
  begin_connect, open_session,
}
use terra_ledger.Deeplink.Sessions.{no_connection, Sound}
use terra_ledger.Deeplink.Reach.{Reachable, start, next, connects, answers, Reachable-Sound}
use terra_ledger.Deeplink.Answers.{Opens}
use terra_ledger.Deeplink.Sign.{Call, waiting_call, Settled, sign_answer}
use terra_ledger.Deeplink.Signing
use terra_ledger.Deeplink.Polling.{Run, Paced, poll_runs, poll_runs_settles}

abbrev app : DappKeyPair
app = record { public_key = 1 ∷ []; secret_key = 2 ∷ [] }

abbrev phantom : DappKeyPair
phantom = record { public_key = 3 ∷ []; secret_key = 4 ∷ [] }

-- Base58 is taken as it is, the cipher seals nothing, and every property of a parsed object is its
-- whole text.
abbrev browser : Browser
browser = record {
  api_url = none;
  origin = text "https://terra.example";
  query_string = λ params. [];
  stringify = λ fields. text "{}";
  parse = λ json. ok (λ name. some json);
  stringify_key_pair = λ pair. pair.public_key ++ pair.secret_key;
  parse_key_pair = λ json. ok app;
  box_before = λ public secret. ok (5 ∷ []);
  box_after = λ message nonce shared. ok message;
  box_open_after = λ sealed nonce shared. ok (some sealed);
  b58encode = λ bytes. bytes;
  b58decode = λ text58. ok text58;
  message = λ x. none;
}

abbrev empty_storage : Storage
empty_storage = record { keypair = none; wallet = none; session = none; pubkey = none }

channel : Channel browser app phantom (3 ∷ []) (5 ∷ [])
channel = record {
  app_side = refl;
  phantom_side = refl;
  phantom_key = refl;
  b58decode-encode = λ b. refl;
  seals = λ message nonce. (message, refl, refl);
}

sample-plain : sample.utf8_decode (sample.utf8_encode (text "ok")) ≡ text "ok"
unfolding sample
sample-plain = refl

decrypt-sealed_example :
    (sealed : Bytes) × (browser.box_after (sample.utf8_encode (text "ok")) (9 ∷ []) (5 ∷ [])
      ≡ ok sealed)
    × (decrypt_sign_response sample browser (3 ∷ []) (9 ∷ []) sealed app ≡ ok (some (text "ok")))
    × (decrypt_connect_response sample browser (3 ∷ []) (9 ∷ []) sealed app
        ≡ ok (record { public_key = some (text "ok"); session = some (text "ok") }))
decrypt-sealed_example =
    decrypt-sealed sample browser app phantom (3 ∷ []) (5 ∷ []) channel (text "ok") (9 ∷ [])
      (λ name. some (text "ok")) sample-plain refl

app_text-some : browser.stringify_key_pair app ≢ []
app_text-some = λ e. cc

-- "ok" in the sample codec
abbrev sealed_ok : Bytes
sealed_ok = 111 ∷ 0 ∷ 107 ∷ 0 ∷ []

-- the relay's answers: with Phantom's message, and when the session is gone
abbrev answer : PollResponse
answer = record {
  status = status_connected;
  phantom_encryption_public_key = some (3 ∷ []);
  nonce = some (9 ∷ []);
  data' = some sealed_ok;
  error_message = none;
}

abbrev gone : PollResponse
gone = record {
  status = status_expired;
  phantom_encryption_public_key = none;
  nonce = none;
  data' = none;
  error_message = none;
}

answer-fields : sealed_fields answer ≡ some (3 ∷ [], 9 ∷ [], sealed_ok)
unfolding sealed_fields present
answer-fields = refl

gone-fields : sealed_fields gone ≡ none
unfolding sealed_fields present
gone-fields = refl

abbrev response : ConnectResponse
response = record { public_key = some (text "ok"); session = some (text "ok") }

answer-opened :
    decrypt_connect_response sample browser (3 ∷ []) (9 ∷ []) sealed_ok app ≡ ok response
unfolding decrypt_connect_response decrypt_json sample
answer-opened = refl

answer-signed :
    decrypt_sign_response sample browser (3 ∷ []) (9 ∷ []) sealed_ok app ≡ ok (some (text "ok"))
unfolding decrypt_sign_response decrypt_json sample
answer-signed = refl

answer-Opens : Opens sample browser app answer response (3 ∷ [])
answer-Opens = record {
  nonce = 9 ∷ [];
  sealed = sealed_ok;
  answered = refl;
  fields = answer-fields;
  decrypts = answer-opened;
}

abbrev fresh_hook : Hook
fresh_hook = restore empty_storage

abbrev waiting_hook : Hook
waiting_hook = open_session browser app 100 (ok (text "id")) (begin_connect fresh_hook)

abbrev connected_hook : Hook
connected_hook = settle_poll sample browser app (ok answer) waiting_hook

some_text : text "ok" ≢ []
some_text = λ e. cc

connected_hook-Reachable : Reachable sample browser empty_storage connected_hook
connected_hook-Reachable =
    next waiting_hook connected_hook
      (next fresh_hook waiting_hook start (connects app 100 (ok (text "id"))))
      (answers app (ok answer))

Reachable-Sound_example : Sound connected_hook
Reachable-Sound_example =
    Reachable-Sound sample browser empty_storage connected_hook (no_connection refl refl refl)
      connected_hook-Reachable

abbrev signing : Call
signing = waiting_call (text "url")

abbrev submitting_call : Call
submitting_call = sign_answer sample browser app (ok answer) signing

Reachable-Phase_example : Signing.Phase submitting_call
Reachable-Phase_example =
    Signing.Reachable-Phase sample browser (text "url") submitting_call
      (Signing.next signing submitting_call Signing.start (Signing.answers app (ok answer) refl))

-- Runs every two seconds whose requests fail.
abbrev silent : ℕ → ℕ → List Run
silent zero k = []
silent (suc n) k = record { now = 2000 * k; reply = throws type_error } ∷ silent n (suc k)

silent-Paced : (n k : ℕ) → Paced 0 k (silent n k)
silent-Paced zero k = tt
silent-Paced (suc n) k = (omega arith, silent-Paced n (suc k))

length-silent : (n k : ℕ) → length (silent n k) ≡ n
length-silent zero k = refl
length-silent (suc n) k = ap suc (length-silent n (suc k))

poll_runs_settles_example :
    ((poll_runs sample browser app 0 (silent 151 1) signing).polling ≡ false)
    × (((settled : Settled) × ((poll_runs sample browser app 0 (silent 151 1) signing).promise
            ≡ some settled))
        ⊎ ((poll_runs sample browser app 0 (silent 151 1) signing).submitting ≡ true))
poll_runs_settles_example =
    poll_runs_settles sample browser app 0 (text "url") (silent 151 1) (silent-Paced 151 1)
      (omega (arith, length-silent 151 1))
