-- ===== src/LienPage/Handlers.antt =====
-- What `handleRegister` sends and when it calls the REST API.
use terra_ledger.Base.{
  ℕ, ◌-◌, ◌^◌, ◌%◌, ◌<◌, ◌≤◌, arith, Bool, true, false, ◌≡◌, refl, Outcome, ok, throws, Option,
  some, [], ◌∷◌, ◌++◌, length, take, length-append, length-replicate, length-take, Text,
}
use terra_ledger.Bytes.{Bytes, zeros, set}
use terra_ledger.Bytes.Writes.{set_next}
use terra_ledger.Platform.{Kit, Address}
use terra_ledger.Program.{Instruction, get_parcel_pda, get_encumbrance_pda, get_lien_index_pda}
use terra_ledger.Program.Wire.{read_lien_call, register_encumbrance}
use terra_ledger.Program.Args.Encumbrance.{read-build_register_encumbrance}
use terra_ledger.SignAndSend.{OnChainTxStatus}
use terra_ledger.LienPage.{
  Parsers, RegisterForm, notary_cert_hash, register_instruction, is_incomplete, send_and_post,
  checked_send, handle_register, Effects, rest_idle, submitting, posted_status, on_failure,
}

length-zeros : (n : ℕ) → length (zeros n) ≡ n
length-zeros n = length-replicate n 0

fill_hash :
    (src : Bytes)
    → length src ≤ 32
    → (hash : Bytes) × (set (zeros 32) 0 src ≡ ok hash) × (length hash ≡ 32)
fill_hash src short = (
  src ++ zeros (32 - length src),
  set_next [] src 32 (32 - length src) 0 (omega arith) refl,
  omega (arith, length-append src (zeros (32 - length src)), length-zeros (32 - length src)),
)

pub notary_cert_hash-total :
    (kit : Kit) (hash : Text)
    → (bytes : Bytes) × (notary_cert_hash kit hash ≡ ok bytes) × (length bytes ≡ 32)
unfolding notary_cert_hash
notary_cert_hash-total kit [] = (zeros 32, refl, refl)
notary_cert_hash-total kit (c ∷ hash) =
    fill_hash (take 32 (kit.utf8_encode (c ∷ hash)))
      (omega (arith, length-take 32 (kit.utf8_encode (c ∷ hash))))

pub register_instruction-read :
    (kit : Kit) (parsers : Parsers) (form : RegisterForm)
    (lender parcel_pda encumbrance_pda lien_index_pda : Address) (amount b0 b1 b2 : ℕ)
    → parsers.address form.wallet ≡ ok lender
    → parsers.big_int form.amount ≡ ok amount
    → get_parcel_pda kit form.cadastral ≡ ok (parcel_pda, b0)
    → get_encumbrance_pda kit parcel_pda lender ≡ ok (encumbrance_pda, b1)
    → get_lien_index_pda kit parcel_pda ≡ ok (lien_index_pda, b2)
    → length (kit.utf8_encode form.cadastral) < 2 ^ 32
    → (ix : Instruction) × (cert : Bytes) × (register_instruction kit parsers form ≡ ok ix)
      × (notary_cert_hash kit form.notary_hash ≡ ok cert)
      × (length cert ≡ 32)
      × (read_lien_call ix.data'
          ≡ some (
              register_encumbrance
                (kit.utf8_encode form.cadastral)
                (amount % 2 ^ 64)
                (zeros 32)
                cert))
unfolding register_instruction
register_instruction-read kit parsers form lender parcel_pda encumbrance_pda lien_index_pda amount
      b0 b1 b2 known number derived derived' indexed short =
    let (cert, hashed, size) = notary_cert_hash-total kit form.notary_hash in
    let (ix, built, read) =
      read-build_register_encumbrance kit lender parcel_pda encumbrance_pda lien_index_pda b1 b2
        derived' indexed form.cadastral amount (zeros 32) cert short refl size in
    (ix, cert, rw (known, derived, hashed, number) built, hashed, size, read)

-- What a handler does that sends `ix`: with a signature it posts, without it it does not.
abbrev pub Sends :
    {L : Type 0} → Instruction → OnChainTxStatus → Outcome Text → Option L → Effects → Type 0
Sends ix stale (ok signature) lien effects =
    (effects.sends ≡ some ix)
    × (effects.posts ≡ true)
    × (effects.statuses ≡ (rest_idle ∷ submitting ∷ posted_status lien ∷ []))
Sends ix stale (throws x) lien effects =
    (effects.sends ≡ some ix)
    × (effects.posts ≡ false)
    × (effects.statuses ≡ (rest_idle ∷ on_failure stale))

send_and_post-Sends :
    {L : Type 0} (stale : OnChainTxStatus) (ix : Instruction) (reply : Outcome Text)
    (lien : Option L)
    → Sends ix stale reply lien (send_and_post stale (ok ix) reply lien)
unfolding send_and_post
send_and_post-Sends stale ix (throws x) lien = (refl, refl, refl)
send_and_post-Sends stale ix (ok signature) lien = (refl, refl, refl)

-- Where the cadastral number, the amount and the wallet are filled in and a wallet is connected, the
-- wallet is an address and the amount a number, the three addresses derive and the UTF-8 of the
-- cadastral number is shorter than 2 ^ 32 bytes, `handleRegister` sends one instruction, whatever the
-- notary's text and the state it reads; lien_registry reads its data as `register_encumbrance` with the
-- cadastral number, the amount modulo 2 ^ 64, a signature hash of zeros and a certificate hash of 32
-- bytes. Where `signAndSend` returns a signature, it calls the REST API and shows success or an error
-- by whether a lien comes back; where `signAndSend` throws, it does not call it.
pub handle_register-read :
    {L : Type 0} (kit : Kit) (parsers : Parsers) (form : RegisterForm)
    (lender parcel_pda encumbrance_pda lien_index_pda : Address) (amount b0 b1 b2 : ℕ)
    (stale : OnChainTxStatus) (reply : Outcome Text) (lien : Option L)
    → is_incomplete form ≡ false
    → parsers.address form.wallet ≡ ok lender
    → parsers.big_int form.amount ≡ ok amount
    → get_parcel_pda kit form.cadastral ≡ ok (parcel_pda, b0)
    → get_encumbrance_pda kit parcel_pda lender ≡ ok (encumbrance_pda, b1)
    → get_lien_index_pda kit parcel_pda ≡ ok (lien_index_pda, b2)
    → length (kit.utf8_encode form.cadastral) < 2 ^ 32
    → (ix : Instruction) × (cert : Bytes) × Sends ix stale reply lien
        (handle_register kit parsers form true stale reply lien)
      × (notary_cert_hash kit form.notary_hash ≡ ok cert)
      × (length cert ≡ 32)
      × (read_lien_call ix.data'
          ≡ some (
              register_encumbrance
                (kit.utf8_encode form.cadastral)
                (amount % 2 ^ 64)
                (zeros 32)
                cert))
unfolding handle_register checked_send
handle_register-read kit parsers form lender parcel_pda encumbrance_pda lien_index_pda amount b0 b1
      b2 stale reply lien filled known number derived derived' indexed short =
    let (ix, cert, built, hashed, size, read) =
      register_instruction-read kit parsers form lender parcel_pda encumbrance_pda lien_index_pda
        amount b0 b1 b2 known number derived derived' indexed short in
    (ix, cert, rw (filled, built) (send_and_post-Sends stale ix reply lien), hashed, size, read)

send_and_post-posts :
    {L : Type 0} (stale : OnChainTxStatus) (built : Outcome Instruction) (reply : Outcome Text)
    (lien : Option L)
    → (send_and_post stale built reply lien).posts ≡ true
    → (ix : Instruction) × (signature : Text) × (built ≡ ok ix)
      × (reply ≡ ok signature)
      × ((send_and_post stale built reply lien).sends ≡ some ix)
unfolding send_and_post
send_and_post-posts stale (throws x) reply lien posts = cc
send_and_post-posts stale (ok ix) (throws x) lien posts = cc
send_and_post-posts stale (ok ix) (ok signature) lien posts = (ix, signature, refl, refl, refl)

checked_send-posts :
    {L : Type 0} (incomplete wallet_connected : Bool) (stale : OnChainTxStatus)
    (built : Outcome Instruction) (reply : Outcome Text) (lien : Option L)
    → (checked_send incomplete wallet_connected stale built reply lien).posts ≡ true
    → (ix : Instruction) × (signature : Text) × (built ≡ ok ix)
      × (reply ≡ ok signature)
      × ((checked_send incomplete wallet_connected stale built reply lien).sends ≡ some ix)
unfolding checked_send
checked_send-posts true wallet_connected stale built reply lien posts = cc
checked_send-posts false false stale built reply lien posts = cc
checked_send-posts false true stale built reply lien posts =
    send_and_post-posts stale built reply lien posts

-- `handleRegister` calls the REST API only where it built an instruction, sent it, and `signAndSend`
-- returned a signature.
pub handle_register-posts :
    {L : Type 0} (kit : Kit) (parsers : Parsers) (form : RegisterForm) (wallet_connected : Bool)
    (stale : OnChainTxStatus) (reply : Outcome Text) (lien : Option L)
    → (handle_register kit parsers form wallet_connected stale reply lien).posts ≡ true
    → (ix : Instruction) × (signature : Text) × (register_instruction kit parsers form ≡ ok ix)
      × (reply ≡ ok signature)
      × ((handle_register kit parsers form wallet_connected stale reply lien).sends ≡ some ix)
unfolding handle_register
handle_register-posts kit parsers form wallet_connected stale reply lien posts =
    checked_send-posts (is_incomplete form) wallet_connected stale
      (register_instruction kit parsers form) reply lien posts
