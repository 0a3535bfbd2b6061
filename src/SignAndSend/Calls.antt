-- ===== src/SignAndSend/Calls.antt =====
-- One call of `signAndSend`.
use terra_ledger.Base.{List, ◌≡◌, refl, Option, none, some}
use terra_ledger.Platform.{Address}
use terra_ledger.Program.{Instruction}
use terra_ledger.SignAndSend.{
  Hook, done, error, Reply, fulfilled, rejected, Settled, returns, throws, begin, settle, apply,
  apply_all, sign_and_send,
}

-- The state shows what the call settled to: its signature and no error, or the message of the error
-- with the signature that was there before.
abbrev pub Shows : Settled → Hook → Hook → Type 0
Shows (returns sig) before after =
    (after.tx_status ≡ done) × (after.tx_signature ≡ some sig) × (after.tx_error ≡ none)
Shows (throws message) before after =
    (after.tx_status ≡ error)
    × (after.tx_error ≡ some message)
    × (after.tx_signature ≡ before.tx_signature)

settle-Shows :
    (reply : Reply) (before hook : Hook)
    → hook.tx_error ≡ none
    → hook.tx_signature ≡ before.tx_signature
    → Shows (settle reply).1 before (apply_all (settle reply).0 hook)
unfolding settle apply_all apply
settle-Shows (fulfilled sig) before hook clear same = (refl, refl, clear)
settle-Shows (rejected err) before hook clear same = (refl, refl, same)

-- Whatever the wallet, the reply of `send` and the earlier state, the state after an uninterrupted
-- call is `done` with the returned signature and no error, or `error` with the message of the error
-- that was thrown and the earlier signature.
pub sign_and_send-Shows :
    (send : List Instruction → Address → Reply) (wallet : Option Address)
    (instructions : List Instruction) (hook : Hook)
    → Shows
        (sign_and_send send wallet instructions hook).1
        hook
        (sign_and_send send wallet instructions hook).0
unfolding sign_and_send begin apply_all apply
sign_and_send-Shows send none instructions hook = (refl, refl, refl)
sign_and_send-Shows send (some fee_payer) instructions hook =
    settle-Shows (send instructions fee_payer) hook _ refl refl
