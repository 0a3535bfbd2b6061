-- ===== src/Deeplink/Signing.antt =====
-- A call of `signAndSendTransaction` where no request of its interval outlives it.
use terra_ledger.Base.{
  ℕ, ◌-◌, true, false, Bool-cases, ltb, ◌≡◌, refl, ap, Outcome, ok, throws, Outcome-cases,
}
use terra_ledger.Base.{Option, none, some, Option-cases, [], ◌∷◌, ◌++◌, Text, inl, inr}
use terra_ledger.Platform.{Kit}
use terra_ledger.Deeplink.{Browser, DappKeyPair, decrypt_sign_response}
use terra_ledger.Deeplink.Connect.{
  PollResponse, PollStatus, status_pending, status_connected, status_error, status_expired,
  max_poll_time, sealed_fields,
}
use terra_ledger.Deeplink.Sign.{
  Call, Settled, resolved, rejected, sign_done, sign_error, settle, stop_sign_polling, fail_sign,
  waiting_call, sign_tick, accept_signed, sign_answer, submit_end, submit_message,
}

-- Where a call is: it polls; it has submitted one transaction and waits; it failed without one, or
-- with one; it is done.
pub data Phase (call : Call) : Type 0 where
  polls :
      call.polling ≡ true
      → call.promise ≡ none
      → call.submitted ≡ []
      → call.submitting ≡ false
      → Phase call
  sends :
      (transaction : Option Text)
      → call.polling ≡ false
      → call.promise ≡ none
      → call.submitted ≡ transaction ∷ []
      → call.submitting ≡ true
      → Phase call
  unsent :
      (message : Text)
      → call.polling ≡ false
      → call.promise ≡ some (rejected message)
      → call.submitted ≡ []
      → call.submitting ≡ false
      → Phase call
  refused :
      (transaction : Option Text) (message : Text)
      → call.polling ≡ false
      → call.promise ≡ some (rejected message)
      → call.submitted ≡ transaction ∷ []
      → call.submitting ≡ false
      → Phase call
  sent :
      (transaction : Option Text) (signature : Text)
      → call.polling ≡ false
      → call.promise ≡ some (resolved signature)
      → call.submitted ≡ transaction ∷ []
      → call.submitting ≡ false
      → call.sign_status ≡ sign_done
      → Phase call

-- Runs and answers come while the interval lives, so that no request outlives it.
pub data Step (kit : Kit) (browser : Browser) (call : Call) : Call → Type 0 where
  ticks : (since now : ℕ) → call.polling ≡ true → Step kit browser call (sign_tick since now call).0
  answers :
      (key_pair : DappKeyPair) (reply : Outcome PollResponse)
      → call.polling ≡ true
      → Step kit browser call (sign_answer kit browser key_pair reply call)
  ends :
      (reply : Outcome Text)
      → call.submitting ≡ true
      → Step kit browser call (submit_end kit browser reply call)

pub data Reachable (kit : Kit) (browser : Browser) (url : Text) : Call → Type 0 where
  start : Reachable kit browser url (waiting_call url)
  next :
      (a b : Call)
      → Reachable kit browser url a
      → Step kit browser a b
      → Reachable kit browser url b

pub settle-none :
    (settled : Settled) (call : Call)
    → call.promise ≡ none
    → settle settled call ≡ record call { promise = some settled }
unfolding settle
settle-none settled call e = rw (e, settle) refl

-- A call that polls, without its interval.
abbrev Ready : Call → Type 0
Ready call =
    (call.polling ≡ false)
    × (call.promise ≡ none)
    × (call.submitted ≡ [])
    × (call.submitting ≡ false)

fail_sign-Phase : (message : Text) (call : Call) → Ready call → Phase (fail_sign message call)
fail_sign-Phase message call (p, q, s, t) =
    rw (settle-none (rejected message) (record call { sign_status = sign_error }) q)
      (unsent message p refl s t)

accept_signed-Phase :
    (kit : Kit) (browser : Browser) (key_pair : DappKeyPair) (resp : PollResponse) (call : Call)
    → Ready call
    → Phase (accept_signed kit browser key_pair resp call)
unfolding accept_signed
accept_signed-Phase kit browser key_pair resp call ready =
    elim (Option-cases (sealed_fields resp)) [
      | inl missing ↦ rw (missing, accept_signed) (fail_sign-Phase _ call ready)
      | inr ((key, nonce, sealed), e) ↦
          elim (Outcome-cases (decrypt_sign_response kit browser key nonce sealed key_pair)) [
            | inl (transaction, opened) ↦
                rw (e, accept_signed, opened)
                  (sends transaction ready.0 ready.1 (ap (λ s. s ++ (transaction ∷ [])) ready.2)
                    refl)
            | inr (x, thrown) ↦ rw (e, accept_signed, thrown) (fail_sign-Phase _ call ready)
          ]
    ]

-- the hook as an answer other than pending first leaves it
abbrev pub quiet : Call → Call
quiet call = record call { polling = false; sign_qr_url = none }

answer-Phase :
    (kit : Kit) (browser : Browser) (key_pair : DappKeyPair) (resp : PollResponse) (call : Call)
    → call.polling ≡ true
    → Ready (quiet call)
    → (s : PollStatus) → resp.status ≡ s
    → Phase (sign_answer kit browser key_pair (ok resp) call)
unfolding sign_answer stop_sign_polling
answer-Phase kit browser key_pair resp call live (p, q, s, t) status_pending e =
    rw (e, sign_answer) (polls live q s t)
answer-Phase kit browser key_pair resp call live ready status_connected e =
    rw (e, sign_answer) (accept_signed-Phase kit browser key_pair resp (quiet call) ready)
answer-Phase kit browser key_pair resp call live ready status_error e =
    rw (e, sign_answer) (fail_sign-Phase _ (quiet call) ready)
answer-Phase kit browser key_pair resp call live ready status_expired e =
    rw (e, sign_answer) (accept_signed-Phase kit browser key_pair resp (quiet call) ready)

tick-Phase :
    (since now : ℕ) (call : Call)
    → call.polling ≡ true
    → Ready (quiet call)
    → Phase (sign_tick since now call).0
unfolding sign_tick stop_sign_polling
tick-Phase since now call live (p, q, s, t) = elim (Bool-cases (ltb max_poll_time (now - since))) [
  | inl late ↦
      rw (late, settle-none (rejected _) (record (quiet call) { sign_status = sign_error }) q)
        (unsent _ refl refl s t)
  | inr early ↦ rw early (polls live q s t)
]

Phase-Ready : (call : Call) → call.polling ≡ true → Phase call → Ready (quiet call)
Phase-Ready call live (polls p q s t) = (refl, q, s, t)
Phase-Ready call live (sends transaction p q s t) = cc
Phase-Ready call live (unsent message p q s t) = cc
Phase-Ready call live (refused transaction message p q s t) = cc
Phase-Ready call live (sent transaction signature p q s t u) = cc

submit_end-Phase :
    (kit : Kit) (browser : Browser) (reply : Outcome Text) (call : Call) (transaction : Option Text)
    → call.polling ≡ false
    → call.promise ≡ none
    → call.submitted ≡ transaction ∷ []
    → Phase (submit_end kit browser reply call)
unfolding submit_end
submit_end-Phase kit browser (ok signature) call transaction p q s =
    rw
      (settle-none (resolved signature)
        (record call { sign_status = sign_done; submitting = false }) q)
      (sent transaction signature p refl s refl refl)
submit_end-Phase kit browser (throws x) call transaction p q s =
    rw
      (settle-none (rejected (submit_message kit browser x))
        (record call { sign_status = sign_error; submitting = false }) q)
      (refused transaction _ p refl s refl)

end-Phase :
    (kit : Kit) (browser : Browser) (reply : Outcome Text) (call : Call)
    → call.submitting ≡ true
    → Phase call
    → Phase (submit_end kit browser reply call)
end-Phase kit browser reply call busy (sends transaction p q s t) =
    submit_end-Phase kit browser reply call transaction p q s
end-Phase kit browser reply call busy (polls p q s t) = cc
end-Phase kit browser reply call busy (unsent message p q s t) = cc
end-Phase kit browser reply call busy (refused transaction message p q s t) = cc
end-Phase kit browser reply call busy (sent transaction signature p q s t u) = cc

Step-Phase : (kit : Kit) (browser : Browser) (a b : Call) → Step kit browser a b → Phase a → Phase b
unfolding sign_answer
Step-Phase kit browser a _ (ticks since now live) v =
    tick-Phase since now a live (Phase-Ready a live v)
Step-Phase kit browser a _ (answers key_pair (throws x) live) v = v
Step-Phase kit browser a _ (answers key_pair (ok resp) live) v =
    answer-Phase kit browser key_pair resp a live (Phase-Ready a live v) resp.status refl
Step-Phase kit browser a _ (ends reply busy) v = end-Phase kit browser reply a busy v

-- After any runs of the interval, answers and the end of a submission, where no request of a run
-- outlives the interval: the call polls, with the promise open and nothing submitted; or it has
-- submitted one transaction and waits, the promise open; or the promise is rejected, with at most one
-- transaction submitted; or it is resolved with one transaction submitted, and the status says so.
pub Reachable-Phase :
    (kit : Kit) (browser : Browser) (url : Text) (call : Call)
    → Reachable kit browser url call
    → Phase call
Reachable-Phase kit browser url _ start = polls refl refl refl refl
Reachable-Phase kit browser url call (next a _ r step) =
    Step-Phase kit browser a call step (Reachable-Phase kit browser url a r)
