-- ===== src/Deeplink/Polling.antt =====
-- The interval of `signAndSendTransaction`, run by run: it stops, whatever the relay answers.
use mathlib.Core.Path.{subst}
use terra_ledger.Base.{
  ℕ, suc, ◌+◌, ◌-◌, ◌*◌, ◌≤◌, ◌<◌, arith, true, false, Bool-cases, Option-cases, ltb, if◌then◌else◌,
  ◌≡◌, refl, sym, ap,
}
use terra_ledger.Base.{Outcome, List, [], ◌∷◌, length, some, Text, ◌⊎◌, inl, inr}
use terra_ledger.Platform.{Kit}
use terra_ledger.Deeplink.{Browser, DappKeyPair}
use terra_ledger.Deeplink.Connect.{PollResponse, max_poll_time}
use terra_ledger.Deeplink.Sign.{
  Call, Settled, resolved, rejected, waiting_call, stop_sign_polling, settle, sign_tick,
  sign_answer,
}
use terra_ledger.Deeplink.Signing.{
  Phase, polls, sends, unsent, refused, sent, ticks, answers, Reachable, start, next,
  Reachable-Phase,
}

-- A run of the interval: when, and what its request is answered, before the next run.
pub record Run : Type 0 where
  pub now : ℕ
  pub reply : Outcome PollResponse

-- `setInterval(callback, 2000)`: the k-th run is at least 2000 * k after the start.
abbrev pub Paced : ℕ → ℕ → List Run → Type 0
Paced since k [] = Unit
Paced since k (run ∷ runs) = (since + 2000 * k ≤ run.now) × Paced since (suc k) runs

ltb-true : (a b : ℕ) → a < b → ltb a b ≡ true
ltb-true a b h = ground arith

le_cases : (a b : ℕ) → (a ≤ b) ⊎ (b < a)
le_cases a b = omega arith

settle-polling : (settled : Settled) (call : Call) → (settle settled call).polling ≡ call.polling
unfolding settle
settle-polling settled call = elim (Option-cases call.promise) [
  | inl open' ↦ rw (open', settle) refl
  | inr (earlier, e) ↦ rw (e, settle) refl
]

-- A call that no longer polls has settled or submits.
Phase_settles :
    (call : Call)
    → call.polling ≡ false
    → Phase call
    → ((settled : Settled) × (call.promise ≡ some settled)) ⊎ (call.submitting ≡ true)
Phase_settles call stopped (polls p q s t) = cc
Phase_settles call stopped (sends transaction p q s t) = inr t
Phase_settles call stopped (unsent message p q s t) = inl (rejected message, q)
Phase_settles call stopped (refused transaction message p q s t) = inl (rejected message, q)
Phase_settles call stopped (sent transaction signature p q s t u) = inl (resolved signature, q)

module _ (kit : Kit) (browser : Browser) (key_pair : DappKeyPair) (since : ℕ) where
  -- One run: the check of the time, and the request where it is made.
  unfoldable pub run_once : Run → Call → Call
  unfolding sign_tick sign_answer
  run_once run call =
      let ticked = sign_tick since run.now call in
      if ticked.1 then sign_answer kit browser key_pair run.reply ticked.0 else ticked.0

  -- The runs, until the interval is cleared.
  unfoldable pub poll_runs : List Run → Call → Call
  unfolding run_once
  poll_runs [] call = call
  poll_runs (run ∷ runs) call =
      let rest = poll_runs runs (run_once run call) in if call.polling then rest else call

  run_once_late :
      (run : Run) (call : Call)
      → max_poll_time < run.now - since
      → (run_once run call).polling ≡ false
  unfolding run_once sign_tick stop_sign_polling
  run_once_late run call late =
      rw (ltb-true max_poll_time (run.now - since) late) (settle-polling _ _)

  poll_runs_stopped :
      (runs : List Run) (call : Call) → call.polling ≡ false → (poll_runs runs call).polling ≡ false
  unfolding poll_runs
  poll_runs_stopped [] call h = h
  poll_runs_stopped (run ∷ runs) call h = rw (h, poll_runs) refl

  poll_runs_live :
      (run : Run) (runs : List Run) (call : Call)
      → call.polling ≡ true
      → poll_runs (run ∷ runs) call ≡ poll_runs runs (run_once run call)
  unfolding poll_runs
  poll_runs_live run runs call live =
      ap (λ b. if b then poll_runs runs (run_once run call) else call) live

  poll_runs_stops :
      (runs : List Run) (k : ℕ) (call : Call)
      → Paced since k runs
      → 151 < k + length runs
      → k ≤ 151
      → (poll_runs runs call).polling ≡ false
  poll_runs_stops [] k call paced many few = absurd (omega arith)
  poll_runs_stops (run ∷ runs) k call (here, paced) many few = elim (Bool-cases call.polling) [
    | inr stopped ↦ poll_runs_stopped (run ∷ runs) call stopped
    | inl live ↦ rw (poll_runs_live run runs call live) (elim (le_cases k 150) [
      | inl early ↦
          poll_runs_stops runs (suc k) (run_once run call) paced (omega arith)
            (omega (arith, early))
      | inr late ↦
          poll_runs_stopped runs (run_once run call)
            (run_once_late run call (omega (arith, here, late)))
    ])
  ]

  run_once-eq-tick :
      (run : Run) (call : Call)
      → ltb max_poll_time (run.now - since) ≡ true
      → (sign_tick since run.now call).0 ≡ run_once run call
  unfolding run_once sign_tick
  run_once-eq-tick run call late = rw late refl

  run_once-eq-answer :
      (run : Run) (call : Call)
      → ltb max_poll_time (run.now - since) ≡ false
      → sign_answer kit browser key_pair run.reply call ≡ run_once run call
  unfolding run_once sign_tick
  run_once-eq-answer run call early = rw early refl

  run_once-Reachable :
      (url : Text) (run : Run) (call : Call)
      → call.polling ≡ true
      → Reachable kit browser url call
      → Reachable kit browser url (run_once run call)
  run_once-Reachable url run call live r = elim (Bool-cases (ltb max_poll_time (run.now - since))) [
    | inl late ↦
        subst (Reachable kit browser url) (run_once-eq-tick run call late)
          (next call _ r (ticks since run.now live))
    | inr early ↦
        subst (Reachable kit browser url) (run_once-eq-answer run call early)
          (next call _ r (answers key_pair run.reply live))
  ]

  poll_runs-Reachable :
      (url : Text) (runs : List Run) (call : Call)
      → Reachable kit browser url call
      → Reachable kit browser url (poll_runs runs call)
  unfolding poll_runs
  poll_runs-Reachable url [] call r = r
  poll_runs-Reachable url (run ∷ runs) call r = elim (Bool-cases call.polling) [
    | inl live ↦
        subst (Reachable kit browser url) (sym (poll_runs_live run runs call live)) (
          poll_runs-Reachable url runs (run_once run call) (run_once-Reachable url run call live r))
    | inr stopped ↦
        subst (Reachable kit browser url)
          (ap (λ b. if b then poll_runs runs (run_once run call) else call) (sym stopped)) r
  ]

  -- Where the k-th run of the interval comes 2000 * k milliseconds after the start or later, and each
  -- request is answered before the next run, the 151 first runs end the polling whatever the relay
  -- answers: the promise has settled, or one transaction is submitted and its end will settle it.
  pub poll_runs_settles :
      (url : Text) (runs : List Run)
      → Paced since 1 runs
      → 151 ≤ length runs
      → ((poll_runs runs (waiting_call url)).polling ≡ false)
        × (((settled : Settled) × ((poll_runs runs (waiting_call url)).promise ≡ some settled))
            ⊎ ((poll_runs runs (waiting_call url)).submitting ≡ true))
  poll_runs_settles url runs paced many =
      let stopped = poll_runs_stops runs 1 (waiting_call url) paced (omega arith) (omega arith) in
      (
        stopped,
        Phase_settles (poll_runs runs (waiting_call url)) stopped (
            Reachable-Phase kit browser url _
              (poll_runs-Reachable url runs (waiting_call url) start)),
      )
