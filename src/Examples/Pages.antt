-- ===== src/Examples/Pages.antt =====
-- The credit score of the parcel KZ1, which is there at the second request, and two toasts.
use terra_ledger.Base.{ℕ, zero, suc, ◌≡◌, Option, none, some, text, []}
use terra_ledger.Api.{Client}
use terra_ledger.Pages.Toasts.{
  Provider, no_toasts, toast, dismiss, expire_all, info_toast, error_toast, Reachable, start, next,
  raises, dismisses,
}
use terra_ledger.Pages.Expiry.{Distinct, Reachable-expires}
use terra_ledger.Pages.CreditScore.{run_effects, no_profile}
use terra_ledger.Pages.Retries.{Rests, run_effects-Rests}
use terra_ledger.Examples.Samples.{kz1}
use terra_ledger.Examples.Clients.{silent, as_it_is, serves}

-- A profile is its score, where it has one.
abbrev its_score : Option ℕ → Option ℕ
its_score p = p

abbrev computing : ℕ → Client (Option ℕ)
computing zero = serves none
computing (suc n) = serves (some 71)

run_effects-Rests_example :
    let r = run_effects its_score silent as_it_is computing kz1 4 0 no_profile in
    Rests its_score silent as_it_is computing kz1 r.0 r.1
run_effects-Rests_example = run_effects-Rests its_score silent as_it_is computing kz1

-- Two toasts are raised and the first is dismissed.
abbrev two_raised : Provider
two_raised = toast (text "b") info_toast (toast (text "a") error_toast no_toasts)

abbrev one_left : Provider
one_left = dismiss 0 two_raised

one_left-Reachable : Reachable one_left
one_left-Reachable =
    next two_raised one_left
      (next _ two_raised (next no_toasts _ start (raises (text "a") error_toast))
        (raises (text "b") info_toast))
      (dismisses 0)

Reachable-expires_example :
    Distinct one_left.toasts × ((expire_all one_left.timers one_left).toasts ≡ [])
Reachable-expires_example = Reachable-expires one_left one_left-Reachable
