-- ===== src/Pages/Expiry.antt =====
-- The ids and timers of the toasts of web/src/components/Toast/Toast.tsx.
use terra_ledger.Base.{
  ℕ, ◌<◌, ◌≢◌, ◌==◌, arith, Bool, true, false, ◌||◌, ◌≡◌, refl, inl, inr, List, [], ◌∷◌, ◌++◌, Text,
  All, All-append, Bool-cases,
}
use terra_ledger.Pages.Toasts.{
  Toast, ToastType, Provider, no_toasts, without, toast, dismiss, stopped, expire, expire_all, has,
  Step, raises, dismisses, expires, Reachable, start, next,
}

abbrev pub Distinct : List Toast → Type 0
Distinct [] = Unit
Distinct (t ∷ toasts) = All (λ (u : Toast). t.id ≢ u.id) toasts × Distinct toasts

abbrev Timed : List ℕ → List Toast → Type 0
Timed timers toasts = All (λ (t : Toast). has t.id timers ≡ true) toasts

-- The toasts have ids of their own, below the next one, and each has a timer that will remove it.
pub record Tidy (p : Provider) : Type 0 where
  pub below : All (λ (t : Toast). t.id < p.next_id) p.toasts
  pub distinct : Distinct p.toasts
  pub timed : Timed p.timers p.toasts

module _ {P Q : Toast → Type 0} where
  All-weaken : ((t : Toast) → P t → Q t) → (toasts : List Toast) → All P toasts → All Q toasts
  All-weaken f [] h = tt
  All-weaken f (t ∷ toasts) (p, h) = (f t p, All-weaken f toasts h)

-- What holds of the toasts and of an id other than the one removed, holds of those left.
All-without :
    {P Q : Toast → Type 0} (id : ℕ) (toasts : List Toast)
    → ((t : Toast) → P t → t.id ≢ id → Q t)
    → All P toasts
    → All Q (without id toasts)
unfolding without
All-without id [] f h = tt
All-without id (t ∷ toasts) f (p, h) = elim (Bool-cases (t.id == id)) [
  | inl same ↦ rw same (All-without id toasts f h)
  | inr other ↦ rw other (f t p (λ e. ground arith), All-without id toasts f h)
]

without-Distinct : (id : ℕ) (toasts : List Toast) → Distinct toasts → Distinct (without id toasts)
unfolding without
without-Distinct id [] h = tt
without-Distinct id (t ∷ toasts) (d, h) = elim (Bool-cases (t.id == id)) [
  | inl same ↦ rw same (without-Distinct id toasts h)
  | inr other ↦ rw other (All-without id toasts (λ u p o. p) d, without-Distinct id toasts h)
]

append-Distinct :
    (toasts : List Toast) (t : Toast)
    → All (λ (u : Toast). u.id < t.id) toasts
    → Distinct toasts
    → Distinct (toasts ++ (t ∷ []))
append-Distinct [] t b h = (tt, tt)
append-Distinct (u ∷ toasts) t (lt, b) (d, h) =
    (All-append _ toasts (t ∷ []) d ((λ e. omega arith), tt), append-Distinct toasts t b h)

or_last : (a b : Bool) → b ≡ true → (a || b) ≡ true
or_last true b h = refl
or_last false b h = h

or_rest : (a b : Bool) → a ≡ false → (a || b) ≡ true → b ≡ true
or_rest a b off h = cc

has-append :
    (id : ℕ) (timers : List ℕ) (k : ℕ) → has id timers ≡ true → has id (timers ++ (k ∷ [])) ≡ true
has-append id (j ∷ timers) k h = elim (Bool-cases (j == id)) [
  | inl same ↦ rw same refl
  | inr other ↦
      or_last (j == id) _ (has-append id timers k (or_rest (j == id) (has id timers) other h))
]
has-append id [] k h = cc

has-last : (timers : List ℕ) (k : ℕ) → has k (timers ++ (k ∷ [])) ≡ true
has-last [] k = ground arith
has-last (j ∷ timers) k = or_last (j == k) _ (has-last timers k)

has-stopped :
    (k id : ℕ) (timers : List ℕ) → k ≢ id → has k timers ≡ true → has k (stopped id timers) ≡ true
unfolding stopped
has-stopped k id [] ne h = h
has-stopped k id (j ∷ timers) ne h = elim (Bool-cases (j == id)) [
  | inl same ↦
      let other : (j == k) ≡ false = ground arith in
      rw same (or_rest (j == k) (has k timers) other h)
  | inr other ↦ rw other (elim (Bool-cases (j == k)) [
    | inl found ↦ rw found refl
    | inr more ↦
        or_last (j == k) _ (has-stopped k id timers ne (or_rest (j == k) (has k timers) more h))
  ])
]

no_toasts-Tidy : Tidy no_toasts
no_toasts-Tidy = record { below = tt; distinct = tt; timed = tt }

toast-Tidy :
    (message : Text) (type' : ToastType) (p : Provider) → Tidy p → Tidy (toast message type' p)
unfolding toast
toast-Tidy message type' p v = record {
  below =
      All-append _ p.toasts _ (All-weaken (λ t h. omega arith) p.toasts v.below) (omega arith, tt);
  distinct = append-Distinct p.toasts _ v.below v.distinct;
  timed =
      All-append _ p.toasts _
        (All-weaken (λ t h. has-append t.id p.timers p.next_id h) p.toasts v.timed)
        (has-last p.timers p.next_id, tt);
}

dismiss-Tidy : (id : ℕ) (p : Provider) → Tidy p → Tidy (dismiss id p)
unfolding dismiss
dismiss-Tidy id p v = record {
  below = All-without id p.toasts (λ t h o. h) v.below;
  distinct = without-Distinct id p.toasts v.distinct;
  timed = All-without id p.toasts (λ t h o. h) v.timed;
}

expire-Tidy : (id : ℕ) (p : Provider) → Tidy p → Tidy (expire id p)
unfolding expire
expire-Tidy id p v = record {
  below = All-without id p.toasts (λ t h o. h) v.below;
  distinct = without-Distinct id p.toasts v.distinct;
  timed = All-without id p.toasts (λ t h o. has-stopped t.id id p.timers o h) v.timed;
}

Step-Tidy : (a b : Provider) → Step a b → Tidy a → Tidy b
Step-Tidy a _ (raises message type') v = toast-Tidy message type' a v
Step-Tidy a _ (dismisses id) v = dismiss-Tidy id a v
Step-Tidy a _ (expires id h) v = expire-Tidy id a v

Reachable-Tidy : (p : Provider) → Reachable p → Tidy p
Reachable-Tidy _ start = no_toasts-Tidy
Reachable-Tidy p (next a _ r step) = Step-Tidy a p step (Reachable-Tidy a r)

untimed : (toasts : List Toast) → Timed [] toasts → toasts ≡ []
untimed [] h = refl
untimed (t ∷ toasts) (absent, h) = cc

expire_all-empty :
    (timers : List ℕ) (p : Provider) → Timed timers p.toasts → (expire_all timers p).toasts ≡ []
unfolding expire_all expire
expire_all-empty [] p h = untimed p.toasts h
expire_all-empty (k ∷ timers) p h =
    expire_all-empty timers (expire k p)
      (All-without k p.toasts (λ t h o. or_rest (k == t.id) _ (ground arith) h) h)

-- After any calls of `toast`, clicks and timeouts, the toasts shown have ids of their own, so that a
-- click or a timeout removes one of them, and when the timers that are set have run, none is shown.
pub Reachable-expires :
    (p : Provider) → Reachable p → Distinct p.toasts × ((expire_all p.timers p).toasts ≡ [])
Reachable-expires p r =
    let v = Reachable-Tidy p r in (v.distinct, expire_all-empty p.timers p v.timed)
