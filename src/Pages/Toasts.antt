-- ===== src/Pages/Toasts.antt =====
-- web/src/components/Toast/Toast.tsx: `ToastProvider` with the timers that it has started.
use terra_ledger.Base.{
  ℕ, suc, ◌==◌, Bool, true, false, ◌||◌, if◌then◌else◌, ◌≡◌, List, [], ◌∷◌, ◌++◌, Text,
}

pub data ToastType : Type 0 where
  error_toast success_toast info_toast : ToastType

pub record Toast : Type 0 where
  pub id : ℕ
  pub message : Text
  pub type' : ToastType

-- `nextId`, the toasts, and the ids whose timeout has not run
pub record Provider : Type 0 where
  pub next_id : ℕ
  pub toasts : List Toast
  pub timers : List ℕ

abbrev pub no_toasts : Provider
no_toasts = record { next_id = 0; toasts = []; timers = [] }

-- `toasts.filter(t => t.id !== id)`
unfoldable pub without : ℕ → List Toast → List Toast
without id [] = []
without id (t ∷ toasts) = let rest = without id toasts in if t.id == id then rest else t ∷ rest

unfoldable pub toast : Text → ToastType → Provider → Provider
toast message type' p = record {
  next_id = suc p.next_id;
  toasts = p.toasts ++ (record { id = p.next_id; message = message; type' = type' } ∷ []);
  timers = p.timers ++ (p.next_id ∷ []);
}

unfoldable pub dismiss : ℕ → Provider → Provider
dismiss id p = record p { toasts = without id p.toasts }

-- a list of timers without one of an id
unfoldable pub stopped : ℕ → List ℕ → List ℕ
stopped id [] = []
stopped id (k ∷ timers) = let rest = stopped id timers in if k == id then timers else k ∷ rest

-- The timeout of a toast runs.
unfoldable pub expire : ℕ → Provider → Provider
expire id p = record p { toasts = without id p.toasts; timers = stopped id p.timers }

unfoldable pub expire_all : List ℕ → Provider → Provider
expire_all [] p = p
expire_all (id ∷ ids) p = expire_all ids (expire id p)

abbrev pub has : ℕ → List ℕ → Bool
has id [] = false
has id (k ∷ timers) = k == id || has id timers

-- Any calls of `toast` and clicks on a toast, and the timeouts in any order.
pub data Step (p : Provider) : Provider → Type 0 where
  raises : (message : Text) (type' : ToastType) → Step p (toast message type' p)
  dismisses : (id : ℕ) → Step p (dismiss id p)
  expires : (id : ℕ) → has id p.timers ≡ true → Step p (expire id p)

pub data Reachable : Provider → Type 0 where
  start : Reachable no_toasts
  next : (a b : Provider) → Reachable a → Step a b → Reachable b
