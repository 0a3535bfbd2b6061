-- ===== src/SignAndSend/Interleaved.antt =====
-- Any number of calls of `signAndSend` and `reset`, in any order: while one call waits for `send`,
-- others may begin and settle.
use terra_ledger.Base.{ℕ, suc, arith, ◌≡◌, ◌≢◌, none, some}
use terra_ledger.Platform.{Address}
use terra_ledger.SignAndSend.{
  Hook, OnChainTxStatus, idle, done, error, Reply, fulfilled, rejected, begin, settle, apply,
  apply_all, reset, initial,
}

-- The state, and how many calls wait for `send`.
pub record Config : Type 0 where
  pub hook : Hook
  pub pending : ℕ

pub data Step (c : Config) : Config → Type 0 where
  refuses : Step c (record c { hook = apply_all (begin none).0 c.hook })
  begins :
      (fee_payer : Address)
      → Step c
          (record { hook = apply_all (begin (some fee_payer)).0 c.hook; pending = suc c.pending })
  settles :
      (n : ℕ) (reply : Reply)
      → c.pending ≡ suc n
      → Step c (record { hook = apply_all (settle reply).0 c.hook; pending = n })
  resets : Step c (record c { hook = apply_all reset c.hook })

pub data Reachable : Config → Type 0 where
  start : Reachable (record { hook = initial; pending = 0 })
  next : (a b : Config) → Reachable a → Step a b → Reachable b

-- `done` has a signature and `error` a message, and where no call waits the status is one of
-- `idle`, `done` and `error`.
abbrev pub Rests : OnChainTxStatus → Type 0
Rests idle = Unit
Rests done = Unit
Rests error = Unit
Rests _ = ⊥

pub record Consistent (c : Config) : Type 0 where
  pub signed : c.hook.tx_status ≡ done → c.hook.tx_signature ≢ none
  pub explained : c.hook.tx_status ≡ error → c.hook.tx_error ≢ none
  pub rests : c.pending ≡ 0 → Rests c.hook.tx_status

Step-Consistent : (a b : Config) → Step a b → Consistent a → Consistent b
unfolding apply_all apply begin settle reset
Step-Consistent a _ refuses inv = record {
  signed = λ e f. cc;
  explained = λ e f. cc;
  rests = λ e. tt;
}
Step-Consistent a _ (begins fee_payer) inv = record {
  signed = λ e f. cc;
  explained = λ e f. cc;
  rests = λ e. absurd (omega arith);
}
Step-Consistent a _ (settles n (fulfilled sig) waiting) inv = record {
  signed = λ e f. cc;
  explained = λ e f. cc;
  rests = λ e. tt;
}
Step-Consistent a _ (settles n (rejected err) waiting) inv = record {
  signed = λ e f. cc;
  explained = λ e f. cc;
  rests = λ e. tt;
}
Step-Consistent a _ resets inv = record {
  signed = λ e f. cc;
  explained = λ e f. cc;
  rests = λ e. tt;
}

-- After any calls of `signAndSend` and `reset`, in any order and however they overlap, the state is
-- consistent.
pub Reachable-Consistent : (c : Config) → Reachable c → Consistent c
Reachable-Consistent c start = record { signed = λ e f. cc; explained = λ e f. cc; rests = λ e. tt }
Reachable-Consistent c (next a b r step) = Step-Consistent a b step (Reachable-Consistent a r)
