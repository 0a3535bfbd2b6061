-- ===== src/Deeplink/Reach.antt =====
-- The states that the hook `usePhantomDeeplink` reaches from what `localStorage` holds.
use terra_ledger.Base.{ℕ, ◌≢◌, refl, Outcome}
use terra_ledger.Base.{Option, none, some, Text}
use terra_ledger.Platform.{Kit}
use terra_ledger.Deeplink.{Browser, DappKeyPair, Storage, present}
use terra_ledger.Deeplink.Connect.{
  waiting, error, Hook, PollResponse, restored_status, restore, begin_connect, open_session, tick,
  settle_poll, disconnect,
}
use terra_ledger.Deeplink.Sessions.{
  stopped, Stores, Sound, connect-Sound, tick-Sound, settle_poll-Sound, disconnect-Sound,
}

-- Calls of `connectViaQR` with the answer to their request, runs of an interval, answers of any
-- request of a run, and calls of `disconnect`.
pub data Step (kit : Kit) (browser : Browser) (hook : Hook) : Hook → Type 0 where
  connects :
      (fresh : DappKeyPair) (now : ℕ) (reply : Outcome Text)
      → Step kit browser hook (open_session browser fresh now reply (begin_connect hook))
  ticks : (now : ℕ) → Step kit browser hook (tick now hook).0
  answers :
      (key_pair : DappKeyPair) (reply : Outcome PollResponse)
      → Step kit browser hook (settle_poll kit browser key_pair reply hook)
  disconnects : Step kit browser hook (disconnect hook)

pub data Reachable (kit : Kit) (browser : Browser) (storage : Storage) : Hook → Type 0 where
  start : Reachable kit browser storage (restore storage)
  next :
      (a b : Hook)
      → Reachable kit browser storage a
      → Step kit browser a b
      → Reachable kit browser storage b

Step-Sound : (kit : Kit) (browser : Browser) (a b : Hook) → Step kit browser a b → Sound a → Sound b
Step-Sound kit browser a _ (connects fresh now reply) v = connect-Sound browser fresh now reply a v
Step-Sound kit browser a _ (ticks now) v = tick-Sound now a v
Step-Sound kit browser a _ (answers key_pair reply) v =
    settle_poll-Sound kit browser key_pair reply a v
Step-Sound kit browser a _ disconnects v = disconnect-Sound a v

restored_status-other :
    (o : Option Text) → (restored_status o ≢ waiting) × (restored_status o ≢ error)
unfolding restored_status
restored_status-other none = (λ e. cc, λ e. cc)
restored_status-other (some w) = (λ e. cc, λ e. cc)

restore-Sound : (storage : Storage) → Stores storage → Sound (restore storage)
unfolding restore
restore-Sound storage p = record {
  single = stopped refl refl;
  paired = p;
  shown = λ w. absurd ((restored_status-other (present storage.wallet)).0 w);
  explained = λ w. absurd ((restored_status-other (present storage.wallet)).1 w);
}

-- From what `localStorage` holds at the start (the three entries of a connection, or none of them),
-- after any calls of `connectViaQR` whose request is answered before anything else happens, runs of
-- the interval, answers in any order and calls of `disconnect`: at most one interval is live and
-- `pollingRef` names it, the three entries are there together or not at all, a waiting hook shows a
-- link and one in error a message.
pub Reachable-Sound :
    (kit : Kit) (browser : Browser) (storage : Storage) (hook : Hook)
    → Stores storage
    → Reachable kit browser storage hook
    → Sound hook
Reachable-Sound kit browser storage _ p start = restore-Sound storage p
Reachable-Sound kit browser storage hook p (next a _ r step) =
    Step-Sound kit browser a hook step (Reachable-Sound kit browser storage a p r)
