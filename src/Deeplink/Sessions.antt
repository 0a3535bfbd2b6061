-- ===== src/Deeplink/Sessions.antt =====
-- What `connectViaQR`, the runs of its interval, their answers and `disconnect` make of the hook.
use mathlib.Core.Path.{subst}
use terra_ledger.Base.{
  ℕ, ◌-◌, bind-eq-ok, arith, ◌≡◌, ◌≢◌, refl, sym, ap, ◌∙◌, inl, inr, Outcome, ok, throws, Thrown,
  Outcome-cases, Option-cases,
}
use terra_ledger.Base.{Option, none, some, List, [], ◌∷◌, Text, Bool-cases, ltb}
use terra_ledger.Platform.{Kit}
use terra_ledger.Deeplink.{
  Browser, DappKeyPair, Storage, present, get_dapp_key_pair, decrypt_connect_response,
}
use terra_ledger.Deeplink.KeyPair.{get_dapp_key_pair-present, get_dapp_key_pair-absent}
use terra_ledger.Deeplink.Connect.{
  max_poll_time, waiting, error, Hook, Interval, PollResponse, PollStatus, status_pending,
  status_connected, status_error, status_expired, clear_interval, stop_polling, begin_connect, fail,
  fail_start, start_polling, open_session, tick, keep_connection, sealed_fields, accept_connection,
  settle_poll, disconnect,
}

-- At most one interval is live, and it is the one that `pollingRef` names.
pub data Single (ref : Option ℕ) (intervals : List Interval) : Type 0 where
  stopped : ref ≡ none → intervals ≡ [] → Single ref intervals
  polling : (i : Interval) → ref ≡ some i.id → intervals ≡ i ∷ [] → Single ref intervals

-- The three entries of a connection are there together, or none is.
pub data Paired (wallet session pubkey : Option Text) : Type 0 where
  no_connection : wallet ≡ none → session ≡ none → pubkey ≡ none → Paired wallet session pubkey
  connection :
      (w s p : Text)
      → wallet ≡ some w
      → session ≡ some s
      → pubkey ≡ some p
      → Paired wallet session pubkey

abbrev pub Stores : Storage → Type 0
Stores storage = Paired storage.wallet storage.session storage.pubkey

pub record Sound (hook : Hook) : Type 0 where
  pub single : Single hook.polling_ref hook.intervals
  pub paired : Stores hook.storage
  pub shown : hook.status ≡ waiting → hook.qr_url ≢ none
  pub explained : hook.status ≡ error → hook.error ≢ none

clear_interval-single : (i : Interval) → clear_interval i.id (i ∷ []) ≡ []
unfolding clear_interval
clear_interval-single i = ground arith

abbrev Polls : Hook → Type 0
Polls hook = Single hook.polling_ref hook.intervals

stop_polling-Single :
    (hook : Hook)
    → Polls hook
    → stop_polling hook ≡ record hook { polling_ref = none; intervals = [] }
unfolding stop_polling
stop_polling-Single hook (stopped e f) =
    rw (e, stop_polling)
      (ap (λ ref. record hook { polling_ref = ref }) e
        ∙ ap (λ intervals. record hook { polling_ref = none; intervals = intervals }) f)
stop_polling-Single hook (polling i e f) =
    rw (e, stop_polling)
      (ap (λ intervals. record hook { polling_ref = none; intervals = intervals })
        (ap (clear_interval i.id) f ∙ clear_interval-single i))

-- the hook without its interval
abbrev quiet : Hook → Hook
quiet hook = record hook { polling_ref = none; intervals = [] }

-- the hook as `connectViaQR` first leaves it
abbrev cleared : Hook → Hook
cleared hook = record hook { error = none; wallet_address = none; qr_url = none }

fail-Sound :
    (message : Text) (hook : Hook) → Polls hook → Stores hook.storage → Sound (fail message hook)
fail-Sound message hook s p = record {
  single = s;
  paired = p;
  shown = λ w. cc;
  explained = λ w n. cc;
}

fail_start-Sound :
    (browser : Browser) (x : Thrown) (hook : Hook)
    → Polls hook
    → Stores hook.storage
    → Sound (fail_start browser x hook)
unfolding fail_start
fail_start-Sound browser x hook s p = elim (Option-cases (browser.message x)) [
  | inl none' ↦ rw (none', fail_start) (fail-Sound _ hook s p)
  | inr (message, e) ↦ rw (e, fail_start) (fail-Sound message hook s p)
]

same_storage :
    {a b : DappKeyPair} {s t : Storage}
    → ◌≡◌ {A = Outcome (DappKeyPair × Storage)} (ok (a, s)) (ok (b, t))
    → s ≡ t
same_storage e = cc

get_dapp_key_pair-Paired :
    (browser : Browser) (fresh kp : DappKeyPair) (storage storage' : Storage)
    → get_dapp_key_pair browser fresh storage ≡ ok (kp, storage')
    → Stores storage
    → Stores storage'
get_dapp_key_pair-Paired browser fresh kp storage storage' e p =
    elim (Option-cases (present storage.keypair)) [
      | inl absent ↦
          subst Stores
            (same_storage (sym (get_dapp_key_pair-absent browser fresh storage absent) ∙ e)) p
      | inr (stored, found) ↦
          let (pair, parsed, kept) =
            bind-eq-ok (browser.parse_key_pair stored) _
              (sym (get_dapp_key_pair-present browser fresh storage stored found) ∙ e) in
          subst Stores (same_storage kept) p
    ]

pub connect-Sound :
    (browser : Browser) (fresh : DappKeyPair) (now : ℕ) (reply : Outcome Text) (hook : Hook)
    → Sound hook
    → Sound (open_session browser fresh now reply (begin_connect hook))
unfolding open_session begin_connect start_polling
connect-Sound browser fresh now (throws x) hook v =
    rw (stop_polling-Single (cleared hook) v.single)
      (fail_start-Sound browser x (quiet (cleared hook)) (stopped refl refl) v.paired)
connect-Sound browser fresh now (ok session_id) hook v =
    rw (stop_polling-Single (cleared hook) v.single)
      (elim (Outcome-cases (get_dapp_key_pair browser fresh hook.storage)) [
        | inl ((key_pair, storage), e) ↦
            rw (e, open_session)
              (record {
                single = polling _ refl refl;
                paired =
                    get_dapp_key_pair-Paired browser fresh key_pair hook.storage storage e v.paired;
                shown = λ w. λ n. cc;
                explained = λ w. cc;
              })
        | inr (x, thrown) ↦
            rw (thrown, open_session)
              (fail_start-Sound browser x (quiet (cleared hook)) (stopped refl refl) v.paired)
      ])

pub tick-Sound : (now : ℕ) (hook : Hook) → Sound hook → Sound (tick now hook).0
unfolding tick
tick-Sound now hook v = elim (Bool-cases (ltb max_poll_time (now - hook.start_time))) [
  | inl late ↦
      rw (late, stop_polling-Single hook v.single)
        (fail-Sound _ (quiet hook) (stopped refl refl) v.paired)
  | inr early ↦ rw early v
]

accept_connection-Sound :
    (kit : Kit) (browser : Browser) (key_pair : DappKeyPair) (resp : PollResponse) (hook : Hook)
    → Sound hook
    → Sound (accept_connection kit browser key_pair resp hook)
unfolding accept_connection keep_connection
accept_connection-Sound kit browser key_pair resp hook v =
    elim (Option-cases (sealed_fields resp)) [
      | inl missing ↦ rw (missing, accept_connection) v
      | inr ((key, nonce, sealed), e) ↦
          elim (Outcome-cases (decrypt_connect_response kit browser key nonce sealed key_pair)) [
            | inl (result, opened) ↦
                rw (e, accept_connection, opened)
                  (record {
                    single = v.single;
                    paired = connection _ _ key refl refl refl;
                    shown = λ w. cc;
                    explained = λ w. cc;
                  })
            | inr (x, thrown) ↦
                rw (e, accept_connection, thrown) (fail-Sound _ hook v.single v.paired)
          ]
    ]

quiet-Sound : (hook : Hook) → Sound hook → Sound (quiet hook)
quiet-Sound hook v = record {
  single = stopped refl refl;
  paired = v.paired;
  shown = v.shown;
  explained = v.explained;
}

answer-Sound :
    (kit : Kit) (browser : Browser) (key_pair : DappKeyPair) (resp : PollResponse) (hook : Hook)
    → Sound hook
    → (s : PollStatus) → resp.status ≡ s
    → Sound (settle_poll kit browser key_pair (ok resp) hook)
unfolding settle_poll
answer-Sound kit browser key_pair resp hook v status_pending e = rw (e, settle_poll) v
answer-Sound kit browser key_pair resp hook v status_connected e =
    rw (e, settle_poll, stop_polling-Single hook v.single)
      (accept_connection-Sound kit browser key_pair resp (quiet hook) (quiet-Sound hook v))
answer-Sound kit browser key_pair resp hook v status_error e =
    rw (e, settle_poll, stop_polling-Single hook v.single)
      (fail-Sound _ (quiet hook) (stopped refl refl) v.paired)
answer-Sound kit browser key_pair resp hook v status_expired e =
    rw (e, settle_poll, stop_polling-Single hook v.single)
      (fail-Sound _ (quiet hook) (stopped refl refl) v.paired)

pub settle_poll-Sound :
    (kit : Kit) (browser : Browser) (key_pair : DappKeyPair) (reply : Outcome PollResponse)
    (hook : Hook)
    → Sound hook
    → Sound (settle_poll kit browser key_pair reply hook)
unfolding settle_poll
settle_poll-Sound kit browser key_pair (throws x) hook v = v
settle_poll-Sound kit browser key_pair (ok resp) hook v =
    answer-Sound kit browser key_pair resp hook v resp.status refl

pub disconnect-Sound : (hook : Hook) → Sound hook → Sound (disconnect hook)
unfolding disconnect
disconnect-Sound hook v = rw (stop_polling-Single hook v.single) (record {
  single = stopped refl refl;
  paired = no_connection refl refl refl;
  shown = λ w. cc;
  explained = λ w. cc;
})
