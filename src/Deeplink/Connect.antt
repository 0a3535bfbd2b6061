-- ===== src/Deeplink/Connect.antt =====
-- The connection half of the hook `usePhantomDeeplink` (web/src/solana/usePhantomDeeplink.ts) with
-- `localStorage` and the browser's intervals. `connectViaQR` runs in two parts, up to and after the
-- request for a session; each run of an interval has a part before its request and one after.
use terra_ledger.Base.{
  ℕ, suc, ◌*◌, ◌-◌, Bool, true, false, ◌==◌, ltb, if◌then◌else◌, Outcome, ok, throws, Thrown,
}
use terra_ledger.Base.{Option, none, some, List, [], ◌∷◌, ◌++◌, Text, text}
use terra_ledger.Platform.{Kit}
use terra_ledger.Deeplink.{
  Browser, DappKeyPair, Storage, ConnectResponse, present, get_dapp_key_pair, build_connect_url,
  decrypt_connect_response,
}

pub data DeeplinkStatus : Type 0 where
  idle waiting connected error : DeeplinkStatus

-- milliseconds
abbrev pub max_poll_time : ℕ
max_poll_time = 5 * 60 * 1000

pub data PollStatus : Type 0 where
  status_pending status_connected status_error status_expired : PollStatus

pub record PollResponse : Type 0 where
  pub status : PollStatus
  pub phantom_encryption_public_key : Option Text
  pub nonce : Option Text
  pub data' : Option Text
  pub error_message : Option Text

-- A live interval, with what its callback closes over.
pub record Interval : Type 0 where
  pub id : ℕ
  pub session_id : Text
  pub key_pair : DappKeyPair

pub record Hook : Type 0 where
  pub status : DeeplinkStatus
  pub qr_url : Option Text
  pub wallet_address : Option Text
  pub error : Option Text
  pub polling_ref : Option ℕ
  pub start_time : ℕ
  pub storage : Storage
  pub intervals : List Interval
  pub next_id : ℕ

-- `storedWallet ? 'connected' : 'idle'`
unfoldable pub restored_status : Option Text → DeeplinkStatus
restored_status none = idle
restored_status (some w) = connected

-- The hook when it is mounted.
unfoldable pub restore : Storage → Hook
restore storage = record {
  status = restored_status (present storage.wallet);
  qr_url = none;
  wallet_address = storage.wallet;
  error = none;
  polling_ref = none;
  start_time = 0;
  storage = storage;
  intervals = [];
  next_id = 1;
}

-- `clearInterval`
unfoldable pub clear_interval : ℕ → List Interval → List Interval
clear_interval id [] = []
clear_interval id (i ∷ intervals) =
    let rest = clear_interval id intervals in if i.id == id then rest else i ∷ rest

unfoldable pub stop_polling : Hook → Hook
stop_polling hook = elim hook.polling_ref [
  | none ↦ hook
  | some id ↦ record hook { polling_ref = none; intervals = clear_interval id hook.intervals }
]

abbrev pub fail : Text → Hook → Hook
fail message hook = record hook { error = some message; status = error }

-- `a || b`
unfoldable pub present_or : Text → Option Text → Text
present_or otherwise o = elim (present o) [ none ↦ otherwise | some s ↦ s ]

-- `connectViaQR` up to the request
unfoldable pub begin_connect : Hook → Hook
begin_connect hook =
    stop_polling (record hook { error = none; wallet_address = none; qr_url = none })

-- the `catch` of `connectViaQR`
unfoldable pub fail_start : Browser → Thrown → Hook → Hook
fail_start browser x hook = elim (browser.message x) [
  | some message ↦ fail message hook
  | none ↦ fail (text "Failed to start connection") hook
]

-- with the new entries of `localStorage`
unfoldable pub start_polling : Browser → ℕ → Text → DappKeyPair → Storage → Hook → Hook
start_polling browser now session_id key_pair storage hook = record hook {
  storage = storage;
  qr_url = some (build_connect_url browser key_pair session_id);
  status = waiting;
  start_time = now;
  polling_ref = some hook.next_id;
  intervals =
      hook.intervals
      ++ (record { id = hook.next_id; session_id = session_id; key_pair = key_pair } ∷ []);
  next_id = suc hook.next_id;
}

-- `connectViaQR` after the request, which gave a session or threw
unfoldable pub open_session : Browser → DappKeyPair → ℕ → Outcome Text → Hook → Hook
open_session browser fresh now (throws x) hook = fail_start browser x hook
open_session browser fresh now (ok session_id) hook =
    elim (get_dapp_key_pair browser fresh hook.storage) [
      | throws x ↦ fail_start browser x hook
      | ok (key_pair, storage) ↦ start_polling browser now session_id key_pair storage hook
    ]

-- A run of an interval up to its request, and whether it makes one.
unfoldable pub tick : ℕ → Hook → Hook × Bool
tick now hook =
    if ltb max_poll_time (now - hook.start_time)
    then (fail (text "Connection timed out. Please try again.") (stop_polling hook), false)
    else (hook, true)

-- what `localStorage.setItem` keeps of a value that may be undefined
abbrev pub stored_text : Option Text → Text
stored_text none = text "undefined"
stored_text (some s) = s

unfoldable pub keep_connection : ConnectResponse → Text → Hook → Hook
keep_connection result phantom_key hook = record hook {
  wallet_address = result.public_key;
  status = connected;
  storage = record hook.storage {
    wallet = some (stored_text result.public_key);
    session = some (stored_text result.session);
    pubkey = some phantom_key;
  };
}

-- the three fields that a connection needs
unfoldable pub sealed_fields : PollResponse → Option (Text × Text × Text)
sealed_fields resp = elim (present resp.phantom_encryption_public_key) [
  | none ↦ none
  | some key ↦ elim (present resp.nonce) [
    | none ↦ none
    | some nonce ↦ elim (present resp.data') [
      | none ↦ none
      | some sealed ↦ some (key, nonce, sealed)
    ]
  ]
]

module _ (kit : Kit) (browser : Browser) where
  unfoldable pub accept_connection : DappKeyPair → PollResponse → Hook → Hook
  accept_connection key_pair resp hook = elim (sealed_fields resp) [
    | none ↦ hook
    | some (key, nonce, sealed) ↦
        elim (decrypt_connect_response kit browser key nonce sealed key_pair) [
          | throws x ↦ fail (text "Failed to decrypt wallet response") hook
          | ok result ↦ keep_connection result key hook
        ]
  ]

  -- A run of an interval after its request, whose answer is parsed or threw.
  unfoldable pub settle_poll : DappKeyPair → Outcome PollResponse → Hook → Hook
  settle_poll key_pair (throws x) hook = hook
  settle_poll key_pair (ok resp) hook = elim resp.status [
    | status_pending ↦ hook
    | status_connected ↦ accept_connection key_pair resp (stop_polling hook)
    | status_error ↦
        fail (present_or (text "Connection denied") resp.error_message) (stop_polling hook)
    | status_expired ↦ fail (text "Session expired. Please try again.") (stop_polling hook)
  ]

unfoldable pub disconnect : Hook → Hook
disconnect hook =
    let stopped = stop_polling hook in
    record stopped {
      status = idle;
      qr_url = none;
      wallet_address = none;
      error = none;
      storage = record stopped.storage { wallet = none; session = none; pubkey = none };
    }
