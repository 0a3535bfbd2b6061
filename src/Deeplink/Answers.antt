-- ===== src/Deeplink/Answers.antt =====
-- The answers of Phantom that a run of the interval brings, in time and late.
use terra_ledger.Base.{◌≡◌, ◌≢◌, refl, [], ok, some, Text, Option-cases, inl, inr, ◌∙◌, ap}
use terra_ledger.Platform.{Kit}
use terra_ledger.Deeplink.{Browser, DappKeyPair, Storage, ConnectResponse, decrypt_connect_response}
use terra_ledger.Deeplink.KeyPair.{present-some}
use terra_ledger.Deeplink.Connect.{
  connected, error, Hook, PollResponse, status_connected, status_expired, restored_status, restore,
  stored_text, stop_polling, keep_connection, sealed_fields, accept_connection, settle_poll,
  disconnect,
}

stop_polling-kept : (hook : Hook) → (stop_polling hook).storage ≡ hook.storage
unfolding stop_polling
stop_polling-kept hook = elim (Option-cases hook.polling_ref) [
  | inl none' ↦ rw (none', stop_polling) refl
  | inr (id, e) ↦ rw (e, stop_polling) refl
]

-- An answer that a connection decrypts to.
pub record Opens (kit : Kit) (browser : Browser) (key_pair : DappKeyPair) (resp : PollResponse)
    (result : ConnectResponse) (key : Text) : Type 0 where
  pub nonce : Text
  pub sealed : Text
  pub answered : resp.status ≡ status_connected
  pub fields : sealed_fields resp ≡ some (key, nonce, sealed)
  pub decrypts : decrypt_connect_response kit browser key nonce sealed key_pair ≡ ok result

settle_poll-Opens :
    (kit : Kit) (browser : Browser) (key_pair : DappKeyPair) (resp : PollResponse)
    (result : ConnectResponse) (key : Text) (hook : Hook)
    → Opens kit browser key_pair resp result key
    → settle_poll kit browser key_pair (ok resp) hook
      ≡ keep_connection result key (stop_polling hook)
unfolding settle_poll accept_connection
settle_poll-Opens kit browser key_pair resp result key hook opens =
    rw (opens.answered, settle_poll, opens.fields, accept_connection, opens.decrypts) refl

settle_poll-expired :
    (kit : Kit) (browser : Browser) (key_pair : DappKeyPair) (resp : PollResponse) (hook : Hook)
    → resp.status ≡ status_expired
    → ((settle_poll kit browser key_pair (ok resp) hook).status ≡ error)
      × ((settle_poll kit browser key_pair (ok resp) hook).storage ≡ hook.storage)
unfolding settle_poll
settle_poll-expired kit browser key_pair resp hook e =
    (rw (e, settle_poll) refl, rw (e, settle_poll) (stop_polling-kept hook))

-- An answer that decrypts to an address and a session, both of them there and the address not
-- empty, connects the hook, whatever it was before: it shows the address, the three entries are the
-- address, the session and Phantom's key, and a hook mounted later is connected with that address.
pub settle_poll-connected :
    (kit : Kit) (browser : Browser) (key_pair : DappKeyPair) (resp : PollResponse)
    (address session key : Text) (hook : Hook)
    → Opens kit browser key_pair resp
        (record { public_key = some address; session = some session })
        key
    → address ≢ []
    → let after = settle_poll kit browser key_pair (ok resp) hook in
      (after.status ≡ connected)
      × (after.wallet_address ≡ some address)
      × (after.storage ≡ record hook.storage {
        wallet = some address;
        session = some session;
        pubkey = some key;
      })
      × ((restore after.storage).status ≡ connected)
      × ((restore after.storage).wallet_address ≡ some address)
unfolding keep_connection restore restored_status
settle_poll-connected kit browser key_pair resp address session key hook opens some_text =
    rw (settle_poll-Opens kit browser key_pair resp _ key hook opens) (
      refl,
      refl,
      ap
          (λ (storage : Storage). record storage {
            wallet = some address;
            session = some session;
            pubkey = some key;
          })
          (stop_polling-kept hook),
      ap restored_status (present-some address some_text),
      refl,
    )

-- Runs of the interval can overlap, and the relay gives its answer once: where the request that
-- brings the connection is followed by an answer that the session expired, the hook ends in error
-- although the entries of the connection are kept.
pub settle_poll-late_expired :
    (kit : Kit) (browser : Browser) (key_pair : DappKeyPair) (resp late : PollResponse)
    (result : ConnectResponse) (key : Text) (hook : Hook)
    → Opens kit browser key_pair resp result key
    → late.status ≡ status_expired
    → let after =
        settle_poll kit browser key_pair
          (ok late)
          (settle_poll kit browser key_pair (ok resp) hook) in
      (after.status ≡ error)
      × (after.storage.wallet ≡ some (stored_text result.public_key))
      × (after.storage.pubkey ≡ some key)
unfolding keep_connection
settle_poll-late_expired kit browser key_pair resp late result key hook opens expired =
    let (failed, kept) =
      settle_poll-expired kit browser key_pair late
        (settle_poll kit browser key_pair (ok resp) hook) expired in
    let connection =
      kept
      ∙ ap (λ (h : Hook). h.storage)
          (settle_poll-Opens kit browser key_pair resp result key hook opens) in
    (failed, ap (λ (s : Storage). s.wallet) connection, ap (λ (s : Storage). s.pubkey) connection)

-- An answer that arrives after `disconnect` connects the hook again and writes the entries again.
pub settle_poll-disconnected :
    (kit : Kit) (browser : Browser) (key_pair : DappKeyPair) (resp : PollResponse)
    (result : ConnectResponse) (key : Text) (hook : Hook)
    → Opens kit browser key_pair resp result key
    → let after = settle_poll kit browser key_pair (ok resp) (disconnect hook) in
      (after.status ≡ connected)
      × (after.storage.wallet ≡ some (stored_text result.public_key))
      × (after.storage.session ≡ some (stored_text result.session))
unfolding keep_connection
settle_poll-disconnected kit browser key_pair resp result key hook opens =
    rw (settle_poll-Opens kit browser key_pair resp result key (disconnect hook) opens)
      (refl, refl, refl)
