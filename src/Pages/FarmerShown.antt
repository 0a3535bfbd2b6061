-- ===== src/Pages/FarmerShown.antt =====
-- What FarmerPortal.tsx shows when `handleSubmit` has returned.
use terra_ledger.Base.{
  Bool, true, false, ◌≡◌, refl, ap, ◌⊎◌, inl, inr, Outcome, ok, throws, Thrown, Option, none, some,
  List, [], ◌∷◌, Text,
}
use terra_ledger.Platform.{Kit, Address}
use terra_ledger.Program.{Instruction}
use terra_ledger.Errors.Messages.{parse_transaction_error}
use terra_ledger.SignAndSend
use terra_ledger.SignAndSend.{
  OnChainTxStatus, idle, done, error, Hook, Reply, fulfilled, rejected, begin, reset, apply,
  apply_all, sign_and_send,
}
use terra_ledger.Api.{Client}
use terra_ledger.Hooks.{Parcel, register_parcel}
use terra_ledger.Pages.Farmer.{
  RegisterParcelInput, Portal, is_missing, fetch_certificates, parcel_instruction, is_sent,
  send_parcel, register_on_chain, fetch_if, register, handle_submit,
}

module _ {C : Type 0} (message : Thrown → Option Text) (encode : Text → Text)
    (send : List Instruction → Address → Reply) (certs : Client (Option (List C)))
    (client : Client Parcel) (payload : Text) (wallet : Address) (form : RegisterParcelInput)
    (portal : Portal C) where
  -- The three ways to come back: no instruction, and no word of it; one that the wallet or the cluster
  -- refused, whose message is shown; and one that was sent, after which the parcel is posted.
  abbrev pub Handled : Outcome Instruction → Portal C → Type 0
  Handled built after =
      ((x : Thrown) × (built ≡ throws x)
        × (after.tx.tx_status ≡ idle)
        × (after.tx.tx_error ≡ none)
        × (after.parcel ≡ portal.parcel))
      ⊎ ((ix : Instruction) × (built ≡ ok ix)
          × (((err : _) × (send (ix ∷ []) wallet ≡ rejected err)
                × (after.tx.tx_status ≡ error)
                × (after.tx.tx_error ≡ some (parse_transaction_error err))
                × (after.parcel ≡ portal.parcel))
              ⊎ ((signature : Text) × (send (ix ∷ []) wallet ≡ fulfilled signature)
                  × (after.tx.tx_status ≡ done)
                  × (after.tx.tx_signature ≡ some signature)
                  × (after.parcel
                      ≡ (register_parcel message encode client payload portal.parcel).0))))

  abbrev registered : Hook × Bool → Portal C
  registered chain = register message encode send certs client payload form chain portal

  fetch_if-same :
      {A : Type 0} (result : Option A) (cadastral : Text) (p : Portal C)
      → ((fetch_if message encode send certs client result cadastral p).tx ≡ p.tx)
        × ((fetch_if message encode send certs client result cadastral p).parcel ≡ p.parcel)
  unfolding fetch_if fetch_certificates
  fetch_if-same none cadastral p = (refl, refl)
  fetch_if-same (some r) [] p = (refl, refl)
  fetch_if-same (some r) (c ∷ cadastral) p = (refl, refl)

  registered-true :
      (tx : Hook)
      → ((registered (tx, true)).tx ≡ tx)
        × ((registered (tx, true)).parcel
            ≡ (register_parcel message encode client payload portal.parcel).0)
  unfolding register
  registered-true tx =
      let (parcel, result) = register_parcel message encode client payload portal.parcel in
      fetch_if-same result form.cadastral_number (record portal { tx = tx; parcel = parcel })

  reply-Handled :
      (ix : Instruction) (reply : Reply)
      → send (ix ∷ []) wallet ≡ reply
      → (tx : Hook)
      → Handled (ok ix) (
          registered
            (apply_all (SignAndSend.settle reply).0 tx, is_sent (SignAndSend.settle reply).1))
  unfolding SignAndSend.settle is_sent apply_all apply register
  reply-Handled ix (fulfilled signature) e tx =
      let (shown, posted) =
        registered-true (record tx { tx_status = done; tx_signature = some signature }) in
      inr (
        ix,
        refl,
        inr (
          signature,
          e,
          ap (λ (t : Hook). t.tx_status) shown,
          ap (λ (t : Hook). t.tx_signature) shown,
          posted,
        ),
      )
  reply-Handled ix (rejected err) e tx = inr (ix, refl, inl (err, e, refl, refl, refl))

  built-Handled :
      (built : Outcome Instruction)
      → Handled built (registered (send_parcel send wallet built (apply_all reset portal.tx)))
  unfolding send_parcel sign_and_send begin register reset apply_all apply
  built-Handled (throws x) = inl (x, refl, refl, refl, refl)
  built-Handled (ok ix) = reply-Handled ix (send (ix ∷ []) wallet) refl _

  -- Where the form has a number and a wallet, and a wallet is connected, `handleSubmit` of the portal
  -- posts the parcel and shows the signature where the transaction was signed; it posts nothing and
  -- shows the message where the transaction was refused; and where no instruction could be built it
  -- posts nothing and shows neither a status nor an error.
  pub handle_submit-Handled :
      (kit : Kit)
      → is_missing form ≡ false
      → Handled
          (parcel_instruction kit wallet form)
          (handle_submit message encode send certs client kit (some wallet) form payload portal)
  unfolding handle_submit register_on_chain
  handle_submit-Handled kit filled = rw filled (built-Handled (parcel_instruction kit wallet form))
