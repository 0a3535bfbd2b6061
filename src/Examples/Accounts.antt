-- ===== src/Examples/Accounts.antt =====
-- The decoders of web/src/solana/accounts.ts on the stored accounts of the parcel KZ1.
use terra_ledger.Base.{◌≡◌, refl, [], ok}
use terra_ledger.Bytes.{zeros}
use terra_ledger.Platform.Sample.{sample}
use terra_ledger.Rpc.{parcel_config_discriminator, encumbrance_discriminator}
use terra_ledger.Accounts.{active, deserialize_parcel_config, deserialize_encumbrance}
use terra_ledger.Accounts.Layout.{stored, parcel_config_fields, encumbrance_fields}
use terra_ledger.Accounts.RoundTrip.{
  decoded_parcel, decoded_encumbrance, deserialize_parcel_config-stored,
  deserialize_encumbrance-stored,
}
use terra_ledger.Examples.Samples.{
  farmer, lender, kz1_pda, kz1_parcel, kz1_lien, kz1_parcel-IsParcelConfig, kz1_lien-IsEncumbrance,
}

-- A cadastral number shorter than 20 bytes leaves space at the end of the account.
deserialize_parcel_config-stored_example :
    deserialize_parcel_config sample
      (stored parcel_config_discriminator (parcel_config_fields kz1_parcel) (zeros 14))
    ≡ ok (decoded_parcel sample kz1_parcel farmer farmer)
unfolding sample
deserialize_parcel_config-stored_example =
    deserialize_parcel_config-stored sample parcel_config_discriminator (zeros 14) kz1_parcel farmer
      farmer refl kz1_parcel-IsParcelConfig refl refl

deserialize_encumbrance-stored_example :
    deserialize_encumbrance sample
      (stored encumbrance_discriminator (encumbrance_fields kz1_lien) [])
    ≡ ok (decoded_encumbrance kz1_lien kz1_pda lender active)
unfolding sample
deserialize_encumbrance-stored_example =
    deserialize_encumbrance-stored sample encumbrance_discriminator [] kz1_lien kz1_pda lender
      active refl kz1_lien-IsEncumbrance refl refl refl
