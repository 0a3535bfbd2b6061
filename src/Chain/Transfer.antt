-- ===== src/Chain/Transfer.antt =====
-- contracts/programs/transfer_hook/src/lib.rs: what Token-2022 asks before it transfers a certificate.
use terra_ledger.Base.{◌==◌, leb, Option}
use terra_ledger.Accounts.Layout.{ParcelConfig}
use terra_ledger.Chain.{
  Attempt, hook_error, fraud_flagged, certificate_expired, ◌>>=◌, must, account,
}

-- with the account that is given as the parcel
unfoldable pub execute : Option ParcelConfig → Attempt Unit
execute parcel_config = do
  parcel ← account parcel_config
  _ ← must (parcel.risk_flag == 0) (hook_error fraud_flagged)
  must (leb parcel.dormant_seasons 2) (hook_error certificate_expired)
