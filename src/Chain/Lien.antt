-- ===== src/Chain/Lien.antt =====
-- The handlers of contracts/programs/lien_registry/src/instructions.
use terra_ledger.Base.{ℕ, ◌+◌, ◌-◌, ◌==◌, ltb, if◌then◌else◌, Option, none, some}
use terra_ledger.Bytes.{Bytes, bytes_eq, zeros, pos}
use terra_ledger.Accounts.Layout.{ParcelConfig, EncumbranceAccount, LienIndex}
use terra_ledger.Errors.Codes.{
  active_lien_exists, lien_parcel_not_verified, unauthorized_release, not_active, invalid_amount,
}
use terra_ledger.Chain.{
  Store, Attempt, returns, panicked, lien_error, ◌>>=◌, must, account, absent, put_lien, put_index,
  Clock,
}
use terra_ledger.Chain.Terra.{parcel_of}

-- `init_if_needed`: an account that was not there is filled with zeros.
abbrev pub index_or_new : Option LienIndex → LienIndex
index_or_new none = record {
  parcel_pda = zeros 32;
  active_lien_count = 0;
  total_lien_count = 0;
  bump = 0;
}
index_or_new (some index) = index

unfoldable pub name_index : LienIndex → Bytes → ℕ → LienIndex
name_index index key bump =
    if bytes_eq index.parcel_pda (zeros 32)
    then record index { parcel_pda = key; bump = bump }
    else index

unfoldable pub count_lien : LienIndex → LienIndex
count_lien index = record index {
  active_lien_count = index.active_lien_count + 1;
  total_lien_count = index.total_lien_count + 1;
}

unfoldable pub new_lien :
    ParcelConfig → Clock → ℕ → Bytes → Bytes → ℕ → Bytes → Bytes → EncumbranceAccount
new_lien parcel clock bump key lender amount notary_sig_hash notary_cert_hash = record {
  parcel_pda = key;
  lender = lender;
  amount = amount;
  notary_sig_hash = notary_sig_hash;
  notary_cert_hash = notary_cert_hash;
  egiss_snapshot_hash = parcel.egiss_snapshot_hash;
  registered_at = clock.unix_timestamp;
  released_at = pos 0;
  status = 0;
  bump = bump;
}

-- `saturating_sub(1)`
unfoldable pub uncount_lien : LienIndex → LienIndex
uncount_lien index = record index { active_lien_count = index.active_lien_count - 1 }

module _ (pda : Bytes → Bytes) (clock : Clock) (s : Store) where
  -- `key` and `lender` are the accounts `parcel_config` and `lender` of the call.
  unfoldable pub register_encumbrance :
      Bytes → Bytes → ℕ → ℕ → Bytes → ℕ → Bytes → Bytes → Attempt Store
  unfolding name_index count_lien new_lien
  register_encumbrance key lender lien_bump index_bump cadastral amount notary_sig_hash
        notary_cert_hash =
      do
        _ ← absent (s.liens key lender)
        parcel ← parcel_of pda clock s key cadastral
        _ ← must (ltb 0 amount) (lien_error invalid_amount)
        _ ← must parcel.kyc_verified (lien_error lien_parcel_not_verified)
        let index = index_or_new (s.indices key)
        _ ← must (index.active_lien_count == 0) (lien_error active_lien_exists)
        let lien =
            new_lien parcel clock lien_bump key lender amount notary_sig_hash notary_cert_hash
        _ ← must (ltb index.active_lien_count 255) panicked
        _ ← must (ltb index.total_lien_count 65535) panicked
        returns (
            put_index (put_lien s key lender (some lien)) key
              (count_lien (name_index index key index_bump)))

  -- The encumbrance is closed: its account is gone.
  unfoldable pub release_encumbrance : Bytes → Bytes → Attempt Store
  unfolding uncount_lien
  release_encumbrance key lender = do
    lien ← account (s.liens key lender)
    _ ← must (bytes_eq lien.lender lender) (lien_error unauthorized_release)
    index ← account (s.indices key)
    _ ← account (s.parcels key)
    _ ← must (lien.status == 0) (lien_error not_active)
    returns (put_index (put_lien s key lender none) key (uncount_lien index))
