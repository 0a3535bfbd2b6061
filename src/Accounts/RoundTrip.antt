-- ===== src/Accounts/RoundTrip.antt =====
-- The decoders of web/src/solana/accounts.ts on the data that the on-chain programs store.
use terra_ledger.Base.{ap, ◌∙◌, ◌≡◌, refl, length}
use terra_ledger.Base.{some, ok}
use terra_ledger.Bytes.{Bytes, of_i64}
use terra_ledger.Bytes.Words.{length-le_bytes}
use terra_ledger.Platform.{Address, Kit}
use terra_ledger.Accounts.{
  EncumbranceStatus, active, released, disputed, encumbrance_status, ParcelConfigAccount,
  EncumbranceAccountData, LienIndexData, deserialize_parcel_config, deserialize_encumbrance,
  deserialize_lien_index,
}
use terra_ledger.Accounts.Layout.{
  ParcelConfig, EncumbranceAccount, LienIndex, parcel_config_fields, encumbrance_fields,
  lien_index_fields, stored, IsParcelConfig, IsEncumbrance, IsLienIndex, status_code,
}
use terra_ledger.Accounts.Cursor.{
  Rest, Rest-stored, Rest-next, Rest-string, read_u8-Rest, read_i64_le-Rest, read_address-Rest,
  read_string-Rest, read_bytes-Rest, read_bool-Rest, read_u16_le-Rest, read_u32_le-Rest,
  read_u64_le-Rest,
}

-- What the decoder makes of a stored account, given its two addresses as text.
abbrev pub decoded_parcel : Kit → ParcelConfig → Address → Address → ParcelConfigAccount
decoded_parcel kit p owner minter = record {
  owner = owner;
  mint_authority = minter;
  cadastral_str = kit.utf8_decode p.cadastral_str;
  area_ha = p.area_ha;
  land_class = some p.land_class;
  kyc_verified = p.kyc_verified;
  kyc_method = some p.kyc_method;
  last_cert_epoch = p.last_cert_epoch;
  cert_count = p.cert_count;
  ndvi_submissions_this_season = some p.ndvi_submissions_this_season;
  dormant_seasons = some p.dormant_seasons;
  egiss_snapshot_hash = p.egiss_snapshot_hash;
  risk_flag = some p.risk_flag;
  registered_at = p.registered_at;
  bump = some p.bump;
}

abbrev pub decoded_encumbrance :
    EncumbranceAccount → Address → Address → EncumbranceStatus → EncumbranceAccountData
decoded_encumbrance e parcel lender status = record {
  parcel_pda = parcel;
  lender = lender;
  amount = e.amount;
  notary_sig_hash = e.notary_sig_hash;
  notary_cert_hash = e.notary_cert_hash;
  egiss_snapshot_hash = e.egiss_snapshot_hash;
  registered_at = e.registered_at;
  released_at = e.released_at;
  status = status;
  bump = some e.bump;
}

abbrev pub decoded_lien_index : LienIndex → Address → LienIndexData
decoded_lien_index l parcel = record {
  parcel_pda = parcel;
  active_lien_count = some l.active_lien_count;
  total_lien_count = l.total_lien_count;
  bump = some l.bump;
}

encumbrance_status-code : (s : EncumbranceStatus) → encumbrance_status (some (status_code s)) ≡ s
unfolding encumbrance_status
encumbrance_status-code active = refl
encumbrance_status-code released = refl
encumbrance_status-code disputed = refl

deserialize_lien_index-Rest :
    (kit : Kit) (bytes space : Bytes) (l : LienIndex) (parcel : Address)
    → Rest bytes 8 (lien_index_fields l) space
    → IsLienIndex l
    → kit.address_decode l.parcel_pda ≡ ok parcel
    → deserialize_lien_index kit bytes ≡ ok (decoded_lien_index l parcel)
unfolding deserialize_lien_index
deserialize_lien_index-Rest kit bytes space l parcel r0 v known =
    let r1 = Rest-next 32 v.parcel_size r0 in
    let r2 = Rest-next 1 refl r1 in
    let r3 = Rest-next 2 (length-le_bytes 2 l.total_lien_count) r2 in
    rw (
      read_address-Rest kit v.parcel_size known r0,
      read_u8-Rest r1,
      read_u16_le-Rest v.total_range r2,
      read_u8-Rest r3,
    )

deserialize_encumbrance-Rest :
    (kit : Kit) (bytes space : Bytes) (e : EncumbranceAccount) (parcel lender : Address)
    → Rest bytes 8 (encumbrance_fields e) space
    → IsEncumbrance e
    → kit.address_decode e.parcel_pda ≡ ok parcel
    → kit.address_decode e.lender ≡ ok lender
    → deserialize_encumbrance kit bytes
      ≡ ok (decoded_encumbrance e parcel lender (encumbrance_status (some e.status)))
unfolding deserialize_encumbrance
deserialize_encumbrance-Rest kit bytes space e parcel lender r0 v known_parcel known_lender =
    let r1 = Rest-next 32 v.parcel_size r0 in
    let r2 = Rest-next 32 v.lender_size r1 in
    let r3 = Rest-next 8 (length-le_bytes 8 e.amount) r2 in
    let r4 = Rest-next 32 v.sig_size r3 in
    let r5 = Rest-next 32 v.cert_size r4 in
    let r6 = Rest-next 32 v.egiss_size r5 in
    let r7 = Rest-next 8 (length-le_bytes 8 _) r6 in
    let r8 = Rest-next 8 (length-le_bytes 8 _) r7 in
    let r9 = Rest-next 1 refl r8 in
    rw (
      read_address-Rest kit v.parcel_size known_parcel r0,
      read_address-Rest kit v.lender_size known_lender r1,
      read_u64_le-Rest v.amount_range r2,
      read_bytes-Rest v.sig_size r3,
      read_bytes-Rest v.cert_size r4,
      read_bytes-Rest v.egiss_size r5,
      read_i64_le-Rest v.registered_range r6,
      read_i64_le-Rest v.released_range r7,
      read_u8-Rest r8,
      read_u8-Rest r9,
    )

deserialize_parcel_config-Rest :
    (kit : Kit) (bytes space : Bytes) (p : ParcelConfig) (owner minter : Address)
    → Rest bytes 8 (parcel_config_fields p) space
    → IsParcelConfig p
    → kit.address_decode p.owner ≡ ok owner
    → kit.address_decode p.mint_authority ≡ ok minter
    → deserialize_parcel_config kit bytes ≡ ok (decoded_parcel kit p owner minter)
unfolding deserialize_parcel_config
deserialize_parcel_config-Rest kit bytes space p owner minter r0 v known_owner known_minter =
    let r1 = Rest-next 32 v.owner_size r0 in
    let r2 = Rest-next 32 v.mint_authority_size r1 in
    let r3 = Rest-string r2 in
    let r4 = Rest-next 4 (length-le_bytes 4 p.area_ha) r3 in
    let r5 = Rest-next 1 refl r4 in
    let r6 = Rest-next 1 refl r5 in
    let r7 = Rest-next 1 refl r6 in
    let r8 = Rest-next 8 (length-le_bytes 8 p.last_cert_epoch) r7 in
    let r9 = Rest-next 2 (length-le_bytes 2 p.cert_count) r8 in
    let r10 = Rest-next 1 refl r9 in
    let r11 = Rest-next 1 refl r10 in
    let r12 = Rest-next 32 v.hash_size r11 in
    let r13 = Rest-next 1 refl r12 in
    let r14 = Rest-next 8 (length-le_bytes 8 (of_i64 p.registered_at)) r13 in
    rw (
      read_address-Rest kit v.owner_size known_owner r0,
      read_address-Rest kit v.mint_authority_size known_minter r1,
      read_string-Rest kit v.cadastral_size r2,
      read_u32_le-Rest v.area_range r3,
      read_u64_le-Rest v.epoch_range r7,
      read_u16_le-Rest v.count_range r8,
      read_i64_le-Rest v.time_range r13,
      read_u8-Rest r4,
      read_bool-Rest p.kyc_verified r5,
      read_u8-Rest r6,
      read_u8-Rest r9,
      read_u8-Rest r10,
      read_bytes-Rest v.hash_size r11,
      read_u8-Rest r12,
      read_u8-Rest r14,
    )

-- For a stored ParcelConfig whose two addresses decode, whatever its eight bytes of discriminator
-- and the space behind its fields, the decoder returns the account's fields up to `bump`. The
-- cadastral number is the stored bytes read as UTF-8.
pub deserialize_parcel_config-stored :
    (kit : Kit) (tag space : Bytes) (p : ParcelConfig) (owner minter : Address)
    → length tag ≡ 8
    → IsParcelConfig p
    → kit.address_decode p.owner ≡ ok owner
    → kit.address_decode p.mint_authority ≡ ok minter
    → deserialize_parcel_config kit (stored tag (parcel_config_fields p) space)
      ≡ ok (decoded_parcel kit p owner minter)
deserialize_parcel_config-stored kit tag space p owner minter h v known_owner known_minter =
    deserialize_parcel_config-Rest kit _ space p owner minter
      (Rest-stored tag (parcel_config_fields p) space h) v known_owner known_minter

-- For a stored EncumbranceAccount whose two addresses decode and whose status byte is the code of a
-- status, the decoder returns the account's fields, the status by name.
pub deserialize_encumbrance-stored :
    (kit : Kit) (tag space : Bytes) (e : EncumbranceAccount) (parcel lender : Address)
    (status : EncumbranceStatus)
    → length tag ≡ 8
    → IsEncumbrance e
    → kit.address_decode e.parcel_pda ≡ ok parcel
    → kit.address_decode e.lender ≡ ok lender
    → e.status ≡ status_code status
    → deserialize_encumbrance kit (stored tag (encumbrance_fields e) space)
      ≡ ok (decoded_encumbrance e parcel lender status)
deserialize_encumbrance-stored kit tag space e parcel lender status h v known_parcel known_lender
      code =
    deserialize_encumbrance-Rest kit _ space e parcel lender
      (Rest-stored tag (encumbrance_fields e) space h) v known_parcel known_lender
    ∙ ap (λ s. ok (decoded_encumbrance e parcel lender s))
        (ap (λ c. encumbrance_status (some c)) code ∙ encumbrance_status-code status)

-- For a stored LienIndex whose parcel address decodes, the decoder returns the account's fields.
pub deserialize_lien_index-stored :
    (kit : Kit) (tag space : Bytes) (l : LienIndex) (parcel : Address)
    → length tag ≡ 8
    → IsLienIndex l
    → kit.address_decode l.parcel_pda ≡ ok parcel
    → deserialize_lien_index kit (stored tag (lien_index_fields l) space)
      ≡ ok (decoded_lien_index l parcel)
deserialize_lien_index-stored kit tag space l parcel h v known =
    deserialize_lien_index-Rest kit _ space l parcel (Rest-stored tag (lien_index_fields l) space h)
      v known
