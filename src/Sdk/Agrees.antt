-- ===== src/Sdk/Agrees.antt =====
-- The builders of the SDK against those of the web client.
use mathlib.Core.Path.{fun_ext}
use terra_ledger.Base.{ℕ, ◌+◌, ◌≡◌, refl, List, [], ◌∷◌, length, Text}
use terra_ledger.Base.{Outcome-cases, inl, inr}
use terra_ledger.Bytes.{Bytes, set}
use terra_ledger.Platform.{Address, Kit}
use terra_ledger.Program
use terra_ledger.Program.Lien.{
  build_register_encumbrance_instruction, build_release_encumbrance_instruction,
}
use terra_ledger.Sdk

total_length_copy :
    (s : ℕ) (arrays : List Bytes)
    → Sdk.Encoders.total_length s arrays ≡ Program.total_length s arrays
unfolding Sdk.Encoders.total_length Program.total_length
total_length_copy s [] = refl
total_length_copy s (a ∷ arrays) = total_length_copy (s + length a) arrays

concat_loop_copy :
    (out : Bytes) (offset : ℕ) (arrays : List Bytes)
    → Sdk.Encoders.concat_loop out offset arrays ≡ Program.concat_loop out offset arrays
unfolding Sdk.Encoders.concat_loop Program.concat_loop
concat_loop_copy out offset [] = refl
concat_loop_copy out offset (a ∷ arrays) = elim (Outcome-cases (set out offset a)) [
  | inl (out', e) ↦ rw e (concat_loop_copy out' (offset + length a) arrays)
  | inr (thrown, e) ↦ rw e refl
]

concat_bytes_copy : Sdk.Encoders.concat_bytes ≡ Program.concat_bytes
unfolding Sdk.Encoders.concat_bytes Program.concat_bytes
concat_bytes_copy = fun_ext λ arrays. rw (total_length_copy 0 arrays) (concat_loop_copy _ 0 arrays)

module _ (kit : Kit) (a b : Address) (cadastral season : Text) (m n : ℕ) (h1 h2 : Bytes) where
  -- On the same arguments the builders that the SDK and the web client have in common, for
  -- `register_parcel`, `mint_certificate`, `seasonal_check`, `verify_parcel`, `register_encumbrance`
  -- and `release_encumbrance`, return the same instruction, or throw the same.
  pub sdk_builders_agree :
      (Sdk.Terra.build_register_parcel_instruction kit a cadastral m n h1
        ≡ Program.build_register_parcel_instruction kit a cadastral m n h1)
      × (Sdk.Terra.build_mint_certificate_instruction kit a cadastral season m
          ≡ Program.build_mint_certificate_instruction kit a cadastral season m)
      × (Sdk.Terra.build_seasonal_check_instruction kit a cadastral
          ≡ Program.build_seasonal_check_instruction kit a cadastral)
      × (Sdk.Terra.build_verify_parcel_instruction kit cadastral
          ≡ Program.build_verify_parcel_instruction kit cadastral)
      × (Sdk.Lien.build_register_encumbrance_instruction kit a b cadastral m h1 h2
          ≡ build_register_encumbrance_instruction kit a b cadastral m h1 h2)
      × (Sdk.Lien.build_release_encumbrance_instruction kit a b
          ≡ build_release_encumbrance_instruction kit a b)
  unfolding Sdk.Terra.build_register_parcel_instruction Program.build_register_parcel_instruction
      Sdk.Terra.build_mint_certificate_instruction Program.build_mint_certificate_instruction
      Sdk.Terra.build_seasonal_check_instruction Program.build_seasonal_check_instruction
      Sdk.Terra.build_verify_parcel_instruction Program.build_verify_parcel_instruction
      Sdk.Lien.build_register_encumbrance_instruction build_register_encumbrance_instruction
      Sdk.Lien.build_release_encumbrance_instruction build_release_encumbrance_instruction
      Sdk.Addresses.get_parcel_pda Program.get_parcel_pda Sdk.Addresses.get_encumbrance_pda
      Program.get_encumbrance_pda Sdk.Addresses.get_lien_index_pda Program.get_lien_index_pda
      Sdk.Encoders.encode_string Program.encode_string Sdk.Encoders.encode_u64_le
      Program.encode_u64_le Sdk.Encoders.encode_u32_le Program.encode_u32_le
      Sdk.Encoders.encode_u16_le Program.encode_u16_le
  sdk_builders_agree = rw concat_bytes_copy (refl, refl, refl, refl, refl, refl)
