-- ===== src/Deeplink/KeyPair.antt =====
-- The key pair that `getDappKeyPair` keeps in `localStorage`.
use terra_ledger.Base.{
  ◌≡◌, ◌≢◌, refl, ok, none, some, [], ◌∷◌, Text, ◌>>=◌, ◌∙◌, Option-cases, Outcome-cases, inl, inr,
}
use terra_ledger.Deeplink.{Browser, DappKeyPair, Storage, present, get_dapp_key_pair}

pub present-some : (s : Text) → s ≢ [] → present (some s) ≡ some s
unfolding present
present-some [] h = absurd (h refl)
present-some (c ∷ s) h = refl

pub get_dapp_key_pair-present :
    (browser : Browser) (fresh : DappKeyPair) (storage : Storage) (stored : Text)
    → present storage.keypair ≡ some stored
    → get_dapp_key_pair browser fresh storage
      ≡ (browser.parse_key_pair stored >>= λ kp. ok (kp, storage))
unfolding get_dapp_key_pair
get_dapp_key_pair-present browser fresh storage stored e = rw (e, get_dapp_key_pair) refl

pub get_dapp_key_pair-absent :
    (browser : Browser) (fresh : DappKeyPair) (storage : Storage)
    → present storage.keypair ≡ none
    → get_dapp_key_pair browser fresh storage
      ≡ ok (fresh, record storage { keypair = some (browser.stringify_key_pair fresh) })
unfolding get_dapp_key_pair
get_dapp_key_pair-absent browser fresh storage e = rw (e, get_dapp_key_pair) refl

-- A second call of `getDappKeyPair`, on the entries that the first one leaves, returns the pair that
-- the first returned, whatever pair would be made then, and leaves the entries as they are; where
-- the first throws, so does the whole. JSON gives back the pair that it wrote, which is not the
-- empty text.
pub get_dapp_key_pair-stable :
    (browser : Browser) (fresh later : DappKeyPair) (storage : Storage)
    → browser.parse_key_pair (browser.stringify_key_pair fresh) ≡ ok fresh
    → browser.stringify_key_pair fresh ≢ []
    → (get_dapp_key_pair browser fresh storage >>= λ first. get_dapp_key_pair browser later first.1)
      ≡ get_dapp_key_pair browser fresh storage
get_dapp_key_pair-stable browser fresh later storage round some_text =
    elim (Option-cases (present storage.keypair)) [
      | inl absent ↦ rw (get_dapp_key_pair-absent browser fresh storage absent) (
          get_dapp_key_pair-present browser later _ _
            (present-some (browser.stringify_key_pair fresh) some_text)
          ∙ rw round)
      | inr (stored, e) ↦ elim (Outcome-cases (browser.parse_key_pair stored)) [
        | inl (kp, parsed) ↦
            rw (get_dapp_key_pair-present browser fresh storage stored e, parsed)
              (get_dapp_key_pair-present browser later storage stored e ∙ rw parsed)
        | inr (x, thrown) ↦ rw (get_dapp_key_pair-present browser fresh storage stored e, thrown)
      ]
    ]
