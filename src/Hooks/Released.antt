-- ===== src/Hooks/Released.antt =====
-- `releaseLien` and the list of liens.
use terra_ledger.Base.{
  ℕ, true, false, Bool-cases, inl, inr, ◌⊎◌, ◌≡◌, refl, Outcome, ok, throws, Thrown, Option, none,
  some, List, [], ◌∷◌, ◌++◌, map, All, Text, text,
}
use terra_ledger.Bytes.{bytes_eq}
use terra_ledger.Api.{Client, post}
use terra_ledger.Api.Sdk.{release_path}
use terra_ledger.Hooks.{Loader, start_loading, settle, message_or}
use terra_ledger.Hooks.Liens.{
  Encumbrance, release_one, settle_fetch, settle_register, settle_release, release_lien,
}
use terra_ledger.Hooks.Liens.{released}
use terra_ledger.Hooks.Loading.{Config, Step, begins, fetched, registered, was_released}

-- A lien with the id is the same but released, and any other is the same.
abbrev pub Entry : Text → Encumbrance → Encumbrance → Type 0
Entry lien_id before after =
    ((bytes_eq before.id lien_id ≡ true) × (after ≡ record before { status = released }))
    ⊎ ((bytes_eq before.id lien_id ≡ false) × (after ≡ before))

-- The same liens in the same order, each changed as `Entry` says.
abbrev pub Entries : Text → List Encumbrance → List Encumbrance → Type 0
Entries lien_id [] [] = Unit
Entries lien_id (l ∷ before) (m ∷ after) = Entry lien_id l m × Entries lien_id before after
Entries lien_id [] (m ∷ after) = ⊥
Entries lien_id (l ∷ before) [] = ⊥

release_one-Entry : (lien_id : Text) (l : Encumbrance) → Entry lien_id l (release_one lien_id l)
unfolding release_one
release_one-Entry lien_id l = elim (Bool-cases (bytes_eq l.id lien_id)) [
  | inl same ↦ inl (same, rw (same, release_one) refl)
  | inr other ↦ inr (other, rw (other, release_one) refl)
]

map-Entries :
    (lien_id : Text) (liens : List Encumbrance)
    → Entries lien_id liens (map (release_one lien_id) liens)
map-Entries lien_id [] = tt
map-Entries lien_id (l ∷ liens) = (release_one-Entry lien_id l, map-Entries lien_id liens)

-- A lien that has another id, or is released.
abbrev pub IsReleased : Text → Encumbrance → Type 0
IsReleased lien_id l = (bytes_eq l.id lien_id ≡ false) ⊎ (l.status ≡ released)

-- A step whose answer brings no lien with the id that is not released.
abbrev pub BringsReleased :
    (message : Thrown → Option Text) (lien_id : Text) (a b : Config) → Step message a b → Type 0
BringsReleased message lien_id a b begins = Unit
BringsReleased message lien_id a b (fetched n (ok liens) e) = All (IsReleased lien_id) liens
BringsReleased message lien_id a b (fetched n (throws x) e) = Unit
BringsReleased message lien_id a b (registered n (ok l) e) = IsReleased lien_id l
BringsReleased message lien_id a b (registered n (throws x) e) = Unit
BringsReleased message lien_id a b (was_released n other reply e) = Unit

-- From one state of the hook to a later one by such steps.
pub data Later (message : Thrown → Option Text) (lien_id : Text) (a : Config)
    : Config → Type 1 where
  now_same : Later message lien_id a a
  then_after :
      (b c : Config)
      → Later message lien_id a b
      → (step : Step message b c) → BringsReleased message lien_id b c step
      → Later message lien_id a c

release_one-IsReleased :
    (lien_id : Text) (l : Encumbrance) → IsReleased lien_id (release_one lien_id l)
unfolding release_one
release_one-IsReleased lien_id l = elim (Bool-cases (bytes_eq l.id lien_id)) [
  | inl same ↦ inr (rw (same, release_one) refl)
  | inr other ↦ inl (rw (other, release_one) other)
]

-- Releasing any id keeps what is released.
release_one-keeps :
    (lien_id other : Text) (l : Encumbrance)
    → IsReleased lien_id l
    → IsReleased lien_id (release_one other l)
unfolding release_one
release_one-keeps lien_id other l r = elim (Bool-cases (bytes_eq l.id other)) [
  | inl same ↦ rw (same, release_one) (kept_id r)
  | inr differs ↦ rw (differs, release_one) r
]
  where
    kept_id : IsReleased lien_id l → IsReleased lien_id (record l { status = released })
    kept_id (inl not_this) = inl not_this
    kept_id (inr done) = inr refl

map-IsReleased :
    (lien_id : Text) (liens : List Encumbrance)
    → All (IsReleased lien_id) (map (release_one lien_id) liens)
map-IsReleased lien_id [] = tt
map-IsReleased lien_id (l ∷ liens) =
    (release_one-IsReleased lien_id l, map-IsReleased lien_id liens)

map-keeps :
    (lien_id other : Text) (liens : List Encumbrance)
    → All (IsReleased lien_id) liens
    → All (IsReleased lien_id) (map (release_one other) liens)
map-keeps lien_id other [] all = tt
map-keeps lien_id other (l ∷ liens) (r, all) =
    (release_one-keeps lien_id other l r, map-keeps lien_id other liens all)

append-IsReleased :
    (lien_id : Text) (liens : List Encumbrance) (l : Encumbrance)
    → All (IsReleased lien_id) liens
    → IsReleased lien_id l
    → All (IsReleased lien_id) (liens ++ (l ∷ []))
append-IsReleased lien_id [] l all r = (r, tt)
append-IsReleased lien_id (m ∷ liens) l (first, all) r =
    (first, append-IsReleased lien_id liens l all r)

Step-IsReleased :
    (message : Thrown → Option Text) (lien_id : Text) (a b : Config) (step : Step message a b)
    → BringsReleased message lien_id a b step
    → All (IsReleased lien_id) a.hook.data'
    → All (IsReleased lien_id) b.hook.data'
unfolding settle_fetch settle_register settle_release settle
Step-IsReleased message lien_id a _ begins brings all = all
Step-IsReleased message lien_id a _ (fetched n (ok liens) e) brings all = brings
Step-IsReleased message lien_id a _ (fetched n (throws x) e) brings all = all
Step-IsReleased message lien_id a _ (registered n (ok l) e) brings all =
    append-IsReleased lien_id a.hook.data' l all brings
Step-IsReleased message lien_id a _ (registered n (throws x) e) brings all = all
Step-IsReleased message lien_id a _ (was_released n other (ok b) e) brings all =
    map-keeps lien_id other a.hook.data' all
Step-IsReleased message lien_id a _ (was_released n other (throws x) e) brings all = all

Later-IsReleased :
    (message : Thrown → Option Text) (lien_id : Text) (a b : Config)
    → Later message lien_id a b
    → All (IsReleased lien_id) a.hook.data'
    → All (IsReleased lien_id) b.hook.data'
Later-IsReleased message lien_id a _ now_same all = all
Later-IsReleased message lien_id a c (then_after b _ before step brings) all =
    Step-IsReleased message lien_id b c step brings
      (Later-IsReleased message lien_id a b before all)

-- What the hook shows after `releaseLien`, by the answer to its request, and what it shows later.
abbrev pub Outcomes :
    {J : Type 0}
    → (Thrown → Option Text)
    → Text
    → Outcome J
    → (before after later : Loader (List Encumbrance)) → Type 0
Outcomes message lien_id (ok b) before after later =
    Entries lien_id before.data' after.data'
    × (after.error ≡ none)
    × All (IsReleased lien_id) later.data'
Outcomes message lien_id (throws x) before after later =
    (after.data' ≡ before.data')
    × (after.error ≡ some (message_or (message x) (text "Failed to release lien")))

settle_release-Outcomes :
    {J : Type 0} (message : Thrown → Option Text) (lien_id : Text) (reply : Outcome J)
    (hook : Loader (List Encumbrance)) (n : ℕ) (later : Config)
    → Later message lien_id
        (record { hook = settle_release message lien_id reply (start_loading hook); pending = n })
        later
    → Outcomes message lien_id reply hook
        (settle_release message lien_id reply (start_loading hook))
        later.hook
      × ((settle_release message lien_id reply (start_loading hook)).loading ≡ false)
unfolding settle_release settle
settle_release-Outcomes message lien_id (ok b) hook n later steps = (
  (
    map-Entries lien_id hook.data',
    refl,
    Later-IsReleased message lien_id _ later steps (map-IsReleased lien_id hook.data'),
  ),
  refl,
)
settle_release-Outcomes message lien_id (throws x) hook n later steps = ((refl, refl), refl)

-- For a call of `releaseLien` with no other call under way until it settles: when its request
-- succeeds, the list has the same liens in the same order, those with the id released and the others
-- unchanged, and there is no error; and whatever calls of `fetchLiens`, `registerLien` and
-- `releaseLien` begin and settle after it, every lien with the id stays released, as long as no
-- answer brings a lien with the id that is not. When the request fails, the list is unchanged and
-- the error is the message, or the hook's own where there is none. Either way the hook is not
-- loading right after the call.
pub release_lien-Outcomes :
    {J : Type 0} (message : Thrown → Option Text) (encode : Text → Text) (client : Client J)
    (lien_id : Text) (hook : Loader (List Encumbrance)) (n : ℕ) (later : Config)
    → Later message lien_id
        (record { hook = release_lien message encode client lien_id hook; pending = n })
        later
    → Outcomes message lien_id
        (post client (release_path encode lien_id) (some (text "{}")))
        hook
        (release_lien message encode client lien_id hook)
        later.hook
      × ((release_lien message encode client lien_id hook).loading ≡ false)
unfolding release_lien
release_lien-Outcomes message encode client lien_id hook n later steps =
    settle_release-Outcomes message lien_id
      (post client (release_path encode lien_id) (some (text "{}"))) hook n later steps
