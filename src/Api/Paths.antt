-- ===== src/Api/Paths.antt =====
-- The paths that the SDK's client asks for.
use terra_ledger.Base.{true, not, ◌==◌, ◌≡◌, refl, Option, none, some, [], Text, text, All}
use terra_ledger.Base.{span, strip_prefix, span-All, span-append, if◌then◌else◌}
use terra_ledger.Bytes.{bytes_eq}
use terra_ledger.Api.Sdk.{
  parcels, liens, parcel_path, profile_path, certificates_path, liens_path, release_path,
}

-- What a call is about, by the kind of resource.
pub data Resource : Type 0 where
  parcel profile certificates parcel_liens lien_release : Resource

abbrev pub path_of : (Text → Text) → Resource → Text → Text
path_of encode parcel = parcel_path encode
path_of encode profile = profile_path encode
path_of encode certificates = certificates_path encode
path_of encode parcel_liens = liens_path encode
path_of encode lien_release = release_path encode

-- The part of a path up to the next slash, and the rest.
abbrev segment : Text → Text × Text
segment = span (λ c. not (c == 47))

-- What follows the segment of a cadastral number.
unfoldable pub parcel_resource : Text → Option Resource
parcel_resource rest =
    if bytes_eq rest []
    then some parcel
    else if bytes_eq rest (text "/profile")
    then some profile
    else if bytes_eq rest (text "/certificates")
    then some certificates
    else if bytes_eq rest (text "/liens")
    then some parcel_liens
    else none

abbrev with_argument : Text → Option Resource → Option (Resource × Text)
with_argument argument none = none
with_argument argument (some r) = some (r, argument)

-- The routes of the API: the resource and the segment that names it.
unfoldable pub route : Text → Option (Resource × Text)
route path = elim (strip_prefix parcels path) [
  | some s ↦ with_argument (segment s).0 (parcel_resource (segment s).1)
  | none ↦ elim (strip_prefix liens path) [
    | none ↦ none
    | some s ↦
        if bytes_eq (segment s).1 (text "/release")
        then some (lien_release, (segment s).0)
        else none
  ]
]

-- Where the text that `encodeURIComponent` gives has no slash, the path that the SDK's client asks
-- for is routed to its resource, with that text as the segment.
pub route-path_of :
    (encode : Text → Text) (r : Resource) (argument : Text)
    → All (λ c. not (c == 47) ≡ true) (encode argument)
    → route (path_of encode r argument) ≡ some (r, encode argument)
unfolding route parcel_path profile_path certificates_path liens_path release_path strip_prefix
    parcel_resource
route-path_of encode parcel argument h = rw (span-All (λ c. not (c == 47)) (encode argument) h) refl
route-path_of encode profile argument h =
    rw (span-append (λ c. not (c == 47)) (encode argument) 47 (text "profile") h refl) refl
route-path_of encode certificates argument h =
    rw (span-append (λ c. not (c == 47)) (encode argument) 47 (text "certificates") h refl) refl
route-path_of encode parcel_liens argument h =
    rw (span-append (λ c. not (c == 47)) (encode argument) 47 (text "liens") h refl) refl
route-path_of encode lien_release argument h =
    rw (span-append (λ c. not (c == 47)) (encode argument) 47 (text "release") h refl) refl
