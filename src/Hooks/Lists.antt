-- ===== src/Hooks/Lists.antt =====
-- The hooks without an error state: useAgentDecisions.ts, useMapParcels.ts and
-- useSatelliteIndices.ts of web/src/hooks. What their request throws, the call throws.
use terra_ledger.Base.{
  Bool, true, false, if◌then◌else◌, Outcome, ok, throws, Thrown, ◌>>=◌, Option, none, some, List,
  [], ◌++◌, Text, text,
}
use terra_ledger.Api.{Client, method_get, get, key_headers}

-- the two `useState` values
pub record Listing (A : Type 0) : Type 0 where
  pub items : A
  pub loading : Bool

-- The `finally` behind a request, with what it leaves of the items; the second part is what the
-- call throws.
unfoldable pub settle_listing :
    {A B : Type 0} → (B → A → A) → Outcome B → Listing A → Listing A × Option Thrown
settle_listing accept (ok b) hook =
    (record hook { items = accept b hook.items; loading = false }, none)
settle_listing accept (throws x) hook = (record hook { loading = false }, some x)

-- `a ?? b`
abbrev pub or_else : {A : Type 0} → A → Option A → A
or_else otherwise none = otherwise
or_else otherwise (some a) = a

-- `useAgentDecisions`, whose answers have a list under `decisions`
module _ {D : Type 0} where
  unfoldable pub fetch_recent :
      Client (Option (List D)) → Listing (List D) → Listing (List D) × Option Thrown
  fetch_recent client hook =
      settle_listing (λ decisions prev. or_else [] decisions)
        (get client (text "/api/v1/agent/decisions")) (record hook { loading = true })

  unfoldable pub fetch_by_parcel :
      (Text → Text)
      → Client (Option (List D))
      → Text
      → Listing (List D)
      → Listing (List D) × Option Thrown
  fetch_by_parcel encode client cadastral hook =
      settle_listing (λ decisions prev. or_else [] decisions)
        (get client (text "/api/v1/agent/decisions/" ++ encode cadastral))
        (record hook { loading = true })

-- The requests that the other two make themselves, without a content type: the body where the
-- status is a success, and `none` where it is not.
unfoldable pub bare_get : {J : Type 0} → Client J → Text → Outcome (Option J)
bare_get client path = do
  res ← client.fetch (record {
    method = method_get;
    url = client.base ++ path;
    headers = key_headers client.key;
    body = none;
  })
  if res.ok_status then (res.json >>= λ body. ok (some body)) else ok none

-- `useMapParcels`, whose answers have a list under `parcels`
unfoldable pub fetch_parcels :
    {P : Type 0} → Client (Option (List P)) → Listing (List P) → Listing (List P) × Option Thrown
fetch_parcels client hook =
    settle_listing (λ body prev. elim body [ none ↦ prev | some parcels ↦ or_else [] parcels ])
      (bare_get client (text "/api/v1/parcels")) (record hook { loading = true })

-- `useSatelliteIndices`, whose answers may have indices under `ahi`
unfoldable pub fetch_indices :
    {I : Type 0}
    → Client (Option I)
    → Text
    → Listing (Option I)
    → Listing (Option I) × Option Thrown
fetch_indices client cadastral hook =
    settle_listing (λ body prev. elim body [ none ↦ prev | some ahi ↦ ahi ])
      (bare_get client (text "/api/v1/parcels/" ++ (cadastral ++ text "/indices")))
      (record hook { loading = true })
