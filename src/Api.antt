-- ===== src/Api.antt =====
-- The REST client: web/src/api/client.ts, and in Api/Sdk that of sdk/src/client.ts. `fetch` is a
-- parameter; a parsed body is of a type that the caller chooses, with its `error` property.
pub mod Sdk
pub mod Paths
use terra_ledger.Base.{
  ℕ, Bool, true, false, if◌then◌else◌, Outcome, ok, throws, error, ◌>>=◌, Option, none, some, List,
  [], ◌∷◌, ◌++◌, Text, text, decimal,
}

pub data Method : Type 0 where
  method_get method_post method_put method_delete : Method

pub record Request : Type 0 where
  pub method : Method
  pub url : Text
  pub headers : List (Text × Text)
  pub body : Option Text

-- A response: whether its status is a success, the status, and what `json()` comes to.
pub record Response (J : Type 0) : Type 0 where
  pub ok_status : Bool
  pub status : ℕ
  pub json : Outcome J

-- `base` and `key` are the URL of the API and its key, `none` where that is empty; `error_of` is the
-- `error` property of a body, `none` where it is empty or missing.
pub record Client (J : Type 0) : Type 0 where
  pub base : Text
  pub key : Option Text
  pub fetch : Request → Outcome (Response J)
  pub error_of : J → Option Text

abbrev pub key_headers : Option Text → List (Text × Text)
key_headers none = []
key_headers (some key) = (text "X-API-Key", key) ∷ []

unfoldable pub failed : Option Text → ℕ → Text
failed (some message) status = message
failed none status = text "Request failed: " ++ decimal status

module _ {J : Type 0} (client : Client J) where
  -- the last half of `request`
  unfoldable pub read_response : Response J → Outcome J
  read_response res = do
    data' ← res.json
    if res.ok_status then ok data' else throws (error (failed (client.error_of data') res.status))

  unfoldable pub request : Method → Text → Option Text → Outcome J
  request method path body = do
    res ← client.fetch (record {
      method = method;
      url = client.base ++ path;
      headers = (text "Content-Type", text "application/json") ∷ key_headers client.key;
      body = body;
    })
    read_response res

  unfoldable pub get : Text → Outcome J
  get path = request method_get path none

  unfoldable pub post : Text → Option Text → Outcome J
  post path body = request method_post path body

  unfoldable pub put : Text → Option Text → Outcome J
  put path body = request method_put path body

  unfoldable pub del : Text → Outcome J
  del path = request method_delete path none
