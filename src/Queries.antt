-- ===== src/Queries.antt =====
-- The queries and mutations of the console: web/src/features/functions/queries.ts,
-- web/src/features/triggers/queries.ts and web/src/features/projects/queries.ts, over the query
-- library (its matching of keys is the parameter `covers`) and the API client with its middleware
-- (the reading of a good response by openapi-fetch is the parameter `read`).
pub mod Functions
pub mod Mutations
pub mod Triggers
pub mod Projects
pub mod Raw
pub mod Laws
pub mod Failures
pub mod Keys
pub mod Sample
mod Tests
use nanas.Prelude.{
  ℕ, ◌≡◌, Bool, true, false, not, ◌||◌, List, [], ◌∷◌, ◌++◌, Option, none, some, if◌then◌else◌,
  or_else, and_then,
}
use nanas.Prelude.Text.{Text}
use nanas.Prelude.Json
use nanas.Prelude.Json.{Json, property}
use nanas.Http.{Response}
use nanas.Web.Problem.{ProblemBody, ProblemError}
use nanas.Web.Session.{SessionState, truthy_json, not_null}
use nanas.Web.Client
use nanas.Web.Client.{Outcome, on_response}
use nanas.Web.LocalCache
use nanas.Web.LocalCache.{CachedItem, Parsed, World, storage_key, add_cached}

-- One element of a query key.
pub data Part : Type 0 where
  word : Text → Part
  number : ℕ → Part
  given : Json → Part
  missing : Part

abbrev pub Key : Type 0
Key = List Part

pub record ApiRequest : Type 0 where
  pub method : Text
  pub path : Text
  pub params : List (Text × Text)
  pub query : List (Text × ℕ)
  pub body : Option Json

-- What a call of the API client gives: `none` is `undefined`.
pub record Fetched : Type 0 where
  pub data_of : Option Json
  pub error_of : Option Json

pub data Result : Type 0 where
  threw_problem : ProblemError → Result
  threw_value : Json → Result
  threw_type_error : Result
  value : Option Json → Result

-- `if (error) throw error`, before what is read of the data.
unfoldable pub throw_error : Fetched → Result → Result
throw_error f result = elim f.error_of [
  | none ↦ result
  | some e ↦ if truthy_json e then threw_value e else result
]

-- `(data as ...)?.name ?? otherwise`
unfoldable pub field_or : Text → Json → Option Json → Option Json
field_or name otherwise d = some (or_else (not_null (and_then d (property name))) otherwise)

-- `(data as ...).name ?? otherwise`: a field of `undefined` or `null` cannot be read.
unfoldable pub read_field : Text → Json → Option Json → Result
unfolding field_or
read_field name otherwise none = threw_type_error
read_field name otherwise (some Json.null) = threw_type_error
read_field name otherwise (some v) = value (field_or name otherwise (some v))

-- A query of the library; `refetch_interval` is in milliseconds, `none` is `false`.
pub record Query : Type 0 where
  pub query_key : Key
  pub enabled : Bool
  pub request : ApiRequest
  pub select : Fetched → Result
  pub refetch_interval : Option Json → Option ℕ

abbrev pub never : Option Json → Option ℕ
never d = none

-- The call of a query function: the response goes through the middleware first.
module _ (parse : Text → Option Json) (as_body : Json → ProblemBody)
    (read : Response → Fetched) where
  unfoldable pub run_query : Text → SessionState → Query → Response → Result
  unfolding on_response
  run_query language s q response = elim ((on_response parse as_body language s response).1) [
    | Outcome.returned r ↦ q.select (read r)
    | Outcome.thrown e ↦ threw_problem e
  ]

-- What a mutation does when it has succeeded.
pub data Effect : Type 0 where
  remember : (scope project_id : Text) → CachedItem → Effect
  invalidate : Key → Effect

-- The local cache, and the keys that were invalidated.
pub record Store : Type 0 where
  pub world : World
  pub invalidated : List Key

-- The effects in order; an exception of the local cache ends them. The first component is whether
-- there was none.
module _ (parse : Text → Parsed) (stringify : List CachedItem → Text) (accepts : Text → Text → Bool)
    (now : ℕ) where
  unfoldable pub run_effects : List Effect → Store → Bool × Store
  unfolding add_cached storage_key
  run_effects [] s = (true, s)
  run_effects (remember scope pid item ∷ effects) s =
      let w = s.world in
      elim (add_cached parse stringify accepts (storage_key scope pid) now item w) [
        | LocalCache.returned w' items ↦ run_effects effects (record s { world = w' })
        | LocalCache.failed w' ↦ (false, record s { world = w' })
      ]
  run_effects (invalidate k ∷ effects) s =
      run_effects effects (record s { invalidated = k ∷ s.invalidated })

-- A key is stale where an invalidated key covers it.
unfoldable pub is_stale : (covers : Key → Key → Bool) → List Key → Key → Bool
is_stale covers [] k = false
is_stale covers (p ∷ ps) k = covers p k || is_stale covers ps k
