-- ===== src/Queries/Projects.antt =====
-- web/src/features/projects/queries.ts: the keys, queries and mutations of projects.
use nanas.Prelude.{
  Bool, false, ◌&&◌, List, [], ◌∷◌, Option, none, some, if◌then◌else◌, or_else, and_then,
}
use nanas.Prelude.Text.{Text, codes, text_eq}
use nanas.Prelude.Json.{Json, arr, nil, obj, field, end, property, as_text}
use nanas.Http.{truthy}
use nanas.Queries.{
  word, Key, ApiRequest, Fetched, value, throw_error, Query, never, Effect, invalidate,
}
use nanas.Queries.Functions.{get, post, pid_param}

abbrev pub all_key : Key
all_key = word (codes "projects") ∷ []

unfoldable pub list_key : Key
list_key = word (codes "projects") ∷ word (codes "list") ∷ []

unfoldable pub detail_key : (pid : Text) → Key
detail_key pid = word (codes "projects") ∷ word (codes "detail") ∷ word pid ∷ []

unfoldable pub projects_list : (token : Option Text) → Query
unfolding list_key throw_error
projects_list token = record {
  query_key = list_key;
  enabled = truthy token;
  request = get (codes "/v1/projects") [];
  select = λ (f : Fetched).
      throw_error f
        (value (some (or_else f.data_of (obj (field (codes "projects") (arr nil) end)))));
  refetch_interval = never;
}

unfoldable pub is_pending : Option Json → Bool
is_pending d = elim (and_then (and_then d (property (codes "provision_status"))) as_text) [
  | none ↦ false
  | some s ↦ text_eq s (codes "pending")
]

-- The query waits for the identifier, so that its function does not throw for one that is missing.
unfoldable pub project : (token pid : Option Text) → Query
unfolding detail_key throw_error is_pending
project token pid = record {
  query_key = detail_key (if truthy pid then or_else pid [] else codes "noop");
  enabled = truthy token && truthy pid;
  request = get (codes "/v1/projects/{pid}") (pid_param (or_else pid []) ∷ []);
  select = λ (f : Fetched). throw_error f (value f.data_of);
  refetch_interval = λ d. if is_pending d then some 3000 else none;
}

unfoldable pub create_project : (vars : Json) → ApiRequest
create_project vars = post (codes "/v1/projects") [] (some vars)

unfoldable pub project_created : List Effect
unfolding list_key
project_created = invalidate list_key ∷ []
