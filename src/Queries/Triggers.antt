-- ===== src/Queries/Triggers.antt =====
-- web/src/features/triggers/queries.ts: the keys, queries and mutations of triggers.
use nanas.Prelude.{Bool, ◌&&◌, List, [], ◌∷◌, ◌++◌, Option, some, if◌then◌else◌, or_else}
use nanas.Prelude.Text.{Text, codes}
use nanas.Prelude.Json.{Json, arr, nil, obj, field, end, bool}
use nanas.Http.{Response, truthy, is_ok}
use nanas.Web.Problem.{ProblemBody, ProblemError, is_problem, problem_error}
use nanas.Queries.{
  word, Key, ApiRequest, Fetched, value, throw_error, field_or, Query, never, Effect, invalidate,
}
use nanas.Queries.Functions.{get, pid_param}

unfoldable pub all_key : (pid : Text) → Key
all_key pid = word (codes "triggers") ∷ word pid ∷ []

unfoldable pub list_key : (pid : Text) → Key
list_key pid = word (codes "triggers") ∷ word pid ∷ word (codes "list") ∷ []

unfoldable pub detail_key : (pid tid : Text) → Key
detail_key pid tid = word (codes "triggers") ∷ word pid ∷ word (codes "detail") ∷ word tid ∷ []

unfoldable pub status_key : (pid tid : Text) → Key
status_key pid tid = word (codes "triggers") ∷ word pid ∷ word (codes "status") ∷ word tid ∷ []

abbrev pub noop_key : Key
noop_key = word (codes "triggers") ∷ word (codes "noop") ∷ []

unfoldable pub triggers_list : (pid : Option Text) → Query
unfolding list_key throw_error field_or
triggers_list pid = record {
  query_key = if truthy pid then list_key (or_else pid []) else noop_key;
  enabled = truthy pid;
  request = get (codes "/v1/projects/{pid}/triggers") (pid_param (or_else pid []) ∷ []);
  select = λ (f : Fetched). throw_error f (value (field_or (codes "triggers") (arr nil) f.data_of));
  refetch_interval = never;
}

unfoldable pub toggle_trigger : (pid tid : Text) → (enabled : Bool) → ApiRequest
toggle_trigger pid tid enabled = record {
  method = codes "PATCH";
  path = codes "/v1/projects/{pid}/triggers/{tid}";
  params = pid_param pid ∷ (codes "tid", tid) ∷ [];
  query = [];
  body = some (obj (field (codes "enabled") (bool enabled) end));
}

unfoldable pub toggled : (pid : Text) → List Effect
unfolding list_key
toggled pid = invalidate (list_key pid) ∷ []

unfoldable pub test_fire_path : (pid tid : Text) → Text
test_fire_path pid tid =
    codes "/v1/projects/" ++ (pid ++ (codes "/triggers/" ++ (tid ++ codes "/test-fire")))

pub data Fired : Type 0 where
  fired : Json → Fired
  threw_problem : ProblemError → Fired
  threw_error : Text → Fired

-- `res.json()`, and the reading of a value at the type `ProblemBody`, are the platform's.
unfoldable pub test_fired :
    (parse : Text → Option Json)
    → (as_body : Json → ProblemBody) → (language : Text) → Response
    → Fired
test_fired parse as_body language res =
    let body = or_else (parse res.text) Json.null in
    if is_ok res
    then fired body
    else if is_problem body
    then threw_problem (problem_error language res.status (as_body body))
    else threw_error (codes "Failed")

unfoldable pub trigger_status : (pid tid : Option Text) → Query
unfolding status_key throw_error
trigger_status pid tid = record {
  query_key =
      if truthy pid && truthy tid then status_key (or_else pid []) (or_else tid []) else noop_key;
  enabled = truthy pid && truthy tid;
  request =
      get (codes "/v1/projects/{pid}/triggers/{tid}/status")
        (pid_param (or_else pid []) ∷ (codes "tid", or_else tid []) ∷ []);
  select = λ (f : Fetched). throw_error f (value f.data_of);
  refetch_interval = λ d. some 5000;
}
