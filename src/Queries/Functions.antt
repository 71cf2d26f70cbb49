-- ===== src/Queries/Functions.antt =====
-- web/src/features/functions/queries.ts: the keys, queries and mutations of functions.
use nanas.Prelude.{
  ℕ, ◌-◌, ◌*◌, Bool, false, not, ◌&&◌, ◌||◌, List, [], ◌∷◌, Option, none, some, if◌then◌else◌,
  or_else, and_then,
}
use nanas.Prelude.Text.{Text, codes, text_eq}
use nanas.Prelude.Json.{Json, null, arr, nil, num, property, as_text}
use nanas.Http.{truthy}
use nanas.Queries.{
  Part, word, number, given, missing, Key, ApiRequest, Fetched, threw_value, value, throw_error,
  field_or, Query, never,
}
use nanas.Web.Session.{truthy_json}

abbrev pub functions : Part
functions = word (codes "functions")

unfoldable pub all_key : (pid : Text) → Key
all_key pid = functions ∷ word pid ∷ []

unfoldable pub list_key : (pid : Text) → (page : ℕ) → (filters : Json) → Key
list_key pid page filters =
    functions ∷ word pid ∷ word (codes "list") ∷ number page ∷ given filters ∷ []

unfoldable pub detail_key : (pid fid : Text) → Key
detail_key pid fid = functions ∷ word pid ∷ word (codes "detail") ∷ word fid ∷ []

unfoldable pub versions_key : (pid fid : Text) → Key
versions_key pid fid = functions ∷ word pid ∷ word (codes "versions") ∷ word fid ∷ []

unfoldable pub deployments_key : (pid fid : Text) → Key
deployments_key pid fid = functions ∷ word pid ∷ word (codes "deployments") ∷ word fid ∷ []

-- `['functions', 'noop']`
abbrev pub noop_key : Key
noop_key = functions ∷ word (codes "noop") ∷ []

abbrev pub get : (path : Text) → (params : List (Text × Text)) → ApiRequest
get path params = record {
  method = codes "GET";
  path = path;
  params = params;
  query = [];
  body = none;
}

abbrev pub post : (path : Text) → (params : List (Text × Text)) → Option Json → ApiRequest
post path params body = record {
  method = codes "POST";
  path = path;
  params = params;
  query = [];
  body = body;
}

abbrev pub pid_param : Text → Text × Text
pid_param pid = (codes "pid", pid)

abbrev pub fid_param : Text → Text × Text
fid_param fid = (codes "fid", fid)

unfoldable pub functions_list :
    (pid : Option Text) → (page page_size : ℕ) → (filters : Json) → Query
unfolding list_key throw_error field_or
functions_list pid page page_size filters = record {
  query_key = if truthy pid then list_key (or_else pid []) page filters else noop_key;
  enabled = truthy pid;
  request = record (get (codes "/v1/projects/{pid}/functions") (pid_param (or_else pid []) ∷ [])) {
    query = (codes "limit", page_size) ∷ (codes "offset", (page - 1) * page_size) ∷ [];
  };
  select =
      λ (f : Fetched). throw_error f (value (field_or (codes "functions") (arr nil) f.data_of));
  refetch_interval = never;
}

-- The queries of one function, which wait for both identifiers.
abbrev pub of_function :
    (key : Text → Text → Key)
    → (path : Text) → (read : Option Json → Option Json) → (pid fid : Option Text) → Query
of_function key path read pid fid = record {
  query_key = if truthy pid && truthy fid then key (or_else pid []) (or_else fid []) else noop_key;
  enabled = truthy pid && truthy fid;
  request = get path (pid_param (or_else pid []) ∷ fid_param (or_else fid []) ∷ []);
  select = λ (f : Fetched). throw_error f (value (read f.data_of));
  refetch_interval = never;
}

unfoldable pub function_detail : (pid fid : Option Text) → Query
unfolding detail_key throw_error
function_detail pid fid =
    of_function detail_key (codes "/v1/projects/{pid}/functions/{fid}") (λ d. d) pid fid

unfoldable pub function_versions : (pid fid : Option Text) → Query
unfolding versions_key throw_error field_or
function_versions pid fid =
    of_function versions_key (codes "/v1/projects/{pid}/functions/{fid}/versions")
      (field_or (codes "versions") (arr nil)) pid fid

unfoldable pub function_deployments : (pid fid : Option Text) → Query
unfolding deployments_key throw_error field_or
function_deployments pid fid =
    of_function deployments_key (codes "/v1/projects/{pid}/functions/{fid}/deployments")
      (field_or (codes "deployments") (arr nil)) pid fid

-- `options?.refetchInterval` is `none` where it is not given.
unfoldable pub deployment_by_id : (did : Option Text) → (option : Option (Option ℕ)) → Query
unfolding throw_error field_or
deployment_by_id did option = record {
  query_key =
      word (codes "deployments") ∷ word (if truthy did then or_else did [] else codes "noop") ∷ [];
  enabled = truthy did;
  request = get (codes "/v1/deployments/{did}") ((codes "did", or_else did []) ∷ []);
  select = λ (f : Fetched). throw_error f (value (field_or (codes "deployment") null f.data_of));
  refetch_interval = λ d. or_else option (some 1500);
}

unfoldable pub has_status : Text → Option Json → Bool
has_status status d = elim (and_then (and_then d (property (codes "build_status"))) as_text) [
  | none ↦ false
  | some s ↦ text_eq s status
]

-- `data && (... === 'complete' || ... === 'failed') ? false : 2500`; a value with a build status is
-- an object.
unfoldable pub build_interval : Option Json → Option ℕ
unfolding has_status
build_interval d =
    if has_status (codes "complete") d || has_status (codes "failed") d then none else some 2500

unfoldable pub build_status : (pid fid : Text) → (vid : Option Text) → Query
unfolding throw_error build_interval
build_status pid fid vid = record {
  query_key =
      word (codes "build")
      ∷ word pid
      ∷ word fid
      ∷ elim vid [ none ↦ missing | some v ↦ word v ]
      ∷ [];
  enabled = truthy vid;
  request =
      get (codes "/v1/projects/{pid}/functions/{fid}/versions/{vid}/build")
        (pid_param pid ∷ fid_param fid ∷ (codes "vid", or_else vid []) ∷ []);
  select = λ (f : Fetched). throw_error f (value f.data_of);
  refetch_interval = build_interval;
}

abbrev pub entrypoint_key : (pid fid : Text) → Key
entrypoint_key pid fid = word (codes "entrypoint") ∷ word pid ∷ word fid ∷ []

abbrev pub entrypoint_path : Text
entrypoint_path = codes "/v1/projects/{pid}/functions/{fid}/entrypoint"

-- `error.status === 404`; a status is written in its digits.
unfoldable pub is_404 : Json → Bool
is_404 e = elim (property (codes "status") e) [
  | none ↦ false
  | some v ↦ elim v [ num s ↦ text_eq s (codes "404") | _ ↦ false ]
]

unfoldable pub entrypoint : (pid fid : Text) → Query
unfolding is_404
entrypoint pid fid = record {
  query_key = entrypoint_key pid fid;
  enabled = truthy (some fid);
  request = get entrypoint_path (pid_param pid ∷ fid_param fid ∷ []);
  select = λ (f : Fetched). elim f.error_of [
    | none ↦ value f.data_of
    | some e ↦
        if not (truthy_json e)
        then value f.data_of
        else if is_404 e
        then value (some null)
        else threw_value e
  ];
  refetch_interval = never;
}
