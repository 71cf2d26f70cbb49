-- ===== src/Queries/Keys.antt =====
-- The keys of the queries: a key says all of what the query asks for but the size of a page, so that
-- two queries that share an entry of the cache share its content.
use nanas.Prelude.{
  ℕ, ◌-◌, ◌*◌, ◌≡◌, refl, sym, ◌∙◌, ap, true, [], ◌∷◌, Option, none, some, arith, if◌then◌else◌,
}
use nanas.Prelude.Text.{Text, codes, text_eq}
use nanas.Prelude.Json.{Json}
use nanas.Http.{truthy}
use nanas.Queries.{word, number, given, Key, ApiRequest, Query}
use nanas.Queries.Functions.{
  functions_list, function_detail, function_versions, function_deployments, deployment_by_id,
  build_status, entrypoint, get, pid_param, fid_param, entrypoint_path,
}
use nanas.Queries.Triggers
use nanas.Queries.Projects

-- A use of one of the query hooks.
pub data Hook : Type 0 where
  functions_list_hook : (pid : Option Text) → (page page_size : ℕ) → (filters : Json) → Hook
  detail_hook : (pid fid : Option Text) → Hook
  versions_hook : (pid fid : Option Text) → Hook
  deployments_hook : (pid fid : Option Text) → Hook
  deployment_hook : (did : Option Text) → (option : Option (Option ℕ)) → Hook
  build_hook : (pid fid : Text) → (vid : Option Text) → Hook
  entrypoint_hook : (pid fid : Text) → Hook
  triggers_hook : (pid : Option Text) → Hook
  trigger_hook : (pid tid : Option Text) → Hook
  projects_hook : (token : Option Text) → Hook
  project_hook : (token pid : Option Text) → Hook

unfoldable pub query_of : Hook → Query
unfolding functions_list function_detail function_versions function_deployments deployment_by_id
    build_status entrypoint Triggers.triggers_list Triggers.trigger_status Projects.projects_list
    Projects.project
query_of (functions_list_hook pid page page_size filters) =
    functions_list pid page page_size filters
query_of (detail_hook pid fid) = function_detail pid fid
query_of (versions_hook pid fid) = function_versions pid fid
query_of (deployments_hook pid fid) = function_deployments pid fid
query_of (deployment_hook did option) = deployment_by_id did option
query_of (build_hook pid fid vid) = build_status pid fid vid
query_of (entrypoint_hook pid fid) = entrypoint pid fid
query_of (triggers_hook pid) = Triggers.triggers_list pid
query_of (trigger_hook pid tid) = Triggers.trigger_status pid tid
query_of (projects_hook token) = Projects.projects_list token
query_of (project_hook token pid) = Projects.project token pid

-- The size of a page of the list of functions; the other queries have none.
abbrev pub page_size_of : (otherwise : ℕ) → Hook → ℕ
page_size_of otherwise (functions_list_hook pid page page_size filters) = page_size
page_size_of otherwise h = otherwise

-- The request that a key stands for.
unfoldable request_of : (page_size : ℕ) → Key → ApiRequest
request_of size (word f ∷ word pid ∷ word kind ∷ number page ∷ given filters ∷ []) =
    record (get (codes "/v1/projects/{pid}/functions") (pid_param pid ∷ [])) {
      query = (codes "limit", size) ∷ (codes "offset", (page - 1) * size) ∷ [];
    }
request_of size (word f ∷ word pid ∷ word a ∷ word b ∷ []) =
    if text_eq f (codes "functions")
    then (if text_eq a (codes "detail")
        then get (codes "/v1/projects/{pid}/functions/{fid}") (pid_param pid ∷ fid_param b ∷ [])
        else if text_eq a (codes "versions")
        then get (codes "/v1/projects/{pid}/functions/{fid}/versions")
            (pid_param pid ∷ fid_param b ∷ [])
        else get (codes "/v1/projects/{pid}/functions/{fid}/deployments")
            (pid_param pid ∷ fid_param b ∷ []))
    else if text_eq f (codes "build")
    then get (codes "/v1/projects/{pid}/functions/{fid}/versions/{vid}/build")
        (pid_param pid ∷ fid_param a ∷ (codes "vid", b) ∷ [])
    else get (codes "/v1/projects/{pid}/triggers/{tid}/status")
        (pid_param pid ∷ (codes "tid", b) ∷ [])
request_of size (word f ∷ word a ∷ word b ∷ []) =
    if text_eq f (codes "entrypoint")
    then get entrypoint_path (pid_param a ∷ fid_param b ∷ [])
    else if text_eq f (codes "triggers")
    then get (codes "/v1/projects/{pid}/triggers") (pid_param a ∷ [])
    else get (codes "/v1/projects/{pid}") (pid_param b ∷ [])
request_of size (word f ∷ word a ∷ []) =
    if text_eq f (codes "deployments")
    then get (codes "/v1/deployments/{did}") ((codes "did", a) ∷ [])
    else get (codes "/v1/projects") []
request_of size k = get [] []

request_of-query_key :
    (h : Hook) (size : ℕ)
    → (query_of h).enabled ≡ true
    → request_of (page_size_of size h) (query_of h).query_key ≡ (query_of h).request
unfolding query_of request_of text_eq
request_of-query_key (functions_list_hook pid page page_size filters) size on = rw on refl
request_of-query_key (detail_hook pid fid) size on = rw on refl
request_of-query_key (versions_hook pid fid) size on = rw on refl
request_of-query_key (deployments_hook pid fid) size on = rw on refl
request_of-query_key (deployment_hook did option) size on = rw on refl
request_of-query_key (build_hook pid fid none) size on = absurd (cc (on))
request_of-query_key (build_hook pid fid (some vid)) size on = refl
request_of-query_key (entrypoint_hook pid fid) size on = refl
request_of-query_key (triggers_hook pid) size on = rw on refl
request_of-query_key (trigger_hook pid tid) size on = rw on refl
request_of-query_key (projects_hook token) size on = refl
request_of-query_key (project_hook token pid) size on =
    let there : truthy pid ≡ true = ground (arith, on) in rw there refl

-- Two queries that are enabled, with the same key and the same size of a page, make the same
-- request.
pub query_key_determines :
    (a b : Hook) (size : ℕ)
    → (query_of a).enabled ≡ true
    → (query_of b).enabled ≡ true
    → (query_of a).query_key ≡ (query_of b).query_key
    → page_size_of size a ≡ page_size_of size b
    → (query_of a).request ≡ (query_of b).request
query_key_determines a b size on_a on_b same sizes =
    sym (request_of-query_key a size on_a)
    ∙ ap (request_of (page_size_of size a)) same
    ∙ ap (λ n. request_of n (query_of b).query_key) sizes
    ∙ request_of-query_key b size on_b
