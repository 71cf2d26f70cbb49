-- ===== src/Queries/Mutations.antt =====
-- web/src/features/functions/queries.ts: what the mutations of functions ask for, and what they do
-- when they have succeeded. The variables of a mutation are the body as it is given.
use nanas.Prelude.{List, [], ◌∷◌, ◌++◌, Option, none, some}
use nanas.Prelude.Text.{Text, codes}
use nanas.Prelude.Json.{Json, str, obj, field, end}
use nanas.Queries.{ApiRequest, Fetched, Result, value, throw_error, Effect, remember, invalidate}
use nanas.Queries.Functions.{
  all_key, versions_key, deployments_key, entrypoint_key, entrypoint_path, post, pid_param,
  fid_param,
}

pub record FunctionRecord : Type 0 where
  pub fn_id : Text
  pub name : Text

pub record VersionRegisterResult : Type 0 where
  pub version_id : Text
  pub version : Text
  pub build_job_id : Text
  pub build_status : Text

-- What each mutation makes of the answer.
unfoldable pub mutation_result : Fetched → Result
unfolding throw_error
mutation_result f = throw_error f (value f.data_of)

abbrev pub of_function : (path : Text) → (pid fid : Text) → Option Json → ApiRequest
of_function path pid fid body = post path (pid_param pid ∷ fid_param fid ∷ []) body

unfoldable pub create_function : (pid : Text) → (vars : Json) → ApiRequest
create_function pid vars =
    post (codes "/v1/projects/{pid}/functions") (pid_param pid ∷ []) (some vars)

unfoldable pub created : (pid : Text) → FunctionRecord → List Effect
unfolding all_key
created pid fn =
    remember (codes "functions") pid
      (record { id = fn.fn_id; name = some fn.name; meta = none; ts = 0 })
    ∷ invalidate (all_key pid)
    ∷ []

unfoldable pub presign_artifact : (pid fid : Text) → (vars : Json) → ApiRequest
presign_artifact pid fid vars =
    of_function (codes "/v1/projects/{pid}/functions/{fid}/artifacts/presign") pid fid (some vars)

unfoldable pub register_version : (pid fid : Text) → (vars : Json) → ApiRequest
register_version pid fid vars =
    of_function (codes "/v1/projects/{pid}/functions/{fid}/versions") pid fid (some vars)

unfoldable pub registered : (pid fid : Text) → VersionRegisterResult → List Effect
unfolding versions_key
registered pid fid v =
    remember (codes "versions:" ++ fid) pid (record {
      id = v.version_id;
      name = some v.version;
      meta = some (
          obj (
            field (codes "build_status") (str v.build_status)
              (field (codes "build_job_id") (str v.build_job_id) end)));
      ts = 0;
    })
    ∷ invalidate (versions_key pid fid)
    ∷ []

unfoldable pub deploy : (pid fid : Text) → (vars : Json) → ApiRequest
deploy pid fid vars =
    of_function (codes "/v1/projects/{pid}/functions/{fid}/deploy") pid fid (some vars)

unfoldable pub deployed : (pid fid : Text) → List Effect
unfolding all_key deployments_key
deployed pid fid = invalidate (deployments_key pid fid) ∷ invalidate (all_key pid) ∷ []

unfoldable pub rollback : (pid fid : Text) → ApiRequest
rollback pid fid =
    of_function (codes "/v1/projects/{pid}/functions/{fid}/deployments/rollback") pid fid none

unfoldable pub rolled_back : (pid fid : Text) → List Effect
unfolding deployments_key
rolled_back pid fid = invalidate (deployments_key pid fid) ∷ []

unfoldable pub invoke : (pid fid : Text) → (vars : Json) → ApiRequest
invoke pid fid vars =
    of_function (codes "/v1/projects/{pid}/functions/{fid}/invoke") pid fid (some vars)

unfoldable pub invoke_async : (pid fid : Text) → (vars : Json) → ApiRequest
invoke_async pid fid vars =
    of_function (codes "/v1/projects/{pid}/functions/{fid}/invoke/async") pid fid (some vars)

unfoldable pub upsert_entrypoint : (pid fid : Text) → (vars : Json) → ApiRequest
upsert_entrypoint pid fid vars = of_function entrypoint_path pid fid (some vars)

unfoldable pub upserted : (pid fid : Text) → List Effect
upserted pid fid = invalidate (entrypoint_key pid fid) ∷ []
