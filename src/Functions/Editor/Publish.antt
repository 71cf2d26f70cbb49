-- ===== src/Functions/Editor/Publish.antt =====
-- web/src/features/functions/EditorTab.tsx: saving the draft, publishing a version, and what the
-- page shows of the active file. `parse` is JSON.parse, with the message where it throws.
pub mod Laws
use nanas.Prelude.{
  ℕ, zero, suc, Bool, true, false, not, ◌&&◌, ◌||◌, List, [], ◌∷◌, ◌++◌, map, get_elem?, Option,
  none, some, if◌then◌else◌, or_else, and_then, ◌⊎◌, inl, inr,
}
use nanas.Prelude.Text.{Text, codes, text_eq, is_empty, trim}
use nanas.Prelude.Json.{Json, Fields, Items, str, arr, obj, null, nil, cons, field, end}
use nanas.Web.Problem
use nanas.Web.Problem.{Thrown}
use nanas.Http.{truthy}
use nanas.Web.Session.{not_null}
use nanas.Queries.{
  word, missing, Key, ApiRequest, Fetched, value, throw_error, Query, never, Effect, invalidate,
}
use nanas.Queries.Functions.{versions_key, get, post, pid_param, fid_param}
use nanas.Queries.Mutations.{VersionRegisterResult, register_version, registered}
use nanas.Functions.Editor.{SourceFile, Runtime, runtime_text, Editor, index_of_path}

abbrev pub set_error : Option Thrown → Editor → Editor
set_error err e = record e { error = err }

module _ (parse : Text → Text ⊎ Json) where
  -- The fields of the object that the text of the environment holds, and the error that is shown.
  unfoldable pub parse_env : Editor → Editor × Option Fields
  parse_env e = elim (parse (if is_empty e.env_text then codes "{}" else e.env_text)) [
    | inl message ↦ (set_error (some (Problem.error message)) e, none)
    | inr v ↦ elim v [
      | obj fields ↦ (e, some fields)
      | _ ↦ (set_error (some (Problem.error (codes "object expected"))) e, none)
    ]
  ]

abbrev pub files_json : List SourceFile → Items
files_json [] = nil
files_json (f ∷ fs) =
    cons (obj (field (codes "path") (str f.path) (field (codes "content") (str f.content) end)))
      (files_json fs)

abbrev pub draft_key : (pid fid : Text) → Key
draft_key pid fid = word (codes "function") ∷ word pid ∷ word fid ∷ word (codes "draft") ∷ []

-- The query of the draft; a part of its key that is not known yet is `undefined`.
unfoldable pub draft_query : (pid fid : Option Text) → Query
unfolding throw_error
draft_query pid fid = record {
  query_key =
      word (codes "function")
      ∷ elim pid [ none ↦ missing | some p ↦ word p ]
      ∷ elim fid [ none ↦ missing | some f ↦ word f ]
      ∷ word (codes "draft")
      ∷ [];
  enabled = truthy pid && truthy fid;
  request =
      get (codes "/v1/projects/{pid}/functions/{fid}/draft")
        (pid_param (or_else pid []) ∷ fid_param (or_else fid []) ∷ []);
  select = λ (f : Fetched). throw_error f (
      value (
        some (
          or_else (not_null f.data_of) (
            obj (
              field (codes "fn_id") (str (or_else fid [])) (
                field (codes "files") (arr nil) (
                  field (codes "env") (obj end)
                    (field (codes "runtime") (str (codes "node")) end))))))));
  refetch_interval = never;
}

unfoldable pub draft_request : (pid fid : Text) → Fields → Editor → ApiRequest
draft_request pid fid env e =
    post (codes "/v1/projects/{pid}/functions/{fid}/draft") (pid_param pid ∷ fid_param fid ∷ []) (
      some (
        obj (
          field (codes "files") (arr (files_json e.files)) (
            field (codes "env") (obj env)
              (field (codes "runtime") (str (runtime_text e.runtime)) end)))))

unfoldable pub source_request : (pid fid : Text) → Editor → ApiRequest
source_request pid fid e =
    post (codes "/v1/projects/{pid}/functions/{fid}/source") (pid_param pid ∷ fid_param fid ∷ []) (
      some (
        obj (
          field (codes "version") (str e.version)
            (field (codes "files") (arr (files_json e.files)) end))))

pub record Source : Type 0 where
  pub artifact_key : Text
  pub checksum : Text

-- What a mutation has done: the requests it made, the page after it, and its effects in order.
pub record Done : Type 0 where
  pub requests : List ApiRequest
  pub editor : Editor
  pub effects : List Effect

abbrev pub invalid_env : Thrown
invalid_env = Problem.error (codes "invalid env")

-- The answers of the server are arguments: what was thrown, or the result.
module _ (parse : Text → Text ⊎ Json) (pid fid : Text) where
  unfoldable pub save_draft : (answer : Thrown ⊎ Json) → Editor → Done
  unfolding parse_env draft_request
  save_draft answer e =
      let (e', env) = parse_env parse e in
      elim env [
        | none ↦ record { requests = []; editor = set_error (some invalid_env) e'; effects = [] }
        | some fields ↦ elim answer [
          | inl err ↦ record {
            requests = draft_request pid fid fields e ∷ [];
            editor = set_error (some err) e';
            effects = [];
          }
          | inr saved ↦ record {
            requests = draft_request pid fid fields e ∷ [];
            editor = set_error none e';
            effects = invalidate (draft_key pid fid) ∷ [];
          }
        ]
      ]

  abbrev pub register_vars : Source → Editor → Json
  register_vars src e = obj (
      field (codes "version") (str e.version) (
        field (codes "runtime") (str (runtime_text e.runtime)) (
          field (codes "checksum") (str src.checksum)
            (field (codes "artifact_key") (str src.artifact_key) end))))

  unfoldable pub publish :
      (upload : Thrown ⊎ Source) → (register : Thrown ⊎ VersionRegisterResult) → Editor → Done
  unfolding parse_env source_request register_version registered versions_key
  publish upload register e =
      let (e', env) = parse_env parse e in
      elim env [
        | none ↦ record { requests = []; editor = set_error (some invalid_env) e'; effects = [] }
        | some fields ↦ elim upload [
          | inl err ↦ record {
            requests = source_request pid fid e ∷ [];
            editor = set_error (some err) e';
            effects = [];
          }
          | inr src ↦
              let made =
                source_request pid fid e ∷ register_version pid fid (register_vars src e) ∷ [] in
              elim register [
                | inl err ↦ record {
                  requests = made;
                  editor = set_error (some err) e';
                  effects = [];
                }
                | inr v ↦ record {
                  requests = made;
                  editor = set_error none e';
                  effects = registered pid fid v ++ (invalidate (versions_key pid fid) ∷ []);
                }
              ]
        ]
      ]

unfoldable pub publish_disabled : (is_pending : Bool) → Editor → Bool
publish_disabled is_pending e = is_pending || is_empty (trim e.version)

pub data Language : Type 0 where
  javascript : Language
  json : Language
  plain : Language

-- `path.endsWith(suffix)`
unfoldable pub ends_with : (suffix : Text) → Text → Bool
ends_with suffix [] = text_eq [] suffix
ends_with suffix (c ∷ s) = text_eq (c ∷ s) suffix || ends_with suffix s

unfoldable pub language_for : (path : Text) → Language
unfolding ends_with
language_for path =
    if ends_with (codes ".json") path
    then json
    else if ends_with (codes ".js") path
        || ends_with (codes ".ts") path
        || ends_with (codes ".go") path
        || ends_with (codes ".py") path
    then javascript
    else plain

-- What stands in the editor: the title, the text and its language.
unfoldable pub shown_file : Editor → Text × Text × Language
unfolding language_for index_of_path
shown_file e = elim (and_then (index_of_path e.active_path e.files) (get_elem? e.files)) [
  | none ↦ (codes "—", [], plain)
  | some f ↦ (f.path, f.content, language_for f.path)
]
