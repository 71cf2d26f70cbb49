-- ===== src/Functions/Editor.antt =====
-- web/src/features/functions/EditorTab.tsx: the editor of a function's source files. JSON.parse
-- (with the message where it throws) and JSON.stringify are parameters.
pub mod Paths
pub mod Invariant
pub mod Publish
mod Tests
use nanas.Prelude.{
  ℕ, zero, suc, ◌==◌, Bool, true, false, not, ◌&&◌, ◌||◌, List, [], ◌∷◌, ◌++◌, map, length, keep,
  find, Option, none, some, if◌then◌else◌, leb, or_else, and_then, ◌⊎◌, inl, inr, is_some,
}
use nanas.Prelude.Text.{Text, codes, text_eq, is_empty, trim}
use nanas.Prelude.Json.{Json, Fields, Items, str, arr, obj, nil, cons, field, end}
use nanas.Http.{truthy}
use nanas.Web.Problem.{Thrown, error}
use nanas.Queries.{word, Key, ApiRequest, Effect, invalidate}
use nanas.Queries.Functions.{versions_key, post, pid_param, fid_param}
use nanas.Queries.Mutations.{VersionRegisterResult, register_version, registered}

pub data Runtime : Type 0 where
  node : Runtime
  go : Runtime
  python : Runtime
  wasm : Runtime

pub record SourceFile : Type 0 where
  pub path : Text
  pub content : Text

-- `runtime` and `env` may be missing in what the server gives.
pub record DraftPayload : Type 0 where
  pub fn_id : Text
  pub files : List SourceFile
  pub env : Option Json
  pub runtime : Option Runtime

abbrev pub runtime_text : Runtime → Text
runtime_text node = codes "node"
runtime_text go = codes "go"
runtime_text python = codes "python"
runtime_text wasm = codes "wasm"

unfoldable pub starters : Runtime → List SourceFile
starters node =
    record {
      path = codes "index.js";
      content =
          codes
            "// Default export receives { input, env, ctx } and returns the response body.\nexport default async function handler({ input, env, ctx }) {\n  return { ok: true, echo: input };\n}\n";
    }
    ∷ []
starters go =
    record {
      path = codes "main.go";
      content =
          codes
            "package main\n\nimport (\n\t\"context\"\n)\n\n// Handler is the function entrypoint. The runtime injects context, input bytes,\n// env vars, and tenant DB / object-store configuration.\nfunc Handler(ctx context.Context, input []byte) ([]byte, error) {\n\treturn []byte(`{\"ok\":true}`), nil\n}\n";
    }
    ∷ []
starters python =
    record {
      path = codes "main.py";
      content = codes "def handler(input, env, ctx):\n    return {\"ok\": True, \"echo\": input}\n";
    }
    ∷ []
starters wasm =
    record {
      path = codes "README.md";
      content =
          codes "# WASM\n\nProvide a pre-compiled `.wasm` artifact via the artifact upload tab.\n";
    }
    ∷ []

pub record Editor : Type 0 where
  pub files : List SourceFile
  pub active_path : Text
  pub runtime : Runtime
  pub env_text : Text
  pub version : Text
  pub error : Option Thrown

unfoldable pub fresh : Editor
fresh = record {
  files = [];
  active_path = [];
  runtime = node;
  env_text = codes "{}";
  version = codes "0.1.0";
  error = none;
}

-- What the query gives: a default where the server has no draft.
unfoldable pub draft_of : (fid : Text) → Option DraftPayload → DraftPayload
draft_of fid d =
    or_else d (record { fn_id = fid; files = []; env = some (obj end); runtime = some node })

-- `files[0]?.path ?? ''`
unfoldable pub first_path : List SourceFile → Text
first_path [] = []
first_path (f ∷ fs) = f.path

-- The effect that runs when a draft arrives; `print` is `JSON.stringify` with an indent of two.
unfoldable pub hydrate : (print : Json → Text) → DraftPayload → Editor → Editor
unfolding starters first_path
hydrate print d e =
    let initial_files = if leb 1 (length d.files) then d.files else starters node in
    record e {
      files = initial_files;
      active_path = first_path initial_files;
      runtime = or_else d.runtime node;
      env_text = print (or_else d.env (obj end));
    }

abbrev pub has_path : Text → SourceFile → Bool
has_path p f = text_eq f.path p

-- `files.findIndex((f) => f.path === activePath)`; `none` is -1.
unfoldable pub index_of_path : Text → List SourceFile → Option ℕ
index_of_path p [] = none
index_of_path p (f ∷ fs) =
    if has_path p f
    then some 0
    else elim (index_of_path p fs) [ none ↦ none | some i ↦ some (suc i) ]

-- `prev.map((f, i) => (i === activeIndex ? { ...f, content } : f))`
unfoldable pub set_content : ℕ → (content : Text) → List SourceFile → List SourceFile
set_content i content [] = []
set_content zero content (f ∷ fs) = record f { content = content } ∷ fs
set_content (suc i) content (f ∷ fs) = f ∷ set_content i content fs

unfoldable pub update_active_content : (content : Text) → Editor → Editor
unfolding index_of_path set_content
update_active_content content e = elim (index_of_path e.active_path e.files) [
  | none ↦ e
  | some i ↦ record e { files = set_content i content e.files }
]

pub data Notice : Type 0 where
  path_exists : Notice
  keep_one_file : Notice

-- `name` is the answer to the prompt.
unfoldable pub add_file : (name : Option Text) → Editor → Editor × Option Notice
add_file name e =
    let path = or_else name [] in
    if not (truthy name)
    then (e, none)
    else if is_some (find (has_path path) e.files)
    then (e, some path_exists)
    else (
      record e {
        files = e.files ++ (record { path = path; content = [] } ∷ []);
        active_path = path;
      },
      none,
    )

unfoldable pub remove_file : (path : Text) → Editor → Editor × Option Notice
unfolding first_path
remove_file path e =
    let next' = keep (λ (f : SourceFile). not (has_path path f)) e.files in
    if leb (length e.files) 1 then (e, some keep_one_file) else (
      record e {
        files = next';
        active_path = if text_eq e.active_path path then first_path next' else e.active_path;
      },
      none,
    )

unfoldable pub swap_runtime : Runtime → Editor → Editor
unfolding starters first_path
swap_runtime r e =
    if length e.files == 0
    then record e { runtime = r; files = starters r; active_path = first_path (starters r) }
    else record e { runtime = r }

-- The handlers of the page; a click on a row is for a file that is shown.
pub data Event : Type 0 where
  edited : (content : Text) → Event
  added : (name : Option Text) → Event
  removed : (path : Text) → Event
  swapped : Runtime → Event
  selected : (path : Text) → Event
  env_edited : (text : Text) → Event
  version_edited : (text : Text) → Event

unfoldable pub react : Event → Editor → Editor
unfolding update_active_content add_file remove_file swap_runtime
react (edited content) e = update_active_content content e
react (added name) e = (add_file name e).0
react (removed path) e = (remove_file path e).0
react (swapped r) e = swap_runtime r e
react (selected path) e =
    if is_some (find (has_path path) e.files) then record e { active_path = path } else e
react (env_edited text) e = record e { env_text = text }
react (version_edited text) e = record e { version = text }

unfoldable pub react_all : List Event → Editor → Editor
unfolding react
react_all [] e = e
react_all (event ∷ events) e = react_all events (react event e)
