-- ===== src/Functions/Versions.antt =====
-- web/src/features/functions/VersionsTab.tsx: the upload of an artifact and the registration of a
-- version. The upload is the request of the storage browser's card with its events; the digits of a
-- status are those of its message.
pub mod Laws
use nanas.Prelude.{
  ℕ, Bool, true, false, not, ◌&&◌, ◌||◌, List, [], ◌∷◌, ◌++◌, map, length, Option, none, some,
  if◌then◌else◌, leb, ltb, or_else, is_some, ◌⊎◌, inl, inr,
}
use nanas.Prelude.Text.{Text, codes, text_eq, is_empty}
use nanas.Prelude.Json.{Json, Fields, str, obj, field, end}
use nanas.Web.Problem
use nanas.Web.Problem.{Thrown}
use nanas.Web.Session.{SessionState}
use nanas.Web.Client.{resolve_api_http_url, xhr_api_headers}
use nanas.Storage.Upload.{File, Progress, percent, rate, XhrRequest, XhrEnd, loaded, no_answer}
use nanas.Queries.{ApiRequest, Effect}
use nanas.Queries.Mutations.{VersionRegisterResult, presign_artifact, register_version, registered}

pub data Runtime : Type 0 where
  go : Runtime
  node : Runtime
  python : Runtime

abbrev pub runtime_text : Runtime → Text
runtime_text go = codes "go"
runtime_text node = codes "node"
runtime_text python = codes "python"

pub record Tab : Type 0 where
  pub version : Text
  pub runtime : Runtime
  pub checksum : Text
  pub artifact_key : Text
  pub file : Option File
  pub progress : Option Progress
  pub error : Option Thrown

unfoldable pub fresh : Tab
fresh = record {
  version = [];
  runtime = node;
  checksum = [];
  artifact_key = [];
  file = none;
  progress = none;
  error = none;
}

-- The answer to a presign request.
pub record Presigned : Type 0 where
  pub upload_url : Text
  pub method : Text
  pub artifact_key : Text

-- The request that the button makes, where there is a file and a version.
unfoldable pub presign_request : (pid fid : Text) → Tab → Option ApiRequest
unfolding presign_artifact
presign_request pid fid tab =
    if is_some tab.file && not (is_empty tab.version)
    then some (presign_artifact pid fid (obj (field (codes "version") (str tab.version) end)))
    else none

unfoldable pub start : Tab → Tab
start tab = record tab { error = none }

abbrev pub stopped : Thrown → Tab → Tab
stopped e tab = record tab { error = some e; progress = none }

unfoldable pub presign_settled : Thrown ⊎ Presigned → Tab → Tab
presign_settled (inl e) tab = stopped e tab
presign_settled (inr ps) tab = record tab {
  artifact_key = ps.artifact_key;
  progress = some (percent 0);
}

-- The request of the upload; `file` is that of the time when the button was pressed.
unfoldable pub upload_request :
    (base_url : Text) (window : Option Text) (language : Text)
    → SessionState
    → Presigned
    → File
    → XhrRequest
upload_request base_url window language session ps file = record {
  method = ps.method;
  url = resolve_api_http_url base_url window ps.upload_url;
  headers =
      xhr_api_headers language session ++ ((codes "Content-Type", codes "application/gzip") ∷ []);
  body = file;
}

unfoldable pub on_progress : (computable : Bool) → (loaded total : ℕ) → Tab → Tab
unfolding rate
on_progress computable done total tab =
    if computable then record tab { progress = some (rate done total) } else tab

unfoldable pub on_end : XhrEnd → Tab → Tab
on_end (loaded status message) tab =
    if leb 200 status && ltb status 300
    then record tab { progress = none }
    else stopped (Problem.error message) tab
on_end no_answer tab = stopped (Problem.error (codes "Network error")) tab

-- `...(value ? { name: value } : {})`
abbrev pub field_if : Text → Text → Fields → Fields
field_if name value rest = if is_empty value then rest else field name (str value) rest

unfoldable pub register_vars : Tab → Json
register_vars tab = obj (
    field (codes "version") (str tab.version) (
      field (codes "runtime") (str (runtime_text tab.runtime)) (
        field_if (codes "checksum") tab.checksum
          (field_if (codes "artifact_key") tab.artifact_key end))))

unfoldable pub register_request : (pid fid : Text) → Tab → ApiRequest
unfolding register_vars register_version
register_request pid fid tab = register_version pid fid (register_vars tab)

unfoldable pub register_settled :
    (pid fid : Text) → Thrown ⊎ VersionRegisterResult → Tab → Tab × List Effect
unfolding registered
register_settled pid fid (inl e) tab = (record tab { error = some e }, [])
register_settled pid fid (inr v) tab = (
  record tab { version = []; checksum = []; artifact_key = []; file = none },
  registered pid fid v,
)

unfoldable pub upload_disabled : (is_pending : Bool) → Tab → Bool
upload_disabled is_pending tab =
    not (is_some tab.file) || is_empty tab.version || is_pending || is_some tab.progress

unfoldable pub register_disabled : (is_pending : Bool) → Tab → Bool
register_disabled is_pending tab = is_empty tab.version || is_pending

-- What can happen to the tab.
pub data Event : Type 0 where
  enter_version : Text → Event
  choose_runtime : Runtime → Event
  enter_checksum : Text → Event
  pick_file : Option File → Event
  press_upload : Event
  presign_answer : Thrown ⊎ Presigned → Event
  progressed : (computable : Bool) → (done total : ℕ) → Event
  ended : XhrEnd → Event
  press_register : Event
  register_answer : (pid fid : Text) → Thrown ⊎ VersionRegisterResult → Event

unfoldable pub react : Event → Tab → Tab
unfolding start presign_settled on_progress on_end register_settled
react (enter_version t) tab = record tab { version = t }
react (choose_runtime r) tab = record tab { runtime = r }
react (enter_checksum t) tab = record tab { checksum = t }
react (pick_file f) tab = record tab { file = f }
react press_upload tab = start tab
react (presign_answer a) tab = presign_settled a tab
react (progressed computable done total) tab = on_progress computable done total tab
react (ended e) tab = on_end e tab
react press_register tab = start tab
react (register_answer pid fid a) tab = (register_settled pid fid a tab).0

unfoldable pub react_all : List Event → Tab → Tab
unfolding react
react_all [] tab = tab
react_all (e ∷ es) tab = react_all es (react e tab)
