-- ===== src/Projects/Settings/Cards.antt =====
-- The cards of web/src/features/projects/ProjectSettingsTab.tsx on retention, recent events and
-- roles. A number that is entered is whole; `iso` is `toISOString` of the date of a text.
use nanas.Prelude.{
  ℕ, Bool, true, List, [], ◌∷◌, take, Option, none, some, if◌then◌else◌, or_else, or_option,
}
use nanas.Prelude.Text.{Text, codes, text_eq}
use nanas.Prelude.Json.{Json, items, arr, obj, field, end, num, str, property}
use nanas.Http.{Response, is_ok}
use nanas.Web.Session.{not_null, truthy_json}
use nanas.Queries.{word, Key, ApiRequest, Effect, invalidate, Query, value, throw_error, never}
use nanas.Queries.Functions.{get, pid_param}
use nanas.Queries.Raw.{of_project}

unfoldable pub retention_key : (pid : Text) → Key
retention_key pid = word (codes "projects") ∷ word pid ∷ word (codes "retention") ∷ []

unfoldable pub retention : (pid : Text) → Query
unfolding retention_key throw_error
retention pid = record {
  query_key = retention_key pid;
  enabled = true;
  request = get (codes "/v1/projects/{pid}/settings/retention") (pid_param pid ∷ []);
  select = λ f. throw_error f (value f.data_of);
  refetch_interval = never;
}

-- The two cells of the card, with their first values.
pub record Retention : Type 0 where
  pub logs : ℕ
  pub traces : ℕ

unfoldable pub first_retention : Retention
first_retention = record { logs = 30; traces = 7 }

-- The settings have arrived, or one of the sliders was moved.
pub data Change : Type 0 where
  arrived : (logs_days traces_days : ℕ) → Change
  move_logs : ℕ → Change
  move_traces : ℕ → Change

unfoldable pub change : Change → Retention → Retention
change (arrived logs_days traces_days) r = record { logs = logs_days; traces = traces_days }
change (move_logs n) r = record r { logs = n }
change (move_traces n) r = record r { traces = n }

unfoldable pub change_all : List Change → Retention → Retention
unfolding change
change_all [] r = r
change_all (c ∷ cs) r = change_all cs (change c r)

-- The button is not held back while the settings load, nor where they could not be read.
unfoldable pub save_disabled : (is_pending : Bool) → Bool
save_disabled is_pending = is_pending

unfoldable pub save_retention : (digits : ℕ → Text) → (pid : Text) → Retention → ApiRequest
save_retention digits pid r = record {
  method = codes "PATCH";
  path = codes "/v1/projects/{pid}/settings/retention";
  params = pid_param pid ∷ [];
  query = [];
  body = some (
      obj (
        field (codes "logs_days") (num (digits r.logs))
          (field (codes "traces_days") (num (digits r.traces)) end)));
}

unfoldable pub retention_saved : (pid : Text) → List Effect
unfolding retention_key
retention_saved pid = invalidate (retention_key pid) ∷ []

-- The recent events: any failure hides the card.
unfoldable pub audit_input : (pid : Text) → Text
unfolding of_project
audit_input pid = of_project pid (codes "/audit?limit=5")

unfoldable pub audit_of : (parse : Text → Option Json) → Response → Option Json
unfolding is_ok
audit_of parse res = if is_ok res then some (or_else (parse res.text) Json.null) else none

-- `audit.data?.events ?? []`, where the body is an object or null
unfoldable pub events_of : Json → List Json
events_of body = elim (property (codes "events") body) [ some (arr vs) ↦ items vs | _ ↦ [] ]

-- `e.name ?? e.other ?? otherwise`
unfoldable pub one_of : (name other : Text) → (otherwise : Json) → Json → Json
unfolding not_null
one_of name other otherwise e =
    or_else (or_option (not_null (property name e)) (not_null (property other e))) otherwise

unfoldable pub audit_row : (iso : Json → Text) → Json → Json × Text
unfolding one_of truthy_json
audit_row iso e =
    let created = one_of (codes "created_at") (codes "CreatedAt") (str []) e in
    (
      one_of (codes "action") (codes "Action") (str (codes "—")) e,
      if truthy_json created then take 19 (iso created) else [],
    )

-- The rows of the roles.
pub record PermissionRow : Type 0 where
  pub id : Text
  pub subject_id : Text
  pub email : Option Text
  pub role : Text
  pub resource : Option Text
  pub created_at : Text

pub data Variant : Type 0 where
  default success info outline : Variant

unfoldable pub role_badge : (role : Text) → Variant
role_badge role =
    if text_eq role (codes "admin")
    then default
    else if text_eq role (codes "developer")
    then success
    else if text_eq role (codes "viewer")
    then info
    else outline

pub record RoleCells : Type 0 where
  pub subject : Text
  pub is_owner : Bool
  pub variant : Variant
  pub role : Text
  pub resource : Text
  pub since : Text

unfoldable pub role_row : (iso : Text → Text) → (owner_id : Text) → PermissionRow → RoleCells
unfolding role_badge
role_row iso owner_id p = record {
  subject = or_else p.email (take 8 p.subject_id);
  is_owner = text_eq owner_id p.subject_id;
  variant = role_badge p.role;
  role = p.role;
  resource = or_else p.resource (codes "project");
  since = take 10 (iso p.created_at);
}
