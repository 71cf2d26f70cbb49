-- ===== src/Functions/Page.antt =====
-- web/src/features/functions/FunctionListPage.tsx: the cells of the page, the dialog that creates a
-- function, and what is shown.
use nanas.Prelude.{
  map, ℕ, Bool, false, ◌||◌, List, [], ◌∷◌, ◌++◌, Option, none, some, if◌then◌else◌, ◌⊎◌, inl, inr,
  or_else,
}
use nanas.Prelude.Text.{Text, codes, is_empty, trim}
use nanas.Http.{truthy}
use nanas.Web.Problem.{Thrown}
use nanas.Functions.{
  Filters, FunctionListItem, Status, active, draft, failed, compute_function_status,
}

-- The dialog and the cells of the page; `import_id` is the input below the list.
pub record Page : Type 0 where
  pub page : ℕ
  pub filters : Filters
  pub is_open : Bool
  pub name : Text
  pub import_id : Text
  pub failure : Option Thrown

-- `onCreate`: the page afterwards, and the address where it navigates to. The answer to the request is
-- an error or the new function's id.
unfoldable pub on_create : (pid : Text) → Thrown ⊎ Text → Page → Page × Option Text
on_create pid (inl e) s = (record s { failure = some e }, none)
on_create pid (inr fn_id) s = (
  record s { failure = none; name = []; is_open = false },
  some (codes "/app/projects/" ++ (pid ++ (codes "/functions/" ++ fn_id))),
)

unfoldable pub create_disabled : (pending : Bool) → Page → Bool
create_disabled pending s = is_empty (trim s.name) || pending

unfoldable pub import_target : (pid : Text) → Page → Option Text
import_target pid s =
    if is_empty (trim s.import_id)
    then none
    else some (codes "/app/projects/" ++ (pid ++ (codes "/functions/" ++ trim s.import_id)))

pub data Variant : Type 0 where
  success : Variant
  warning : Variant
  destructive : Variant

unfoldable pub status_variant : Status → Variant
status_variant active = success
status_variant failed = destructive
status_variant draft = warning

-- The cells of a row; the format of a date is the library's.
pub record RowCells : Type 0 where
  pub link : Text
  pub name : Text
  pub slug : Option Text
  pub runtime : Option Text
  pub version : Text
  pub status : Status
  pub variant : Variant
  pub is_public : Bool
  pub triggers : ℕ
  pub last_deploy : Text

unfoldable pub fn_row : (format : Text → Text) (dash pid : Text) → FunctionListItem → RowCells
unfolding compute_function_status status_variant
fn_row format dash pid item = record {
  link = codes "/app/projects/" ++ (pid ++ (codes "/functions/" ++ item.id));
  name = item.name;
  slug = if truthy item.slug then item.slug else none;
  runtime = if truthy item.runtime then item.runtime else none;
  version = or_else item.current_version dash;
  status = compute_function_status item;
  variant = status_variant (compute_function_status item);
  is_public = item.entrypoint_enabled;
  triggers = item.triggers_count;
  last_deploy =
      if truthy item.last_deployed_at then format (or_else item.last_deployed_at []) else dash;
}

-- The inputs above the list.
unfoldable pub set_query : Text → Page → Page
set_query input s = record s { filters = record s.filters { q = input } }

unfoldable pub set_runtime : Text → Page → Page
set_runtime choice s = record s { filters = record s.filters { runtime = choice } }

unfoldable pub set_status : Text → Page → Page
set_status choice s = record s { filters = record s.filters { status = choice } }

unfoldable pub set_visibility : Text → Page → Page
set_visibility choice s = record s { filters = record s.filters { visibility = choice } }

unfoldable pub set_sort : Text → Page → Page
set_sort choice s = record s { filters = record s.filters { sort = choice } }

-- What stands below the inputs: a placeholder, the note that there is nothing, or the rows.
pub data ListView : Type 0 where
  loading : ListView
  empty : ListView
  table : List RowCells → ListView

unfoldable pub list_view :
    (format : Text → Text) (dash pid : Text)
    → (is_loading : Bool) → List FunctionListItem
    → ListView
unfolding fn_row
list_view format dash pid is_loading shown =
    if is_loading
    then loading
    else elim shown [ [] ↦ empty | it ∷ its ↦ table (map (fn_row format dash pid) (it ∷ its)) ]

-- The dialog that creates a function.
unfoldable pub set_open : Bool → Page → Page
set_open is_open s = record s { is_open = is_open }

unfoldable pub set_name : Text → Page → Page
set_name input s = record s { name = input }

unfoldable pub set_import_id : Text → Page → Page
set_import_id input s = record s { import_id = input }
