-- ===== src/Database/Catalog.antt =====
-- web/src/features/database/TablesCatalogPage.tsx: the tables of the catalogue, with the buttons
-- that put a table on the allowlist and take it off. `goes_before a b` is that
-- `a.localeCompare(b)` is not positive; the order of names is the platform's.
pub mod Laws
use nanas.Prelude.{
  Bool, true, false, not, ◌||◌, List, [], ◌∷◌, ◌++◌, map, keep, Option, none, some, if◌then◌else◌,
  or_else, or_option,
}
use nanas.Prelude.Text.{Text, codes, text_eq, to_lower}
use nanas.Prelude.Names.{contains}
use nanas.Prelude.Sort.{sort_by}
use nanas.Prelude.Json.{Json, Items, arr, nil, cons, obj, field, end, str}
use nanas.Http.{truthy}
use nanas.Web.Problem.{Thrown}
use nanas.Queries.{
  word, Key, ApiRequest, Fetched, throw_error, read_field, Query, never, Effect, invalidate,
}
use nanas.Queries.Functions.{get, pid_param}
use nanas.Queries.Raw.{Loaded}

-- The loop over the names, with the set of those seen.
unfoldable pub drop_seen : (seen tables : List Text) → List Text
unfolding contains to_lower
drop_seen seen [] = []
drop_seen seen (x ∷ xs) =
    let k = to_lower x in
    let rest = drop_seen (k ∷ seen) xs in
    let skipped = drop_seen seen xs in if contains seen k then skipped else x ∷ rest

unfoldable pub dedupe_sorted_tables :
    (goes_before : Text → Text → Bool) → (tables : List Text) → List Text
unfolding drop_seen sort_by
dedupe_sorted_tables goes_before tables = sort_by goes_before (drop_seen [] tables)

unfoldable pub catalog_key : (pid : Text) → Key
catalog_key pid = word (codes "projects") ∷ word pid ∷ word (codes "tenant-catalog-tables") ∷ []

unfoldable pub allowlist_key : (pid : Text) → Key
allowlist_key pid = word (codes "projects") ∷ word pid ∷ word (codes "data-allowlist") ∷ []

-- Both queries read a field `tables` of the answer.
abbrev pub tables_query : (key : Key) → (path : Text) → (pid : Option Text) → Query
tables_query key path pid = record {
  query_key = key;
  enabled = truthy pid;
  request = get path (pid_param (or_else pid []) ∷ []);
  select = λ (f : Fetched). throw_error f (read_field (codes "tables") (arr nil) f.data_of);
  refetch_interval = never;
}

unfoldable pub catalog : (pid : Option Text) → Query
unfolding catalog_key throw_error read_field
catalog pid =
    tables_query (catalog_key (or_else pid [])) (codes "/v1/projects/{pid}/data/catalog/tables") pid

unfoldable pub allowlist : (pid : Option Text) → Query
unfolding allowlist_key throw_error read_field
allowlist pid =
    tables_query (allowlist_key (or_else pid []))
      (codes "/v1/projects/{pid}/settings/data-allowlist") pid

abbrev pub texts : List Text → Items
texts [] = nil
texts (t ∷ ts) = cons (str t) (texts ts)

unfoldable pub patch : (pid : Text) → (tables : List Text) → ApiRequest
patch pid tables = record {
  method = codes "PATCH";
  path = codes "/v1/projects/{pid}/settings/data-allowlist";
  params = pid_param pid ∷ [];
  query = [];
  body = some (obj (field (codes "tables") (arr (texts tables)) end));
}

unfoldable pub patched : (pid : Text) → List Effect
unfolding allowlist_key
patched pid = invalidate (allowlist_key pid) ∷ []

-- The queries of the page, and whether a change is on its way.
pub record Page : Type 0 where
  pub catalog : Loaded (List Text)
  pub allowlist : Loaded (List Text)
  pub is_pending : Bool

unfoldable pub allowed_lower : Page → List Text
unfolding to_lower
allowed_lower p = map to_lower (or_else p.allowlist.data_of [])

unfoldable pub on_list : Page → Text → Bool
unfolding contains allowed_lower to_lower
on_list p name = contains (allowed_lower p) (to_lower name)

-- A row: its name, whether it has the badge, and the names that a click on its button sends.
pub record Row : Type 0 where
  pub name : Text
  pub allowlisted : Bool
  pub disabled : Bool
  pub click : List Text

unfoldable pub row : (goes_before : Text → Text → Bool) → Page → Text → Row
unfolding on_list dedupe_sorted_tables
row goes_before p name = record {
  name = name;
  allowlisted = on_list p name;
  disabled = p.is_pending;
  click =
      if on_list p name
      then dedupe_sorted_tables goes_before
          (keep (λ x. not (text_eq (to_lower x) (to_lower name))) (or_else p.allowlist.data_of []))
      else dedupe_sorted_tables goes_before (or_else p.allowlist.data_of [] ++ (name ∷ []));
}

-- What stands below the heading; no rows are the note that there is no table.
pub data View : Type 0 where
  skeleton : View
  rows : List Row → View

unfoldable pub view : (goes_before : Text → Text → Bool) → Page → View
unfolding row
view goes_before p =
    if p.catalog.is_loading || p.allowlist.is_loading
    then skeleton
    else rows (map (row goes_before p) (or_else p.catalog.data_of []))

unfoldable pub list_error : Page → Option Thrown
list_error p = or_option p.catalog.error_of p.allowlist.error_of
