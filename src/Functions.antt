-- ===== src/Functions.antt =====
-- The list of a project's functions: web/src/features/functions/FunctionListPage.tsx and status.ts,
-- useFunctionsList of queries.ts beside them, and web/src/components/data/Pagination.tsx. The time of a
-- date, and the order `localeCompare` on names, are arguments.
pub mod Page
pub mod Laws
pub mod Editor
pub mod Deployments
pub mod Entrypoint
pub mod Versions
mod Tests
use nanas.Prelude.{
  map, ℕ, zero, suc, ◌+◌, ◌-◌, ◌*◌, ◌/◌, ◌==◌, Bool, true, false, not, ◌&&◌, ◌||◌, List, [], ◌∷◌,
  ◌++◌, Option, none, some, if◌then◌else◌, ◌⊎◌, inl, inr, or_else, is_some, keep, leb, ltb, max,
}
use nanas.Prelude.Sort.{sort_by}
use nanas.Prelude.Text.{Text, codes, text_eq, is_empty, trim, to_lower, includes}
use nanas.Http.{truthy}
use nanas.Web.Problem.{Thrown}

pub record FunctionListItem : Type 0 where
  pub id : Text
  pub name : Text
  pub slug : Option Text
  pub current_version : Option Text
  pub runtime : Option Text
  pub last_deployed_at : Option Text
  pub last_deployment_status : Option Text
  pub triggers_count : ℕ
  pub entrypoint_enabled : Bool
  pub created_at : Text

pub data Status : Type 0 where
  active : Status
  draft : Status
  failed : Status

abbrev pub status_text : Status → Text
status_text active = codes "active"
status_text draft = codes "draft"
status_text failed = codes "failed"

abbrev pub is_text : Option Text → Text → Bool
is_text none t = false
is_text (some s) t = text_eq s t

unfoldable pub compute_function_status : FunctionListItem → Status
compute_function_status it =
    if is_text it.last_deployment_status (codes "failed")
    then failed
    else if is_text it.last_deployment_status (codes "active")
    then active
    else if truthy it.current_version
    then draft
    else draft

-- Each of the four selections is one of the texts of its menu.
pub record Filters : Type 0 where
  pub q : Text
  pub runtime : Text
  pub status : Text
  pub visibility : Text
  pub sort : Text

abbrev pub default_filters : Filters
default_filters = record {
  q = [];
  runtime = codes "all";
  status = codes "all";
  visibility = codes "all";
  sort = codes "created_at";
}

-- The function that `items.filter` is given.
unfoldable pub matches : Filters → FunctionListItem → Bool
unfolding compute_function_status
matches filters it =
    if not (is_empty filters.q)
      && not (includes (to_lower (it.name ++ (32 ∷ or_else it.slug []))) (to_lower filters.q))
    then false
    else if not (text_eq filters.runtime (codes "all")) && not (is_text it.runtime filters.runtime)
    then false
    else if not (text_eq filters.status (codes "all"))
        && not (text_eq (status_text (compute_function_status it)) filters.status)
    then false
    else if text_eq filters.visibility (codes "all")
    then true
    else if text_eq filters.visibility (codes "public")
    then it.entrypoint_enabled
    else not it.entrypoint_enabled

module _ (time : Text → ℕ) (name_order : Text → Text → Bool) where
  abbrev pub deploy_time : FunctionListItem → ℕ
  deploy_time it = elim it.last_deployed_at [ none ↦ 0 | some d ↦ if is_empty d then 0 else time d ]

  -- The function that `sort` is given.
  unfoldable pub goes_before : (sort : Text) → FunctionListItem → FunctionListItem → Bool
  goes_before sort a b =
      if text_eq sort (codes "name")
      then name_order a.name b.name
      else if text_eq sort (codes "last_deployed_at")
      then leb (deploy_time b) (deploy_time a)
      else leb (time b.created_at) (time a.created_at)

  unfoldable pub filtered : Filters → Option (List FunctionListItem) → List FunctionListItem
  unfolding matches goes_before sort_by
  filtered filters data_of =
      sort_by (goes_before filters.sort) (keep (matches filters) (or_else data_of []))

-- The range of functions that a page asks for.
unfoldable pub list_request : (page page_size : ℕ) → ℕ × ℕ
list_request page page_size = (page_size, (page - 1) * page_size)

pub data Click : Type 0 where
  previous : Click
  next : Click

-- The buttons of `Pagination`; a disabled one does nothing.
unfoldable pub has_prev : ℕ → Bool
has_prev page = ltb 1 page

unfoldable pub has_next : (page page_size : ℕ) → (total : Option ℕ) → Bool
has_next page page_size none = true
has_next page page_size (some total) = ltb (page * page_size) total

unfoldable pub click : (page_size : ℕ) (total : Option ℕ) (disabled : Bool) → Click → ℕ → ℕ
unfolding has_prev has_next
click page_size total disabled previous page =
    if disabled || not (has_prev page) then page else page - 1
click page_size total disabled next page =
    if disabled || not (has_next page page_size total) then page else page + 1

-- What stands behind " of ": `Math.max(1, Math.ceil(total / pageSize))`.
unfoldable pub page_count : (total page_size : ℕ) → ℕ
page_count total page_size = max 1 ((total + (page_size - 1)) / page_size)
