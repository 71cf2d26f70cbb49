-- ===== src/Marketplace/Listing.antt =====
-- web/src/features/marketplace/MarketplaceListPage.tsx: the pages of packages, and the dialog that
-- publishes a package.
use nanas.Prelude.{
  ℕ, ◌-◌, ◌*◌, Bool, true, false, ◌||◌, List, [], ◌∷◌, ◌++◌, Option, none, some, if◌then◌else◌, ◌⊎◌,
  inl, inr,
}
use nanas.Prelude.Text.{Text, codes, is_empty, trim}
use nanas.Prelude.Json.{Json, arr, nil, obj, field, end, str}
use nanas.Web.Problem.{Thrown}
use nanas.Queries.{
  word, number, Key, ApiRequest, Fetched, value, throw_error, field_or, Query, never, Effect,
  invalidate,
}
use nanas.Queries.Functions.{post}
use nanas.Marketplace.Package.{field_if}

abbrev pub page_size : ℕ
page_size = 24

unfoldable pub list_key : (page : ℕ) → Key
list_key page = word (codes "marketplace") ∷ word (codes "list") ∷ number page ∷ []

unfoldable pub packages : (page : ℕ) → Query
unfolding list_key throw_error field_or
packages page = record {
  query_key = list_key page;
  enabled = true;
  request = record {
    method = codes "GET";
    path = codes "/v1/marketplace/packages";
    params = [];
    query = (codes "limit", page_size) ∷ (codes "offset", (page - 1) * page_size) ∷ [];
    body = none;
  };
  select = λ (f : Fetched). throw_error f (value (field_or (codes "packages") (arr nil) f.data_of));
  refetch_interval = never;
}

-- The cells of the page.
pub record Page : Type 0 where
  pub page : ℕ
  pub open_dialog : Bool
  pub error_of : Option Thrown

unfoldable pub fresh : Page
fresh = record { page = 1; open_dialog = false; error_of = none }

-- An error is not taken away by a success.
unfoldable pub created : (answer : Thrown ⊎ Option Json) → Page → Page × List Effect
created (inl err) p = (record p { error_of = some err }, [])
created (inr body) p =
    (record p { open_dialog = false }, invalidate (word (codes "marketplace") ∷ []) ∷ [])

pub record Card : Type 0 where
  pub id : Text
  pub slug : Text
  pub title : Text
  pub latest_version : Option Text

-- The address of a card's link, its title, and its badge.
unfoldable pub card : Card → Text × Text × Option Text
card p = (
  codes "/app/marketplace/" ++ p.slug,
  (if is_empty p.title then p.slug else p.title),
  (elim p.latest_version [
    | none ↦ none
    | some v ↦ if is_empty v then none else some (codes "v" ++ v)
  ]),
)

pub data Visibility : Type 0 where
  public unlisted : Visibility

abbrev pub visibility_text : Visibility → Text
visibility_text public = codes "public"
visibility_text unlisted = codes "unlisted"

pub record PackageForm : Type 0 where
  pub slug : Text
  pub title : Text
  pub desc : Text
  pub vis : Visibility

unfoldable pub fresh_package : PackageForm
fresh_package = record { slug = []; title = []; desc = []; vis = public }

unfoldable pub publish_disabled : (pending : Bool) → PackageForm → Bool
unfolding trim
publish_disabled pending d = pending || is_empty (trim d.slug)

unfoldable pub package_vars : PackageForm → Json
unfolding trim
package_vars d = obj (
    field (codes "slug") (str (trim d.slug)) (
      field (codes "title") (str (if is_empty (trim d.title) then trim d.slug else trim d.title)) (
        field_if (codes "description") d.desc
          (field (codes "visibility") (str (visibility_text d.vis)) end))))

unfoldable pub create_request : PackageForm → ApiRequest
unfolding package_vars
create_request d = post (codes "/v1/marketplace/packages") [] (some (package_vars d))
