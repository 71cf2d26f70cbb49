-- ===== src/Marketplace/Package.antt =====
-- web/src/features/marketplace/MarketplaceDetailPage.tsx: a package, the dialog that publishes a
-- version of it, and the dialog that installs it.
pub mod Laws
use nanas.Prelude.{
  Bool, true, false, not, ◌||◌, List, [], ◌∷◌, ◌++◌, length, ◌==◌, map, Option, none, some,
  if◌then◌else◌, or_else, and_then, ◌⊎◌, inl, inr,
}
use nanas.Prelude.Text.{Text, codes, is_empty, trim}
use nanas.Prelude.Json.{Json, Fields, arr, nil, obj, field, end, str, property}
use nanas.Http.{truthy}
use nanas.Web.Problem.{Thrown}
use nanas.Queries.{
  word, Key, ApiRequest, Fetched, Result, value, throw_error, field_or, Query, never, Effect,
  invalidate,
}
use nanas.Queries.Functions.{get, post, pid_param}
use nanas.Queries.Raw.{Loaded}
use nanas.Marketplace.Semver.{drop_v, is_semver}

unfoldable pub detail_key : (slug : Text) → Key
detail_key slug = word (codes "marketplace") ∷ word slug ∷ []

unfoldable pub versions_key : (slug : Text) → Key
versions_key slug = word (codes "marketplace") ∷ word slug ∷ word (codes "versions") ∷ []

abbrev pub slug_param : Text → Text × Text
slug_param slug = (codes "slug", slug)

unfoldable pub detail : (slug : Option Text) → Query
unfolding detail_key throw_error
detail slug = record {
  query_key = detail_key (or_else slug []);
  enabled = truthy slug;
  request = get (codes "/v1/marketplace/packages/{slug}") (slug_param (or_else slug []) ∷ []);
  select = λ (f : Fetched). throw_error f (value f.data_of);
  refetch_interval = never;
}

unfoldable pub versions : (slug : Option Text) → Query
unfolding versions_key throw_error field_or
versions slug = record {
  query_key = versions_key (or_else slug []);
  enabled = truthy slug;
  request =
      get (codes "/v1/marketplace/packages/{slug}/versions") (slug_param (or_else slug []) ∷ []);
  select = λ (f : Fetched). throw_error f (value (field_or (codes "versions") (arr nil) f.data_of));
  refetch_interval = never;
}

-- The cells of the dialog that publishes a version; they stay when it closes.
pub record VersionForm : Type 0 where
  pub version : Text
  pub runtime : Text
  pub source_uri : Text
  pub checksum : Text
  pub notes : Text

unfoldable pub fresh_version : VersionForm
fresh_version = record {
  version = [];
  runtime = codes "node";
  source_uri = [];
  checksum = [];
  notes = [];
}

unfoldable pub is_valid : VersionForm → Bool
unfolding is_semver trim
is_valid d = is_semver (trim d.version)

unfoldable pub shows_hint : VersionForm → Bool
unfolding is_valid
shows_hint d = if is_empty d.version then false else not (is_valid d)

unfoldable pub publish_disabled : (pending : Bool) → VersionForm → Bool
unfolding is_valid
publish_disabled pending d = pending || not (is_valid d)

-- `...(v ? { name: v } : {})`
abbrev pub field_if : (name v : Text) → Fields → Fields
field_if name v rest = if is_empty v then rest else field name (str v) rest

unfoldable pub publish_vars : VersionForm → Json
unfolding drop_v trim
publish_vars d = obj (
    field (codes "version") (str (drop_v (trim d.version))) (
      field (codes "runtime") (str d.runtime) (
        field_if (codes "source_uri") d.source_uri
          (field_if (codes "checksum") d.checksum (field_if (codes "notes") d.notes end)))))

unfoldable pub publish_request : (slug : Text) → VersionForm → ApiRequest
unfolding publish_vars
publish_request slug d =
    post (codes "/v1/marketplace/packages/{slug}/versions") (slug_param slug ∷ [])
      (some (publish_vars d))

unfoldable pub version_published : (slug : Text) → List Effect
unfolding detail_key
version_published slug = invalidate (detail_key slug) ∷ []

-- Which of the two dialogs are open.
pub record Page : Type 0 where
  pub publish_open : Bool
  pub install_open : Bool

unfoldable pub fresh : Page
fresh = record { publish_open = false; install_open = false }

unfoldable pub publish_settled : (answer : Thrown ⊎ Option Json) → Page → Page
publish_settled (inl err) p = p
publish_settled (inr body) p = record p { publish_open = false }

-- The dialog that installs the package in a project.
pub record Install : Type 0 where
  pub pid : Text
  pub version : Text
  pub error_of : Option Thrown

unfoldable pub fresh_install : Install
fresh_install = record { pid = []; version = []; error_of = none }

unfoldable pub install_disabled : (is_pending : Bool) → Install → Bool
install_disabled is_pending i = is_empty i.pid || is_pending

-- The version is sent as it was entered; a blank one asks for the latest.
unfoldable pub install_request : (slug : Text) → Install → ApiRequest
install_request slug i =
    post (codes "/v1/projects/{pid}/marketplace/install") (pid_param i.pid ∷ [])
      (some (obj (field (codes "slug") (str slug) (field_if (codes "version") i.version end))))

-- The dialog closes where there is no error; an error stays for the next time it is opened.
unfoldable pub install_settled : (answer : Thrown ⊎ Option Json) → Install → Page → Install × Page
install_settled (inl err) i p = (record i { error_of = some err }, p)
install_settled (inr body) i p = (record i { error_of = none }, record p { install_open = false })

-- A row of the versions.
pub record VersionRow : Type 0 where
  pub version : Text
  pub runtime : Option Text
  pub source_uri : Option Text
  pub checksum : Option Text
  pub created_at : Option Text

unfoldable pub version_cells : (format : Text → Text) → VersionRow → List Text
version_cells format v =
    (codes "v" ++ v.version)
    ∷ or_else v.runtime (codes "—")
    ∷ or_else v.checksum (codes "—")
    ∷ or_else v.source_uri (codes "—")
    ∷ (if truthy v.created_at then format (or_else v.created_at []) else codes "—")
    ∷ []

pub data VersionsView : Type 0 where
  skeleton : VersionsView
  no_versions : VersionsView
  table : List (List Text) → VersionsView

-- An error of this query is not shown: the note that there is no version is.
unfoldable pub versions_view : (format : Text → Text) → Loaded (List VersionRow) → VersionsView
unfolding version_cells
versions_view format l =
    if l.is_loading
    then skeleton
    else if length (or_else l.data_of []) == 0
    then no_versions
    else table (map (version_cells format) (or_else l.data_of []))
