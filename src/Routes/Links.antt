-- ===== src/Routes/Links.antt =====
-- The links of the console's frame: web/src/components/layout (Sidebar.tsx, BottomNav.tsx) and the
-- tabs of the layouts of a project, its databases, its functions and its observability.
pub mod Laws
pub mod Sidebar
pub mod Frame
use nanas.Prelude.{
  Bool, false, ◌||◌, List, [], ◌∷◌, ◌++◌, map, Option, none, some, if◌then◌else◌, and_then,
}
use nanas.Prelude.Text.{Text, codes, text_eq}
use nanas.Prelude.Json.{Json, as_text}
use nanas.Web.Session.{SessionUser, SessionState}

-- What follows the address of the project in each link.
abbrev pub nav_rests : List Text
nav_rests =
    []
    ∷ codes "/database"
    ∷ codes "/storage"
    ∷ codes "/functions"
    ∷ codes "/triggers"
    ∷ codes "/integrations"
    ∷ codes "/realtime"
    ∷ codes "/observability"
    ∷ codes "/audit"
    ∷ codes "/members"
    ∷ []

abbrev pub bottom_rests : List Text
bottom_rests =
    []
    ∷ codes "/functions"
    ∷ codes "/realtime"
    ∷ codes "/observability/logs"
    ∷ codes "/settings"
    ∷ []

abbrev pub project_rests : List Text
project_rests = [] ∷ codes "/members" ∷ codes "/keys" ∷ codes "/settings" ∷ []

abbrev pub database_rests : List Text
database_rests =
    codes "/database/query"
    ∷ codes "/database/migrate"
    ∷ codes "/database/catalog"
    ∷ codes "/database/databases"
    ∷ codes "/database/tables"
    ∷ codes "/database/graphql"
    ∷ []

abbrev pub observability_rests : List Text
observability_rests =
    codes "/observability/logs"
    ∷ codes "/observability/traces"
    ∷ codes "/observability/metrics"
    ∷ []

-- `/app/projects/${projectId}` and what follows it
unfoldable pub of_project : (pid rest : Text) → Text
of_project pid rest = codes "/app/projects/" ++ (pid ++ rest)

unfoldable pub project_nav : (project_id : Option Text) → List Text
unfolding of_project
project_nav none = []
project_nav (some []) = []
project_nav (some pid) = map (of_project pid) nav_rests

unfoldable pub is_staff : SessionState → Bool
unfolding text_eq
is_staff s = elim (and_then (and_then s.user (λ (u : SessionUser). u.platform_role)) as_text) [
  | none ↦ false
  | some role ↦ text_eq role (codes "staff") || text_eq role (codes "super_admin")
]

unfoldable pub sidebar : SessionState → (project_id : Option Text) → List Text
unfolding project_nav is_staff
sidebar s project_id =
    (codes "/app/projects" ∷ codes "/app/marketplace" ∷ [])
    ++ (project_nav project_id
        ++ (if is_staff s then codes "/app/admin/users" ∷ codes "/app/admin/projects" ∷ [] else []))

unfoldable pub bottom_nav : (project_id : Option Text) → List Text
unfolding of_project
bottom_nav none = []
bottom_nav (some []) = []
bottom_nav (some pid) = map (of_project pid) bottom_rests

unfoldable pub project_tabs : (pid : Text) → List Text
unfolding of_project
project_tabs pid = map (of_project pid) project_rests

unfoldable pub database_tabs : (pid : Text) → List Text
unfolding of_project
database_tabs pid = map (of_project pid) database_rests

unfoldable pub observability_tabs : (pid : Text) → List Text
unfolding of_project
observability_tabs pid = map (of_project pid) observability_rests
