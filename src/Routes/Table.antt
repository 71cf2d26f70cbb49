-- ===== src/Routes/Table.antt =====
-- web/src/app/router.tsx: the table of routes.
use nanas.Prelude.{List, [], ◌∷◌, Option, none, some}
use nanas.Prelude.Text.{Text, codes}
use nanas.Web.Session.{PlatformRole, staff}

pub data Page : Type 0 where
  login register shell : Page
  projects_list project_detail overview members keys settings : Page
  database migrate query catalog databases tables graphql : Page
  storage integrations functions_list function_detail editor versions builds deployments : Page
  invoke entrypoint triggers_list dlq cdc realtime observability logs traces metrics audit : Page
  marketplace_list marketplace_detail admin_users admin_projects : Page

-- What an element is wrapped in.
pub data Guard : Type 0 where
  unguarded signed_out signed_in : Guard
  at_least : PlatformRole → Guard

pub data Content : Type 0 where
  page : Page → Content
  go : (to : Text) → Content

-- A route without its children; the path of an index route is missing.
pub record Node : Type 0 where
  pub path : Option Text
  pub guard : Guard
  pub content : Content

mutual
  pub data Route : Type 0 where
    route : Node → Routes → Route

  pub data Routes : Type 0 where
    end : Routes
    also : Route → Routes → Routes

abbrev pub routes : List Route → Routes
routes [] = end
routes (r ∷ rs) = also r (routes rs)

abbrev pub leaf : (path : Text) → Page → Route
leaf path p = route (record { path = some path; guard = unguarded; content = page p }) end

abbrev pub index_page : Page → Route
index_page p = route (record { path = none; guard = unguarded; content = page p }) end

abbrev pub index_go : (to : Text) → Route
index_go to = route (record { path = none; guard = unguarded; content = go to }) end

abbrev pub layout : (path : Text) → Page → List Route → Route
layout path p children =
    route (record { path = some path; guard = unguarded; content = page p }) (routes children)

abbrev pub guarded : (path : Text) → Guard → Page → List Route → Route
guarded path g p children =
    route (record { path = some path; guard = g; content = page p }) (routes children)

abbrev pub elsewhere : (path to : Text) → Route
elsewhere path to = route (record { path = some path; guard = unguarded; content = go to }) end

abbrev pub app_routes : List Route
app_routes =
    index_go (codes "projects")
    ∷ leaf (codes "projects") projects_list
    ∷ layout (codes "projects/:pid") project_detail (
        index_page overview
        ∷ leaf (codes "members") members
        ∷ leaf (codes "keys") keys
        ∷ leaf (codes "settings") settings
        ∷ [])
    ∷ layout (codes "projects/:pid/database") database (
        index_go (codes "query")
        ∷ leaf (codes "migrate") migrate
        ∷ leaf (codes "query") query
        ∷ leaf (codes "catalog") catalog
        ∷ leaf (codes "databases") databases
        ∷ leaf (codes "tables") tables
        ∷ leaf (codes "graphql") graphql
        ∷ [])
    ∷ leaf (codes "projects/:pid/storage") storage
    ∷ leaf (codes "projects/:pid/integrations") integrations
    ∷ leaf (codes "projects/:pid/integrations") integrations
    ∷ leaf (codes "projects/:pid/functions") functions_list
    ∷ layout (codes "projects/:pid/functions/:fid") function_detail (
        index_go (codes "editor")
        ∷ leaf (codes "editor") editor
        ∷ leaf (codes "versions") versions
        ∷ leaf (codes "builds") builds
        ∷ leaf (codes "deployments") deployments
        ∷ leaf (codes "invoke") invoke
        ∷ leaf (codes "entrypoint") entrypoint
        ∷ [])
    ∷ leaf (codes "projects/:pid/triggers") triggers_list
    ∷ leaf (codes "projects/:pid/triggers/dlq") dlq
    ∷ leaf (codes "projects/:pid/triggers/cdc") cdc
    ∷ leaf (codes "projects/:pid/realtime") realtime
    ∷ layout (codes "projects/:pid/observability") observability (
        index_go (codes "logs")
        ∷ leaf (codes "logs") logs
        ∷ leaf (codes "traces") traces
        ∷ leaf (codes "metrics") metrics
        ∷ [])
    ∷ leaf (codes "projects/:pid/audit") audit
    ∷ leaf (codes "marketplace") marketplace_list
    ∷ leaf (codes "marketplace/:slug") marketplace_detail
    ∷ guarded (codes "admin/users") (at_least staff) admin_users []
    ∷ guarded (codes "admin/projects") (at_least staff) admin_projects []
    ∷ []

unfoldable pub router : Routes
router = routes (
    elsewhere (codes "/") (codes "/app")
    ∷ guarded (codes "/login") signed_out login []
    ∷ guarded (codes "/register") signed_out register []
    ∷ guarded (codes "/app") signed_in shell app_routes
    ∷ elsewhere (codes "*") (codes "/app")
    ∷ [])
