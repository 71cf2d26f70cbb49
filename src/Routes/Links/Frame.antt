-- ===== src/Routes/Links/Frame.antt =====
-- Each link of the frame leads to its own page.
use mathlib.Core.Path.{subst}
use nanas.Prelude.{◌≡◌, refl, sym, Bool, true, false, List, [], ◌∷◌, map, some, ap, ◌∙◌}
use nanas.Prelude.Text.{Text, is_empty, to_lower}
use nanas.Http.{truthy}
use nanas.Web.Session.{SessionState}
use nanas.Routes.Table.{
  Page, overview, query, storage, functions_list, triggers_list, integrations, realtime, logs,
  audit, members, keys, settings, migrate, catalog, databases, tables, graphql, traces, metrics,
}
use nanas.Routes.Matching.{segments, pieces, pathname, table, is_splat, target, Matcher}
use nanas.Routes.Outcomes.{rights_of}
use nanas.Routes.Settling.{settles, settles_at}
use nanas.Routes.Links.{
  of_project, nav_rests, bottom_rests, project_rests, database_rests, observability_rests,
  project_nav, sidebar, is_staff, bottom_nav, project_tabs, database_tabs, observability_tabs,
}
use nanas.Routes.Links.Sidebar.{signed_in_rights, rights_of-signed_in, sidebar_pages, sidebar-Lead}
use nanas.Routes.Links.Laws.{IsSegment, same_page, lead, Lead, lead_sound}

abbrev pub nav_pages : List Page
nav_pages =
    overview ∷ query ∷ storage ∷ functions_list ∷ triggers_list ∷ integrations ∷ realtime ∷ logs
    ∷ audit ∷ members ∷ []

abbrev pub bottom_pages : List Page
bottom_pages = overview ∷ functions_list ∷ realtime ∷ logs ∷ settings ∷ []

abbrev pub project_pages : List Page
project_pages = overview ∷ members ∷ keys ∷ settings ∷ []

abbrev pub database_pages : List Page
database_pages = query ∷ migrate ∷ catalog ∷ databases ∷ tables ∷ graphql ∷ []

abbrev pub observability_pages : List Page
observability_pages = logs ∷ traces ∷ metrics ∷ []

frame-lead :
    (u t p : Bool)
    → (lead (signed_in_rights u t p) nav_rests nav_pages ≡ true)
      × (lead (signed_in_rights u t p) bottom_rests bottom_pages ≡ true)
unfolding settles settles_at table target is_splat to_lower same_page segments pieces pathname
frame-lead u t p = (refl, refl)

tabs-lead :
    (u t p : Bool)
    → (lead (signed_in_rights u t p) project_rests project_pages ≡ true)
      × (lead (signed_in_rights u t p) database_rests database_pages ≡ true)
      × (lead (signed_in_rights u t p) observability_rests observability_pages ≡ true)
unfolding settles settles_at table target is_splat to_lower same_page segments pieces pathname
tabs-lead u t p = (refl, refl, refl)

project_nav-some :
    (pid : Text)
    → is_empty pid ≡ false
    → (project_nav (some pid) ≡ map (of_project pid) nav_rests)
      × (bottom_nav (some pid) ≡ map (of_project pid) bottom_rests)
unfolding project_nav bottom_nav
project_nav-some [] full = absurd (cc (full))
project_nav-some (c ∷ pid) full = (refl, refl)

-- For a signed-in session and a project whose id is one segment of an address, not empty and without
-- '/', '?' and '#', each link of the side bar (for staff also those of the administration) and of the
-- bottom bar, and each tab of the project, its databases and its observability, ends on its own page,
-- after one redirect at most.
pub links-follow :
    (m : Matcher) (s : SessionState) (pid : Text)
    → IsSegment pid
    → truthy s.token ≡ true
    → Lead m s (sidebar s (some pid)) (sidebar_pages (is_staff s) nav_pages)
      × Lead m s (bottom_nav (some pid)) bottom_pages
      × Lead m s (project_tabs pid) project_pages
      × Lead m s (database_tabs pid) database_pages
      × Lead m s (observability_tabs pid) observability_pages
unfolding project_tabs database_tabs observability_tabs
links-follow m s pid seg signed =
    let r = rights_of s in
    let same = rights_of-signed_in s signed in
    let (nav, bottom) = frame-lead r.is_user r.is_staff r.is_super in
    let (project, database, observability) = tabs-lead r.is_user r.is_staff r.is_super in
    let (nav_links, bottom_links) = project_nav-some pid seg.0 in
    let leads : (rests : List Text) (ps : List Page)
        → lead (signed_in_rights r.is_user r.is_staff r.is_super) rests ps ≡ true
        → Lead m s (map (of_project pid) rests) ps =
      λ rests ps h. lead_sound m s pid seg rests ps (ap (λ z. lead z rests ps) same ∙ h) in
    (
      sidebar-Lead m s signed (some pid) nav_pages
          (subst (λ tos. Lead m s tos nav_pages) (sym nav_links) (leads nav_rests nav_pages nav)),
      subst (λ tos. Lead m s tos bottom_pages) (sym bottom_links)
          (leads bottom_rests bottom_pages bottom),
      leads project_rests project_pages project,
      leads database_rests database_pages database,
      leads observability_rests observability_pages observability,
    )
