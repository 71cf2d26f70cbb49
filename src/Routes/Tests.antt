-- ===== src/Routes/Tests.antt =====
-- Visits of the console, by a session of staff and another, and the place to come back to.
use nanas.Prelude.{◌≡◌, refl, true, List, [], ◌∷◌, all, none, some, is_some}
use nanas.Prelude.Text.{Text, codes, text_eq}
use nanas.Prelude.Json.{str}
use nanas.Web.Session.{jwt, SessionState}
use nanas.Routes.Table.{Page}
use nanas.Routes.Matching.{segments, pathname, pieces, follow}
use nanas.Routes.Outcomes.{rights_of}
use nanas.Routes.First.{first}
use nanas.Routes.Laws.{permits, last, follow_lem}
use nanas.Routes.Links.{
  sidebar, is_staff, bottom_nav, project_tabs, database_tabs, observability_tabs,
}
use nanas.Routes.Links.Laws.{Lead}
use nanas.Routes.Links.Frame.{
  nav_pages, bottom_pages, project_pages, database_pages, observability_pages, links-follow,
}
use nanas.Routes.Links.Sidebar.{sidebar_pages}
use nanas.Routes.Sign.{destination}

abbrev nobody : SessionState
nobody = record { token = none; mode = jwt; user = none }

abbrev somebody : SessionState
somebody = record nobody { token = some (codes "t") }

abbrev users : List Text
users = codes "app" ∷ codes "admin" ∷ codes "users" ∷ []

follow_lem_example :
    (ps : List Page) × (follow first somebody 3 users ≡ some ps)
    × (all (permits (rights_of somebody)) ps ≡ true)
    × (is_some (last ps) ≡ true)
follow_lem_example = follow_lem first somebody users

abbrev officer : SessionState
officer = record somebody {
  user =
      some (record {
        id = str (codes "1");
        email = str [];
        platform_role = some (str (codes "staff"));
      });
}

links-follow_example :
    Lead first officer (sidebar officer (some (codes "p1"))) (sidebar_pages true nav_pages)
    × Lead first officer (bottom_nav (some (codes "p1"))) bottom_pages
    × Lead first officer (project_tabs (codes "p1")) project_pages
    × Lead first officer (database_tabs (codes "p1")) database_pages
    × Lead first officer (observability_tabs (codes "p1")) observability_pages
unfolding is_staff text_eq
links-follow_example = links-follow first officer (codes "p1") (refl, refl) refl

-- An address with a search is matched by what stands before it.
query-segments : segments (codes "/app/projects/p?x/keys") ≡ segments (codes "/app/projects/p")
unfolding segments pathname pieces
query-segments = refl

-- Of the page that was asked for, the search and the hash are lost.
destination-search : destination (some (codes "/app/projects/p?x=1#y")) ≡ codes "/app/projects/p"
unfolding destination pathname text_eq
destination-search = refl
