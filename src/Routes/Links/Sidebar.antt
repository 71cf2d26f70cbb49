-- ===== src/Routes/Links/Sidebar.antt =====
-- The links of the side bar that are of no project: those to the projects and the marketplace, and
-- for staff those of the administration.
use nanas.Prelude.{
  ◌≡◌, refl, ap, ◌∙◌, Bool, true, false, ◌||◌, List, [], ◌∷◌, ◌++◌, Option, none, some,
  if◌then◌else◌, and_then, arith, inl, inr, Bool-cases,
}
use nanas.Prelude.Text.{Text, codes, text_eq, text_eq_iff, to_lower}
use nanas.Prelude.Json.{Json, null, bool, num, str, arr, obj, as_text}
use nanas.Http.{truthy}
use nanas.Web.Session.{SessionUser, SessionState, staff, truthy_json}
use nanas.Web.Guards.{platform_at_least, index_of, index_from}
use nanas.Routes.Table.{Page, projects_list, marketplace_list, admin_users, admin_projects}
use nanas.Routes.Matching.{segments, pieces, pathname, table, is_splat, target, follow, Matcher}
use nanas.Routes.Outcomes.{Rights, rights_of, fits_refl}
use nanas.Routes.Settling.{settles, settles_at, settles_at_sound, settles_sound}
use nanas.Routes.Laws.{last}
use nanas.Routes.Links.{project_nav, sidebar, is_staff}
use nanas.Routes.Links.Laws.{same_page, ends_on, same_end_sound, Lead}

staff_text :
    (t : Text)
    → (text_eq t (codes "staff") || text_eq t (codes "super_admin")) ≡ true
    → platform_at_least (some (str t)) staff ≡ true
unfolding platform_at_least truthy_json index_of index_from text_eq
staff_text t h = elim (Bool-cases (text_eq t (codes "staff"))) [
  | inl same ↦ let eq = (text_eq_iff t (codes "staff")).0 same in rw eq refl
  | inr differs ↦
      let eq = (text_eq_iff t (codes "super_admin")).0 (ground (arith, h, differs)) in rw eq refl
]

abbrev test_of : Option Json → Bool
test_of role = elim (and_then role as_text) [
  | none ↦ false
  | some t ↦ text_eq t (codes "staff") || text_eq t (codes "super_admin")
]

test_of-platform_at_least :
    (role : Option Json) → test_of role ≡ true → platform_at_least role staff ≡ true
test_of-platform_at_least none h = absurd (cc (h))
test_of-platform_at_least (some (str t)) h = staff_text t h
test_of-platform_at_least (some null) h = absurd (cc (h))
test_of-platform_at_least (some (bool b)) h = absurd (cc (h))
test_of-platform_at_least (some (num n)) h = absurd (cc (h))
test_of-platform_at_least (some (arr vs)) h = absurd (cc (h))
test_of-platform_at_least (some (obj fs)) h = absurd (cc (h))

-- Whom the side bar takes for staff, the guard of the administration lets in.
is_staff-rights : (s : SessionState) → is_staff s ≡ true → (rights_of s).is_staff ≡ true
unfolding is_staff
is_staff-rights s h =
    test_of-platform_at_least (and_then s.user (λ (u : SessionUser). u.platform_role)) h

pub Lead-append :
    (m : Matcher) (s : SessionState) (tos more : List Text) (ps others : List Page)
    → Lead m s tos ps
    → Lead m s more others
    → Lead m s (tos ++ more) (ps ++ others)
Lead-append m s [] more [] others a b = b
Lead-append m s [] more (p ∷ ps) others a b = absurd a
Lead-append m s (to ∷ tos) more [] others a b = absurd a
Lead-append m s (to ∷ tos) more (p ∷ ps) others a b =
    (a.0, Lead-append m s tos more ps others a.1 b)

-- The page at which an address is meant to end, checked on the table.
abbrev leads_to : Rights → (to : Text) → Page → Bool
leads_to r to p = settles_at (settles (ends_on p) r 2) (segments to)

lead_to :
    (m : Matcher) (s : SessionState) (to : Text) (p : Page)
    → leads_to (rights_of s) to p ≡ true
    → (shown : List Page) × (follow m s 2 (segments to) ≡ some shown) × (last shown ≡ some p)
lead_to m s to p h =
    let (c, chosen, good) =
      settles_at_sound m (settles (ends_on p) (rights_of s) 2) (segments to) (segments to) h
        (fits_refl (segments to)) in
    let (shown, ended, stops) = settles_sound m (ends_on p) s 2 (segments to) c chosen good in
    (shown, ended, same_end_sound p (last shown) stops)

abbrev pub signed_in_rights : (u t p : Bool) → Rights
signed_in_rights u t p = record { has_token = true; is_user = u; is_staff = t; is_super = p }

pub rights_of-signed_in :
    (s : SessionState)
    → truthy s.token ≡ true
    → rights_of s
      ≡ signed_in_rights (rights_of s).is_user (rights_of s).is_staff (rights_of s).is_super
rights_of-signed_in s signed =
    ap
      (λ (b : Bool). record {
        has_token = b;
        is_user = (rights_of s).is_user;
        is_staff = (rights_of s).is_staff;
        is_super = (rights_of s).is_super;
      })
      signed

signed_in-leads :
    (u t p : Bool)
    → (leads_to (signed_in_rights u t p) (codes "/app/projects") projects_list ≡ true)
      × (leads_to (signed_in_rights u t p) (codes "/app/marketplace") marketplace_list ≡ true)
unfolding settles settles_at table target is_splat to_lower same_page segments pieces pathname
signed_in-leads u t p = (refl, refl)

staff-leads :
    (u p : Bool)
    → (leads_to (signed_in_rights u true p) (codes "/app/admin/users") admin_users ≡ true)
      × (leads_to (signed_in_rights u true p) (codes "/app/admin/projects") admin_projects ≡ true)
unfolding settles settles_at table target is_splat to_lower same_page segments pieces pathname
staff-leads u p = (refl, refl)

-- The pages that only the links for staff lead to.
abbrev pub admin_pages : (of_staff : Bool) → List Page
admin_pages of_staff = if of_staff then admin_users ∷ admin_projects ∷ [] else []

abbrev pub sidebar_pages : (of_staff : Bool) → (nav : List Page) → List Page
sidebar_pages of_staff nav =
    (projects_list ∷ marketplace_list ∷ []) ++ (nav ++ admin_pages of_staff)

module _ (m : Matcher) (s : SessionState) (signed : truthy s.token ≡ true) where
  fixed-Lead :
      Lead m s
        (codes "/app/projects" ∷ codes "/app/marketplace" ∷ [])
        (projects_list ∷ marketplace_list ∷ [])
  fixed-Lead =
      let r = rights_of s in
      let same = rights_of-signed_in s signed in
      let (projects, marketplace) = signed_in-leads r.is_user r.is_staff r.is_super in
      (
        lead_to m s (codes "/app/projects") projects_list
            (ap (λ z. leads_to z (codes "/app/projects") projects_list) same ∙ projects),
        (
          lead_to m s (codes "/app/marketplace") marketplace_list
              (ap (λ z. leads_to z (codes "/app/marketplace") marketplace_list) same ∙ marketplace),
          tt,
        ),
      )

  admin-Lead :
      is_staff s ≡ true
      → Lead m s
          (codes "/app/admin/users" ∷ codes "/app/admin/projects" ∷ [])
          (admin_users ∷ admin_projects ∷ [])
  admin-Lead of_staff =
      let r = rights_of s in
      let same : r ≡ signed_in_rights r.is_user true r.is_super =
        rights_of-signed_in s signed
        ∙ ap (λ b. signed_in_rights r.is_user b r.is_super) (is_staff-rights s of_staff) in
      let (users, projects) = staff-leads r.is_user r.is_super in
      (
        lead_to m s (codes "/app/admin/users") admin_users
            (ap (λ z. leads_to z (codes "/app/admin/users") admin_users) same ∙ users),
        (
          lead_to m s (codes "/app/admin/projects") admin_projects
              (ap (λ z. leads_to z (codes "/app/admin/projects") admin_projects) same ∙ projects),
          tt,
        ),
      )

  admin_links-Lead :
      Lead m s
        (if is_staff s then codes "/app/admin/users" ∷ codes "/app/admin/projects" ∷ [] else [])
        (admin_pages (is_staff s))
  admin_links-Lead = elim (Bool-cases (is_staff s)) [
    | inl of_staff ↦ rw of_staff (admin-Lead of_staff)
    | inr other ↦ rw other tt
  ]

  pub sidebar-Lead :
      (project_id : Option Text) (nav : List Page)
      → Lead m s (project_nav project_id) nav
      → Lead m s (sidebar s project_id) (sidebar_pages (is_staff s) nav)
  unfolding sidebar
  sidebar-Lead project_id nav h = (
    fixed-Lead.0,
    (fixed-Lead.1.0, Lead-append m s (project_nav project_id) _ nav _ h admin_links-Lead),
  )
