-- ===== src/Routes/Laws.antt =====
-- Every visit of the console ends on pages that the session may see.
use nanas.Prelude.{
  ◌≡◌, refl, Bool, true, false, not, ◌&&◌, List, [], ◌∷◌, all, Option, none, some, ap, ◌∙◌, is_some,
  arith,
}
use nanas.Prelude.Text.{Text, codes, to_lower}
use nanas.Web.Session.{SessionState}
use nanas.Routes.Table.{Page, login, register, admin_users, admin_projects}
use nanas.Routes.Matching.{Branch, table, fits, is_splat, target, Matcher, follow}
use nanas.Routes.Outcomes.{Rights, rights_of, same_path, eq_of_same_path}
use nanas.Routes.Settling.{settles, any, Listed-any, Listed-all, settles_sound}

-- Who may see a page.
abbrev pub permits : Rights → Page → Bool
permits r login = not r.has_token
permits r register = not r.has_token
permits r admin_users = r.has_token && r.is_staff
permits r admin_projects = r.has_token && r.is_staff
permits r p = r.has_token

-- The innermost page.
abbrev pub last : List Page → Option Page
last [] = none
last (p ∷ []) = some p
last (p ∷ q ∷ ps) = last (q ∷ ps)

abbrev is_permitted : Rights → List Page → Bool
is_permitted r ps = all (permits r) ps && is_some (last ps)

table-settles :
    (a u t p : Bool)
    → let r : Rights = record { has_token = a; is_user = u; is_staff = t; is_super = p } in
      all (settles (is_permitted r) r 3) table ≡ true
unfolding settles table target is_splat to_lower
table-settles true u true p = refl
table-settles true u false p = refl
table-settles false u true p = refl
table-settles false u false p = refl

fits-star : (location : List Text) → fits (codes "*" ∷ []) location ≡ true
unfolding fits
fits-star [] = refl
fits-star (s ∷ location) = refl

any-star : any (λ b. same_path b.path (codes "*" ∷ [])) table ≡ true
unfolding any same_path table
any-star = refl

-- Some branch is chosen at every location.
choose-some :
    (m : Matcher) (location : List Text) → (b : Branch) × (m.choose table location ≡ some b)
choose-some m location =
    let (d, there, same) = Listed-any (λ b. same_path b.path (codes "*" ∷ [])) table any-star in
    let fit : fits d.path location ≡ true =
      ap (λ z. fits z location) (eq_of_same_path d.path (codes "*" ∷ []) same)
      ∙ fits-star location in
    let (b, chosen, _) = m.choose_complete table location d there fit in (b, chosen)

-- From every location the redirects end, after two at most, on pages that the session may see: the
-- two pages for signing in without a token, all others with one, and the two of administration with
-- a role of staff or above only.
pub follow_lem :
    (m : Matcher) (s : SessionState) (location : List Text)
    → (ps : List Page) × (follow m s 3 location ≡ some ps)
      × (all (permits (rights_of s)) ps ≡ true)
      × (is_some (last ps) ≡ true)
follow_lem m s location =
    let (b, chosen) = choose-some m location in
    let r = rights_of s in
    let (there, _) = m.choose_sound table location b chosen in
    let settled =
      Listed-all (settles (is_permitted r) r 3) table b
        (table-settles r.has_token r.is_user r.is_staff r.is_super) there in
    let (ps, ended, good) = settles_sound m (is_permitted r) s 3 location b chosen settled in
    (ps, ended, ground (arith, good), ground (arith, good))
