-- ===== src/Routes/Outcomes.antt =====
-- Where the redirects of a table end, decided on its paths: one pass over the branches that can be
-- chosen next, for all locations, sessions and matchers at once.
use nanas.Prelude.{
  ◌≡◌, refl, ap, ◌∙◌, Bool, true, false, ◌&&◌, ◌||◌, List, [], ◌∷◌, ◌++◌, Option, none, some,
  if◌then◌else◌, arith, and_then,
}
use nanas.Prelude.Text.{Text, codes, text_eq, text_eq_iff, text_eq_refl, to_lower}
use nanas.Http.{same_name, truthy}
use nanas.Web.Session.{user, staff, super_admin, SessionUser, SessionState}
use nanas.Web.Guards.{require_auth, require_platform_role, redirect_if_authed, platform_at_least}
use nanas.Routes.Table.{
  Page, Guard, unguarded, signed_out, signed_in, at_least, Content, page, go, Node,
}
use nanas.Routes.Matching.{
  is_param, fits, is_splat, Shown, pages, redirect, inside, guard_view, target, address,
  render_content, render_view, render,
}

-- What the guards ask of a session.
pub record Rights : Type 0 where
  pub has_token : Bool
  pub is_user : Bool
  pub is_staff : Bool
  pub is_super : Bool

abbrev pub rights_of : SessionState → Rights
rights_of s =
    let role = and_then s.user (λ (u : SessionUser). u.platform_role) in
    record {
      has_token = truthy s.token;
      is_user = platform_at_least role user;
      is_staff = platform_at_least role staff;
      is_super = platform_at_least role super_admin;
    }

-- Where a guard sends to, if it does.
abbrev pub stop : Rights → Guard → Option Text
stop r unguarded = none
stop r signed_out = if r.has_token then some (codes "/app") else none
stop r signed_in = if r.has_token then none else some (codes "/login")
stop r (at_least user) = if r.is_user then none else some (codes "/app")
stop r (at_least staff) = if r.is_staff then none else some (codes "/app")
stop r (at_least super_admin) = if r.is_super then none else some (codes "/app")

pub data Outcome : Type 0 where
  ends : List Page → Outcome
  goes : (to : Text) → Outcome

abbrev around : Page → Outcome → Outcome
around p (ends ps) = ends (p ∷ ps)
around p (goes to) = goes to

abbrev content_outcome : Content → Outcome → Outcome
content_outcome (page p) rest = around p rest
content_outcome (go to) rest = goes to

abbrev stopped : Option Text → Outcome → Outcome
stopped none inner = inner
stopped (some to) inner = goes to

unfoldable pub outcome : Rights → List Node → Outcome
outcome r [] = ends []
outcome r (n ∷ ns) = stopped (stop r n.guard) (content_outcome n.content (outcome r ns))

abbrev pub realize : (location : List Text) → Outcome → Shown
realize location (ends ps) = pages ps
realize location (goes to) = redirect (target location to)

inside-realize :
    (p : Page) (location : List Text) (o : Outcome)
    → inside p (realize location o) ≡ realize location (around p o)
inside-realize p location (ends ps) = refl
inside-realize p location (goes to) = refl

render_content-realize :
    (location : List Text) (c : Content) (o : Outcome)
    → render_content location c (realize location o) ≡ realize location (content_outcome c o)
render_content-realize location (page p) o = inside-realize p location o
render_content-realize location (go to) o = refl

abbrev render_stop : (location : List Text) → Option Text → Content → Shown → Shown
render_stop location none c rest = render_content location c rest
render_stop location (some to) c rest = redirect (target location to)

render_stop-realize :
    (location : List Text) (o : Option Text) (c : Content) (inner : Outcome)
    → render_stop location o c (realize location inner)
      ≡ realize location (stopped o (content_outcome c inner))
render_stop-realize location none c inner = render_content-realize location c inner
render_stop-realize location (some to) c inner = refl

-- A guard renders what it guards, or goes where `stop` says.
guard_view-stop :
    (s : SessionState) (g : Guard) (location : List Text) (c : Content) (rest : Shown)
    → render_view location (guard_view s (address location) g) c rest
      ≡ render_stop location (stop (rights_of s) g) c rest
unfolding guard_view require_auth require_platform_role redirect_if_authed
guard_view-stop s unguarded location c rest = refl
guard_view-stop s signed_out location c rest = ground arith
guard_view-stop s signed_in location c rest = ground arith
guard_view-stop s (at_least user) location c rest = ground arith
guard_view-stop s (at_least staff) location c rest = ground arith
guard_view-stop s (at_least super_admin) location c rest = ground arith

pub render-outcome :
    (s : SessionState) (location : List Text) (ns : List Node)
    → render s location ns ≡ realize location (outcome (rights_of s) ns)
unfolding render outcome
render-outcome s location [] = refl
render-outcome s location (n ∷ ns) =
    let stops = stop (rights_of s) n.guard in
    guard_view-stop s n.guard location n.content (render s location ns)
    ∙ ap (render_stop location stops n.content) (render-outcome s location ns)
    ∙ render_stop-realize location stops n.content (outcome (rights_of s) ns)

pub fits_refl : (path : List Text) → fits path path ≡ true
unfolding fits
fits_refl [] = refl
fits_refl (p ∷ ps) = ground (arith, text_eq_refl (to_lower p), fits_refl ps)

pub fits-append :
    (path more location rest : List Text)
    → is_splat path ≡ false
    → fits path location ≡ true
    → fits more rest ≡ true
    → fits (path ++ more) (location ++ rest) ≡ true
unfolding fits is_splat
fits-append [] more [] rest plain h k = k
fits-append [] more (s ∷ location) rest plain h k = cc
fits-append (p ∷ path) more [] rest plain h k = absurd (ground arith)
fits-append (p ∷ path) more (s ∷ location) rest plain h k =
    ground (arith, fits-append path more location rest)

-- Some location fits both paths.
unfoldable pub meets : (path other : List Text) → Bool
unfolding is_param
meets [] [] = true
meets [] (q ∷ qs) = false
meets (p ∷ ps) [] = false
meets (p ∷ ps) (q ∷ qs) = (is_param p || is_param q || same_name p q) && meets ps qs

pub fits-meets :
    (path other location : List Text)
    → is_splat path ≡ false
    → is_splat other ≡ false
    → fits path location ≡ true
    → fits other location ≡ true
    → meets path other ≡ true
unfolding fits is_splat meets
fits-meets [] [] location a b h k = refl
fits-meets [] (q ∷ qs) [] a b h k = absurd (ground arith)
fits-meets [] (q ∷ qs) (s ∷ location) a b h k = cc
fits-meets (p ∷ ps) [] [] a b h k = absurd (ground arith)
fits-meets (p ∷ ps) [] (s ∷ location) a b h k = cc
fits-meets (p ∷ ps) (q ∷ qs) [] a b h k = absurd (ground arith)
fits-meets (p ∷ ps) (q ∷ qs) (s ∷ location) a b h k = ground (
  arith,
  fits-meets ps qs location,
  text_eq_iff (to_lower p) (to_lower s),
  text_eq_iff (to_lower q) (to_lower s),
  text_eq_iff (to_lower p) (to_lower q),
)

unfoldable pub same_path : List Text → List Text → Bool
unfolding text_eq
same_path [] [] = true
same_path [] (q ∷ qs) = false
same_path (p ∷ ps) [] = false
same_path (p ∷ ps) (q ∷ qs) = text_eq p q && same_path ps qs

pub eq_of_same_path : (a b : List Text) → same_path a b ≡ true → a ≡ b
unfolding same_path
eq_of_same_path [] [] h = refl
eq_of_same_path [] (q ∷ qs) h = cc
eq_of_same_path (p ∷ ps) [] h = cc
eq_of_same_path (p ∷ ps) (q ∷ qs) h = ground (arith, text_eq_iff p q, eq_of_same_path ps qs)
