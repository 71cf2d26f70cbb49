-- ===== src/Routes/Matching.antt =====
-- How a location is matched with the table of web/src/app/router.tsx, and what is rendered. The
-- matching is react-router's: a segment `:name` fits every segment, other segments are compared
-- without case, `*` fits any rest, and an index route is rendered in its parent at the parent's
-- address. The choice among the branches that fit is a parameter (`Matcher`).
use nanas.Prelude.{
  ℕ, zero, suc, ◌≡◌, ◌==◌, Bool, true, false, not, ◌&&◌, ◌||◌, List, [], ◌∷◌, ◌++◌, keep, Option,
  none, some, if◌then◌else◌, Listed,
}
use nanas.Prelude.Text.{Text, codes, is_empty, starts_with, text_eq, join}
use nanas.Http.{same_name}
use nanas.Web.Session.{SessionState}
use nanas.Web.Guards.{
  View, navigate, children, require_auth, require_platform_role, redirect_if_authed,
}
use nanas.Routes.Table.{
  Page, Guard, unguarded, signed_out, signed_in, at_least, Content, page, go, Node, Route, route,
  Routes, end, also, router,
}

-- A location is the list of its segments; none is empty.
unfoldable pub split_slash : Text → List Text
split_slash [] = [] ∷ []
split_slash (c ∷ s) =
    let rest = split_slash s in
    if c == b'/' then [] ∷ rest else elim rest [ [] ↦ (c ∷ []) ∷ [] | p ∷ ps ↦ (c ∷ p) ∷ ps ]

unfoldable pub pieces : (path : Text) → List Text
unfolding split_slash
pieces path = keep (λ s. not (is_empty s)) (split_slash path)

-- What of an address the router matches: the part before its search and its hash.
unfoldable pub pathname : (to : Text) → Text
pathname [] = []
pathname (c ∷ s) = if c == b'?' || c == b'#' then [] else c ∷ pathname s

unfoldable pub segments : (to : Text) → List Text
unfolding pathname pieces
segments to = pieces (pathname to)

-- A way down the table, with the segments of its paths.
pub record Branch : Type 0 where
  pub path : List Text
  pub nodes : List Node

abbrev pub own_segments : Option Text → List Text
own_segments none = []
own_segments (some path) = pieces path

unfoldable mutual
  unfolding pieces

  pub branches_of : List Text → List Node → Routes → List Branch
  branches_of above nodes end = []
  branches_of above nodes (also r rs) = branches_at above nodes r ++ branches_of above nodes rs

  pub branches_at : List Text → List Node → Route → List Branch
  branches_at above nodes (route n end) =
      record { path = above ++ own_segments n.path; nodes = nodes ++ (n ∷ []) } ∷ []
  branches_at above nodes (route n (also r rs)) =
      branches_at (above ++ own_segments n.path) (nodes ++ (n ∷ [])) r
      ++ branches_of (above ++ own_segments n.path) (nodes ++ (n ∷ [])) rs

-- Every branch of the table.
unfoldable pub table : List Branch
unfolding branches_of branches_at router
table = branches_of [] [] router

unfoldable pub is_param : Text → Bool
unfolding starts_with
is_param p = starts_with p (codes ":")

unfoldable pub is_star : Text → Bool
unfolding text_eq
is_star p = text_eq p (codes "*")

unfoldable pub fits : (path location : List Text) → Bool
unfolding is_param is_star
fits [] [] = true
fits [] (s ∷ ss) = false
fits (p ∷ ps) [] = is_star p
fits (p ∷ ps) (s ∷ ss) = is_star p || ((is_param p || same_name p s) && fits ps ss)

-- Some segment is a star.
unfoldable pub is_splat : List Text → Bool
unfolding is_star
is_splat [] = false
is_splat (p ∷ ps) = is_star p || is_splat ps

-- The choice of a branch: one that fits, if there is one, and one with a star only where no other
-- fits.
pub record Matcher : Type 0 where
  pub choose : List Branch → List Text → Option Branch
  pub choose_sound :
      (bs : List Branch) (location : List Text) (b : Branch)
      → choose bs location ≡ some b
      → Listed b bs × (fits b.path location ≡ true)
  pub choose_complete :
      (bs : List Branch) (location : List Text) (b : Branch)
      → Listed b bs
      → fits b.path location ≡ true
      → (c : Branch) × (choose bs location ≡ some c)
        × (is_splat b.path ≡ false → is_splat c.path ≡ false)

-- The pages on display, from the outermost in, or the location that is gone to.
pub data Shown : Type 0 where
  pages : List Page → Shown
  redirect : (location : List Text) → Shown

abbrev pub inside : Page → Shown → Shown
inside p (pages ps) = pages (p ∷ ps)
inside p (redirect location) = redirect location

unfoldable pub guard_view : SessionState → (location : Text) → Guard → View
guard_view s location unguarded = children
guard_view s location signed_out = redirect_if_authed s
guard_view s location signed_in = require_auth s location
guard_view s location (at_least role) = require_platform_role role s

-- An address that does not begin with a slash goes on from where its route stands; each such
-- element is an index route, so that this is the location itself.
unfoldable pub target : (location : List Text) → (to : Text) → List Text
unfolding segments starts_with
target location to = if starts_with to (codes "/") then segments to else location ++ segments to

abbrev pub address : List Text → Text
address location = codes "/" ++ join (codes "/") location

abbrev pub render_content : (location : List Text) → Content → Shown → Shown
render_content location (page p) rest = inside p rest
render_content location (go to) rest = redirect (target location to)

abbrev pub render_view : (location : List Text) → View → Content → Shown → Shown
render_view location (navigate to from) c rest = redirect (target location to)
render_view location children c rest = render_content location c rest

unfoldable pub render : SessionState → (location : List Text) → List Node → Shown
unfolding guard_view target
render s location [] = pages []
render s location (n ∷ ns) =
    render_view location (guard_view s (address location) n.guard) n.content (render s location ns)

abbrev pub follow_on : (List Text → Option (List Page)) → Shown → Option (List Page)
follow_on next (pages ps) = some ps
follow_on next (redirect location) = next location

-- Redirects are followed; `none` where no branch fits, or there are more than were allowed.
unfoldable pub follow :
    Matcher → SessionState → (fuel : ℕ) → (location : List Text) → Option (List Page)
unfolding render table
follow m s zero location = none
follow m s (suc fuel) location = elim (m.choose table location) [
  | none ↦ none
  | some b ↦ follow_on (follow m s fuel) (render s location b.nodes)
]
