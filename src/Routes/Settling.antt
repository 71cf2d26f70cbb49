-- ===== src/Routes/Settling.antt =====
-- Redirects come to an end, on pages of a given kind: a test on the table, and its soundness.
use nanas.Prelude.{
  ℕ, zero, suc, ◌≡◌, refl, sym, ap, ◌∙◌, Bool, true, false, not, ◌&&◌, ◌||◌, List, [], ◌∷◌, all,
  Option, some, Listed, arith, inl, inr, Bool-cases,
}
use nanas.Prelude.Text.{Text, codes, starts_with}
use nanas.Web.Session.{SessionState}
use nanas.Routes.Table.{Page}
use nanas.Routes.Matching.{
  Branch, table, fits, is_splat, Matcher, target, follow_on, follow, segments,
}
use nanas.Routes.Outcomes.{
  Rights, rights_of, Outcome, ends, goes, outcome, realize, render-outcome, fits_refl, fits-append,
  meets, fits-meets, same_path, eq_of_same_path,
}

unfoldable pub any : {A : Type 0} → (A → Bool) → List A → Bool
any q [] = false
any q (x ∷ xs) = q x || any q xs

pub Listed-any :
    {A : Type 0} (q : A → Bool) (xs : List A)
    → any q xs ≡ true
    → (x : A) × Listed x xs × (q x ≡ true)
unfolding any
Listed-any q [] h = absurd (cc (h))
Listed-any q (x ∷ xs) h = elim (Bool-cases (q x)) [
  | inl here ↦ (x, inl refl, here)
  | inr not_here ↦ let (y, there, good) = Listed-any q xs (ground arith) in (y, inr there, good)
]

pub Listed-all :
    {A : Type 0} (q : A → Bool) (xs : List A) (x : A) → all q xs ≡ true → Listed x xs → q x ≡ true
Listed-all q [] x h there = absurd there
Listed-all q (y ∷ xs) x h (inl e) = ap q e ∙ ground arith
Listed-all q (y ∷ xs) x h (inr there) = Listed-all q xs x (ground arith) there

-- `c` stands for every location that fits the path.
abbrev stands_for : List Text → Branch → Bool
stands_for path c = same_path c.path path && not (is_splat c.path)

abbrev later_settles : (Branch → Bool) → List Text → Branch → Bool
later_settles later path c = elim (is_splat c.path || not (meets path c.path)) [
  | true ↦ true
  | false ↦ later c
]

unfoldable pub settles_at : (Branch → Bool) → List Text → Bool
unfolding any meets same_path
settles_at later path = any (stands_for path) table && all (later_settles later path) table

unfoldable pub settles_on : (ok : List Page → Bool) → (Branch → Bool) → Branch → Outcome → Bool
unfolding settles_at
settles_on ok later b (ends ps) = ok ps
settles_on ok later b (goes to) =
    (starts_with to (codes "/") || not (is_splat b.path)) && settles_at later (target b.path to)

-- The redirects from a branch end within so many branches, on pages that are `ok`.
unfoldable pub settles : (ok : List Page → Bool) → Rights → ℕ → Branch → Bool
unfolding settles_on outcome
settles ok r zero b = false
settles ok r (suc n) b = settles_on ok (settles ok r n) b (outcome r b.nodes)

module _ (m : Matcher) where
  -- A location that fits the path is matched with a branch for which `later` holds.
  pub settles_at_sound :
      (later : Branch → Bool) (path location : List Text)
      → settles_at later path ≡ true
      → fits path location ≡ true
      → (c : Branch) × (m.choose table location ≡ some c) × (later c ≡ true)
  unfolding settles_at
  settles_at_sound later path location h fit =
      let (d, there, stands) = Listed-any (stands_for path) table (ground arith) in
      let same : d.path ≡ path = eq_of_same_path d.path path (ground arith) in
      let plain : is_splat d.path ≡ false = ground arith in
      let fit_d : fits d.path location ≡ true = ap (λ z. fits z location) same ∙ fit in
      let (c, chosen, plain_c) = m.choose_complete table location d there fit_d in
      let (there_c, fit_c) = m.choose_sound table location c chosen in
      let each : later_settles later path c ≡ true =
        Listed-all (later_settles later path) table c (ground arith) there_c in
      let plain_path : is_splat path ≡ false = ap is_splat (sym same) ∙ plain in
      let met = fits-meets path c.path location plain_path (plain_c plain) fit fit_c in
      (c, chosen, ground (arith, each, met, plain_c plain))

  fits-target :
      (path location : List Text) (to : Text)
      → (starts_with to (codes "/") || not (is_splat path)) ≡ true
      → fits path location ≡ true
      → fits (target path to) (target location to) ≡ true
  unfolding target
  fits-target path location to may fit = elim (Bool-cases (starts_with to (codes "/"))) [
    | inl absolute ↦ rw absolute (fits_refl (segments to))
    | inr relative ↦ rw relative (
        fits-append path (segments to) location (segments to) (ground arith) fit
          (fits_refl (segments to)))
  ]

  settles_on_sound :
      (ok : List Page → Bool) (later : Branch → Bool) (next : List Text → Option (List Page))
      (location : List Text) (b : Branch) (o : Outcome)
      → ((l : List Text) (c : Branch)
          → m.choose table l ≡ some c
          → later c ≡ true
          → (ps : List Page) × (next l ≡ some ps) × (ok ps ≡ true))
      → m.choose table location ≡ some b
      → settles_on ok later b o ≡ true
      → (ps : List Page) × (follow_on next (realize location o) ≡ some ps) × (ok ps ≡ true)
  unfolding settles_on
  settles_on_sound ok later next location b (ends ps) ih chosen h = (ps, refl, h)
  settles_on_sound ok later next location b (goes to) ih chosen h =
      let fit = (m.choose_sound table location b chosen).1 in
      let moved = fits-target b.path location to (ground arith) fit in
      let (c, chosen_c, good) =
        settles_at_sound later (target b.path to) (target location to) (ground arith) moved in
      ih (target location to) c chosen_c good

  pub settles_sound :
      (ok : List Page → Bool) (s : SessionState) (n : ℕ) (location : List Text) (b : Branch)
      → m.choose table location ≡ some b
      → settles ok (rights_of s) n b ≡ true
      → (ps : List Page) × (follow m s n location ≡ some ps) × (ok ps ≡ true)
  unfolding settles follow
  settles_sound ok s zero location b chosen h = absurd (cc (h))
  settles_sound ok s (suc n) location b chosen h =
      let (ps, ended, good) =
        settles_on_sound ok (settles ok (rights_of s) n) (follow m s n) location b
          (outcome (rights_of s) b.nodes) (settles_sound ok s n) chosen h in
      (ps, rw (chosen, follow, render-outcome s location b.nodes) ended, good)
