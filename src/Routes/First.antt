-- ===== src/Routes/First.antt =====
-- A choice among branches that meets the laws of a matcher: the first that fits and has no star,
-- or else the first that fits.
use nanas.Prelude.{
  ◌≡◌, refl, Bool, true, false, not, ◌&&◌, List, [], ◌∷◌, find, Option, some, or_option, Listed,
  arith, inl, inr, Bool-cases, Option-cases, ap, ◌∙◌, sym,
}
use nanas.Prelude.Text.{Text}
use nanas.Routes.Matching.{Branch, fits, is_splat, Matcher}

find_sound :
    (q : Branch → Bool) (bs : List Branch) (b : Branch)
    → find q bs ≡ some b
    → Listed b bs × (q b ≡ true)
find_sound q [] b h = absurd (cc (h))
find_sound q (c ∷ bs) b h = elim (Bool-cases (q c)) [
  | inl here ↦
      let same : c ≡ b = ground (arith, h, here) in (inl (sym same), ap q (sym same) ∙ here)
  | inr other ↦
      let (there, good) = find_sound q bs b (ground (arith, h, other)) in (inr there, good)
]

find_complete :
    (q : Branch → Bool) (bs : List Branch) (b : Branch)
    → Listed b bs
    → q b ≡ true
    → (c : Branch) × (find q bs ≡ some c)
find_complete q [] b there good = absurd there
find_complete q (c ∷ bs) b there good = elim (Bool-cases (q c)) [
  | inl here ↦ (c, rw here refl)
  | inr other ↦
      let rest : Listed b bs = elim there [
        | inl same ↦ absurd (cc (ap q same, other, good))
        | inr below ↦ below
      ] in
      let (d, found) = find_complete q bs b rest good in (d, rw other found)
]

abbrev plain_fit : List Text → Branch → Bool
plain_fit location b = not (is_splat b.path) && fits b.path location

abbrev first_fit : List Branch → List Text → Option Branch
first_fit bs location =
    or_option (find (plain_fit location) bs) (find (λ b. fits b.path location) bs)

first_fit_sound :
    (bs : List Branch) (location : List Text) (b : Branch)
    → first_fit bs location ≡ some b
    → Listed b bs × (fits b.path location ≡ true)
first_fit_sound bs location b h = elim (Option-cases (find (plain_fit location) bs)) [
  | inl missing ↦ find_sound (λ c. fits c.path location) bs b (ground (arith, h, missing))
  | inr (c, found) ↦
      let same : find (plain_fit location) bs ≡ some b = ground (arith, h, found) in
      let (there, good) = find_sound (plain_fit location) bs b same in (there, ground arith)
]

first_fit_complete :
    (bs : List Branch) (location : List Text) (b : Branch)
    → Listed b bs
    → fits b.path location ≡ true
    → (c : Branch) × (first_fit bs location ≡ some c)
      × (is_splat b.path ≡ false → is_splat c.path ≡ false)
first_fit_complete bs location b there fit = elim (Option-cases (find (plain_fit location) bs)) [
  | inr (c, found) ↦
      let (_, good) = find_sound (plain_fit location) bs c found in
      (c, rw found refl, λ _. ground arith)
  | inl missing ↦
      let (c, found) = find_complete (λ d. fits d.path location) bs b there fit in
      (
        c,
        rw (missing) found,
        λ plain.
            let (d, found_d) =
              find_complete (plain_fit location) bs b there (ground (arith, plain, fit)) in
            absurd (cc (missing, found_d)),
      )
]

pub first : Matcher
first = record {
  choose = first_fit;
  choose_sound = first_fit_sound;
  choose_complete = first_fit_complete;
}
