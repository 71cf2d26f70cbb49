-- ===== src/Prelude/Names.antt =====
-- Lists of texts that are used as sets: `includes`, `new Set`, and what sorting keeps of them.
use mathlib.Core.Path.{◌≡◌, refl, ◌∙◌}
use mathlib.Core.Bool.{Bool, false, not, ◌&&◌, ◌||◌}
use mathlib.Core.Logic.{inl, inr}
use nanas.Prelude.Tests.{if◌then◌else◌, Bool-cases}
use mathlib.Core.List.{List, [], ◌∷◌, ◌++◌, map}
use native.Mathlib.Omega.{arith}
use nanas.Prelude.Lists.{keep}
use nanas.Prelude.Sort.{insert_in, sort_by}
use nanas.Prelude.Text.{Text, text_eq, text_eq_iff, text_eq_refl}

-- `names.includes(k)`, `new Set(names).has(k)`
unfoldable pub contains : List Text → Text → Bool
contains [] k = false
contains (x ∷ xs) k = text_eq x k || contains xs k

pub contains-append :
    (xs ys : List Text) (k : Text) → contains (xs ++ ys) k ≡ (contains xs k || contains ys k)
unfolding contains
contains-append [] ys k = refl
contains-append (x ∷ xs) ys k = ground (arith, contains-append xs ys k)

pub contains-added :
    {A : Type 0} (f : A → Text) (xs : List A) (a : A) (k : Text)
    → contains (map f (xs ++ (a ∷ []))) k ≡ (contains (map f xs) k || text_eq (f a) k)
unfolding contains
contains-added f [] a k = ground arith
contains-added f (x ∷ xs) a k = ground (arith, contains-added f xs a k)

-- No name stands twice.
abbrev pub IsDistinct : List Text → Type 0
IsDistinct [] = Unit
IsDistinct (x ∷ xs) = (contains xs x ≡ false) × IsDistinct xs

-- The items whose name is another one.
pub contains-keep :
    {A : Type 0} (f : A → Text) (xs : List A) (name k : Text)
    → contains (map f (keep (λ x. not (text_eq (f x) name)) xs)) k
      ≡ (contains (map f xs) k && not (text_eq name k))
unfolding contains
contains-keep f [] name k = refl
contains-keep f (x ∷ xs) name k = ground (
  arith,
  contains-keep f xs name k,
  text_eq_iff (f x) name,
  text_eq_iff (f x) k,
  text_eq_iff name k,
)

contains-insert_in :
    {A : Type 0} (f : A → Text) (r : A → A → Bool) (a : A) (xs : List A) (k : Text)
    → contains (map f (insert_in r a xs)) k ≡ (text_eq (f a) k || contains (map f xs) k)
unfolding contains insert_in
contains-insert_in f r a [] k = refl
contains-insert_in f r a (x ∷ xs) k = ground (arith, contains-insert_in f r a xs k)

pub contains-sort_by :
    {A : Type 0} (f : A → Text) (r : A → A → Bool) (xs : List A) (k : Text)
    → contains (map f (sort_by r xs)) k ≡ contains (map f xs) k
unfolding contains sort_by
contains-sort_by f r [] k = refl
contains-sort_by f r (x ∷ xs) k =
    ground (arith, contains-insert_in f r x (sort_by r xs) k, contains-sort_by f r xs k)

insert_in-IsDistinct :
    {A : Type 0} (f : A → Text) (r : A → A → Bool) (a : A) (xs : List A)
    → contains (map f xs) (f a) ≡ false
    → IsDistinct (map f xs)
    → IsDistinct (map f (insert_in r a xs))
unfolding contains insert_in
insert_in-IsDistinct f r a [] fresh h = (refl, tt)
insert_in-IsDistinct f r a (x ∷ xs) fresh h = ground (
  arith,
  insert_in-IsDistinct f r a xs,
  contains-insert_in f r a xs (f x),
  text_eq_iff (f a) (f x),
  text_eq_iff (f x) (f a),
)

pub sort_by-IsDistinct :
    {A : Type 0} (f : A → Text) (r : A → A → Bool) (xs : List A)
    → IsDistinct (map f xs)
    → IsDistinct (map f (sort_by r xs))
unfolding sort_by
sort_by-IsDistinct f r [] h = tt
sort_by-IsDistinct f r (x ∷ xs) h =
    insert_in-IsDistinct f r x (sort_by r xs) (contains-sort_by f r xs (f x) ∙ h.0)
      (sort_by-IsDistinct f r xs h.1)

-- The items whose name is none of those seen, each name once: what a `Set` keeps of a list.
unfoldable pub unique : {A : Type 0} (f : A → Text) → (seen : List Text) → List A → List A
unfolding contains
unique f seen [] = []
unique f seen (x ∷ xs) =
    let rest = unique f (f x ∷ seen) xs in
    let skipped = unique f seen xs in if contains seen (f x) then skipped else x ∷ rest

pub contains-unique :
    {A : Type 0} (f : A → Text) (seen : List Text) (xs : List A) (k : Text)
    → contains (map f (unique f seen xs)) k ≡ (contains (map f xs) k && not (contains seen k))
unfolding unique contains
contains-unique f seen [] k = refl
contains-unique f seen (x ∷ xs) k =
    let first = contains-unique f (f x ∷ seen) xs k in
    let again = contains-unique f seen xs k in ground (arith, first, again, text_eq_iff (f x) k)

pub unique-IsDistinct :
    {A : Type 0} (f : A → Text) (seen : List Text) (xs : List A)
    → IsDistinct (map f (unique f seen xs))
unfolding unique
unique-IsDistinct f seen [] = tt
unique-IsDistinct f seen (x ∷ xs) = elim (Bool-cases (contains seen (f x))) [
  | inl old ↦ rw old (unique-IsDistinct f seen xs)
  | inr new ↦
      let apart = contains-unique f (f x ∷ seen) xs (f x) in
      rw new (
        unfold contains in ground (arith, apart, text_eq_refl (f x)),
        unique-IsDistinct f (f x ∷ seen) xs,
      )
]

contains-keep-no :
    {A : Type 0} (f : A → Text) (p : A → Bool) (xs : List A) (k : Text)
    → contains (map f xs) k ≡ false
    → contains (map f (keep p xs)) k ≡ false
unfolding contains
contains-keep-no f p [] k h = refl
contains-keep-no f p (x ∷ xs) k h = ground (arith, contains-keep-no f p xs k)

pub keep-IsDistinct :
    {A : Type 0} (f : A → Text) (p : A → Bool) (xs : List A)
    → IsDistinct (map f xs)
    → IsDistinct (map f (keep p xs))
keep-IsDistinct f p [] h = tt
keep-IsDistinct f p (x ∷ xs) h =
    ground (arith, keep-IsDistinct f p xs h.1, contains-keep-no f p xs (f x) h.0)
