-- ===== src/Prelude/Sort.antt =====
-- `Array.prototype.sort` as an insertion sort: stable, and used through its laws.
use mathlib.Core.Path.{◌≡◌, refl, ap}
use mathlib.Core.Logic.{◌↔◌, ◌⊎◌, inl, inr}
use mathlib.Core.Bool.{Bool, true}
use mathlib.Core.List.{List, [], ◌∷◌, Perm}
use mathlib.Core.List.Perm
use Prim.Native.Nat.{suc}
use native.Mathlib.Omega.{arith}
use nanas.Prelude.Tests.{if◌then◌else◌, Bool-cases}
use nanas.Prelude.Lists.{length, keep, All, Listed}

-- `xs.sort(compare)` is stable; `goes_before a b` is that the comparison is not positive.
unfoldable pub insert_in {ℓ} : {A : Type ℓ} → (A → A → Bool) → A → List A → List A
insert_in goes_before a [] = a ∷ []
insert_in goes_before a (b ∷ bs) =
    if goes_before a b then a ∷ b ∷ bs else b ∷ insert_in goes_before a bs

unfoldable pub sort_by {ℓ} : {A : Type ℓ} → (A → A → Bool) → List A → List A
unfolding insert_in
sort_by goes_before [] = []
sort_by goes_before (a ∷ xs) = insert_in goes_before a (sort_by goes_before xs)

pub Listed-keep :
    {A : Type 0} (p : A → Bool) (a : A) (xs : List A)
    → Listed a (keep p xs) ↔ (Listed a xs × (p a ≡ true))
Listed-keep p a [] = (λ h. absurd h, λ h. absurd h.0)
Listed-keep p a (b ∷ xs) =
    let equal : a ≡ b → p a ≡ p b = λ e. ap p e in ground (arith, Listed-keep p a xs, equal)

Listed-insert_in :
    {A : Type 0} (r : A → A → Bool) (a b : A) (bs : List A)
    → Listed a (insert_in r b bs) ↔ ((a ≡ b) ⊎ Listed a bs)
unfolding insert_in
Listed-insert_in r a b [] = (λ h. h, λ h. h)
Listed-insert_in r a b (c ∷ bs) = ground (arith, Listed-insert_in r a b bs)

pub Listed-sort_by :
    {A : Type 0} (r : A → A → Bool) (a : A) (xs : List A) → Listed a (sort_by r xs) ↔ Listed a xs
unfolding sort_by
Listed-sort_by r a [] = (λ h. h, λ h. h)
Listed-sort_by r a (b ∷ xs) =
    ground (arith, Listed-insert_in r a b (sort_by r xs), Listed-sort_by r a xs)

-- Each element goes before those behind it.
abbrev pub IsSorted {ℓ} : {A : Type ℓ} → (A → A → Bool) → List A → Type ℓ
IsSorted r [] = Unit
IsSorted r (a ∷ xs) = All (λ b. r a b ≡ true) xs × IsSorted r xs

All-insert_in :
    {A : Type 0} (P : A → Type 0) (r : A → A → Bool) (a : A) (xs : List A)
    → P a
    → All P xs
    → All P (insert_in r a xs)
unfolding insert_in
All-insert_in P r a [] p h = (p, tt)
All-insert_in P r a (b ∷ xs) p h = ground (arith, All-insert_in P r a xs p h.1)

All-sooner :
    {A : Type 0} (r : A → A → Bool) (a b : A) (bs : List A)
    → ((x y z : A) → r x y ≡ true → r y z ≡ true → r x z ≡ true)
    → r a b ≡ true
    → All (λ c. r b c ≡ true) bs
    → All (λ c. r a c ≡ true) bs
All-sooner r a b [] t p h = tt
All-sooner r a b (c ∷ bs) t p h = (t a b c p h.0, All-sooner r a b bs t p h.1)

insert_in-IsSorted :
    {A : Type 0} (r : A → A → Bool) (a : A) (xs : List A)
    → ((x y z : A) → r x y ≡ true → r y z ≡ true → r x z ≡ true)
    → ((x y : A) → (r x y ≡ true) ⊎ (r y x ≡ true))
    → IsSorted r xs
    → IsSorted r (insert_in r a xs)
unfolding insert_in
insert_in-IsSorted r a [] t c h = (tt, tt)
insert_in-IsSorted r a (b ∷ xs) t c h = elim (Bool-cases (r a b)) [
  | inl first ↦ rw first ((first, All-sooner r a b xs t first h.0), h)
  | inr later ↦ rw later (
    All-insert_in (λ z. r b z ≡ true) r a xs (ground (arith, c a b, later)) h.0,
    insert_in-IsSorted r a xs t c h.1,
  )
]

pub sort_by-IsSorted :
    {A : Type 0} (r : A → A → Bool) (xs : List A)
    → ((x y z : A) → r x y ≡ true → r y z ≡ true → r x z ≡ true)
    → ((x y : A) → (r x y ≡ true) ⊎ (r y x ≡ true))
    → IsSorted r (sort_by r xs)
unfolding sort_by
sort_by-IsSorted r [] t c = tt
sort_by-IsSorted r (a ∷ xs) t c =
    insert_in-IsSorted r a (sort_by r xs) t c (sort_by-IsSorted r xs t c)

length-insert_in {ℓ} :
    {A : Type ℓ} (r : A → A → Bool) (a : A) (xs : List A)
    → length (insert_in r a xs) ≡ suc (length xs)
unfolding insert_in
length-insert_in r a [] = refl
length-insert_in r a (b ∷ xs) = ground (arith, length-insert_in r a xs)

pub length-sort_by {ℓ} :
    {A : Type ℓ} (r : A → A → Bool) (xs : List A) → length (sort_by r xs) ≡ length xs
unfolding sort_by
length-sort_by r [] = refl
length-sort_by r (a ∷ xs) = ground (arith, length-insert_in r a (sort_by r xs), length-sort_by r xs)

pub All-sort_by :
    {A : Type 0} (P : A → Type 0) (r : A → A → Bool) (xs : List A) → All P xs → All P (sort_by r xs)
unfolding sort_by
All-sort_by P r [] h = tt
All-sort_by P r (a ∷ xs) h = All-insert_in P r a (sort_by r xs) h.0 (All-sort_by P r xs h.1)

insert_in-Perm :
    {A : Type 0} (r : A → A → Bool) (a : A) (xs : List A) → Perm (insert_in r a xs) (a ∷ xs)
unfolding insert_in
insert_in-Perm r a [] = Perm.refl (a ∷ [])
insert_in-Perm r a (b ∷ xs) = elim (Bool-cases (r a b)) [
  | inl first ↦ rw first (Perm.refl (a ∷ b ∷ xs))
  | inr later ↦ rw later (Perm.trans (Perm.cons b (insert_in-Perm r a xs)) (Perm.swap a b xs))
]

pub sort_by-Perm : {A : Type 0} (r : A → A → Bool) (xs : List A) → Perm (sort_by r xs) xs
unfolding sort_by
sort_by-Perm r [] = Perm.nil
sort_by-Perm r (a ∷ xs) =
    Perm.trans (insert_in-Perm r a (sort_by r xs)) (Perm.cons a (sort_by-Perm r xs))
