-- ===== src/Prelude/Scan.antt =====
-- Scanning a text for a repeated character class of a regular expression.
use Prim.Native.Nat.{ℕ}
use mathlib.Core.Path.{◌≡◌, refl, ap}
use mathlib.Core.Bool.{Bool, true, false}
use mathlib.Core.List.{[], ◌∷◌, ◌++◌, append-nil}
use mathlib.Core.Logic.{inl, inr, ◌↔◌}
use nanas.Prelude.Tests.{if◌then◌else◌, Bool-cases}
use native.Mathlib.Omega.{arith}
use nanas.Prelude.Lists.{All, all}
use nanas.Prelude.Text.{Text}

-- The longest start of a text that a repeated character class matches, and what follows it.
unfoldable pub take_while : (ℕ → Bool) → Text → Text × Text
take_while p [] = ([], [])
take_while p (c ∷ s) =
    let (xs, rest) = take_while p s in if p c then (c ∷ xs, rest) else ([], c ∷ s)

abbrev pub AllIn : (ℕ → Bool) → Text → Type 0
AllIn p s = All (λ c. p c ≡ true) s

pub all-AllIn : (p : ℕ → Bool) (s : Text) → (all p s ≡ true) ↔ AllIn p s
all-AllIn p [] = (λ h. tt, λ h. refl)
all-AllIn p (c ∷ s) = ground (arith, all-AllIn p s)

pub take_while-append :
    (p : ℕ → Bool) (xs : Text) (c : ℕ) (rest : Text)
    → AllIn p xs
    → p c ≡ false
    → take_while p (xs ++ (c ∷ rest)) ≡ (xs, c ∷ rest)
unfolding take_while
take_while-append p [] c rest h stop = rw stop refl
take_while-append p (x ∷ xs) c rest h stop = rw (take_while-append p xs c rest h.1 stop, h.0) refl

pub take_while-all : (p : ℕ → Bool) (xs : Text) → AllIn p xs → take_while p xs ≡ (xs, [])
unfolding take_while
take_while-all p [] h = refl
take_while-all p (x ∷ xs) h = rw (take_while-all p xs h.1, h.0) refl

pub take_while_sound :
    (p : ℕ → Bool) (s : Text)
    → ((take_while p s).0 ++ (take_while p s).1 ≡ s) × AllIn p (take_while p s).0
unfolding take_while
take_while_sound p [] = (refl, tt)
take_while_sound p (c ∷ s) = elim (Bool-cases (p c)) [
  | inl in_class ↦
      let (whole, each) = take_while_sound p s in
      rw in_class (ap (λ z. c ∷ z) whole, (in_class, each))
  | inr out ↦ rw out (refl, tt)
]

-- The text is empty or begins outside of the class.
abbrev pub StopsAt : (ℕ → Bool) → Text → Type 0
StopsAt p [] = Unit
StopsAt p (c ∷ s) = p c ≡ false

pub take_while-run :
    (p : ℕ → Bool) (xs rest : Text)
    → AllIn p xs
    → StopsAt p rest
    → take_while p (xs ++ rest) ≡ (xs, rest)
take_while-run p xs [] each stop = rw (append-nil xs) (take_while-all p xs each)
take_while-run p xs (c ∷ rest) each stop = take_while-append p xs c rest each stop
