-- ===== src/Marketplace/Semver.antt =====
-- `SEMVER` of web/src/features/marketplace/MarketplaceDetailPage.tsx, the expression
-- `/^v?(\d+)\.(\d+)\.(\d+)(-[\w.-]+)?(\+[\w.-]+)?$/`. No class of it meets what may follow it, so
-- that the longest match of each is the only one.
pub mod Spec
pub mod Sound
pub mod Complete
pub mod Laws
use nanas.Prelude.{
  ℕ, ◌==◌, Bool, true, false, not, ◌&&◌, ◌||◌, List, [], ◌∷◌, all, Option, none, some,
  if◌then◌else◌, and_then,
}
use nanas.Prelude.Text.{Text, is_empty, is_digit, is_word}
use nanas.Prelude.Scan.{take_while}

-- `v?`, and the removal of `^v`
unfoldable pub drop_v : Text → Text
drop_v [] = []
drop_v (c ∷ s) = if c == b'v' then s else c ∷ s

-- `\d+`, and what follows it
unfoldable pub digits : Text → Option Text
unfolding take_while is_digit
digits s = let (xs, rest) = take_while is_digit s in if is_empty xs then none else some rest

unfoldable pub after : ℕ → Text → Option Text
after d [] = none
after d (c ∷ s) = if c == d then some s else none

-- `\d+\.\d+\.\d+`, and what follows it
unfoldable pub numbers : Text → Option Text
unfolding digits after
numbers s = and_then (digits s) (λ r.
    and_then (after b'.' r) (λ r1. and_then (digits r1) (λ r2. and_then (after b'.' r2) digits)))

-- `[\w.-]`
unfoldable pub is_suffix_unit : ℕ → Bool
unfolding is_word
is_suffix_unit c = is_word c || c == b'.' || c == b'-'

-- `(\+[\w.-]+)?$`
unfoldable pub is_build : Text → Bool
unfolding is_suffix_unit
is_build [] = true
is_build (c ∷ s) = (c == b'+') && not (is_empty s) && all is_suffix_unit s

-- `(-[\w.-]+)?(\+[\w.-]+)?$`
unfoldable pub is_ending : Text → Bool
unfolding take_while is_build
is_ending [] = true
is_ending (c ∷ s) =
    let (xs, rest) = take_while is_suffix_unit s in
    if c == b'-' then not (is_empty xs) && is_build rest else is_build (c ∷ s)

-- `SEMVER.test(s)`
unfoldable pub is_semver : Text → Bool
unfolding drop_v numbers is_ending
is_semver s = elim (numbers (drop_v s)) [ none ↦ false | some rest ↦ is_ending rest ]
