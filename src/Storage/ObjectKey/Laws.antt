-- ===== src/Storage/ObjectKey/Laws.antt =====
-- The check of a key against a rule on the segments between its slashes.
use nanas.Prelude.{
  ℕ, ◌≡◌, ◌≢◌, ◌≤◌, ◌<◌, ◌↔◌, refl, Bool, true, false, ◌&&◌, ◌||◌, List, [], ◌∷◌, none,
  if◌then◌else◌, ◌==◌, length, drop, arith, All,
}
use nanas.Prelude.Text.{Text, codes, starts_with, text_eq, text_eq_iff}
use nanas.Storage.ObjectKey.{ends_segment, has_dots, has_control, validate_object_key}

-- `key.split('/')`: the first segment and the others.
abbrev pub first_segment : Text → Text
first_segment [] = []
first_segment (c ∷ s) = if c == b'/' then [] else c ∷ first_segment s

abbrev pub other_segments : Text → List Text
other_segments [] = []
other_segments (c ∷ s) =
    let h = first_segment s in let t = other_segments s in if c == b'/' then h ∷ t else t

abbrev pub dots : Text
dots = codes ".."

abbrev any_dots : List Text → Bool
any_dots [] = false
any_dots (s ∷ ss) = text_eq s dots || any_dots ss

ends_segment_lem : (s : Text) → ends_segment s ≡ text_eq (first_segment s) []
unfolding ends_segment text_eq
ends_segment_lem [] = refl
ends_segment_lem (c ∷ s) = ground arith

starts_with-dots :
    (s : Text) → (starts_with s dots && ends_segment (drop 2 s)) ≡ text_eq (first_segment s) dots
unfolding starts_with text_eq
starts_with-dots [] = refl
starts_with-dots (c ∷ []) = ground arith
starts_with-dots (c ∷ d ∷ s) = ground (arith, ends_segment_lem s)

has_dots_lem :
    (s : Text)
    → (has_dots true s ≡ (text_eq (first_segment s) dots || any_dots (other_segments s)))
      × (has_dots false s ≡ any_dots (other_segments s))
unfolding has_dots text_eq
has_dots_lem [] = (refl, refl)
has_dots_lem (c ∷ s) = ground (arith, starts_with-dots (c ∷ s), has_dots_lem s)

any_dots_iff : (ss : List Text) → (any_dots ss ≡ false) ↔ All (λ s. s ≢ dots) ss
any_dots_iff [] = (λ h. tt, λ h. refl)
any_dots_iff (s ∷ ss) = ground (arith, any_dots_iff ss, text_eq_iff s dots)

abbrev pub IsPrintable : ℕ → Type 0
IsPrintable c = (31 < c) × (c ≢ 127)

has_control_iff : (s : Text) → (has_control s ≡ false) ↔ All IsPrintable s
unfolding has_control
has_control_iff [] = (λ h. tt, λ h. refl)
has_control_iff (c ∷ s) = ground (arith, has_control_iff s)

-- The keys the check lets through, by segments.
abbrev pub IsObjectKey : Text → Type 0
IsObjectKey key =
    (key ≢ [])
    × (length key ≤ 1024)
    × (starts_with key (codes "/") ≡ false)
    × (first_segment key ≢ dots)
    × All (λ s. s ≢ dots) (other_segments key)
    × All IsPrintable key

-- The check gives no message for exactly the keys that are not empty, have at most 1024 units, do not
-- begin with a slash, have no segment that is "..", as "a..b" has none, and no control character.
pub validate_object_key_iff : (key : Text) → (validate_object_key key ≡ none) ↔ IsObjectKey key
unfolding validate_object_key
validate_object_key_iff [] = ground arith
validate_object_key_iff (c ∷ s) = ground (
  arith,
  has_dots_lem (c ∷ s),
  any_dots_iff (other_segments (c ∷ s)),
  has_control_iff (c ∷ s),
  text_eq_iff (first_segment (c ∷ s)) dots,
)
