-- ===== src/Dsl/Filter/Pieces.antt =====
-- How the parts of a written filter are read back: spaces, the split at AND, the pattern.
use nanas.Prelude.{
  ℕ, ◌≡◌, ◌≢◌, refl, ◌⊎◌, inl, inr, true, false, [], ◌∷◌, ◌++◌, some, arith, map, All, append_assoc,
  append-nil,
}
use nanas.Prelude.Text.{
  Text, codes, starts_with, upper_code, trim, trim_start, trim_end, is_space, is_word,
}
use nanas.Dsl.Filter.{quote, has_line_end, match_operator, is_field_unit, match_field, split_from}

abbrev pub IsFieldUnit : ℕ → Type 0
IsFieldUnit c = is_field_unit c ≡ true

-- A unit of a value that the editor writes and reads back: no white space, quote or parenthesis.
abbrev pub IsPlainUnit : ℕ → Type 0
IsPlainUnit c = (is_space c ≡ false) × (c ≢ quote) × (c ≢ b'(') × (c ≢ b')')

pub field_unit-IsPlainUnit : (c : ℕ) → IsFieldUnit c → IsPlainUnit c
unfolding is_field_unit is_word is_space
field_unit-IsPlainUnit c h = ground arith

-- Text that a split at AND passes over: no parenthesis, and each space stands before a unit that is
-- no white space and no "A".
abbrev pub IsCalm : Text → Type 0
IsCalm [] = Unit
IsCalm (c ∷ []) = (is_space c ≡ false) × (c ≢ b'(') × (c ≢ b')')
IsCalm (c ∷ d ∷ s) =
    ((is_space c ≡ false) ⊎ (upper_code d ≢ b'A')) × (c ≢ b'(') × (c ≢ b')') × IsCalm (d ∷ s)

-- What `toUpperCase` makes of the units that it maps one by one: no unit but the blank becomes the
-- blank, and none but "a" and "A" becomes "A".
pub record IsUpper (unit : ℕ → ℕ) : Type 0 where
  pub blank : unit b' ' ≡ b' '
  pub letter_a : unit b'A' ≡ b'A'
  pub letter_n : unit b'N' ≡ b'N'
  pub letter_d : unit b'D' ≡ b'D'
  pub only_blank : (c : ℕ) → unit c ≡ b' ' → c ≡ b' '
  pub only_a : (c : ℕ) → unit c ≡ b'A' → upper_code c ≡ b'A'

module _ (unit : ℕ → ℕ) (law : IsUpper unit) where
  -- At a calm text, and whatever follows it, there is no " AND ".
  no_and :
      (c d : ℕ) (s : Text)
      → (is_space c ≡ false) ⊎ (upper_code d ≢ b'A')
      → starts_with (map unit (c ∷ d ∷ s)) (codes " AND ") ≡ false
  unfolding starts_with is_space
  no_and c d s h = ground (arith, law.only_blank c, law.only_a d)

  no_and_end :
      (c : ℕ) (s : Text)
      → is_space c ≡ false
      → starts_with (map unit (c ∷ s)) (codes " AND ") ≡ false
  unfolding starts_with is_space
  no_and_end c s h = ground (arith, law.only_blank c)

  pub split_from-IsCalm :
      (n : ℕ) (current t r : Text)
      → IsCalm t
      → split_from 0 n n current (map unit (t ++ r)) (t ++ r)
        ≡ split_from 0 n n (current ++ t) (map unit r) r
  unfolding split_from
  split_from-IsCalm n current [] r h = rw append-nil
  split_from-IsCalm n current (c ∷ []) r h = ground (arith, no_and_end c r h.0)
  split_from-IsCalm n current (c ∷ d ∷ s) r (gap, p, q, h) = ground (
    arith,
    no_and c d (s ++ r) gap,
    split_from-IsCalm n (current ++ c ∷ []) (d ∷ s) r h,
    append_assoc current (c ∷ []) (d ∷ s),
  )

  pub split_from-and :
      (n : ℕ) (current r : Text)
      → split_from 0 n n current (map unit (codes " AND " ++ r)) (codes " AND " ++ r)
        ≡ current ∷ split_from 0 n n [] (map unit r) r
  unfolding split_from starts_with
  split_from-and n current r =
      rw (law.blank, law.letter_a, law.letter_n, law.letter_d) (ground arith)

-- A text that begins and ends with no white space is not changed by `trim`.
abbrev pub EndsPlain : Text → Type 0
EndsPlain [] = ⊥
EndsPlain (c ∷ []) = is_space c ≡ false
EndsPlain (c ∷ d ∷ s) = EndsPlain (d ∷ s)

abbrev pub BeginsPlain : Text → Type 0
BeginsPlain [] = ⊥
BeginsPlain (c ∷ s) = is_space c ≡ false

trim_end-EndsPlain : (s : Text) → EndsPlain s → trim_end s ≡ s
unfolding trim_end
trim_end-EndsPlain [] h = absurd h
trim_end-EndsPlain (c ∷ []) h = rw h
trim_end-EndsPlain (c ∷ d ∷ s) h = ground (arith, trim_end-EndsPlain (d ∷ s) h)

pub trim_plain : (s : Text) → BeginsPlain s → EndsPlain s → trim s ≡ s
unfolding trim trim_start
trim_plain [] h k = absurd h
trim_plain (c ∷ s) h k = rw h (trim_end-EndsPlain (c ∷ s) k)

blank_is_no_field : is_field_unit 32 ≡ false
unfolding is_field_unit is_word
blank_is_no_field = refl

-- The pattern takes a whole field name, where the operator behind it matches.
pub match_field_lem :
    (taken f r : Text) (m : Text × Text × Text)
    → f ≢ []
    → All IsFieldUnit f
    → match_operator (taken ++ f) (32 ∷ r) ≡ some m
    → match_field taken (f ++ (32 ∷ r)) ≡ some m
unfolding match_field
match_field_lem taken [] r m n h e = absurd (n refl)
match_field_lem taken (c ∷ []) r m n h e = ground (arith, blank_is_no_field)
match_field_lem taken (c ∷ d ∷ f) r m n h e =
    let longer : match_field (taken ++ c ∷ []) ((d ∷ f) ++ (32 ∷ r)) ≡ some m =
      match_field_lem (taken ++ c ∷ []) (d ∷ f) r m (cc) h.1
        (rw (append_assoc taken (c ∷ []) (d ∷ f)) e) in
    rw (h.0, longer)

-- No white space and no parenthesis.
abbrev pub IsSolid : ℕ → Type 0
IsSolid c = (is_space c ≡ false) × (c ≢ b'(') × (c ≢ b')')

pub IsCalm-gap :
    (s : Text) (d : ℕ) (t : Text)
    → All IsSolid s
    → upper_code d ≢ b'A'
    → IsCalm (d ∷ t)
    → IsCalm (s ++ (32 ∷ d ∷ t))
IsCalm-gap [] d t h n k = (inr n, omega arith, omega arith, k)
IsCalm-gap (c ∷ []) d t h n k = (inl h.0.0, h.0.1, h.0.2, (inr n, omega arith, omega arith, k))
IsCalm-gap (c ∷ e ∷ s) d t h n k = (inl h.0.0, h.0.1, h.0.2, IsCalm-gap (e ∷ s) d t h.1 n k)

pub IsSolid-IsCalm : (s : Text) → All IsSolid s → IsCalm s
IsSolid-IsCalm [] h = tt
IsSolid-IsCalm (c ∷ []) h = h.0
IsSolid-IsCalm (c ∷ d ∷ s) h = (inl h.0.0, h.0.1, h.0.2, IsSolid-IsCalm (d ∷ s) h.1)

pub EndsPlain-append : (s t : Text) → EndsPlain t → EndsPlain (s ++ t)
EndsPlain-append [] t h = h
EndsPlain-append (c ∷ []) [] h = absurd h
EndsPlain-append (c ∷ []) (d ∷ t) h = h
EndsPlain-append (c ∷ d ∷ s) t h = EndsPlain-append (d ∷ s) t h

pub IsSolid-EndsPlain : (s : Text) → s ≢ [] → All IsSolid s → EndsPlain s
IsSolid-EndsPlain [] n h = n refl
IsSolid-EndsPlain (c ∷ []) n h = h.0.0
IsSolid-EndsPlain (c ∷ d ∷ s) n h = IsSolid-EndsPlain (d ∷ s) (cc) h.1

pub IsSolid-no_line : (s : Text) → All IsSolid s → has_line_end s ≡ false
unfolding has_line_end is_space
IsSolid-no_line [] h = refl
IsSolid-no_line (c ∷ s) h = ground (arith, IsSolid-no_line s h.1)

pub IsPlainUnit-IsSolid : (s : Text) → All IsPlainUnit s → All IsSolid s
IsPlainUnit-IsSolid [] h = tt
IsPlainUnit-IsSolid (c ∷ s) ((a, b, p, q), h) = ((a, p, q), IsPlainUnit-IsSolid s h)

pub IsFieldUnit-IsSolid : (s : Text) → All IsFieldUnit s → All IsSolid s
IsFieldUnit-IsSolid [] h = tt
IsFieldUnit-IsSolid (c ∷ s) (a, h) =
    let (x, y, p, q) = field_unit-IsPlainUnit c a in ((x, p, q), IsFieldUnit-IsSolid s h)
