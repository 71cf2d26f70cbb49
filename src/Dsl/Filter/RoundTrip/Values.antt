-- ===== src/Dsl/Filter/RoundTrip/Values.antt =====
-- A value as `serialiseFilter` writes it.
use nanas.Prelude.{
  ℕ, ◌≡◌, ◌≢◌, refl, ap, ◌∙◌, inl, inr, Bool, true, false, ◌||◌, [], ◌∷◌, ◌++◌, arith, All,
  All-append, Bool-cases,
}
use nanas.Prelude.Text.{
  Text, codes, text_eq, text_eq_iff, upper_code, trim, trim_start, is_space, is_digit,
}
use nanas.Dsl.Filter.{
  quote, strip_quotes, ends_with_quote, drop_last, escape_quotes, serialise_value, is_number_like,
}
use nanas.Dsl.Filter.Pieces.{
  IsPlainUnit, IsSolid, IsPlainUnit-IsSolid, IsSolid-EndsPlain, trim_plain,
}

-- What the reader needs of a written value.
pub record IsReadable (sv v : Text) : Type 0 where
  pub first : ℕ
  pub rest : Text
  pub shape : sv ≡ first ∷ rest
  pub not_a : upper_code first ≢ b'A'
  pub solid : All IsSolid sv
  pub stripped : strip_quotes (trim sv) ≡ v

escape_plain : (v : Text) → All IsPlainUnit v → escape_quotes v ≡ v
unfolding escape_quotes
escape_plain [] h = refl
escape_plain (c ∷ v) h = ground (arith, escape_plain v h.1)

ends_with_quote_lem : (c : ℕ) (v : Text) → ends_with_quote (c ∷ (v ++ quote ∷ [])) ≡ true
unfolding ends_with_quote
ends_with_quote_lem c [] = refl
ends_with_quote_lem c (d ∷ v) = ends_with_quote_lem d v

drop_last_lem : (v : Text) → drop_last (v ++ quote ∷ []) ≡ v
unfolding drop_last
drop_last_lem [] = refl
drop_last_lem (c ∷ []) = refl
drop_last_lem (c ∷ d ∷ v) = ap (◌∷◌ c) (drop_last_lem (d ∷ v))

solid_trim : (c : ℕ) (s : Text) → All IsSolid (c ∷ s) → trim (c ∷ s) ≡ c ∷ s
solid_trim c s h = trim_plain (c ∷ s) h.0.0 (IsSolid-EndsPlain (c ∷ s) (cc) h)

quoted-IsReadable : (v : Text) → All IsPlainUnit v → IsReadable ((quote ∷ v) ++ quote ∷ []) v
unfolding strip_quotes is_space upper_code
quoted-IsReadable v h =
    let solid : All IsSolid ((quote ∷ v) ++ quote ∷ []) = (
      (refl, omega arith, omega arith),
      All-append IsSolid v (quote ∷ []) (IsPlainUnit-IsSolid v h)
          ((refl, omega arith, omega arith), tt),
    ) in
    record {
      first = quote;
      rest = v ++ quote ∷ [];
      shape = refl;
      not_a = omega arith;
      solid = solid;
      stripped =
          ap strip_quotes (solid_trim quote (v ++ quote ∷ []) solid)
          ∙ rw (ends_with_quote_lem quote v) (drop_last_lem v);
    }

raw-IsReadable :
    (c : ℕ) (v : Text) → All IsPlainUnit (c ∷ v) → upper_code c ≢ b'A' → IsReadable (c ∷ v) (c ∷ v)
unfolding strip_quotes
raw-IsReadable c v h n =
    let solid = IsPlainUnit-IsSolid (c ∷ v) h in
    record {
      first = c;
      rest = v;
      shape = refl;
      not_a = n;
      solid = solid;
      stripped = ap strip_quotes (solid_trim c v solid) ∙ ground arith;
    }

number_first :
    (c : ℕ) (v : Text)
    → All IsPlainUnit (c ∷ v)
    → is_number_like (c ∷ v) ≡ true
    → upper_code c ≢ b'A'
unfolding is_number_like is_digit upper_code
number_first c v h e =
    let same = solid_trim c v (IsPlainUnit-IsSolid (c ∷ v) h) in ground (arith, same)

-- The values that are written without quotes.
abbrev is_raw : Text → Bool
is_raw v =
    is_number_like v
    || text_eq v (codes "true")
    || text_eq v (codes "false")
    || text_eq v (codes "null")

not_raw_empty : is_raw [] ≡ false
unfolding is_number_like trim trim_start text_eq
not_raw_empty = refl

raw_first :
    (c : ℕ) (v : Text) → All IsPlainUnit (c ∷ v) → is_raw (c ∷ v) ≡ true → upper_code c ≢ b'A'
unfolding upper_code
raw_first c v h e = elim (Bool-cases (is_number_like (c ∷ v))) [
  | inl number ↦ number_first c v h number
  | inr other ↦ ground (
    arith,
    text_eq_iff (c ∷ v) (codes "true"),
    text_eq_iff (c ∷ v) (codes "false"),
    text_eq_iff (c ∷ v) (codes "null"),
  )
]

pub serialise_value-IsReadable : (v : Text) → All IsPlainUnit v → IsReadable (serialise_value v) v
unfolding serialise_value
serialise_value-IsReadable v h = elim (Bool-cases (is_raw v)) [
  | inl raw ↦ rw (raw, serialise_value) (unquoted v h raw)
  | inr quoted ↦ rw (quoted, escape_plain v h, serialise_value) (quoted-IsReadable v h)
]
  where
    unquoted : (w : Text) → All IsPlainUnit w → is_raw w ≡ true → IsReadable w w
    unquoted [] k e = absurd (cc not_raw_empty)
    unquoted (c ∷ w) k e = raw-IsReadable c w k (raw_first c w k e)
