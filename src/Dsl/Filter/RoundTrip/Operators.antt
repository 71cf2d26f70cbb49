-- ===== src/Dsl/Filter/RoundTrip/Operators.antt =====
-- The operators of the visual editor, and how the pattern reads each.
use nanas.Prelude.{ℕ, ◌≡◌, ◌≢◌, refl, inl, inr, List, [], ◌∷◌, ◌++◌, some, arith, All, Listed}
use nanas.Prelude.Text.{Text, codes, text_eq, starts_with, to_upper, upper_code, trim, is_space}
use nanas.Dsl.Filter.{match_operator, normalise_op, serialise_value, serialise_row}
use nanas.Dsl.Filter.Pieces.{IsSolid, IsSolid-no_line}

abbrev pub comparisons : List Text
comparisons = codes "=" ∷ codes "!=" ∷ codes "<" ∷ codes "<=" ∷ codes ">" ∷ codes ">=" ∷ []

abbrev pub null_tests : List Text
null_tests = codes "IS NULL" ∷ codes "IS NOT NULL" ∷ []

-- What the operator `op` matches, with a space and a solid value behind it.
abbrev pub ReadsAs : Text → Type 0
ReadsAs op =
    (f : Text) (d : ℕ) (t : Text)
    → All IsSolid (d ∷ t)
    → (match_operator f (32 ∷ (op ++ (32 ∷ d ∷ t))) ≡ some (f, op, d ∷ t))
      × (normalise_op op ≡ op)
      × (op ≢ [])

reads_eq : ReadsAs (codes "=")
unfolding match_operator normalise_op starts_with to_upper upper_code trim is_space text_eq
reads_eq f d t h = (rw (h.0.0, IsSolid-no_line (d ∷ t) h), refl, cc)

reads_ne : ReadsAs (codes "!=")
unfolding match_operator normalise_op starts_with to_upper upper_code trim is_space text_eq
reads_ne f d t h = (rw (h.0.0, IsSolid-no_line (d ∷ t) h), refl, cc)

reads_lt : ReadsAs (codes "<")
unfolding match_operator normalise_op starts_with to_upper upper_code trim is_space text_eq
reads_lt f d t h = (rw (h.0.0, IsSolid-no_line (d ∷ t) h), refl, cc)

reads_le : ReadsAs (codes "<=")
unfolding match_operator normalise_op starts_with to_upper upper_code trim is_space text_eq
reads_le f d t h = (rw (h.0.0, IsSolid-no_line (d ∷ t) h), refl, cc)

reads_gt : ReadsAs (codes ">")
unfolding match_operator normalise_op starts_with to_upper upper_code trim is_space text_eq
reads_gt f d t h = (rw (h.0.0, IsSolid-no_line (d ∷ t) h), refl, cc)

reads_ge : ReadsAs (codes ">=")
unfolding match_operator normalise_op starts_with to_upper upper_code trim is_space text_eq
reads_ge f d t h = (rw (h.0.0, IsSolid-no_line (d ∷ t) h), refl, cc)

pub match_comparison : (op : Text) → Listed op comparisons → ReadsAs op
match_comparison op (inl e) = rw e reads_eq
match_comparison op (inr (inl e)) = rw e reads_ne
match_comparison op (inr (inr (inl e))) = rw e reads_lt
match_comparison op (inr (inr (inr (inl e)))) = rw e reads_le
match_comparison op (inr (inr (inr (inr (inl e))))) = rw e reads_gt
match_comparison op (inr (inr (inr (inr (inr (inl e)))))) = rw e reads_ge
match_comparison op (inr (inr (inr (inr (inr (inr h)))))) = absurd h

-- A test for null.
abbrev pub TestsNull : Text → Type 0
TestsNull op = (f : Text) → (match_operator f (32 ∷ op) ≡ some (f, op, [])) × (normalise_op op ≡ op)

tests_null : TestsNull (codes "IS NULL")
unfolding match_operator normalise_op starts_with to_upper upper_code trim is_space text_eq
tests_null f = (refl, refl)

tests_not_null : TestsNull (codes "IS NOT NULL")
unfolding match_operator normalise_op starts_with to_upper upper_code trim is_space text_eq
tests_not_null f = (refl, refl)

pub match_null_test : (op : Text) → Listed op null_tests → TestsNull op
match_null_test op (inl e) = rw e tests_null
match_null_test op (inr (inl e)) = rw e tests_not_null
match_null_test op (inr (inr h)) = absurd h

-- The text of an operator, and of the rows that it compares in.
pub record IsOperator (op : Text) : Type 0 where
  pub first : ℕ
  pub rest : Text
  pub shape : op ≡ first ∷ rest
  pub not_a : upper_code first ≢ b'A'
  pub solid : All IsSolid op
  pub written :
      (f v : Text)
      → serialise_row (record { field = f; op = op; value = v })
        ≡ f ++ (32 ∷ (op ++ (32 ∷ serialise_value v)))

is_eq : IsOperator (codes "=")
unfolding serialise_row is_space upper_code text_eq
is_eq = record {
  first = _;
  rest = _;
  shape = refl;
  not_a = omega arith;
  solid = ((refl, omega arith, omega arith), tt);
  written = λ f v. refl;
}

is_ne : IsOperator (codes "!=")
unfolding serialise_row is_space upper_code text_eq
is_ne = record {
  first = _;
  rest = _;
  shape = refl;
  not_a = omega arith;
  solid = ((refl, omega arith, omega arith), ((refl, omega arith, omega arith), tt));
  written = λ f v. refl;
}

is_lt : IsOperator (codes "<")
unfolding serialise_row is_space upper_code text_eq
is_lt = record {
  first = _;
  rest = _;
  shape = refl;
  not_a = omega arith;
  solid = ((refl, omega arith, omega arith), tt);
  written = λ f v. refl;
}

is_le : IsOperator (codes "<=")
unfolding serialise_row is_space upper_code text_eq
is_le = record {
  first = _;
  rest = _;
  shape = refl;
  not_a = omega arith;
  solid = ((refl, omega arith, omega arith), ((refl, omega arith, omega arith), tt));
  written = λ f v. refl;
}

is_gt : IsOperator (codes ">")
unfolding serialise_row is_space upper_code text_eq
is_gt = record {
  first = _;
  rest = _;
  shape = refl;
  not_a = omega arith;
  solid = ((refl, omega arith, omega arith), tt);
  written = λ f v. refl;
}

is_ge : IsOperator (codes ">=")
unfolding serialise_row is_space upper_code text_eq
is_ge = record {
  first = _;
  rest = _;
  shape = refl;
  not_a = omega arith;
  solid = ((refl, omega arith, omega arith), ((refl, omega arith, omega arith), tt));
  written = λ f v. refl;
}

pub comparison-IsOperator : (op : Text) → Listed op comparisons → IsOperator op
comparison-IsOperator op (inl e) = rw e is_eq
comparison-IsOperator op (inr (inl e)) = rw e is_ne
comparison-IsOperator op (inr (inr (inl e))) = rw e is_lt
comparison-IsOperator op (inr (inr (inr (inl e)))) = rw e is_le
comparison-IsOperator op (inr (inr (inr (inr (inl e))))) = rw e is_gt
comparison-IsOperator op (inr (inr (inr (inr (inr (inl e)))))) = rw e is_ge
comparison-IsOperator op (inr (inr (inr (inr (inr (inr h)))))) = absurd h
