-- ===== src/Dsl/Filter/RoundTrip/Row.antt =====
-- Each row is read back from its text.
use nanas.Prelude.{
  ℕ, ◌≡◌, ◌≢◌, refl, sym, ap, ◌∙◌, ◌⊎◌, inl, inr, [], ◌∷◌, ◌++◌, some, arith, All, Listed,
}
use nanas.Prelude.Text.{
  Text, codes, text_eq, to_upper, upper_code, trim, trim_start, trim_end, is_space, is_word,
}
use mathlib.Core.Path.{subst}
use nanas.Dsl.Filter.{
  ConditionRow, match_operator, simple_filter, normalise_op, strip_quotes, is_field_unit, row_of,
  serialise_value, serialise_row,
}
use nanas.Dsl.Filter.Pieces.{
  IsFieldUnit, IsPlainUnit, IsSolid, IsCalm, BeginsPlain, EndsPlain, IsFieldUnit-IsSolid,
  IsSolid-IsCalm, IsSolid-EndsPlain, IsCalm-gap, EndsPlain-append, match_field_lem,
}
use nanas.Dsl.Filter.RoundTrip.Values.{serialise_value-IsReadable}
use nanas.Dsl.Filter.RoundTrip.Operators.{
  comparisons, null_tests, match_comparison, match_null_test, comparison-IsOperator,
}

-- A row that the visual editor can hold: a field name, and a comparison with a value that has no
-- white space, quote or parenthesis, or a test for null, which has no value.
abbrev pub IsEditable : ConditionRow → Type 0
IsEditable r =
    (r.field ≢ [])
    × All IsFieldUnit r.field
    × (Listed r.op comparisons × All IsPlainUnit r.value ⊎ Listed r.op null_tests × (r.value ≡ []))

abbrev row : (field op value : Text) → ConditionRow
row f op v = record { field = f; op = op; value = v }

-- How the text of a row is read.
pub record IsReadBack (t : Text) (r : ConditionRow) : Type 0 where
  pub calm : IsCalm t
  pub begins : BeginsPlain t
  pub ends : EndsPlain t
  pub groups : Text × Text × Text
  pub found : simple_filter t ≡ some groups
  pub same : row_of groups ≡ r

begins_field : (f t : Text) → f ≢ [] → All IsSolid f → BeginsPlain (f ++ t)
begins_field [] t n h = absurd (n refl)
begins_field (c ∷ f) t n h = h.0.0

simple_filter_lem :
    (f r : Text) (m : Text × Text × Text)
    → f ≢ []
    → All IsFieldUnit f
    → match_operator f (32 ∷ r) ≡ some m
    → simple_filter (f ++ (32 ∷ r)) ≡ some m
unfolding simple_filter trim_start
simple_filter_lem [] r m n h e = absurd (n refl)
simple_filter_lem (c ∷ f) r m n h e =
    rw ((IsFieldUnit-IsSolid (c ∷ f) h).0.0) (match_field_lem [] (c ∷ f) r m n h e)

-- A field name, and what follows it.
gap-IsReadBack :
    (f : Text) (d : ℕ) (s : Text) (m : Text × Text × Text) (r : ConditionRow)
    → f ≢ []
    → All IsFieldUnit f
    → upper_code d ≢ b'A'
    → IsCalm (d ∷ s)
    → EndsPlain (d ∷ s)
    → match_operator f (32 ∷ d ∷ s) ≡ some m
    → row_of m ≡ r
    → IsReadBack (f ++ (32 ∷ d ∷ s)) r
gap-IsReadBack f d s m r n h a k p found same = record {
  calm = IsCalm-gap f d s (IsFieldUnit-IsSolid f h) a k;
  begins = begins_field f (32 ∷ d ∷ s) n (IsFieldUnit-IsSolid f h);
  ends = EndsPlain-append f (32 ∷ d ∷ s) p;
  groups = m;
  found = simple_filter_lem f (d ∷ s) m n h found;
  same = same;
}

IsSolid-as : (s : Text) (c : ℕ) (t : Text) → s ≡ c ∷ t → All IsSolid s → All IsSolid (c ∷ t)
IsSolid-as s c t e h = subst (All IsSolid) e h

same_row :
    (f a b t : Text) → normalise_op a ≡ a → strip_quotes (trim t) ≡ b → row_of (f, a, t) ≡ row f a b
unfolding row_of
same_row f a b t x y = ap (λ z. row f z (strip_quotes (trim t))) x ∙ ap (row f a) y

-- A comparison.
comparison-IsReadBack :
    (f op v : Text)
    → f ≢ []
    → All IsFieldUnit f
    → Listed op comparisons
    → All IsPlainUnit v
    → IsReadBack (f ++ (32 ∷ (op ++ (32 ∷ serialise_value v)))) (row f op v)
unfolding row_of
comparison-IsReadBack f op v n h l k =
    let o = comparison-IsOperator op l in
    let w = serialise_value-IsReadable v k in
    let d = IsSolid-as (serialise_value v) w.first w.rest w.shape w.solid in
    let b = IsSolid-as op o.first o.rest o.shape o.solid in
    let m = match_comparison op l f w.first w.rest d in
    let back =
      gap-IsReadBack f o.first (o.rest ++ (32 ∷ w.first ∷ w.rest)) (f, op, w.first ∷ w.rest)
        (row f op v) n h o.not_a
        (IsCalm-gap (o.first ∷ o.rest) w.first w.rest b w.not_a
          (IsSolid-IsCalm (w.first ∷ w.rest) d))
        (EndsPlain-append (o.first ∷ o.rest) (32 ∷ w.first ∷ w.rest)
          (IsSolid-EndsPlain (w.first ∷ w.rest) (cc) d))
        (subst
          (λ z.
            match_operator f (32 ∷ (z ++ (32 ∷ w.first ∷ w.rest))) ≡ some (f, op, w.first ∷ w.rest))
          o.shape m.0)
        (same_row f op v (w.first ∷ w.rest) m.1
          (subst (λ z. strip_quotes (trim z) ≡ v) w.shape w.stripped)) in
    subst (λ z. IsReadBack (f ++ (32 ∷ (z ++ (32 ∷ serialise_value v)))) (row f op v)) (sym o.shape)
      (subst (λ z. IsReadBack (f ++ (32 ∷ ((o.first ∷ o.rest) ++ (32 ∷ z)))) (row f op v))
        (sym w.shape) back)

-- The operators that test for null, word by word.
word-IsSolid : (w : Text) → All IsFieldUnit w → All IsSolid w
word-IsSolid w h = IsFieldUnit-IsSolid w h

abbrev null_tail : Text
null_tail = codes "ULL"

null-IsSolid : All IsSolid (codes "NULL")
unfolding is_field_unit is_word
null-IsSolid = word-IsSolid (codes "NULL") (refl, (refl, (refl, (refl, tt))))

is_solid : All IsSolid (codes "IS")
unfolding is_field_unit is_word
is_solid = word-IsSolid (codes "IS") (refl, (refl, tt))

not-IsSolid : All IsSolid (codes "NOT")
unfolding is_field_unit is_word
not-IsSolid = word-IsSolid (codes "NOT") (refl, (refl, (refl, tt)))

null-IsCalm : IsCalm (codes "NULL")
null-IsCalm = IsSolid-IsCalm (codes "NULL") null-IsSolid

is_null-IsCalm : IsCalm (codes "IS NULL")
unfolding upper_code
is_null-IsCalm = IsCalm-gap (codes "IS") b'N' (codes "ULL") is_solid (omega arith) null-IsCalm

is_not_null-IsCalm : IsCalm (codes "IS NOT NULL")
unfolding upper_code
is_not_null-IsCalm =
    IsCalm-gap (codes "IS") b'N' (codes "OT NULL") is_solid (omega arith)
      (IsCalm-gap (codes "NOT") b'N' (codes "ULL") not-IsSolid (omega arith) null-IsCalm)

null_test-IsReadBack :
    (f op : Text)
    → f ≢ []
    → All IsFieldUnit f
    → Listed op null_tests
    → IsReadBack (f ++ (32 ∷ op)) (row f op [])
unfolding row_of upper_code is_space strip_quotes trim trim_start trim_end normalise_op to_upper
    text_eq
null_test-IsReadBack f op n h (inl e) =
    subst (λ z. IsReadBack (f ++ (32 ∷ z)) (row f z [])) (sym e)
      (gap-IsReadBack f b'I' (codes "S NULL") (f, codes "IS NULL", []) (row f (codes "IS NULL") [])
        n h (omega arith) is_null-IsCalm refl (match_null_test (codes "IS NULL") (inl refl) f).0
        refl)
null_test-IsReadBack f op n h (inr (inl e)) =
    subst (λ z. IsReadBack (f ++ (32 ∷ z)) (row f z [])) (sym e)
      (gap-IsReadBack f b'I' (codes "S NOT NULL") (f, codes "IS NOT NULL", [])
        (row f (codes "IS NOT NULL") []) n h (omega arith) is_not_null-IsCalm refl
        (match_null_test (codes "IS NOT NULL") (inr (inl refl)) f).0 refl)
null_test-IsReadBack f op n h (inr (inr e)) = absurd e

written_null_test :
    (f op v : Text) → Listed op null_tests → serialise_row (row f op v) ≡ f ++ (32 ∷ op)
unfolding serialise_row text_eq
written_null_test f op v (inl e) =
    subst (λ z. serialise_row (row f z v) ≡ f ++ (32 ∷ z)) (sym e) refl
written_null_test f op v (inr (inl e)) =
    subst (λ z. serialise_row (row f z v) ≡ f ++ (32 ∷ z)) (sym e) refl
written_null_test f op v (inr (inr e)) = absurd e

pub row-IsReadBack : (r : ConditionRow) → IsEditable r → IsReadBack (serialise_row r) r
row-IsReadBack r (n, h, inl (l, k)) =
    let o = comparison-IsOperator r.op l in
    subst (λ z. IsReadBack z r) (sym (o.written r.field r.value))
      (comparison-IsReadBack r.field r.op r.value n h l k)
row-IsReadBack r (n, h, inr (l, e)) =
    subst (λ z. IsReadBack z r) (sym (written_null_test r.field r.op r.value l))
      (subst (λ z. IsReadBack (r.field ++ (32 ∷ r.op)) (row r.field r.op z)) (sym e)
        (null_test-IsReadBack r.field r.op n h l))
