-- ===== src/Observability/Metrics/RoundTrip.antt =====
-- A sample of the metrics that is written as the exposition format asks is read back.
use nanas.Prelude.{
  ℕ, ◌≡◌, refl, sym, ap, ◌∙◌, true, false, ◌||◌, List, [], ◌∷◌, ◌++◌, length, append_assoc, Option,
  some, arith, inl, inr, Bool-cases, All,
}
use nanas.Prelude.Text.{
  Text, codes, is_empty, is_space, is_digit, starts_with, trim, trim_start, trim_end,
}
use nanas.Prelude.Scan.{take_while-append, take_while-all, AllIn}
use nanas.Observability.Metrics.{
  is_label_start, is_label_unit, is_metric_start, is_metric_unit, is_value_unit, not_brace,
  set_labels, labels_of, match_blob, match_value, parse_line,
}
use nanas.Observability.Metrics.Laws.{
  IsName, match_name-append, is_plain, labels_text, IsLabel, find_labels-labels_text,
}
use nanas.Observability.Metrics.Classes.{labels_text-AllIn}

label_unit-not_brace : (c : ℕ) → is_label_unit c ≡ true → not_brace c ≡ true
unfolding is_label_unit is_label_start is_digit
label_unit-not_brace c h = ground arith

plain-not_brace : (c : ℕ) → is_plain c ≡ true → not_brace c ≡ true
plain-not_brace c h = ground (arith, h)

value_unit-not-space : (c : ℕ) → is_value_unit c ≡ true → is_space c ≡ false
unfolding is_value_unit is_digit is_space
value_unit-not-space c h = ground arith

metric_start-not-space : (c : ℕ) → is_metric_start c ≡ true → is_space c ≡ false
unfolding is_metric_start is_label_start is_space
metric_start-not-space c h = ground arith

labels_text-not_brace :
    (kvs : List (Text × Text)) → All IsLabel kvs → AllIn not_brace (labels_text kvs)
labels_text-not_brace =
    labels_text-AllIn not_brace label_unit-not_brace plain-not_brace
      (refl, (refl, (refl, (refl, tt))))

trim_end-value : (s : Text) → AllIn is_value_unit s → trim_end s ≡ s
unfolding trim_end
trim_end-value [] h = refl
trim_end-value (c ∷ s) h = rw (value_unit-not-space c h.0, trim_end-value s h.1) refl

is_empty-append : (s t : Text) → is_empty t ≡ false → is_empty (s ++ t) ≡ false
is_empty-append [] t full = full
is_empty-append (c ∷ s) t full = refl

trim_end-append : (s t : Text) → trim_end t ≡ t → is_empty t ≡ false → trim_end (s ++ t) ≡ s ++ t
unfolding trim_end
trim_end-append [] t h full = h
trim_end-append (c ∷ s) t h full =
    let rest = trim_end-append s t h full in
    let more = is_empty-append s t full in
    elim (Bool-cases (is_space c)) [
      | inl space ↦ rw (rest, space, more) refl
      | inr other ↦ rw (rest, other) refl
    ]

-- A sample as it is written.
abbrev pub sample_text : (metric : Text) → (labels : List (Text × Text)) → (value : Text) → Text
sample_text metric labels value = metric ++ (b'{' ∷ (labels_text labels ++ (b'}' ∷ b' ' ∷ value)))

match_value-value :
    (c : ℕ) (value : Text)
    → AllIn is_value_unit (c ∷ value)
    → match_value (b' ' ∷ c ∷ value) ≡ some (c ∷ value)
unfolding match_value trim_start
match_value-value c value h =
    rw (value_unit-not-space c h.0, take_while-all is_value_unit (c ∷ value) h) refl

match_blob-labels_text :
    (labels : List (Text × Text)) (after : Text)
    → All IsLabel labels
    → match_blob (b'{' ∷ (labels_text labels ++ (b'}' ∷ after))) ≡ some (labels_text labels, after)
unfolding match_blob
match_blob-labels_text labels after good =
    let taken =
      take_while-append not_brace (labels_text labels) b'}' after
        (labels_text-not_brace labels good) refl in
    rw (taken, taken) refl

trim_start-sample_text :
    (metric rest : Text)
    → IsName is_metric_start is_metric_unit metric
    → trim_start (metric ++ rest) ≡ metric ++ rest
unfolding trim_start
trim_start-sample_text [] rest named = absurd named
trim_start-sample_text (m ∷ metric) rest named = rw (metric_start-not-space m named.0) refl

trim-sample_text :
    (metric : Text) (labels : List (Text × Text)) (c : ℕ) (value : Text)
    → IsName is_metric_start is_metric_unit metric
    → AllIn is_value_unit (c ∷ value)
    → trim (sample_text metric labels (c ∷ value)) ≡ sample_text metric labels (c ∷ value)
unfolding trim
trim-sample_text metric labels c value named digits =
    let inner = labels_text labels in
    let front = metric ++ (b'{' ∷ (inner ++ (b'}' ∷ b' ' ∷ []))) in
    let split : sample_text metric labels (c ∷ value) ≡ front ++ (c ∷ value) =
      ap (λ z. metric ++ (b'{' ∷ z)) (sym (append_assoc inner (b'}' ∷ b' ' ∷ []) (c ∷ value)))
      ∙ sym (append_assoc metric (b'{' ∷ (inner ++ (b'}' ∷ b' ' ∷ []))) (c ∷ value)) in
    ap trim_end (trim_start-sample_text metric (b'{' ∷ (inner ++ (b'}' ∷ b' ' ∷ c ∷ value))) named)
    ∙ ap trim_end split
    ∙ trim_end-append front (c ∷ value) (trim_end-value (c ∷ value) digits) refl
    ∙ sym split

-- No comment starts like the name of a metric.
not-comment :
    (metric rest : Text)
    → IsName is_metric_start is_metric_unit metric
    → (is_empty (metric ++ rest) || starts_with (metric ++ rest) (codes "#")) ≡ false
unfolding starts_with is_metric_start is_label_start
not-comment [] rest named = absurd named
not-comment (m ∷ metric) rest named = ground (arith, named.0)

-- A sample is read back: the name, the labels in order (of those with one name the last) and the
-- value, where the names are names, the values of the labels have no line end and no closing brace,
-- and the number is written in the characters of numbers.
pub parse_line-sample_text :
    (number : Text → Option ℕ) (metric : Text) (labels : List (Text × Text)) (c : ℕ) (value : Text)
    (v : ℕ)
    → IsName is_metric_start is_metric_unit metric
    → All IsLabel labels
    → AllIn is_value_unit (c ∷ value)
    → number (c ∷ value) ≡ some v
    → parse_line number (sample_text metric labels (c ∷ value))
      ≡ some (record { metric = metric; labels = set_labels labels []; value = v })
unfolding parse_line labels_of
parse_line-sample_text number metric labels c value v named good digits reads =
    let rest = b'{' ∷ (labels_text labels ++ (b'}' ∷ b' ' ∷ c ∷ value)) in
    let found = find_labels-labels_text labels (length (labels_text labels)) good (omega arith) in
    rw
      (
        parse_line,
        trim-sample_text metric labels c value named digits,
        not-comment metric rest named,
        match_name-append is_metric_start is_metric_unit metric b'{'
            (labels_text labels ++ (b'}' ∷ b' ' ∷ c ∷ value)) named refl,
        match_blob-labels_text labels (b' ' ∷ c ∷ value) good,
        match_value-value c value digits,
        reads,
        found,
      )
      refl
