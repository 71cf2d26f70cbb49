-- ===== src/Observability/Metrics/Texts.antt =====
-- A text of samples and comments, each on its line, is read sample by sample.
use nanas.Prelude.{
  ℕ, ◌==◌, ◌≡◌, refl, Bool, true, false, not, List, [], ◌∷◌, ◌++◌, Option, none, some, arith, All,
  All-append,
}
use nanas.Prelude.Text.{Text, is_digit, starts_with, trim, trim_start, trim_end}
use nanas.Prelude.Scan.{AllIn}
use nanas.Observability.Metrics.{
  PromSeries, is_label_start, is_label_unit, is_metric_start, is_metric_unit, is_value_unit,
  set_labels, split_lines, parse_line, parse_lines, parse_prom_text,
}
use nanas.Observability.Metrics.Laws.{IsName, is_plain, labels_text, IsLabel}
use nanas.Observability.Metrics.Classes.{AllIn-wider, IsName-AllIn, labels_text-AllIn}
use nanas.Observability.Metrics.RoundTrip.{sample_text, parse_line-sample_text}

abbrev in_line : ℕ → Bool
in_line c = not (c == 10)

label_unit-in_line : (c : ℕ) → is_label_unit c ≡ true → in_line c ≡ true
unfolding is_label_unit is_label_start is_digit
label_unit-in_line c h = ground arith

metric_unit-in_line : (c : ℕ) → is_metric_unit c ≡ true → in_line c ≡ true
unfolding is_metric_unit is_metric_start is_label_start is_digit
metric_unit-in_line c h = ground arith

value_unit-in_line : (c : ℕ) → is_value_unit c ≡ true → in_line c ≡ true
unfolding is_value_unit is_digit
value_unit-in_line c h = ground arith

plain-in_line : (c : ℕ) → is_plain c ≡ true → in_line c ≡ true
plain-in_line c h = ground (arith, h)

labels_text-in_line : (kvs : List (Text × Text)) → All IsLabel kvs → AllIn in_line (labels_text kvs)
labels_text-in_line =
    labels_text-AllIn in_line label_unit-in_line plain-in_line (refl, (refl, (refl, (refl, tt))))

-- A line of the text: a sample, with the number that its value stands for, or a comment.
pub data Line : Type 0 where
  sample :
      (metric : Text) → (labels : List (Text × Text)) → (c : ℕ) → (value : Text) → (v : ℕ) → Line
  comment : Text → Line

abbrev pub line_text : Line → Text
line_text (sample metric labels c value v) = sample_text metric labels (c ∷ value)
line_text (comment s) = b'#' ∷ s

abbrev pub lines_text : List Line → Text
lines_text [] = []
lines_text (l ∷ ls) = line_text l ++ (10 ∷ lines_text ls)

-- A sample is well-formed, and a comment stays on its line.
abbrev pub IsLine : (number : Text → Option ℕ) → Line → Type 0
IsLine number (sample metric labels c value v) =
    IsName is_metric_start is_metric_unit metric
    × All IsLabel labels
    × AllIn is_value_unit (c ∷ value)
    × (number (c ∷ value) ≡ some v)
IsLine number (comment s) = AllIn in_line s

abbrev pub series_of : List Line → List PromSeries
series_of [] = []
series_of (sample metric labels c value v ∷ ls) =
    record { metric = metric; labels = set_labels labels []; value = v } ∷ series_of ls
series_of (comment s ∷ ls) = series_of ls

line_text-in_line :
    (number : Text → Option ℕ) (l : Line) → IsLine number l → AllIn in_line (line_text l)
line_text-in_line number (sample metric labels c value v) (named, good, digits, reads) =
    All-append _ metric (b'{' ∷ (labels_text labels ++ (b'}' ∷ b' ' ∷ c ∷ value)))
      (IsName-AllIn is_metric_start is_metric_unit in_line metric metric_unit-in_line named)
      (
        refl,
        All-append _ (labels_text labels) (b'}' ∷ b' ' ∷ c ∷ value)
            (labels_text-in_line labels good)
            (refl, (refl, AllIn-wider is_value_unit in_line (c ∷ value) value_unit-in_line digits)),
      )
line_text-in_line number (comment s) h = (refl, h)

split_lines-append :
    (s rest : Text) → AllIn in_line s → split_lines (s ++ (10 ∷ rest)) ≡ s ∷ split_lines rest
unfolding split_lines
split_lines-append [] rest h = refl
split_lines-append (c ∷ s) rest h =
    let stays : (c == 10) ≡ false = ground (arith, h.0) in
    rw (stays, split_lines-append s rest h.1) refl

parse_line-comment : (number : Text → Option ℕ) (s : Text) → parse_line number (b'#' ∷ s) ≡ none
unfolding parse_line trim trim_start trim_end starts_with
parse_line-comment number s = refl

-- A text of lines is read back as its samples, in their order, each with its name, its labels (of
-- those with one name the last) and its value, where each line is a comment or a sample, the names
-- are names, the values of the labels have no line end and no closing brace, and the number is
-- written in the characters of numbers and stands for the value.
pub parse_prom_text-lines_text :
    (number : Text → Option ℕ) (ls : List Line)
    → All (IsLine number) ls
    → parse_prom_text number (lines_text ls) ≡ series_of ls
unfolding parse_prom_text parse_lines parse_line trim trim_start trim_end
parse_prom_text-lines_text number [] h = refl
parse_prom_text-lines_text number (sample metric labels c value v ∷ ls) h =
    let l = sample metric labels c value v in
    let rest = parse_prom_text-lines_text number ls h.1 in
    let cut = split_lines-append (line_text l) (lines_text ls) (line_text-in_line number l h.0) in
    let (named, good, digits, reads) = h.0 in
    let read = parse_line-sample_text number metric labels c value v named good digits reads in
    rw (cut, parse_lines, read, rest) refl
parse_prom_text-lines_text number (comment s ∷ ls) h =
    let rest = parse_prom_text-lines_text number ls h.1 in
    let cut = split_lines-append (b'#' ∷ s) (lines_text ls) (refl, h.0) in
    rw (cut, parse_lines, parse_line-comment number s, rest) refl
