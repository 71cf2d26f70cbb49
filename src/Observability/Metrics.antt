-- ===== src/Observability/Metrics.antt =====
-- web/src/features/observability/MetricsPage.tsx: reading the text of the metrics, and the counts of
-- the charts. The samples are whole numbers; `number` is `Number` with its test for a finite value.
pub mod Laws
pub mod Classes
pub mod RoundTrip
pub mod Texts
pub mod Charts
use nanas.Prelude.{
  ℕ, zero, suc, ◌+◌, ◌==◌, Bool, true, false, not, ◌&&◌, ◌||◌, List, [], ◌∷◌, ◌++◌, keep, length,
  Option, none, some, if◌then◌else◌, leb, or_else, and_then,
}
use nanas.Prelude.Sort.{sort_by}
use nanas.Prelude.Text.{
  Text, codes, text_eq, is_empty, is_space, is_digit, starts_with, trim, trim_start, lookup, insert,
}
use nanas.Prelude.Scan.{take_while}
use nanas.Http.{Response, is_ok}

pub record PromSeries : Type 0 where
  pub metric : Text
  pub labels : List (Text × Text)
  pub value : ℕ

-- `text.split('\n')`
unfoldable pub split_lines : Text → List Text
split_lines [] = [] ∷ []
split_lines (c ∷ s) =
    let rest = split_lines s in
    if c == 10 then [] ∷ rest else elim rest [ [] ↦ (c ∷ []) ∷ [] | l ∷ ls ↦ (c ∷ l) ∷ ls ]

-- `[a-zA-Z_]`
unfoldable pub is_label_start : ℕ → Bool
is_label_start c = (leb b'a' c && leb c b'z') || (leb b'A' c && leb c b'Z') || c == b'_'

unfoldable pub is_label_unit : ℕ → Bool
unfolding is_label_start is_digit
is_label_unit c = is_label_start c || is_digit c

-- `[a-zA-Z_:]`
unfoldable pub is_metric_start : ℕ → Bool
unfolding is_label_start
is_metric_start c = is_label_start c || c == b':'

unfoldable pub is_metric_unit : ℕ → Bool
unfolding is_metric_start is_digit
is_metric_unit c = is_metric_start c || is_digit c

-- `[0-9eE+\-.NaN]`
unfoldable pub is_value_unit : ℕ → Bool
unfolding is_digit
is_value_unit c =
    is_digit c
    || c == b'e'
    || c == b'E'
    || c == b'+'
    || c == b'-'
    || c == b'.'
    || c == b'N'
    || c == b'a'

abbrev pub not_brace : ℕ → Bool
not_brace c = not (c == b'}')

-- A name: a first character and those that follow.
abbrev pub match_name : (start unit : ℕ → Bool) → Text → Option (Text × Text)
match_name start unit [] = none
match_name start unit (c ∷ s) = if start c then some (take_while unit (c ∷ s)) else none

abbrev pub prepend : ℕ → Option (Text × Text) → Option (Text × Text)
prepend c none = none
prepend c (some (s, rest)) = some (c ∷ s, rest)

-- `((?:[^"\\]|\\.)*)"`, with the backslashes that escape a character taken away, and what follows.
unfoldable pub match_body : (escaped : Bool) → Text → Option (Text × Text)
match_body escaped [] = none
match_body true (c ∷ s) =
    let rest = match_body false s in if (c == 10) || (c == 13) then none else prepend c rest
match_body false (c ∷ s) =
    let rest = match_body (c == 92) s in
    if c == 34 then some ([], s) else if c == 92 then rest else prepend c rest

-- `="`
abbrev pub match_equals : Text → Option Text
match_equals [] = none
match_equals (c ∷ []) = none
match_equals (c ∷ d ∷ s) = if (c == b'=') && (d == 34) then some s else none

-- `([a-zA-Z_][a-zA-Z0-9_]*)="..."`, at the start of a text.
unfoldable pub match_label : Text → Option (Text × Text × Text)
unfolding take_while match_body is_label_start is_label_unit
match_label s = elim (match_name is_label_start is_label_unit s) [
  | none ↦ none
  | some (name, r) ↦ elim (and_then (match_equals r) (match_body false)) [
    | none ↦ none
    | some (value, rest) ↦ some (name, value, rest)
  ]
]

-- The matches of the pattern in a text, one after the other; the fuel is the length of the text.
unfoldable pub find_labels : (fuel : ℕ) → Text → List (Text × Text)
unfolding match_label
find_labels zero s = []
find_labels (suc fuel) [] = []
find_labels (suc fuel) (c ∷ s) = elim (match_label (c ∷ s)) [
  | none ↦ find_labels fuel s
  | some (name, value, rest) ↦ (name, value) ∷ find_labels fuel rest
]

abbrev pub set_labels : List (Text × Text) → List (Text × Text) → List (Text × Text)
set_labels [] m = m
set_labels (kv ∷ kvs) m = set_labels kvs (insert kv.0 kv.1 m)

unfoldable pub labels_of : Text → List (Text × Text)
unfolding find_labels
labels_of inner = set_labels (find_labels (length inner) inner) []

-- `(\{[^}]*\})?`: what is inside the braces, and what follows them; `none` where the whole pattern
-- cannot match any more.
unfoldable pub match_blob : Text → Option (Text × Text)
unfolding take_while
match_blob [] = some ([], [])
match_blob (c ∷ s) =
    if c == b'{'
    then (let (inner, after) = take_while not_brace s in
        elim after [ [] ↦ none | d ∷ rest ↦ some (inner, rest) ])
    else some ([], c ∷ s)

-- `\s+` and the text of the number.
unfoldable pub match_value : Text → Option Text
unfolding take_while is_value_unit
match_value [] = none
match_value (c ∷ s) =
    let (value, rest) = take_while is_value_unit (trim_start (c ∷ s)) in
    if is_space c && not (is_empty value) then some value else none

module _ (number : Text → Option ℕ) where
  unfoldable pub parse_line : Text → Option PromSeries
  unfolding take_while match_blob match_value labels_of is_metric_start is_metric_unit
  parse_line line_raw =
      let line = trim line_raw in
      if is_empty line || starts_with line (codes "#")
      then none
      else elim (match_name is_metric_start is_metric_unit line) [
        | none ↦ none
        | some (metric, r) ↦ elim (match_blob r) [
          | none ↦ none
          | some (inner, after) ↦ elim (and_then (match_value after) number) [
            | none ↦ none
            | some value ↦
                some (record { metric = metric; labels = labels_of inner; value = value })
          ]
        ]
      ]

  unfoldable pub parse_lines : List Text → List PromSeries
  unfolding parse_line
  parse_lines [] = []
  parse_lines (l ∷ ls) = elim (parse_line l) [ none ↦ parse_lines ls | some s ↦ s ∷ parse_lines ls ]

  unfoldable pub parse_prom_text : Text → List PromSeries
  unfolding split_lines parse_lines
  parse_prom_text text = parse_lines (split_lines text)

  -- What the query of the page makes of the response; none is 'Failed to load metrics'.
  unfoldable pub metrics_result : Response → Option (List PromSeries)
  unfolding parse_prom_text
  metrics_result res = if is_ok res then some (parse_prom_text res.text) else none
