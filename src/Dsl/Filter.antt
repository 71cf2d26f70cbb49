-- ===== src/Dsl/Filter.antt =====
-- The helpers at the end of web/src/features/triggers/PayloadDSLBuilder.tsx: a filter as text, and
-- as the rows of the visual editor.
pub mod Pieces
pub mod RoundTrip
pub mod Gaps
use nanas.Prelude.{
  ℕ, zero, suc, ◌+◌, ◌-◌, ◌==◌, Bool, true, false, not, ◌&&◌, ◌||◌, List, [], ◌∷◌, ◌++◌, map,
  Option, none, some, if◌then◌else◌, length, take, drop, keep,
}
use nanas.Prelude.Text.{
  Text, codes, text_eq, is_empty, starts_with, to_upper, trim, trim_start, is_space, is_word,
  is_digit, join,
}

-- `op` is one of nine texts; `normaliseOp` casts to them.
pub record ConditionRow : Type 0 where
  pub field : Text
  pub op : Text
  pub value : Text

abbrev pub quote : ℕ
quote = 39

-- `.` matches no line terminator.
unfoldable pub has_line_end : Text → Bool
has_line_end [] = false
has_line_end (c ∷ s) = (c == 10) || (c == 13) || has_line_end s

-- The end of the pattern, `\s*(.*)$`, behind an operator.
unfoldable pub match_value : (field raw_op rest : Text) → Option (Text × Text × Text)
unfolding has_line_end
match_value field raw_op rest =
    let v = trim_start rest in if has_line_end v then none else some (field, raw_op, v)

-- A literal alternative of the operator, without regard to case.
unfoldable pub match_literal : (alternative field r : Text) → Option (Text × Text × Text)
match_literal alternative field r =
    if starts_with (to_upper r) alternative
    then match_value field (take (length alternative) r) (drop (length alternative) r)
    else none

-- `\s+` before a word, without regard to case: what stands behind the word.
unfoldable pub spaced_word : (word r : Text) → Option Text
spaced_word word [] = none
spaced_word word (c ∷ r) =
    let t = trim_start r in
    if is_space c && starts_with (to_upper t) word then some (drop (length word) t) else none

unfoldable pub match_to : (field r : Text) → Option Text → Option (Text × Text × Text)
match_to field r none = none
match_to field r (some rest) = match_value field (take (length r - length rest) r) rest

-- `IS\s+NULL`
unfoldable pub match_is_null : (field r : Text) → Option (Text × Text × Text)
unfolding match_to
match_is_null field r =
    if starts_with (to_upper r) (codes "IS")
    then match_to field r (spaced_word (codes "NULL") (drop 2 r))
    else none

-- `IS\s+NOT\s+NULL`
unfoldable pub match_is_not_null : (field r : Text) → Option (Text × Text × Text)
unfolding match_to
match_is_not_null field r =
    if starts_with (to_upper r) (codes "IS")
    then elim (spaced_word (codes "NOT") (drop 2 r)) [
      | none ↦ none
      | some t ↦ match_to field r (spaced_word (codes "NULL") t)
    ]
    else none

abbrev pub or_try {ℓ} : {A : Type ℓ} → Option A → Option A → Option A
or_try none y = y
or_try (some x) y = some x

-- The alternatives of the operator, in the pattern's order; the white space before it is skipped.
unfoldable pub match_operator : (field rest : Text) → Option (Text × Text × Text)
unfolding match_literal match_value match_is_null match_is_not_null spaced_word
match_operator field rest =
    let r = trim_start rest in
    or_try (match_literal (codes "=") field r) (
      or_try (match_literal (codes "!=") field r) (
        or_try (match_literal (codes "<>") field r) (
          or_try (match_literal (codes "<=") field r) (
            or_try (match_literal (codes ">=") field r) (
              or_try (match_literal (codes "<") field r) (
                or_try (match_literal (codes ">") field r) (
                  or_try (match_literal (codes "IN") field r)
                    (or_try (match_is_not_null field r) (match_is_null field r)))))))))

-- `[\w.]`
unfoldable pub is_field_unit : ℕ → Bool
is_field_unit c = is_word c || (c == b'.')

-- `[\w.]+` takes as many units as it can, and gives them back one by one until the rest matches.
unfoldable pub match_field : (taken s : Text) → Option (Text × Text × Text)
unfolding is_field_unit
match_field taken [] = none
match_field taken (c ∷ s) =
    let longer = match_field (taken ++ c ∷ []) s in
    let here = match_operator (taken ++ c ∷ []) s in
    if is_field_unit c then or_try longer here else none

-- `SIMPLE_FILTER.exec`: the three groups.
unfoldable pub simple_filter : Text → Option (Text × Text × Text)
simple_filter s = match_field [] (trim_start s)

-- `.replace(/\s+/g, ' ')`
unfoldable pub collapse_spaces : Text → Text
collapse_spaces [] = []
collapse_spaces (c ∷ s) =
    let rest = collapse_spaces s in
    if is_space c
    then elim rest [ [] ↦ 32 ∷ [] | d ∷ t ↦ if d == 32 then d ∷ t else 32 ∷ d ∷ t ]
    else c ∷ rest

unfoldable pub normalise_op : Text → Text
unfolding collapse_spaces
normalise_op raw =
    let up = trim (collapse_spaces (to_upper raw)) in
    if text_eq up (codes "IS NULL")
    then codes "IS NULL"
    else if text_eq up (codes "IS NOT NULL")
    then codes "IS NOT NULL"
    else if text_eq up (codes "<>")
    then codes "!="
    else if text_eq up (codes "IN")
    then codes "IN"
    else up

-- `s.endsWith("'")`
unfoldable pub ends_with_quote : Text → Bool
ends_with_quote [] = false
ends_with_quote (c ∷ []) = c == quote
ends_with_quote (c ∷ d ∷ s) = ends_with_quote (d ∷ s)

-- `s.slice(0, -1)`
unfoldable pub drop_last : Text → Text
drop_last [] = []
drop_last (c ∷ []) = []
drop_last (c ∷ d ∷ s) = c ∷ drop_last (d ∷ s)

unfoldable pub strip_quotes : Text → Text
unfolding ends_with_quote drop_last
strip_quotes [] = []
strip_quotes (c ∷ s) = if (c == quote) && ends_with_quote (c ∷ s) then drop_last s else c ∷ s

-- The loop of `splitTopAnd`. The depth is the number of "(" less that of ")", and may be negative;
-- `skip` counts the units that `i += 4` passes over. `up` is what stands from the place of `s` on in
-- the text in upper case, whose places need not be those of the text: "ß" becomes "SS".
unfoldable pub split_from : (skip opens closes : ℕ) → (current up s : Text) → List Text
split_from skip opens closes current up [] = if is_empty (trim current) then [] else current ∷ []
split_from (suc skip) opens closes current up (c ∷ s) =
    split_from skip opens closes current (drop 1 up) s
split_from zero opens closes current up (c ∷ s) =
    let opens' = if c == b'(' then opens + 1 else opens in
    let closes' = if c == b')' then closes + 1 else closes in
    let parted = split_from 4 opens' closes' [] (drop 1 up) s in
    let longer = split_from 0 opens' closes' (current ++ c ∷ []) (drop 1 up) s in
    if (opens' == closes') && starts_with up (codes " AND ") then current ∷ parted else longer

-- `upper` is `toUpperCase`.
unfoldable pub split_top_and : (upper : Text → Text) → Text → List Text
unfolding split_from
split_top_and upper filter = split_from 0 0 0 [] (upper filter) filter

-- The row of a part that the pattern matches.
unfoldable pub row_of : Text × Text × Text → ConditionRow
row_of (field, raw_op, v) = record {
  field = field;
  op = normalise_op raw_op;
  value = strip_quotes (trim v);
}

-- The loop of `parseFilter`.
unfoldable pub rows_of : List Text → List ConditionRow
unfolding row_of
rows_of [] = []
rows_of (part ∷ parts) = elim (simple_filter (trim part)) [
  | none ↦ rows_of parts
  | some m ↦ row_of m ∷ rows_of parts
]

unfoldable pub parse_filter : (upper : Text → Text) → Text → List ConditionRow
parse_filter upper filter =
    if is_empty (trim filter) then [] else rows_of (split_top_and upper filter)

-- `\d+` and the end of the text, or what stands behind a point.
unfoldable pub digits_then : (point : Bool) → (seen : Bool) → Text → Bool
digits_then point seen [] = seen
digits_then point seen (c ∷ s) =
    let more = digits_then point true s in
    let fraction = digits_then false false s in
    if is_digit c then more else if point && seen && (c == b'.') then fraction else false

-- `/^-?\d+(\.\d+)?$/` on the trimmed text
unfoldable pub is_number_like : Text → Bool
unfolding digits_then
is_number_like v = elim (trim v) [
  | [] ↦ false
  | c ∷ s ↦ if c == b'-' then digits_then true false s else digits_then true false (c ∷ s)
]

-- `.replace(/'/g, "\\'")`
unfoldable pub escape_quotes : Text → Text
escape_quotes [] = []
escape_quotes (c ∷ s) = if c == quote then b'\\' ∷ quote ∷ escape_quotes s else c ∷ escape_quotes s

unfoldable pub serialise_value : Text → Text
unfolding escape_quotes
serialise_value v =
    if is_number_like v
      || text_eq v (codes "true")
      || text_eq v (codes "false")
      || text_eq v (codes "null")
    then v
    else (quote ∷ escape_quotes v) ++ quote ∷ []

unfoldable pub serialise_row : ConditionRow → Text
unfolding serialise_value
serialise_row r =
    if text_eq r.op (codes "IS NULL") || text_eq r.op (codes "IS NOT NULL")
    then r.field ++ (32 ∷ r.op)
    else if text_eq r.op (codes "IN")
    then r.field ++ (codes " IN (" ++ (r.value ++ codes ")"))
    else r.field ++ (32 ∷ (r.op ++ (32 ∷ serialise_value r.value)))

unfoldable pub serialise_filter : List ConditionRow → Text
unfolding serialise_row
serialise_filter rows =
    join (codes " AND ")
      (map serialise_row (keep (λ (r : ConditionRow). not (is_empty r.field)) rows))
