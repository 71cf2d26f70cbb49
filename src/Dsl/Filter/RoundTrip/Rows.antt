-- ===== src/Dsl/Filter/RoundTrip/Rows.antt =====
-- The rows are read back from the text of a filter.
use nanas.Prelude.{
  ℕ, ◌≡◌, ◌≢◌, refl, sym, ap, ◌∙◌, false, not, List, [], ◌∷◌, ◌++◌, map, none, some, arith, All,
  keep, append-nil,
}
use nanas.Prelude.Text.{Text, codes, trim, trim_start, trim_end, is_empty, join}
use mathlib.Core.Path.{subst}
use nanas.Dsl.Filter.{
  ConditionRow, simple_filter, split_from, split_top_and, row_of, rows_of, parse_filter,
  serialise_row, serialise_filter,
}
use nanas.Dsl.Filter.Pieces.{BeginsPlain, IsUpper, trim_plain, split_from-IsCalm, split_from-and}
use nanas.Dsl.Filter.RoundTrip.Row.{IsEditable, IsReadBack, row-IsReadBack}

field_kept : (f : Text) → f ≢ [] → is_empty f ≡ false
field_kept [] n = absurd (n refl)
field_kept (c ∷ f) n = refl

keep_editable :
    (rows : List ConditionRow)
    → All IsEditable rows
    → keep (λ (r : ConditionRow). not (is_empty r.field)) rows ≡ rows
keep_editable [] h = refl
keep_editable (r ∷ rows) h = rw (field_kept r.field h.0.0) (ap (◌∷◌ r) (keep_editable rows h.1))

not_blank : (t : Text) → BeginsPlain t → is_empty (trim t) ≡ false
unfolding trim trim_start trim_end
not_blank [] h = absurd h
not_blank (c ∷ t) h = ground arith

-- A part of the filter that is the text of a row.
read_part :
    (t : Text) (r : ConditionRow) (parts : List Text)
    → IsReadBack t r
    → rows_of (t ∷ parts) ≡ r ∷ rows_of parts
unfolding rows_of
read_part t r parts b =
    subst
      (λ z.
        elim z as (λ y. List ConditionRow) [
          | none ↦ rows_of parts
          | some m ↦ row_of m ∷ rows_of parts
        ]
        ≡ r ∷ rows_of parts)
      (sym (ap simple_filter (trim_plain t b.begins b.ends) ∙ b.found))
      (ap (λ z. z ∷ rows_of parts) b.same)

module _ (unit : ℕ → ℕ) (law : IsUpper unit) where
  split_last :
      (t : Text) (r : ConditionRow) → IsReadBack t r → split_from 0 0 0 [] (map unit t) t ≡ t ∷ []
  unfolding split_from
  split_last t r b =
      subst (λ z. split_from 0 0 0 [] (map unit z) z ≡ t ∷ []) (append-nil t)
        (split_from-IsCalm unit law 0 [] t [] b.calm ∙ rw (not_blank t b.begins) refl)

  -- The split gives the rows' texts, and each is read.
  read_parts :
      (r : ConditionRow) (rows : List ConditionRow)
      → IsEditable r
      → All IsEditable rows
      → (let t = join (codes " AND ") (map serialise_row (r ∷ rows)) in
          rows_of (split_from 0 0 0 [] (map unit t) t) ≡ r ∷ rows)
  unfolding join rows_of
  read_parts r [] h k =
      let b = row-IsReadBack r h in
      ap rows_of (split_last (serialise_row r) r b) ∙ read_part (serialise_row r) r [] b
  read_parts r (q ∷ rows) h k =
      let b = row-IsReadBack r h in
      let rest = join (codes " AND ") (map serialise_row (q ∷ rows)) in
      ap rows_of (
        split_from-IsCalm unit law 0 [] (serialise_row r) (codes " AND " ++ rest) b.calm
        ∙ split_from-and unit law 0 (serialise_row r) rest)
      ∙ (read_part (serialise_row r) r (split_from 0 0 0 [] (map unit rest) rest) b
          ∙ ap (◌∷◌ r) (read_parts q rows k.0 k.1))

written_not_blank :
    (r : ConditionRow) (rows : List ConditionRow)
    → IsEditable r
    → is_empty (trim (join (codes " AND ") (map serialise_row (r ∷ rows)))) ≡ false
unfolding join
written_not_blank r [] h = not_blank (serialise_row r) ((row-IsReadBack r h).begins)
written_not_blank r (q ∷ rows) h =
    not_blank
      (serialise_row r ++ (codes " AND " ++ join (codes " AND ") (map serialise_row (q ∷ rows))))
      (begins_append (serialise_row r)
        (codes " AND " ++ join (codes " AND ") (map serialise_row (q ∷ rows)))
        ((row-IsReadBack r h).begins))
  where
    begins_append : (s t : Text) → BeginsPlain s → BeginsPlain (s ++ t)
    begins_append [] t k = absurd k
    begins_append (c ∷ s) t k = k

-- Where the written text is put in upper case unit by unit, so that it holds no "ß", whose upper case
-- has two units: what the visual editor writes for rows that each hold a field of letters, digits,
-- underscores and dots, and one of the six comparisons with a value without white space, single
-- quotes and parentheses or a test for null without a value, is read back as the same rows in the
-- same order.
pub parse_filter-serialise_filter :
    (upper : Text → Text) (unit : ℕ → ℕ) (rows : List ConditionRow)
    → IsUpper unit
    → upper (serialise_filter rows) ≡ map unit (serialise_filter rows)
    → All IsEditable rows
    → parse_filter upper (serialise_filter rows) ≡ rows
unfolding parse_filter serialise_filter split_top_and trim join
parse_filter-serialise_filter upper unit [] law up h = refl
parse_filter-serialise_filter upper unit (r ∷ rows) law up h =
    let written = join (codes " AND ") (map serialise_row (r ∷ rows)) in
    let kept = keep_editable (r ∷ rows) h in
    let up' : upper written ≡ map unit written =
      subst
        (λ z.
          upper (join (codes " AND ") (map serialise_row z))
          ≡ map unit (join (codes " AND ") (map serialise_row z)))
        kept up in
    rw kept (rw (written_not_blank r rows h.0, up') (read_parts unit law r rows h.0 h.1))
