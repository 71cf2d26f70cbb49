-- ===== src/Dsl/Filter/Gaps.antt =====
-- Where the visual editor's text and its rows part.
use nanas.Prelude.{◌≡◌, sym, ap, ◌∙◌, List, [], ◌∷◌, ◌++◌, map, not, keep, keep-append, arith}
use nanas.Prelude.Text.{codes, is_empty, join}
use nanas.Dsl.Filter.{ConditionRow, serialise_filter, serialise_row}

-- The row that the button under the rows appends.
abbrev pub new_row : ConditionRow
new_row = record { field = []; op = codes "="; value = [] }

-- A row without a field name leaves no trace in the text, wherever it stands: the row that the button
-- appends is gone when the rows are read from the text again.
pub serialise_filter-blank_row :
    (rows more : List ConditionRow) (r : ConditionRow)
    → r.field ≡ []
    → serialise_filter (rows ++ (r ∷ more)) ≡ serialise_filter (rows ++ more)
unfolding serialise_filter
serialise_filter-blank_row rows more r e =
    ap (λ z. join (codes " AND ") (map serialise_row z))
      (keep-append (λ (q : ConditionRow). not (is_empty q.field)) rows (r ∷ more)
        ∙ (ap (λ z. keep (λ (q : ConditionRow). not (is_empty q.field)) rows ++ z) blank
            ∙ sym (keep-append (λ (q : ConditionRow). not (is_empty q.field)) rows more)))
  where
    blank :
        keep (λ (q : ConditionRow). not (is_empty q.field)) (r ∷ more)
        ≡ keep (λ (q : ConditionRow). not (is_empty q.field)) more
    blank = ground (arith, ap is_empty e)
