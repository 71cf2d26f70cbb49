-- ===== src/Dsl/Tests.antt =====
-- The filter builder on concrete rows.
use nanas.Prelude.{
  ◌==◌, ◌≡◌, ◌⊎◌, inl, inr, refl, List, [], ◌∷◌, ◌++◌, none, some, if◌then◌else◌, arith, All,
  get_elem?, ltb,
}
use mathlib.Core.Option
use nanas.Prelude.Text.{
  Text, codes, is_space, is_word, starts_with, text_eq, trim, to_upper, upper_code,
}
use nanas.Dsl.Filter.{ConditionRow, is_field_unit, parse_filter, serialise_filter, split_top_and}
use nanas.Dsl.Filter.Pieces.{IsUpper}
use nanas.Dsl.Filter.RoundTrip.{IsEditable, parse_filter-serialise_filter}
use nanas.Dsl.Builder.{
  DslConfig, visual, Builder, sync, apply_json, RowPatch, patch_row, update_row, remove_row,
  select_reduce, edit_reduce_field, reduce_view,
}
use nanas.Dsl.Builder.Laws.{
  apply_json-sync, get_elem?-update_row, get_elem?-remove_row, reduce_view_lem,
}

abbrev amount : ConditionRow
amount = record { field = codes "a.b"; op = codes "<="; value = codes "o1" }

abbrev missing : ConditionRow
missing = record { field = codes "c"; op = codes "IS NULL"; value = [] }

abbrev rows : List ConditionRow
rows = amount ∷ missing ∷ []

rows-IsEditable : All IsEditable rows
unfolding is_field_unit is_word is_space
rows-IsEditable = (
  (
    cc,
    (refl, (refl, (refl, tt))),
    inl (
      inr (inr (inr (inl refl))),
      (
        (refl, omega arith, omega arith, omega arith),
        ((refl, omega arith, omega arith, omega arith), tt),
      ),
    ),
  ),
  ((cc, (refl, tt), inr (inl refl, refl)), tt),
)

upper_code-IsUpper : IsUpper upper_code
unfolding upper_code
upper_code-IsUpper = record {
  blank = refl;
  letter_a = refl;
  letter_n = refl;
  letter_d = refl;
  only_blank = λ c h. ground (arith, h);
  only_a = λ c h. h;
}

parse_filter-serialise_filter_example : parse_filter to_upper (serialise_filter rows) ≡ rows
unfolding to_upper
parse_filter-serialise_filter_example =
    parse_filter-serialise_filter to_upper upper_code rows upper_code-IsUpper refl rows-IsEditable

-- "ß" in upper case is "SS"; the text is cut one unit late, so that the name of the second
-- field is lost.
abbrev upper_german : Text → Text
upper_german [] = []
upper_german (c ∷ s) =
    let rest = upper_german s in if c == 223 then b'S' ∷ b'S' ∷ rest else upper_code c ∷ rest

german-parts :
    split_top_and upper_german (codes "a = '" ++ (223 ∷ codes "' AND b = 1"))
    ≡ (codes "a = '" ++ (223 ∷ codes "' ")) ∷ codes " = 1" ∷ []
unfolding split_top_and upper_code trim starts_with
german-parts = refl

abbrev config : DslConfig
config = record { map_fields = some (codes "a" ∷ []); filter = none; reduce = none }

abbrev start : Builder
start = record { mode = visual; json = []; sample = codes "{"; result = none; error = none }

abbrev empty_object : DslConfig → Text
empty_object c = codes "{}"

abbrev reads_config : Text → Text ⊎ DslConfig
reads_config s = inr config

apply_json-sync_example :
    apply_json reads_config (sync empty_object config start)
    ≡ (record (sync empty_object config start) { error = none }, some config)
apply_json-sync_example = apply_json-sync empty_object reads_config config start refl

abbrev new_value : RowPatch
new_value = record { field = none; op = none; value = some (codes "o2") }

get_elem?-update_row_example :
    get_elem? (update_row 0 new_value rows) 1
    ≡ (if 0 == 1 then Option.map (patch_row new_value) (get_elem? rows 1) else get_elem? rows 1)
get_elem?-update_row_example = get_elem?-update_row rows 0 1 new_value

get_elem?-remove_row_example :
    get_elem? (remove_row 0 rows) 0 ≡ (if ltb 0 0 then get_elem? rows 0 else get_elem? rows 1)
get_elem?-remove_row_example = get_elem?-remove_row rows 0 0

reduce_view_lem_example :
    (reduce_view (edit_reduce_field (codes "x") (select_reduce (codes "sum") none)) ≡ record {
      selected = codes "sum";
      field_value = codes "x";
      field_disabled = text_eq (codes "sum") (codes "count");
    })
    × ((reduce_view (select_reduce (codes "sum") none)).field_value
        ≡ (reduce_view none).field_value)
    × (edit_reduce_field (codes "x") (select_reduce (codes "__none__") none) ≡ none)
unfolding text_eq
reduce_view_lem_example = reduce_view_lem (codes "sum") (codes "x") none refl refl
