-- ===== src/Dsl/Builder.antt =====
-- web/src/features/triggers/PayloadDSLBuilder.tsx: the state of the builder, the handlers of its parts
-- and what the parts show. A handler's result holds the value that it gives to `onChange`, where it
-- calls it. `JSON.stringify` and `JSON.parse` with its cast, and `onDryRun`, are arguments.
pub mod Laws
use nanas.Prelude.{
  ℕ, zero, suc, ◌==◌, Bool, true, false, not, ◌&&◌, ◌||◌, List, [], ◌∷◌, ◌++◌, map, Option, none,
  some, if◌then◌else◌, ◌⊎◌, inl, inr, keep, or_else, is_some,
}
use nanas.Prelude.Text.{Text, codes, text_eq, is_empty, starts_with, trim}
use nanas.Prelude.Json.{Json}
use nanas.Dsl.Filter.{ConditionRow, parse_filter, serialise_filter}

-- `op` is one of five texts.
pub record Reduce : Type 0 where
  pub op : Text
  pub field : Option Text

pub record DslConfig : Type 0 where
  pub map_fields : Option (List Text)
  pub filter : Option Text
  pub reduce : Option Reduce

pub record DryRunResult : Type 0 where
  pub output : Json
  pub passed : Bool
  pub reduced : Json

pub data Mode : Type 0 where
  visual : Mode
  json_text : Mode

-- The `useState` cells of the builder.
pub record Builder : Type 0 where
  pub mode : Mode
  pub json : Text
  pub sample : Text
  pub result : Option DryRunResult
  pub error : Option Text

abbrev pub is_nil {ℓ} : {A : Type ℓ} → List A → Bool
is_nil [] = true
is_nil (x ∷ xs) = false

-- The builder at its first render, and the effect that follows a new `value`.
unfoldable pub fresh : (stringify : DslConfig → Text) (first_sample : Text) → DslConfig → Builder
fresh stringify first_sample value = record {
  mode = visual;
  json = stringify value;
  sample = first_sample;
  result = none;
  error = none;
}

unfoldable pub sync : (stringify : DslConfig → Text) → DslConfig → Builder → Builder
sync stringify value b = record b { json = stringify value }

unfoldable pub conditions : (upper : Text → Text) → DslConfig → List ConditionRow
conditions upper value = parse_filter upper (or_else value.filter [])

unfoldable pub set_map : DslConfig → List Text → DslConfig
set_map value next = record value { map_fields = if is_nil next then none else some next }

unfoldable pub set_reduce : DslConfig → Option Reduce → DslConfig
set_reduce value next = record value { reduce = next }

unfoldable pub set_conditions : DslConfig → List ConditionRow → DslConfig
set_conditions value next = record value {
  filter = if is_nil next then none else some (serialise_filter next);
}

-- `JSON.parse` gives a value or throws an error with a message.
unfoldable pub apply_json : (parse : Text → Text ⊎ DslConfig) → Builder → Builder × Option DslConfig
apply_json parse b = elim (parse b.json) [
  | inl message ↦ (record b { error = some message }, none)
  | inr parsed ↦ (record b { error = none }, some parsed)
]

-- `onDryRun` settles with a result or an error.
unfoldable pub run_dry_run :
    (parse_sample : Text → Text ⊎ Json)
    (on_dry_run : Option (Json → DslConfig → Text ⊎ DryRunResult))
    → DslConfig
    → Builder
    → Builder
run_dry_run parse_sample none value b = b
run_dry_run parse_sample (some on_dry_run) value b = elim (parse_sample b.sample) [
  | inl message ↦ record b { error = some message }
  | inr parsed_sample ↦ elim (on_dry_run parsed_sample value) [
    | inl message ↦ record b { error = some message }
    | inr r ↦ record b { result = some r; error = none }
  ]
]

-- What the tab of the mode and the card below it show.
pub record BuilderView : Type 0 where
  pub shown_error : Option Text
  pub has_dry_run : Bool
  pub verdict : Option Text

unfoldable pub builder_view : (can_dry_run : Bool) → Builder → BuilderView
builder_view can_dry_run b = record {
  shown_error = elim b.mode [ visual ↦ none | json_text ↦ b.error ];
  has_dry_run = can_dry_run;
  verdict =
      if can_dry_run
      then elim b.result [
        | none ↦ none
        | some r ↦ some (if r.passed then codes "passed filter" else codes "filtered out")
      ]
      else none;
}

-- `Array.from(new Set(xs))`: the first of equal texts stays.
unfoldable pub distinct : List Text → List Text
distinct [] = []
distinct (x ∷ xs) = x ∷ keep (λ y. not (text_eq y x)) (distinct xs)

-- The button on a field's badge.
unfoldable pub remove_field : Text → List Text → List Text
remove_field f value = keep (λ x. not (text_eq x f)) value

-- The button "Add": the new draft, and the fields where `onChange` is called.
unfoldable pub add_field : (draft : Text) → List Text → Text × Option (List Text)
unfolding distinct
add_field draft value =
    if is_empty (trim draft)
    then (draft, none)
    else ([], some (distinct (value ++ (trim draft ∷ []))))

-- `Partial<ConditionRow>`
pub record RowPatch : Type 0 where
  pub field : Option Text
  pub op : Option Text
  pub value : Option Text

unfoldable pub patch_row : RowPatch → ConditionRow → ConditionRow
patch_row p r = record {
  field = or_else p.field r.field;
  op = or_else p.op r.op;
  value = or_else p.value r.value;
}

unfoldable pub update_row : ℕ → RowPatch → List ConditionRow → List ConditionRow
unfolding patch_row
update_row i p [] = []
update_row zero p (r ∷ rows) = patch_row p r ∷ rows
update_row (suc i) p (r ∷ rows) = r ∷ update_row i p rows

unfoldable pub remove_row : ℕ → List ConditionRow → List ConditionRow
remove_row i [] = []
remove_row zero (r ∷ rows) = rows
remove_row (suc i) (r ∷ rows) = r ∷ remove_row i rows

unfoldable pub add_row : List ConditionRow → List ConditionRow
add_row rows = rows ++ (record { field = []; op = codes "="; value = [] } ∷ [])

-- What a row of the conditions shows.
pub record RowView : Type 0 where
  pub placeholder : Text
  pub value_disabled : Bool

unfoldable pub row_view : ConditionRow → RowView
row_view r = record {
  placeholder =
      if starts_with r.op (codes "IS") then codes "(none)" else codes "'open' or 1 or [1,2]";
  value_disabled = text_eq r.op (codes "IS NULL") || text_eq r.op (codes "IS NOT NULL");
}

abbrev reduce_op : Option Reduce → Text
reduce_op none = []
reduce_op (some r) = r.op

abbrev reduce_field : Option Reduce → Text
reduce_field none = []
reduce_field (some r) = or_else r.field []

-- The selection of an operator, and the input of the field.
unfoldable pub select_reduce : (choice : Text) → Option Reduce → Option Reduce
select_reduce choice value =
    if text_eq choice (codes "__none__")
    then none
    else some (record { op = choice; field = some (reduce_field value) })

unfoldable pub edit_reduce_field : (input : Text) → Option Reduce → Option Reduce
edit_reduce_field input value =
    if is_empty (reduce_op value)
    then none
    else some (record { op = reduce_op value; field = some input })

pub record ReduceView : Type 0 where
  pub selected : Text
  pub field_value : Text
  pub field_disabled : Bool

unfoldable pub reduce_view : Option Reduce → ReduceView
reduce_view value = record {
  selected = if is_empty (reduce_op value) then codes "__none__" else reduce_op value;
  field_value = reduce_field value;
  field_disabled = is_empty (reduce_op value) || text_eq (reduce_op value) (codes "count");
}
