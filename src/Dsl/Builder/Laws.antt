-- ===== src/Dsl/Builder/Laws.antt =====
-- What the handlers of the builder do to the configuration and to what is shown.
use nanas.Prelude.{
  ℕ, zero, suc, ◌==◌, ◌≡◌, ◌≢◌, refl, sym, ap, Bool, true, false, not, List, [], ◌∷◌, ◌++◌, Option,
  none, some, if◌then◌else◌, ◌⊎◌, inl, inr, keep, map, arith, All, All-keep, get_elem?, All-append,
  ltb,
}
use nanas.Prelude.Text.{Text, codes, text_eq, text_eq_iff, text_eq_refl, is_empty, trim}
use mathlib.Core.Path.{subst}
use mathlib.Core.Option
use nanas.Prelude.Json.{Json}
use nanas.Dsl.Filter.{ConditionRow, parse_filter, serialise_filter}
use nanas.Dsl.Filter.Pieces.{IsUpper}
use nanas.Dsl.Filter.RoundTrip.{IsEditable, parse_filter-serialise_filter}
use nanas.Dsl.Builder.{
  Reduce, DslConfig, DryRunResult, visual, Builder, sync, conditions, set_conditions, apply_json,
  run_dry_run, builder_view, distinct, remove_field, add_field, RowPatch, patch_row, update_row,
  remove_row, select_reduce, edit_reduce_field, reduce_view,
}

-- An edit of the conditions to editable rows leaves the map and the reduction as they were, and the
-- rows that are shown after it are the rows of the edit, where no unit of their text has an upper
-- case of several units.
pub conditions-set_conditions :
    (upper : Text → Text) (unit : ℕ → ℕ) (value : DslConfig) (rows : List ConditionRow)
    → IsUpper unit
    → upper (serialise_filter rows) ≡ map unit (serialise_filter rows)
    → All IsEditable rows
    → (conditions upper (set_conditions value rows) ≡ rows)
      × ((set_conditions value rows).map_fields ≡ value.map_fields)
      × ((set_conditions value rows).reduce ≡ value.reduce)
unfolding conditions set_conditions parse_filter trim
conditions-set_conditions upper unit value [] law up h = (refl, refl, refl)
conditions-set_conditions upper unit value (r ∷ rows) law up h =
    (parse_filter-serialise_filter upper unit (r ∷ rows) law up h, refl, refl)

-- Where `JSON.parse` reads back what `JSON.stringify` writes for the value, Apply JSON on the text that the effect has
-- written gives the same value to `onChange` and takes the error away.
pub apply_json-sync :
    (stringify : DslConfig → Text) (parse : Text → Text ⊎ DslConfig) (value : DslConfig)
    (b : Builder)
    → parse (stringify value) ≡ inr value
    → apply_json parse (sync stringify value b)
      ≡ (record (sync stringify value b) { error = none }, some value)
unfolding apply_json sync
apply_json-sync stringify parse value b law = rw (law, apply_json) refl

-- An evaluation that fails, in the sample or at the platform, leaves the verdict of the evaluation
-- before it on display, and in the visual mode it shows no error.
pub run_dry_run-failed :
    (parse_sample : Text → Text ⊎ Json) (call : Json → DslConfig → Text ⊎ DryRunResult)
    (value : DslConfig) (b : Builder) (message : Text)
    → b.mode ≡ visual
    → (parse_sample b.sample ≡ inl message)
      ⊎ ((s : Json) × (parse_sample b.sample ≡ inr s) × (call s value ≡ inl message))
    → (builder_view true (run_dry_run parse_sample (some call) value b) ≡ builder_view true b)
      × ((run_dry_run parse_sample (some call) value b).error ≡ some message)
unfolding run_dry_run builder_view
run_dry_run-failed parse_sample call value b message m (inl e) =
    (ground (arith, e, m), ground (arith, e))
run_dry_run-failed parse_sample call value b message m (inr (s, e, f)) =
    (ground (arith, e, f, m), ground (arith, e, f))

-- No text stands twice.
abbrev pub IsDistinct : List Text → Type 0
IsDistinct [] = Unit
IsDistinct (x ∷ xs) = All (λ y. y ≢ x) xs × IsDistinct xs

keep-All-not : (x : Text) (xs : List Text) → All (λ y. y ≢ x) (keep (λ y. not (text_eq y x)) xs)
keep-All-not x [] = tt
keep-All-not x (y ∷ xs) = ground (arith, text_eq_iff y x, keep-All-not x xs)

keep-IsDistinct : (p : Text → Bool) (xs : List Text) → IsDistinct xs → IsDistinct (keep p xs)
keep-IsDistinct p [] h = tt
keep-IsDistinct p (x ∷ xs) h =
    ground (arith, All-keep (λ y. y ≢ x) p xs h.0, keep-IsDistinct p xs h.1)

distinct-IsDistinct : (xs : List Text) → IsDistinct (distinct xs)
unfolding distinct
distinct-IsDistinct [] = tt
distinct-IsDistinct (x ∷ xs) = (
  keep-All-not x (distinct xs),
  keep-IsDistinct (λ y. not (text_eq y x)) (distinct xs) (distinct-IsDistinct xs),
)

keep_absent :
    (x : Text) (xs : List Text) → All (λ y. y ≢ x) xs → keep (λ y. not (text_eq y x)) xs ≡ xs
keep_absent x [] h = refl
keep_absent x (y ∷ xs) h = ground (arith, text_eq_iff y x, keep_absent x xs h.1)

All-snoc : (P : Text → Type 0) (xs : List Text) (x : Text) → All P xs → P x → All P (xs ++ (x ∷ []))
All-snoc P xs x h p = All-append P xs (x ∷ []) h (p, tt)

distinct-new :
    (xs : List Text) (x : Text)
    → IsDistinct xs
    → All (λ y. y ≢ x) xs
    → distinct (xs ++ (x ∷ [])) ≡ xs ++ (x ∷ [])
unfolding distinct
distinct-new [] x h k = refl
distinct-new (y ∷ xs) x h k = rw (distinct-new xs x h.1 k.1) (
    ap (◌∷◌ y) (keep_absent y (xs ++ (x ∷ [])) (All-snoc (λ z. z ≢ y) xs x h.0 (λ e. k.0 (sym e)))))

keep_last :
    (x : Text) (xs : List Text)
    → All (λ y. y ≢ x) xs
    → keep (λ y. not (text_eq y x)) (xs ++ (x ∷ [])) ≡ xs
keep_last x [] h = rw (text_eq_refl x) refl
keep_last x (y ∷ xs) h = ground (arith, text_eq_iff y x, keep_last x xs h.1)

-- To fields that stand once each, "Add" appends a draft that is not blank and not among them, trimmed,
-- and empties the draft; the fields still stand once each, and the button on the new field's badge gives
-- back the fields from before.
pub remove_field-add_field :
    (draft : Text) (value : List Text)
    → IsDistinct value
    → is_empty (trim draft) ≡ false
    → All (λ y. y ≢ trim draft) value
    → (add_field draft value ≡ ([], some (value ++ (trim draft ∷ []))))
      × IsDistinct (value ++ (trim draft ∷ []))
      × (remove_field (trim draft) (value ++ (trim draft ∷ [])) ≡ value)
unfolding add_field remove_field
remove_field-add_field draft value h n k = (
  rw (n, distinct-new value (trim draft) h k) refl,
  subst IsDistinct (distinct-new value (trim draft) h k)
      (distinct-IsDistinct (value ++ (trim draft ∷ []))),
  keep_last (trim draft) value k,
)

-- An edit of row `i` changes that row alone, the parts that the edit names, and adds none.
pub get_elem?-update_row :
    (rows : List ConditionRow) (i j : ℕ) (p : RowPatch)
    → get_elem? (update_row i p rows) j
      ≡ (if i == j then Option.map (patch_row p) (get_elem? rows j) else get_elem? rows j)
unfolding update_row
get_elem?-update_row [] i j p = ground arith
get_elem?-update_row (r ∷ rows) zero zero p = ground arith
get_elem?-update_row (r ∷ rows) zero (suc j) p = ground arith
get_elem?-update_row (r ∷ rows) (suc i) zero p = ground arith
get_elem?-update_row (r ∷ rows) (suc i) (suc j) p = ground (arith, get_elem?-update_row rows i j p)

-- A row that is edited keeps its place when another is removed: removal of row `i` moves up the rows
-- behind it, and leaves those before it.
pub get_elem?-remove_row :
    (rows : List ConditionRow) (i j : ℕ)
    → get_elem? (remove_row i rows) j
      ≡ (if ltb j i then get_elem? rows j else get_elem? rows (suc j))
unfolding remove_row
get_elem?-remove_row [] i j = ground arith
get_elem?-remove_row (r ∷ rows) zero j = ground arith
get_elem?-remove_row (r ∷ rows) (suc i) zero = ground arith
get_elem?-remove_row (r ∷ rows) (suc i) (suc j) = ground (arith, get_elem?-remove_row rows i j)

-- With an operator of the menu chosen, an edit of the field keeps the operator, a change of the
-- operator keeps the field, and what is shown is what was put in; "(none)" clears both.
pub reduce_view_lem :
    (op input : Text) (value : Option Reduce)
    → is_empty op ≡ false
    → text_eq op (codes "__none__") ≡ false
    → (reduce_view (edit_reduce_field input (select_reduce op value)) ≡ record {
      selected = op;
      field_value = input;
      field_disabled = text_eq op (codes "count");
    })
      × ((reduce_view (select_reduce op value)).field_value ≡ (reduce_view value).field_value)
      × (edit_reduce_field input (select_reduce (codes "__none__") value) ≡ none)
unfolding reduce_view edit_reduce_field select_reduce text_eq
reduce_view_lem op input value n k = (ground arith, ground arith, ground arith)
