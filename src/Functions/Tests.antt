-- ===== src/Functions/Tests.antt =====
-- The list of functions on a concrete answer.
use nanas.Prelude.{◌↔◌, Bool, true, List, [], ◌∷◌, none, some, Listed, arith, length, leb}
use nanas.Prelude.Text.{Text, codes}
use nanas.Functions.{FunctionListItem, Filters, default_filters, deploy_time, filtered}
use nanas.Prelude.Sort.{IsSorted}
use nanas.Functions.Laws.{IsAskedFor, Listed-filtered, filtered-IsSorted}

abbrev item : Text → FunctionListItem
item name = record {
  id = name;
  name = name;
  slug = none;
  current_version = none;
  runtime = some (codes "go");
  last_deployed_at = none;
  last_deployment_status = some (codes "active");
  triggers_count = 0;
  entrypoint_enabled = true;
  created_at = name;
}

abbrev two_items : List FunctionListItem
two_items = item (codes "b") ∷ item (codes "cc") ∷ []

-- An order of names by their length.
abbrev by_length : Text → Text → Bool
by_length a b = leb (length a) (length b)

abbrev search : Filters
search = record default_filters { q = codes "C"; sort = codes "name" }

Listed-filtered_example :
    Listed (item (codes "cc")) (filtered length by_length search (some two_items))
    ↔ (Listed (item (codes "cc")) two_items × IsAskedFor search (item (codes "cc")))
Listed-filtered_example = Listed-filtered length by_length search two_items (item (codes "cc"))

filtered-IsSorted_example :
    (let by = λ (sort : Text).
        filtered length by_length (record search { sort = sort }) (some two_items) in
      IsSorted (λ a b. by_length a.name b.name) (by (codes "name"))
      × IsSorted
          (λ a b. leb (deploy_time length by_length b) (deploy_time length by_length a))
          (by (codes "last_deployed_at"))
      × IsSorted (λ a b. leb (length b.created_at) (length a.created_at)) (by (codes "created_at")))
filtered-IsSorted_example =
    filtered-IsSorted length by_length search two_items (λ x y z h k. ground (arith, h, k))
      (λ x y. ground arith)
