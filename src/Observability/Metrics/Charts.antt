-- ===== src/Observability/Metrics/Charts.antt =====
-- web/src/features/observability/MetricsPage.tsx: the counts that the charts show. `le_before` is the
-- order of `Number` on the bounds of the buckets.
use nanas.Prelude.{
  ℕ, ◌+◌, ◌≡◌, refl, Bool, false, not, ◌&&◌, ◌||◌, List, [], ◌∷◌, ◌++◌, keep, Option, none, some,
  or_else, arith, inl, inr, Bool-cases,
}
use nanas.Prelude.Sort.{sort_by}
use nanas.Prelude.Text.{Text, codes, text_eq, text_eq_iff, lookup, insert, lookup-insert}
use nanas.Http.{truthy}
use nanas.Observability.Metrics.{PromSeries}

abbrev pub label : Text → PromSeries → Option Text
label name s = lookup name s.labels

-- `s.labels.project === projectId`
unfoldable pub of_project : (project_id : Text) → PromSeries → Bool
of_project project_id s = elim (label (codes "project") s) [
  | none ↦ false
  | some p ↦ text_eq p project_id
]

-- `byKey.set(key, (byKey.get(key) ?? 0) + s.value)` for each series.
unfoldable pub tally :
    (key : PromSeries → Text) → List PromSeries → List (Text × ℕ) → List (Text × ℕ)
tally key [] m = m
tally key (s ∷ ss) m = tally key ss (insert (key s) (or_else (lookup (key s) m) 0 + s.value) m)

abbrev pub result_of : PromSeries → Text
result_of s = or_else (label (codes "result") s) (codes "?")

abbrev pub function_and_result : PromSeries → Text
function_and_result s = or_else (label (codes "function") s) (codes "?") ++ (b'/' ∷ result_of s)

abbrev pub bound_of : PromSeries → Text
bound_of s = or_else (label (codes "le") s) []

-- The series of an invocation metric that the page of a project counts.
unfoldable pub is_invocation : (metric project_id : Text) → PromSeries → Bool
unfolding of_project
is_invocation metric project_id s =
    text_eq s.metric metric && (of_project project_id s || not (truthy (label (codes "project") s)))

unfoldable pub is_db_query : (project_id : Text) → PromSeries → Bool
unfolding of_project
is_db_query project_id s =
    text_eq s.metric (codes "nanas_db_query_total") && of_project project_id s

unfoldable pub invocations : (project_id : Text) → Option (List PromSeries) → List (Text × ℕ)
unfolding is_invocation tally
invocations project_id d =
    tally function_and_result
      (keep (is_invocation (codes "nanas_invocations_total") project_id) (or_else d [])) []

unfoldable pub db_queries : (project_id : Text) → Option (List PromSeries) → List (Text × ℕ)
unfolding is_db_query tally
db_queries project_id d = tally result_of (keep (is_db_query project_id) (or_else d [])) []

abbrev pub has_bound : PromSeries → Bool
has_bound s = truthy (label (codes "le") s)

unfoldable pub latency_buckets :
    (le_before : Text × ℕ → Text × ℕ → Bool)
    → (project_id : Text) → Option (List PromSeries)
    → List (Text × ℕ)
unfolding is_invocation tally
latency_buckets le_before project_id d = sort_by le_before (
    tally bound_of
      (keep has_bound
        (keep (is_invocation (codes "nanas_invocation_seconds_bucket") project_id) (or_else d [])))
      [])

-- The sum of the values of series.
abbrev pub total : List PromSeries → ℕ
total [] = 0
total (s ∷ ss) = s.value + total ss

-- What is shown for a key; nothing counts as zero.
abbrev pub count : Text → List (Text × ℕ) → ℕ
count k m = or_else (lookup k m) 0

count-tally :
    (key : PromSeries → Text) (ss : List PromSeries) (m : List (Text × ℕ)) (k : Text)
    → count k (tally key ss m) ≡ count k m + total (keep (λ s. text_eq (key s) k) ss)
unfolding tally
count-tally key [] m k = omega arith
count-tally key (s ∷ ss) m k =
    let v = or_else (lookup (key s) m) 0 + s.value in
    let rest = count-tally key ss (insert (key s) v m) k in
    let kept = lookup-insert (key s) k v m in
    elim (Bool-cases (text_eq (key s) k)) [
      | inl same ↦
          let eq : key s ≡ k = (text_eq_iff (key s) k).0 same in
          let now : lookup k (insert (key s) v m) ≡ some v = rw (kept, same) refl in
          let then' : count k (insert (key s) v m) ≡ count k m + s.value = rw (now, eq) refl in
          rw same (omega (arith, rest, then'))
      | inr other ↦
          let still : lookup k (insert (key s) v m) ≡ lookup k m = rw (kept, other) refl in
          let then' : count k (insert (key s) v m) ≡ count k m = rw still refl in
          rw other (omega (arith, rest, then'))
    ]

-- The number that a chart shows for a key is the sum of the values of the series of the project that
-- have the key: of the invocations for each function and result, and of the queries for each result.
pub count-invocations-db_queries :
    (project_id : Text) (d : List PromSeries) (k : Text)
    → (count k (invocations project_id (some d))
        ≡ total (
            keep
              (λ s. text_eq (function_and_result s) k)
              (keep (is_invocation (codes "nanas_invocations_total") project_id) d)))
      × (count k (db_queries project_id (some d))
          ≡ total (keep (λ s. text_eq (result_of s) k) (keep (is_db_query project_id) d)))
unfolding invocations db_queries lookup
count-invocations-db_queries project_id d k =
    let i = keep (is_invocation (codes "nanas_invocations_total") project_id) d in
    let q = keep (is_db_query project_id) d in
    (
      omega (arith, count-tally function_and_result i [] k),
      omega (arith, count-tally result_of q [] k),
    )
