-- ===== src/Observability/Flamegraph.antt =====
-- web/src/features/observability/Flamegraph.tsx: where the bars of a trace stand. Times are whole
-- milliseconds. A share of the window in percent is kept as its numerator in milliseconds, over the
-- window's length. A recursion that goes deeper than the stack allows is `none`; `fuel` is the depth
-- that the stack allows.
pub mod Depths
pub mod Laws
pub mod Window
use nanas.Prelude.{
  ℕ, zero, suc, ◌+◌, ◌-◌, ◌==◌, Bool, true, false, not, ◌&&◌, ◌||◌, List, [], ◌∷◌, map, Option,
  none, some, if◌then◌else◌, min, max, leb, ltb, keep, or_option, is_some,
}
use nanas.Prelude.Sort.{sort_by}
use nanas.Prelude.Text.{Text, codes, text_eq, lookup, insert}
use nanas.Http.{truthy}

pub record FlameSpan : Type 0 where
  pub id : Text
  pub parent_id : Option Text
  pub name : Text
  pub started_at : ℕ
  pub ended_at : ℕ
  pub kind : Text
  pub status : Text

-- `left` and `width` over `total` are the shares of the window; the end of a bar is not before its
-- start where the span's is not.
pub record FlameLayout : Type 0 where
  pub span : FlameSpan
  pub depth : ℕ
  pub left : ℕ
  pub width : ℕ
  pub total : ℕ

-- `Math.min(...)` and `Math.max(...)` over a list that is not empty.
unfoldable pub first_start : FlameSpan → List FlameSpan → ℕ
first_start s [] = s.started_at
first_start s (r ∷ rs) = min s.started_at (first_start r rs)

unfoldable pub last_end : FlameSpan → List FlameSpan → ℕ
last_end s [] = s.ended_at
last_end s (r ∷ rs) = max s.ended_at (last_end r rs)

-- `byID.get(id)`: of the spans that share an id, the map holds the last.
unfoldable pub span_of : Text → List FlameSpan → Option FlameSpan
span_of id [] = none
span_of id (s ∷ ss) = or_option (span_of id ss) (if text_eq s.id id then some s else none)

-- The parent that `depthOf` goes on to.
unfoldable pub parent_of : List FlameSpan → Text → Option Text
unfolding span_of
parent_of spans id = elim (span_of id spans) [
  | none ↦ none
  | some s ↦ elim s.parent_id [
    | none ↦ none
    | some p ↦ if truthy (some p) && is_some (span_of p spans) then some p else none
  ]
]

abbrev pub Cache : Type 0
Cache = List (Text × ℕ)

-- A depth that was found, with the cache that it is kept in.
abbrev pub keep_depth : (id : Text) → Option (ℕ × Cache) → Option (ℕ × Cache)
keep_depth id none = none
keep_depth id (some (d, cache)) = some (suc d, insert id (suc d) cache)

unfoldable pub depth_of : (fuel : ℕ) → List FlameSpan → Text → Cache → Option (ℕ × Cache)
unfolding parent_of
depth_of zero spans id cache = none
depth_of (suc fuel) spans id cache = elim (lookup id cache) [
  | some d ↦ some (d, cache)
  | none ↦ elim (parent_of spans id) [
    | none ↦ some (0, insert id 0 cache)
    | some p ↦ keep_depth id (depth_of fuel spans p cache)
  ]
]

abbrev pub bar : (start total : ℕ) → FlameSpan → ℕ → FlameLayout
bar start total s d = record {
  span = s;
  depth = d;
  left = s.started_at - start;
  width = s.ended_at - s.started_at;
  total = total;
}

-- `spans.map(...)`, with the cache passed from span to span.
unfoldable pub bars :
    (fuel start total : ℕ) → (spans rest : List FlameSpan) → Cache → Option (List FlameLayout)
unfolding depth_of
bars fuel start total spans [] cache = some []
bars fuel start total spans (s ∷ ss) cache = elim (depth_of fuel spans s.id cache) [
  | none ↦ none
  | some (d, cache') ↦ elim (bars fuel start total spans ss cache') [
    | none ↦ none
    | some ls ↦ some (bar start total s d ∷ ls)
  ]
]

unfoldable pub goes_before : FlameLayout → FlameLayout → Bool
goes_before a b = if a.depth == b.depth then leb a.left b.left else ltb a.depth b.depth

unfoldable pub build_layout : (fuel : ℕ) → List FlameSpan → Option (List FlameLayout)
unfolding bars goes_before first_start last_end
build_layout fuel [] = some []
build_layout fuel (s ∷ ss) =
    let start = first_start s ss in
    let total = max 1 (last_end s ss - start) in
    elim (bars fuel start total (s ∷ ss) (s ∷ ss) []) [
      | none ↦ none
      | some ls ↦ some (sort_by goes_before ls)
    ]

unfoldable pub span_range_ms : List FlameSpan → ℕ
unfolding first_start last_end
span_range_ms [] = 0
span_range_ms (s ∷ ss) = last_end s ss - first_start s ss

-- `layout.reduce((acc, l) => Math.max(acc, l.depth), 0)`
unfoldable pub max_depth : List FlameLayout → ℕ
max_depth [] = 0
max_depth (l ∷ ls) = max l.depth (max_depth ls)

unfoldable pub row_at : ℕ → List FlameLayout → List FlameLayout
row_at d layout = keep (λ (l : FlameLayout). l.depth == d) layout

-- The rows from depth `d` on, `n` of them.
unfoldable pub rows_from : (d n : ℕ) → List FlameLayout → List (List FlameLayout)
unfolding row_at
rows_from d zero layout = []
rows_from d (suc n) layout = row_at d layout ∷ rows_from (suc d) n layout

unfoldable pub flame_rows : List FlameLayout → List (List FlameLayout)
unfolding rows_from max_depth
flame_rows layout = rows_from 0 (suc (max_depth layout)) layout
