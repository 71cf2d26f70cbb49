-- ===== src/Observability/Tests.antt =====
-- A trace of two spans, one of a span that is its own parent, and samples of metrics.
use mathlib.Core.Path.{subst}
use nanas.Prelude.{
  ℕ, ◌+◌, ◌<◌, ◌≤◌, ◌≡◌, refl, List, [], ◌∷◌, Option, none, some, if◌then◌else◌, arith, All, inl,
  inr, sym, Bool-cases,
}
use nanas.Prelude.Text.{Text, codes, text_eq, text_eq_iff, lookup, insert, is_digit}
use nanas.Prelude.Sort.{sort_by}
use nanas.Observability.Metrics.{
  PromSeries, parse_prom_text, is_metric_start, is_metric_unit, is_label_start, is_label_unit,
  is_value_unit,
}
use nanas.Observability.Metrics.Texts.{
  Line, sample, comment, lines_text, series_of, parse_prom_text-lines_text,
}
use nanas.Observability.Flamegraph.{
  FlameSpan, FlameLayout, parent_of, span_of, first_start, last_end, depth_of, bar, bars,
  goes_before, build_layout,
}
use nanas.Observability.Flamegraph.Laws.{IsLayout, build_layout_total}
use nanas.Observability.Flamegraph.Window.{build_layout-inside, build_layout-none}

abbrev root : FlameSpan
root = record {
  id = codes "a";
  parent_id = none;
  name = codes "request";
  started_at = 10;
  ended_at = 50;
  kind = codes "server";
  status = codes "ok";
}

abbrev child : FlameSpan
child = record root { id = codes "b"; parent_id = some (codes "a"); started_at = 20; ended_at = 30 }

abbrev own_parent : FlameSpan
own_parent = record root { parent_id = some (codes "a") }

abbrev rank : Text → ℕ
rank id = if text_eq id (codes "b") then 1 else 0

rank-falls : (id p : Text) → parent_of (child ∷ root ∷ []) id ≡ some p → rank p < rank id
unfolding parent_of span_of text_eq
rank-falls id p above = elim (Bool-cases (text_eq (codes "b") id)) [
  | inl lower ↦
      let at : codes "b" ≡ id = (text_eq_iff (codes "b") id).0 lower in
      let top : some (codes "a") ≡ some p =
        subst (λ i. parent_of (child ∷ root ∷ []) i ≡ some p) (sym at) above in
      let up : codes "a" ≡ p = cc in rw (← at, ← up) (omega arith)
  | inr other ↦
      let lone : parent_of (child ∷ root ∷ []) id ≡ none = ground (arith, other) in
      absurd (cc (lone, above))
]

build_layout_total_example :
    (layout : List FlameLayout) × (build_layout 2 (child ∷ root ∷ []) ≡ some layout)
    × IsLayout (child ∷ root ∷ []) layout
unfolding text_eq
build_layout_total_example =
    build_layout_total 2 (child ∷ root ∷ []) rank rank-falls (omega arith, (omega arith, tt))

abbrev two_bars : List FlameLayout
two_bars = bar 10 40 root 0 ∷ bar 10 40 child 1 ∷ []

build_layout-inside_example : All (λ (l : FlameLayout). l.left + l.width ≤ l.total) two_bars
unfolding first_start last_end bars depth_of parent_of span_of goes_before build_layout lookup
    text_eq insert sort_by
build_layout-inside_example =
    build_layout-inside 2 (child ∷ root ∷ []) two_bars (omega arith, (omega arith, tt)) refl

build_layout-none_example : build_layout 1000 (own_parent ∷ []) ≡ none
unfolding parent_of span_of text_eq
build_layout-none_example =
    build_layout-none (own_parent ∷ []) (λ n. codes "a") own_parent (λ n. refl) (inl refl) refl 1000

-- A number that is written `7`.
abbrev seven : Text → Option ℕ
seven s = if text_eq s (codes "7") then some 7 else none

abbrev labels : List (Text × Text)
labels = (codes "p", codes "a\"b") ∷ []

abbrev exposition : List Line
exposition = comment (codes " HELP up") ∷ sample (codes "up") labels b'7' [] 7 ∷ []

parse_prom_text-lines_text_example :
    parse_prom_text seven (lines_text exposition) ≡ series_of exposition
unfolding is_metric_start is_metric_unit is_label_start is_label_unit is_value_unit is_digit text_eq
parse_prom_text-lines_text_example = parse_prom_text-lines_text seven exposition (
  (refl, (refl, (refl, (refl, (refl, (refl, (refl, (refl, tt)))))))),
  (
    (
      (refl, (refl, (refl, tt))),
      (((refl, (refl, tt)), (refl, (refl, (refl, tt)))), tt),
      (refl, tt),
      refl,
    ),
    tt,
  ),
)

abbrev up : PromSeries
up = record { metric = codes "up"; labels = labels; value = 7 }
