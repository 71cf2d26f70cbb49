-- ===== src/Observability/Flamegraph/Window.antt =====
-- Where the bars of a trace stand: inside the window; and what a circle of parents does.
use mathlib.Core.Path.{subst}
use nanas.Prelude.{
  ℕ, suc, ◌+◌, ◌-◌, ◌≤◌, ◌≡◌, refl, ap, List, [], ◌∷◌, Option, none, some, arith, inl, inr,
  Option-cases, Listed, All, max,
}
use nanas.Prelude.Sort.{sort_by, All-sort_by}
use nanas.Prelude.Text.{Text, lookup}
use nanas.Observability.Flamegraph.{
  FlameSpan, FlameLayout, parent_of, Cache, depth_of, bars, goes_before, build_layout, first_start,
  last_end,
}
use nanas.Observability.Flamegraph.Depths.{
  Depth, IsCoherent, IsFound, depth_of-IsFound, chain-not-Depth,
}
use nanas.Observability.Flamegraph.Laws.{IsBarred, first_start_le, last_end_ge}

module _ (spans : List FlameSpan) (start total : ℕ) where
  abbrev IsBarredBy : List FlameSpan → Option (List FlameLayout) → Type 0
  IsBarredBy rest none = Unit
  IsBarredBy rest (some ls) = IsBarred spans start total rest ls

  -- Whatever the fuel, the bars that are made are right.
  bars-IsBarred :
      (fuel : ℕ) (rest : List FlameSpan) (cache : Cache)
      → IsCoherent spans cache
      → IsBarredBy rest (bars fuel start total spans rest cache)
  unfolding bars
  bars-IsBarred fuel [] cache c = (refl, tt)
  bars-IsBarred fuel (s ∷ ss) cache c =
      let right = depth_of-IsFound spans fuel s.id cache c in
      elim (Option-cases (depth_of fuel spans s.id cache)) [
        | inl deep ↦ rw (deep, bars) tt
        | inr ((d, after), found) ↦
            let kept : IsFound spans s.id (some (d, after)) =
              subst (IsFound spans s.id) found right in
            let rest_right = bars-IsBarred fuel ss after kept.1 in
            elim (Option-cases (bars fuel start total spans ss after)) [
              | inl deep ↦ rw (found, bars, deep) tt
              | inr (ls, made) ↦
                  let barred : IsBarred spans start total ss ls =
                    subst (IsBarredBy ss) made rest_right in
                  rw (found, bars, made) (ap (λ z. s ∷ z) barred.0, ((kept.0, refl), barred.1))
            ]
      ]

  -- A span with a bar has a depth.
  IsBarred-Depth :
      (a : FlameSpan) (rest : List FlameSpan) (ls : List FlameLayout)
      → IsBarred spans start total rest ls
      → Listed a rest
      → (d : ℕ) × Depth spans a.id d
  IsBarred-Depth a [] ls h there = absurd there
  IsBarred-Depth a (s ∷ ss) [] h there = absurd (cc (h.0))
  IsBarred-Depth a (s ∷ ss) (l ∷ ls) (same, (here, later)) there = elim there [
    | inl first ↦
        let at : l.span ≡ a = cc in
        (l.depth, subst (λ (z : FlameSpan). Depth spans z.id l.depth) at here.0)
    | inr behind ↦ IsBarred-Depth a ss ls (cc, later) behind
  ]

  inside :
      (rest : List FlameSpan) (ls : List FlameLayout)
      → IsBarred spans start total rest ls
      → All
          (λ (s : FlameSpan).
            (start ≤ s.started_at) × (s.started_at ≤ s.ended_at) × (s.ended_at - start ≤ total))
          rest
      → All (λ (l : FlameLayout). l.left + l.width ≤ l.total) ls
  inside [] [] h each = tt
  inside (s ∷ ss) [] h each = tt
  inside [] (l ∷ ls) h each = absurd (cc (h.0))
  inside (s ∷ ss) (l ∷ ls) (same, (here, later)) each =
      let at : l.span ≡ s = cc in
      let fits : (s.started_at - start) + (s.ended_at - s.started_at) ≤ total =
        ground (arith, each.0.0, each.0.1, each.0.2) in
      (rw (here.1, at) fits, inside ss ls (cc, later) each.1)

-- What a list of spans says of each of them, with where its window lies.
windowed :
    (s : FlameSpan) (ss rest : List FlameSpan)
    → ((a : FlameSpan) → Listed a rest → Listed a (s ∷ ss))
    → All (λ (a : FlameSpan). a.started_at ≤ a.ended_at) rest
    → All
        (λ (a : FlameSpan).
          (first_start s ss ≤ a.started_at)
          × (a.started_at ≤ a.ended_at)
          × (a.ended_at - first_start s ss ≤ max 1 (last_end s ss - first_start s ss)))
        rest
windowed s ss [] sub h = tt
windowed s ss (a ∷ rest) sub h =
    let there = sub a (inl refl) in
    let low = first_start_le a s ss there in
    let high = last_end_ge a s ss there in
    ((low, h.0, ground (arith, high)), windowed s ss rest (λ b l. sub b (inr l)) h.1)

-- Where no span ends before it starts, no bar of a layout leaves the window.
pub build_layout-inside :
    (fuel : ℕ) (spans : List FlameSpan) (layout : List FlameLayout)
    → All (λ (s : FlameSpan). s.started_at ≤ s.ended_at) spans
    → build_layout fuel spans ≡ some layout
    → All (λ (l : FlameLayout). l.left + l.width ≤ l.total) layout
unfolding build_layout lookup
build_layout-inside fuel [] layout h made =
    let empty : [] ≡ layout = cc in
    subst (λ ls. All (λ (l : FlameLayout). l.left + l.width ≤ l.total) ls) empty tt
build_layout-inside fuel (s ∷ ss) layout h made =
    let start = first_start s ss in
    let total = max 1 (last_end s ss - start) in
    let right =
      bars-IsBarred (s ∷ ss) start total fuel (s ∷ ss) [] (λ id d found. absurd (cc (found))) in
    elim (Option-cases (bars fuel start total (s ∷ ss) (s ∷ ss) [])) [
      | inl deep ↦
          let lost : build_layout fuel (s ∷ ss) ≡ none = rw (deep, build_layout) refl in
          absurd (cc (lost, made))
      | inr (ls, found) ↦
          let barred : IsBarred (s ∷ ss) start total (s ∷ ss) ls =
            subst (IsBarredBy (s ∷ ss) start total (s ∷ ss)) found right in
          let sorted : build_layout fuel (s ∷ ss) ≡ some (sort_by goes_before ls) =
            rw (found, build_layout) refl in
          let same : sort_by goes_before ls ≡ layout = cc in
          subst (λ z. All (λ (l : FlameLayout). l.left + l.width ≤ l.total) z) same
            (All-sort_by (λ (l : FlameLayout). l.left + l.width ≤ l.total) goes_before ls
              (inside (s ∷ ss) start total (s ∷ ss) ls barred
                (windowed s ss (s ∷ ss) (λ a there. there) h)))
    ]

-- Where a span is below parents without an end (parents in a circle), there is no layout however
-- deep the stack is.
pub build_layout-none :
    (spans : List FlameSpan) (chain : ℕ → Text) (s : FlameSpan)
    → ((n : ℕ) → parent_of spans (chain n) ≡ some (chain (suc n)))
    → Listed s spans
    → s.id ≡ chain 0
    → (fuel : ℕ) → build_layout fuel spans ≡ none
unfolding build_layout lookup
build_layout-none [] chain s goes_on there top fuel = absurd there
build_layout-none (r ∷ rs) chain s goes_on there top fuel =
    let all = r ∷ rs in
    let start = first_start r rs in
    let total = max 1 (last_end r rs - start) in
    let right = bars-IsBarred all start total fuel all [] (λ id d found. absurd (cc (found))) in
    elim (Option-cases (bars fuel start total all all [])) [
      | inl deep ↦ rw (deep, build_layout) refl
      | inr (ls, found) ↦
          let barred : IsBarred all start total all ls =
            subst (IsBarredBy all start total all) found right in
          let (d, at) = IsBarred-Depth all start total s all ls barred there in
          absurd (chain-not-Depth all chain goes_on 0 d (rw (← top) at))
    ]
