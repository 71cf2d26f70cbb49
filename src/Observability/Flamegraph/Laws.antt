-- ===== src/Observability/Flamegraph/Laws.antt =====
-- The layout of a trace: every span gets one bar, at its depth and inside the window, unless the
-- parents of a span run in a circle.
use mathlib.Core.List.Perm
use mathlib.Core.Path.{subst}
use nanas.Prelude.{
  ℕ, ◌-◌, ◌<◌, ◌≤◌, ◌≡◌, refl, ap, true, List, [], ◌∷◌, map, some, arith, ◌⊎◌, inl, inr, Listed,
  All, max, Perm,
}
use nanas.Prelude.Sort.{sort_by, IsSorted, sort_by-IsSorted, All-sort_by, sort_by-Perm}
use nanas.Prelude.Text.{Text, lookup}
use nanas.Observability.Flamegraph.{
  FlameSpan, FlameLayout, parent_of, Cache, bar, bars, goes_before, build_layout, first_start,
  last_end,
}
use nanas.Observability.Flamegraph.Depths.{Depth, IsCoherent, depth_of_total, rank-Depth}

goes_before_trans :
    (x y z : FlameLayout) → goes_before x y ≡ true → goes_before y z ≡ true → goes_before x z ≡ true
unfolding goes_before
goes_before_trans x y z h k = ground arith

goes_before_total : (x y : FlameLayout) → (goes_before x y ≡ true) ⊎ (goes_before y x ≡ true)
unfolding goes_before
goes_before_total x y = ground arith

-- The bar of a span in the list, at the span's depth.
abbrev pub IsBar : (spans : List FlameSpan) (start total : ℕ) → FlameLayout → Type 0
IsBar spans start total l = Depth spans l.span.id l.depth × (l ≡ bar start total l.span l.depth)

-- The bars of `rest`, each span's own at its place.
abbrev pub IsBarred :
    (spans : List FlameSpan) (start total : ℕ) → List FlameSpan → List FlameLayout → Type 0
IsBarred spans start total rest ls =
    (map (λ (l : FlameLayout). l.span) ls ≡ rest) × All (IsBar spans start total) ls

module _ (spans : List FlameSpan) (start total : ℕ) where
  bars_total :
      (fuel : ℕ) (rest : List FlameSpan) (cache : Cache)
      → All (λ (s : FlameSpan). (d : ℕ) × Depth spans s.id d × (d < fuel)) rest
      → IsCoherent spans cache
      → (ls : List FlameLayout) × (bars fuel start total spans rest cache ≡ some ls)
        × IsBarred spans start total rest ls
  unfolding bars
  bars_total fuel [] cache h c = ([], refl, (refl, tt))
  bars_total fuel (s ∷ ss) cache ((d, at, lt), hs) c =
      let (after, found, right) = depth_of_total spans fuel s.id d cache at lt c in
      let (ls, made, barred) = bars_total fuel ss after hs right in
      (
        bar start total s d ∷ ls,
        rw (found, bars, made) refl,
        (ap (λ z. s ∷ z) barred.0, ((at, refl), barred.1)),
      )

pub first_start_le :
    (a s : FlameSpan) (ss : List FlameSpan) → Listed a (s ∷ ss) → first_start s ss ≤ a.started_at
unfolding first_start
first_start_le a s [] (inl same) = rw same (omega arith)
first_start_le a s [] (inr later) = absurd later
first_start_le a s (r ∷ rs) (inl same) = rw same (ground arith)
first_start_le a s (r ∷ rs) (inr later) = ground (arith, first_start_le a r rs later)

pub last_end_ge :
    (a s : FlameSpan) (ss : List FlameSpan) → Listed a (s ∷ ss) → a.ended_at ≤ last_end s ss
unfolding last_end
last_end_ge a s [] (inl same) = rw same (omega arith)
last_end_ge a s [] (inr later) = absurd later
last_end_ge a s (r ∷ rs) (inl same) = rw same (ground arith)
last_end_ge a s (r ∷ rs) (inr later) = ground (arith, last_end_ge a r rs later)

-- One bar for each span, at the span's depth, and the bars in the order of the page.
abbrev pub IsLayout : List FlameSpan → List FlameLayout → Type 0
IsLayout spans layout =
    Perm (map (λ (l : FlameLayout). l.span) layout) spans
    × All (λ (l : FlameLayout). Depth spans l.span.id l.depth) layout
    × IsSorted goes_before layout

-- What the depths say of the spans, for each of them.
ranked-Depth :
    (spans : List FlameSpan) (rank : Text → ℕ) (fuel : ℕ) (rest : List FlameSpan)
    → ((id p : Text) → parent_of spans id ≡ some p → rank p < rank id)
    → All (λ (s : FlameSpan). rank s.id < fuel) rest
    → All (λ (s : FlameSpan). (d : ℕ) × Depth spans s.id d × (d < fuel)) rest
ranked-Depth spans rank fuel [] falls h = tt
ranked-Depth spans rank fuel (s ∷ ss) falls h =
    let lt = h.0 in
    let (d, at, le) = rank-Depth spans rank falls fuel s.id lt in
    ((d, at, omega arith), ranked-Depth spans rank fuel ss falls h.1)

All-depths :
    (spans : List FlameSpan) (start total : ℕ) (ls : List FlameLayout)
    → All (IsBar spans start total) ls
    → All (λ (l : FlameLayout). Depth spans l.span.id l.depth) ls
All-depths spans start total [] h = tt
All-depths spans start total (l ∷ ls) h = (h.0.0, All-depths spans start total ls h.1)

-- Of spans whose parents do not run in a circle (`rank` falls from a span to its parent) and with
-- a stack as deep as the ranks, the layout is found: one bar for each span, at the number of spans
-- above it, the bars by depth and then by start.
pub build_layout_total :
    (fuel : ℕ) (spans : List FlameSpan) (rank : Text → ℕ)
    → ((id p : Text) → parent_of spans id ≡ some p → rank p < rank id)
    → All (λ (s : FlameSpan). rank s.id < fuel) spans
    → (layout : List FlameLayout) × (build_layout fuel spans ≡ some layout) × IsLayout spans layout
unfolding build_layout lookup
build_layout_total fuel [] rank falls h = ([], refl, (Perm.nil, tt, tt))
build_layout_total fuel (s ∷ ss) rank falls h =
    let all = s ∷ ss in
    let start = first_start s ss in
    let total = max 1 (last_end s ss - start) in
    let (ls, made, barred) =
      bars_total all start total fuel all [] (ranked-Depth all rank fuel all falls h)
        (λ id d found. absurd (cc)) in
    (
      sort_by goes_before ls,
      rw (made, build_layout) refl,
      (
        subst (λ z. Perm (map (λ (l : FlameLayout). l.span) (sort_by goes_before ls)) z) barred.0
            (Perm.map (λ (l : FlameLayout). l.span) (sort_by-Perm goes_before ls)),
        All-sort_by (λ (l : FlameLayout). Depth all l.span.id l.depth) goes_before ls
            (All-depths all start total ls barred.1),
        sort_by-IsSorted goes_before ls goes_before_trans goes_before_total,
      ),
    )
