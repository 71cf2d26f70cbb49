-- ===== src/Observability/Flamegraph/Depths.antt =====
-- The depths of spans: the chain of parents, and what the recursion with its cache finds of it.
use mathlib.Core.Path.{subst}
use nanas.Prelude.{
  ℕ, zero, suc, ◌<◌, ◌≤◌, ◌≡◌, refl, ap, List, Option, none, some, arith, inl, inr, Bool-cases,
  Option-cases,
}
use nanas.Prelude.Text.{Text, text_eq, text_eq_iff, lookup, insert, lookup-insert}
use nanas.Observability.Flamegraph.{FlameSpan, parent_of, Cache, keep_depth, depth_of}

-- The span has `d` spans above it.
abbrev pub Depth : List FlameSpan → Text → ℕ → Type 0
Depth spans id zero = parent_of spans id ≡ none
Depth spans id (suc d) = (p : Text) × (parent_of spans id ≡ some p) × Depth spans p d

module _ (spans : List FlameSpan) where
  Depth-unique : (id : Text) (d e : ℕ) → Depth spans id d → Depth spans id e → d ≡ e
  Depth-unique id zero zero h k = refl
  Depth-unique id zero (suc e) h (p, k, r) = absurd (cc)
  Depth-unique id (suc d) zero (p, h, q) k = absurd (cc)
  Depth-unique id (suc d) (suc e) (p, h, q) (p', k, r) =
      let same : p ≡ p' = cc in ap suc (Depth-unique p d e q (rw same r))

  -- What the cache holds is right.
  abbrev pub IsCoherent : Cache → Type 0
  IsCoherent cache = (id : Text) (d : ℕ) → lookup id cache ≡ some d → Depth spans id d

  insert-IsCoherent :
      (id : Text) (d : ℕ) (cache : Cache)
      → Depth spans id d
      → IsCoherent cache
      → IsCoherent (insert id d cache)
  insert-IsCoherent id d cache at h j e found = elim (Bool-cases (text_eq id j)) [
    | inl same ↦
        let here : d ≡ e = ground (arith, lookup-insert id j d cache) in
        let id-eq : id ≡ j = (text_eq_iff id j).0 same in
        subst (λ z. Depth spans z e) id-eq (subst (Depth spans id) here at)
    | inr other ↦ h j e (ground (arith, lookup-insert id j d cache))
  ]

  -- What is found for a span is its depth, and the cache stays right.
  abbrev pub IsFound : Text → Option (ℕ × Cache) → Type 0
  IsFound id none = Unit
  IsFound id (some (d, cache)) = Depth spans id d × IsCoherent cache

  keep_depth-IsFound :
      (id p : Text) (o : Option (ℕ × Cache))
      → parent_of spans id ≡ some p
      → IsFound p o
      → IsFound id (keep_depth id o)
  keep_depth-IsFound id p none above h = tt
  keep_depth-IsFound id p (some (d, cache)) above (at, h) =
      ((p, above, at), insert-IsCoherent id (suc d) cache (p, above, at) h)

  pub depth_of-IsFound :
      (fuel : ℕ) (id : Text) (cache : Cache)
      → IsCoherent cache
      → IsFound id (depth_of fuel spans id cache)
  unfolding depth_of
  depth_of-IsFound zero id cache h = tt
  depth_of-IsFound (suc fuel) id cache h = elim (Option-cases (lookup id cache)) [
    | inr (d, found) ↦ rw (found, depth_of) (h id d found, h)
    | inl missing ↦ elim (Option-cases (parent_of spans id)) [
      | inl top ↦ rw (missing, top, depth_of) (top, insert-IsCoherent id 0 cache top h)
      | inr (p, above) ↦
          rw (missing, above, depth_of)
            (keep_depth-IsFound id p (depth_of fuel spans p cache) above
              (depth_of-IsFound fuel p cache h))
    ]
  ]

  -- Enough fuel finds it.
  pub depth_of_total :
      (fuel : ℕ) (id : Text) (d : ℕ) (cache : Cache)
      → Depth spans id d
      → d < fuel
      → IsCoherent cache
      → (cache' : Cache) × (depth_of fuel spans id cache ≡ some (d, cache')) × IsCoherent cache'
  unfolding depth_of
  depth_of_total zero id d cache at lt h = absurd (omega arith)
  depth_of_total (suc fuel) id zero cache at lt h = elim (Option-cases (lookup id cache)) [
    | inr (c, found) ↦ (cache, rw (found, depth_of, Depth-unique id c 0 (h id c found) at) refl, h)
    | inl missing ↦
        (insert id 0 cache, rw (missing, at, depth_of) refl, insert-IsCoherent id 0 cache at h)
  ]
  depth_of_total (suc fuel) id (suc d) cache (p, up, at) lt h =
      let (after, found, right) = depth_of_total fuel p d cache at (omega arith) h in
      elim (Option-cases (lookup id cache)) [
        | inr (c, kept) ↦ (
          cache,
          rw (kept, depth_of, Depth-unique id c (suc d) (h id c kept) (p, up, at)) refl,
          h,
        )
        | inl missing ↦ (
          insert id (suc d) after,
          rw (missing, up, depth_of, found) refl,
          insert-IsCoherent id (suc d) after (p, up, at) right,
        )
      ]

  -- Where the parents of a rank have a smaller rank, each span has a depth.
  pub rank-Depth :
      (rank : Text → ℕ)
      → ((id p : Text) → parent_of spans id ≡ some p → rank p < rank id)
      → (n : ℕ) (id : Text) → rank id < n
      → (d : ℕ) × Depth spans id d × (d ≤ rank id)
  rank-Depth rank falls zero id lt = absurd (omega arith)
  rank-Depth rank falls (suc n) id lt = elim (Option-cases (parent_of spans id)) [
    | inl none_above ↦ (0, none_above, omega arith)
    | inr (p, above) ↦
        let less = falls id p above in
        let (d, at, le) = rank-Depth rank falls n p (omega arith) in
        (suc d, (p, above, at), omega arith)
  ]

  -- A chain of parents without an end gives no depth.
  pub chain-not-Depth :
      (chain : ℕ → Text)
      → ((n : ℕ) → parent_of spans (chain n) ≡ some (chain (suc n)))
      → (n d : ℕ) → ¬ Depth spans (chain n) d
  chain-not-Depth chain goes_on n zero h = cc (goes_on n)
  chain-not-Depth chain goes_on n (suc d) (p, h, r) =
      let same : p ≡ chain (suc n) = cc (goes_on n) in
      chain-not-Depth chain goes_on (suc n) d (rw (← same) r)
