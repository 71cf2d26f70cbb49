-- ===== src/Web/LocalCache/Laws.antt =====
-- The snapshots are invisible: what is read is what is stored.
pub mod Updates
use nanas.Prelude.{
  ℕ, suc, ◌≤◌, ◌≡◌, ◌≢◌, refl, sym, ap, ◌∙◌, ◌==◌, Bool, true, false, not, ◌&&◌, ◌||◌, ◌⊎◌, inl,
  inr, List, [], ◌∷◌, ◌++◌, Option, none, some, arith, if◌then◌else◌, or_else, Bool-cases,
  Option-cases, keep, take, length, length-take-le, keep-take-not, keep-keep-not, All,
}
use nanas.Prelude.Text.{
  Text, codes, is_empty, text_eq, text_eq_iff, text_eq_refl, lookup, insert, delete, lookup-insert,
  lookup-delete,
}
use nanas.Web.LocalCache.{
  CachedItem, Parsed, throws, not_array, array, Snapshot, World, Result, returned, failed,
  storage_key, raw_eq, has_id, notify, set_snapshot, read_anew, get_cached, write_back, add_cached,
  remove_cached, subscribe_cached, unsubscribe,
}

abbrev pub NoDot : Text → Type 0
NoDot s = All (λ (c : ℕ). c ≢ b'.') s

NoDot-inside : (t q p : Text) → NoDot p → p ≢ t ++ (b'.' ∷ q)
NoDot-inside [] q [] n f = cc
NoDot-inside [] q (c ∷ p) n f = n.0 (cc)
NoDot-inside (d ∷ t) q [] n f = cc
NoDot-inside (d ∷ t) q (c ∷ p) n f = NoDot-inside t q p n.1 (cc)

split_eq :
    (s t p q : Text) → NoDot p → NoDot q → s ++ (b'.' ∷ p) ≡ t ++ (b'.' ∷ q) → (s ≡ t) × (p ≡ q)
split_eq [] [] p q h k e = (refl, cc)
split_eq [] (d ∷ t) p q h k e = absurd (NoDot-inside t q p h (cc))
split_eq (c ∷ s) [] p q h k e = absurd (NoDot-inside s p q k (cc))
split_eq (c ∷ s) (d ∷ t) p q h k e = let (x, y) = split_eq s t p q h k (cc) in (cc, y)

cut_front : (x s t : Text) → x ++ s ≡ x ++ t → s ≡ t
cut_front [] s t e = e
cut_front (c ∷ x) s t e = cut_front x s t (cc)

-- Two caches share a storage key only if they are of the same scope and the same project, where
-- the ids of the projects hold no dot. A scope may hold one.
pub storage_key_injective :
    (scope scope' project_id project_id' : Text)
    → NoDot project_id
    → NoDot project_id'
    → storage_key scope project_id ≡ storage_key scope' project_id'
    → (scope ≡ scope') × (project_id ≡ project_id')
unfolding storage_key
storage_key_injective scope scope' project_id project_id' h k e =
    split_eq scope scope' project_id project_id' h k (ground arith)

module _ (parse : Text → Parsed) where
  -- What a stored text stands for.
  abbrev pub decode : Option Text → List CachedItem
  decode none = []
  decode (some []) = []
  decode (some (c ∷ raw)) = elim (parse (c ∷ raw)) [
    | throws ↦ []
    | not_array ↦ []
    | array items ↦ items
  ]

  -- Each snapshot holds what its text stands for.
  abbrev pub IsCoherent : World → Type 0
  IsCoherent w =
      (k : Text) (hit : Snapshot) → lookup k w.snapshots ≡ some hit → hit.items ≡ decode hit.raw

  read_anew_items :
      (k : Text) (raw : Option Text) (w : World)
      → (read_anew parse k raw w) ≡ (set_snapshot k raw (decode raw) w, decode raw)
  unfolding read_anew
  read_anew_items k none w = refl
  read_anew_items k (some []) w = refl
  read_anew_items k (some (c ∷ raw)) w = ground arith

  set_snapshot-IsCoherent :
      (k : Text) (raw : Option Text) (w : World)
      → IsCoherent w
      → IsCoherent (set_snapshot k raw (decode raw) w)
  set_snapshot-IsCoherent k raw w h j hit e = elim (Bool-cases (text_eq k j)) [
    | inl same ↦
        ground (arith, lookup-insert k j (record { raw = raw; items = decode raw }) w.snapshots)
    | inr differs ↦
        h j hit
          (ground (arith, lookup-insert k j (record { raw = raw; items = decode raw }) w.snapshots))
  ]

  raw_eq-eq : (a b : Option Text) → raw_eq a b ≡ true → a ≡ b
  raw_eq-eq none none h = refl
  raw_eq-eq (some s) (some t) h = ap some ((text_eq_iff s t).0 h)
  raw_eq-eq none (some t) h = cc
  raw_eq-eq (some s) none h = cc

  -- A read either trusts a snapshot of the stored text, or reads the text and keeps a snapshot.
  get_cached_cases :
      (k : Text) (w : World)
      → w.defined ≡ true
      → w.readable ≡ true
      → (let raw = lookup k w.entries in
          get_cached parse k w ≡ (set_snapshot k raw (decode raw) w, decode raw))
        ⊎ ((hit : Snapshot) × (lookup k w.snapshots ≡ some hit)
            × (hit.raw ≡ lookup k w.entries)
            × (get_cached parse k w ≡ (w, hit.items)))
  unfolding get_cached
  get_cached_cases k w d r =
      let raw = lookup k w.entries in
      elim (Option-cases (lookup k w.snapshots)) [
        | inl miss ↦ inl (ground (arith, read_anew_items k raw w))
        | inr (hit, found) ↦ elim (Bool-cases (raw_eq hit.raw raw)) [
          | inl same ↦ inr (hit, found, raw_eq-eq hit.raw raw same, ground arith)
          | inr changed ↦ inl (ground (arith, read_anew_items k raw w))
        ]
      ]

  get_cached_gone :
      (k : Text) (w : World) → (w.defined && w.readable) ≡ false → get_cached parse k w ≡ (w, [])
  unfolding get_cached
  get_cached_gone k w gone = ground arith

  -- Where each snapshot holds what its own text stands for, what is read is what the storage holds
  -- now, or nothing where there is no storage or it throws. A read changes neither the storage nor
  -- the subscribers, and each snapshot still holds what its text stands for.
  pub get_cached_lem :
      (k : Text) (w : World)
      → IsCoherent w
      → ((get_cached parse k w).1
          ≡ (if w.defined && w.readable then decode (lookup k w.entries) else []))
        × IsCoherent (get_cached parse k w).0
        × ((w' : List (Text × Snapshot)) × ((get_cached parse k w).0 ≡ record w { snapshots = w' }))
  get_cached_lem k w h = elim (Bool-cases (w.defined && w.readable)) [
    | inl there ↦ elim (get_cached_cases k w (ground arith) (ground arith)) [
      | inl e ↦ rw (e, there) (refl, set_snapshot-IsCoherent k _ w h, (_, refl))
      | inr (hit, found, same, e) ↦
          rw (e, there) (h k hit found ∙ ap decode same, h, (w.snapshots, refl))
    ]
    | inr gone ↦ rw (get_cached_gone k w gone, gone) (refl, h, (w.snapshots, refl))
  ]
