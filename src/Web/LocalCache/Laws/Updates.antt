-- ===== src/Web/LocalCache/Laws/Updates.antt =====
-- What an update of a cached list stores, and whom it tells.
use nanas.Prelude.{
  ℕ, ◌≤◌, ◌≡◌, ◌≢◌, refl, ap, ◌∙◌, Bool, true, false, not, ◌⊎◌, inl, inr, List, [], ◌∷◌, ◌++◌, some,
  arith, if◌then◌else◌, or_else, Bool-cases, keep, take, length, length-take-le, keep-take-not,
  keep-keep-not,
}
use nanas.Prelude.Text.{
  Text, text_eq, text_eq_refl, lookup, insert, delete, lookup-insert, lookup-delete,
}
use nanas.Web.LocalCache.{
  CachedItem, Parsed, array, Snapshot, World, Result, returned, failed, has_id, get_cached,
  write_back, add_cached, remove_cached,
}
use nanas.Web.LocalCache.Laws.{decode, IsCoherent, get_cached_lem}

module _ (parse : Text → Parsed) (stringify : List CachedItem → Text)
    (accepts : Text → Text → Bool) where
  -- `JSON.parse` gives back the array that `JSON.stringify` wrote, and the written text is not
  -- empty.
  abbrev pub IsInverse : List CachedItem → Type 0
  IsInverse l = (parse (stringify l) ≡ array l) × (stringify l ≢ [])

  decode-stringify : (l : List CachedItem) → IsInverse l → decode parse (some (stringify l)) ≡ l
  decode-stringify l inv = step (stringify l) inv.0 inv.1
    where
      step : (t : Text) → parse t ≡ array l → t ≢ [] → decode parse (some t) ≡ l
      step [] e n = absurd (n refl)
      step (c ∷ t) e n = rw (e, decode)

  delete-IsCoherent :
      (k : Text) (w : World)
      → IsCoherent parse w
      → IsCoherent parse (record w { snapshots = delete k w.snapshots })
  delete-IsCoherent k w h j hit e = elim (Bool-cases (text_eq k j)) [
    | inl same ↦ ground (arith, lookup-delete k j w.snapshots)
    | inr differs ↦ h j hit (ground (arith, lookup-delete k j w.snapshots))
  ]

  -- What a write leaves behind, where the storage takes it.
  pub record IsWritten (k : Text) (l : List CachedItem) (w w' : World) : Type 0 where
    pub read : decode parse (lookup k w'.entries) ≡ l
    pub others :
        (j : Text)
        → lookup j w'.entries ≡ (if text_eq k j then some (stringify l) else lookup j w.entries)
    pub coherent : IsCoherent parse w'
    pub told : w'.called ≡ w.called ++ or_else (lookup k w.listeners) []
    pub same_listeners : w'.listeners ≡ w.listeners

  written : Text → List CachedItem → World → World
  written k l w = record w {
    snapshots = delete k w.snapshots;
    entries = insert k (stringify l) w.entries;
    called = w.called ++ or_else (lookup k w.listeners) [];
  }

  written-IsWritten :
      (k : Text) (l : List CachedItem) (w : World)
      → IsInverse l
      → IsCoherent parse w
      → IsWritten k l w (written k l w)
  unfolding written
  written-IsWritten k l w inv h = record {
    read = rw (lookup-insert k k (stringify l) w.entries, text_eq_refl k) (decode-stringify l inv);
    others = λ j. lookup-insert k j (stringify l) w.entries;
    coherent = λ j hit e. delete-IsCoherent k w h j hit e;
    told = refl;
    same_listeners = refl;
  }

  write_back_lem :
      (k : Text) (l : List CachedItem) (w : World)
      → w.defined ≡ true
      → (write_back parse stringify accepts k l w ≡ (
          if accepts k (stringify l)
          then returned (written k l w) l
          else failed (record w { snapshots = delete k w.snapshots })))
  unfolding write_back written
  write_back_lem k l w d = ground arith

  -- What an update to the list `l` comes to. If the storage takes the write, the list is returned,
  -- the next read gives it, every other key reads as before, the key's subscribers run, and the
  -- snapshots stay right. If it does not, the error is passed on, nothing stored changes and no
  -- subscriber runs.
  abbrev pub Updates : Text → List CachedItem → World → Result → Type 0
  Updates k l w result =
      (w' : World) × ((accepts k (stringify l) ≡ true)
          × (result ≡ returned w' l)
          × IsWritten k l w w'
        ⊎ (accepts k (stringify l) ≡ false)
          × (result ≡ failed w')
          × (w'.entries ≡ w.entries)
          × IsCoherent parse w'
          × (w'.called ≡ w.called))

  write_back-Updates :
      (k : Text) (l : List CachedItem) (w : World) (snaps : List (Text × Snapshot))
      → IsInverse l
      → IsCoherent parse (record w { snapshots = snaps })
      → w.defined ≡ true
      → Updates k l w (write_back parse stringify accepts k l (record w { snapshots = snaps }))
  write_back-Updates k l w snaps inv h d =
      let w1 = record w { snapshots = snaps } in
      let x = written-IsWritten k l w1 inv h in
      elim (Bool-cases (accepts k (stringify l))) [
        | inl taken ↦ (
          written k l w1,
          inl (
            taken,
            write_back_lem k l w1 d ∙ rw taken,
            record {
              read = x.read;
              others = x.others;
              coherent = x.coherent;
              told = x.told;
              same_listeners = x.same_listeners;
            },
          ),
        )
        | inr refused ↦ (
          record w1 { snapshots = delete k snaps },
          inr (refused, write_back_lem k l w1 d ∙ rw refused, refl, delete-IsCoherent k w1 h, refl),
        )
      ]

  update-Updates :
      (k : Text) (f : List CachedItem → List CachedItem) (w : World)
      → IsInverse (f (decode parse (lookup k w.entries)))
      → IsCoherent parse w
      → w.defined ≡ true
      → w.readable ≡ true
      → (let (w1, old) = get_cached parse k w in
          Updates k
            (f (decode parse (lookup k w.entries)))
            w
            (write_back parse stringify accepts k (f old) w1))
  update-Updates k f w inv h d r =
      let (read, coherent, (snaps, same)) = get_cached_lem parse k w h in
      let whole : (get_cached parse k w).1 ≡ decode parse (lookup k w.entries) =
        read ∙ rw (d, r) refl in
      rw (whole, same)
        (write_back-Updates k (f (decode parse (lookup k w.entries))) w snaps inv
          (rw same at coherent) d)

  abbrev pub added : ℕ → CachedItem → List CachedItem → List CachedItem
  added now item old = take 100 (record item { ts = now } ∷ keep (λ i. not (has_id item.id i)) old)

  -- Adding an item stores the list with the item, stamped, in front of the others, of which none
  -- has its id, and at most a hundred in all.
  pub add_cached-Updates :
      (k : Text) (now : ℕ) (item : CachedItem) (w : World)
      → IsInverse (added now item (decode parse (lookup k w.entries)))
      → IsCoherent parse w
      → w.defined ≡ true
      → w.readable ≡ true
      → (let new = added now item (decode parse (lookup k w.entries)) in
          Updates k new w (add_cached parse stringify accepts k now item w)
          × (length new ≤ 100)
          × (keep (has_id item.id) new ≡ record item { ts = now } ∷ []))
  unfolding add_cached
  add_cached-Updates k now item w inv h d r =
      let old = decode parse (lookup k w.entries) in
      (
        update-Updates k (added now item) w inv h d r,
        length-take-le {A = CachedItem} 100
            (record item { ts = now } ∷ keep (λ i. not (has_id item.id i)) old),
        rw (text_eq_refl item.id)
            (ap (◌∷◌ (record item { ts = now })) (keep-take-not (has_id item.id) 99 old)),
      )

  -- Removing an id stores the list without the items that have it, in the order they stood in.
  pub remove_cached-Updates :
      (k : Text) (id : Text) (w : World)
      → IsInverse (keep (λ i. not (has_id id i)) (decode parse (lookup k w.entries)))
      → IsCoherent parse w
      → w.defined ≡ true
      → w.readable ≡ true
      → (let old = decode parse (lookup k w.entries) in
          let new = keep (λ i. not (has_id id i)) old in
          Updates k new w (remove_cached parse stringify accepts k id w)
          × (keep (has_id id) new ≡ []))
  unfolding remove_cached
  remove_cached-Updates k id w inv h d r = (
    update-Updates k (keep (λ i. not (has_id id i))) w inv h d r,
    keep-keep-not (has_id id) (decode parse (lookup k w.entries)),
  )
