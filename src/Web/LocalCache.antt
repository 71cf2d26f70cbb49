-- ===== src/Web/LocalCache.antt =====
-- web/src/lib/localCache.ts, and its hook web/src/hooks/useLocalCache.ts: the per-project list of
-- resources seen lately, with a snapshot of each stored list and its subscribers. The state is
-- `localStorage`, the two module-level maps, and the list of the callbacks that ran.
pub mod Laws
use nanas.Prelude.{
  ℕ, ◌==◌, Bool, true, false, not, ◌&&◌, ◌||◌, List, [], ◌∷◌, ◌++◌, Option, none, some,
  if◌then◌else◌, or_else, keep, take,
}
use nanas.Prelude.Text.{Text, codes, is_empty, text_eq, lookup, insert, delete}
use nanas.Prelude.Json.{Json}

pub record CachedItem : Type 0 where
  pub id : Text
  pub name : Option Text
  pub meta : Option Json
  pub ts : ℕ

-- What `JSON.parse` makes of a stored text: it throws, it gives a value that is no array, or an
-- array, read as cached items.
pub data Parsed : Type 0 where
  throws : Parsed
  not_array : Parsed
  array : List CachedItem → Parsed

pub record Snapshot : Type 0 where
  pub raw : Option Text
  pub items : List CachedItem

-- `defined`: there is a `localStorage`; `readable`: `getItem` does not throw.
pub record World : Type 0 where
  pub defined : Bool
  pub readable : Bool
  pub entries : List (Text × Text)
  pub snapshots : List (Text × Snapshot)
  pub listeners : List (Text × List ℕ)
  pub called : List ℕ

-- A write to the storage may throw; what was changed before stays.
pub data Result : Type 0 where
  returned : World → List CachedItem → Result
  failed : World → Result

unfoldable pub storage_key : (scope project_id : Text) → Text
storage_key scope project_id = codes "nanas.cache.v1" ++ (b'.' ∷ (scope ++ (b'.' ∷ project_id)))

-- `hit.raw === raw`
abbrev pub raw_eq : Option Text → Option Text → Bool
raw_eq none none = true
raw_eq (some s) (some t) = text_eq s t
raw_eq _ _ = false

abbrev pub has_id : Text → CachedItem → Bool
has_id id i = text_eq i.id id

unfoldable pub notify : Text → World → World
notify k w = record w { called = w.called ++ or_else (lookup k w.listeners) [] }

abbrev pub set_snapshot : Text → Option Text → List CachedItem → World → World
set_snapshot k raw items w = record w {
  snapshots = insert k (record { raw = raw; items = items }) w.snapshots;
}

module _ (parse : Text → Parsed) where
  -- What follows where the snapshot does not serve: the stored text is read anew.
  unfoldable pub read_anew : Text → Option Text → World → World × List CachedItem
  read_anew k none w = (set_snapshot k none [] w, [])
  read_anew k (some []) w = (set_snapshot k (some []) [] w, [])
  read_anew k (some (c ∷ raw)) w = elim (parse (c ∷ raw)) [
    | throws ↦ (set_snapshot k (some (c ∷ raw)) [] w, [])
    | not_array ↦ (set_snapshot k (some (c ∷ raw)) [] w, [])
    | array items ↦ (set_snapshot k (some (c ∷ raw)) items w, items)
  ]

  -- `getCached`, at the storage key.
  unfoldable pub get_cached : Text → World → World × List CachedItem
  get_cached k w =
      let raw = lookup k w.entries in
      let anew = read_anew k raw w in
      if not w.defined || not w.readable then (w, []) else elim (lookup k w.snapshots) [
        | none ↦ anew
        | some hit ↦ if raw_eq hit.raw raw then (w, hit.items) else anew
      ]

  -- `JSON.stringify`, the clock, and whether the storage takes a write.
  module _ (stringify : List CachedItem → Text) (accepts : Text → Text → Bool) where
    -- The last four lines of `addCached` and `removeCached`.
    unfoldable pub write_back : Text → List CachedItem → World → Result
    unfolding notify
    write_back k list w =
        let dropped = record w { snapshots = delete k w.snapshots } in
        let text = stringify list in
        if w.defined && accepts k text
        then returned (notify k (record dropped { entries = insert k text w.entries })) list
        else failed dropped

    unfoldable pub add_cached : Text → (now : ℕ) → CachedItem → World → Result
    add_cached k now item w =
        let (w', old) = get_cached k w in
        write_back k (take 100 (record item { ts = now } ∷ keep (λ i. not (has_id item.id i)) old))
          w'

    unfoldable pub remove_cached : Text → (id : Text) → World → Result
    remove_cached k id w =
        let (w', old) = get_cached k w in write_back k (keep (λ i. not (has_id id i)) old) w'

-- `Set.add` and `Set.delete` on the callbacks of a key.
unfoldable pub set_add : ℕ → List ℕ → List ℕ
set_add cb [] = cb ∷ []
set_add cb (x ∷ xs) = if x == cb then x ∷ xs else x ∷ set_add cb xs

unfoldable pub subscribe_cached : Text → (cb : ℕ) → World → World
unfolding set_add
subscribe_cached k cb w = record w {
  listeners = insert k (set_add cb (or_else (lookup k w.listeners) [])) w.listeners;
}

-- The function that `subscribeCached` returns.
unfoldable pub unsubscribe : Text → (cb : ℕ) → World → World
unsubscribe k cb w = elim (lookup k w.listeners) [
  | none ↦ w
  | some cbs ↦ record w { listeners = insert k (keep (λ x. not (x == cb)) cbs) w.listeners }
]

-- `useLocalCache`: the snapshot that the hook reads; without a project there is nothing to read.
unfoldable pub use_local_cache :
    (parse : Text → Parsed) (scope : Text) (project_id : Option Text)
    → World
    → World × List CachedItem
use_local_cache parse scope none w = (w, [])
use_local_cache parse scope (some []) w = (w, [])
use_local_cache parse scope (some (c ∷ pid)) w = get_cached parse (storage_key scope (c ∷ pid)) w
