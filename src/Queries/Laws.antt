-- ===== src/Queries/Laws.antt =====
-- What the mutations make stale.
use nanas.Prelude.{
  ℕ, ◌≡◌, ◌≢◌, refl, Bool, true, false, List, [], ◌∷◌, map, ◌↔◌, inl, inr, Bool-cases, Option,
}
use nanas.Prelude.Text.{Text, codes}
use nanas.Prelude.Json.{Json}
use nanas.Web.LocalCache.{CachedItem, Parsed, World}
use nanas.Queries.{word, number, given, Key, run_effects, is_stale}
use nanas.Queries.Functions.{
  all_key, list_key, detail_key, versions_key, deployments_key, build_status, entrypoint_key,
  deployment_by_id,
}
use nanas.Queries.Mutations.{deployed, rolled_back}

abbrev pub words : List Text → Key
words ws = map word ws

abbrev pub IsPrefix : Key → Key → Type 0
IsPrefix [] k = Unit
IsPrefix (a ∷ p) [] = ⊥
IsPrefix (a ∷ p) (b ∷ k) = (a ≡ b) × IsPrefix p k

-- The library finds the queries whose key begins with the given key, here one of words.
abbrev pub IsPrefixTest : (Key → Key → Bool) → Type 0
IsPrefixTest covers =
    (ws : List Text) (k : Key) → (covers (words ws) k ≡ true) ↔ IsPrefix (words ws) k

-- The queries of a project that are kept under the key of its functions: the list, and the details,
-- the versions and the deployments of a function.
abbrev pub FunctionQueries : (pid : Text) → (Key → Type 0) → Type 0
FunctionQueries pid P =
    ((page : ℕ) (filters : Json) → P (list_key pid page filters))
    × ((fid : Text) → P (detail_key pid fid))
    × ((fid : Text) → P (versions_key pid fid))
    × ((fid : Text) → P (deployments_key pid fid))

-- The queries of functions that are kept under other keys: the build of a version, the source of an
-- entrypoint, and a deployment by its id.
abbrev pub OtherQueries : (pid : Text) → (Key → Type 0) → Type 0
OtherQueries pid P =
    ((fid : Text) (vid : Option Text) → P (build_status pid fid vid).query_key)
    × ((fid : Text) → P (entrypoint_key pid fid))
    × ((did : Option Text) (option : Option (Option ℕ)) → P (deployment_by_id did option).query_key)

covers_project :
    (covers : Key → Key → Bool) (pid : Text) (rest : Key)
    → IsPrefixTest covers
    → covers (all_key pid) (word (codes "functions") ∷ word pid ∷ rest) ≡ true
unfolding all_key
covers_project covers pid rest test =
    (test (codes "functions" ∷ pid ∷ []) (word (codes "functions") ∷ word pid ∷ rest)).1
      (refl, (refl, tt))

-- A key of one project covers none of another's.
not-covers_other :
    (covers : Key → Key → Bool) (pid other : Text) (more : List Text) (rest : Key)
    → IsPrefixTest covers
    → other ≢ pid
    → covers (words (codes "functions" ∷ pid ∷ more)) (word (codes "functions") ∷ word other ∷ rest)
      ≡ false
not-covers_other covers pid other more rest test apart =
    let p = codes "functions" ∷ pid ∷ more in
    let k = word (codes "functions") ∷ word other ∷ rest in
    elim (Bool-cases (covers (words p) k)) [
      | inl yes' ↦
          let same : word pid ≡ word other = ((test p k).0 yes').1.0 in absurd (apart (cc (same)))
      | inr not' ↦ not'
    ]

-- A key of the functions covers no key that begins with another word.
not-covers_word :
    (covers : Key → Key → Bool) (more : List Text) (other : Text) (rest : Key)
    → IsPrefixTest covers
    → codes "functions" ≢ other
    → covers (words (codes "functions" ∷ more)) (word other ∷ rest) ≡ false
not-covers_word covers more other rest test apart =
    let p = codes "functions" ∷ more in
    elim (Bool-cases (covers (words p) (word other ∷ rest))) [
      | inl yes' ↦
          let same : word (codes "functions") ≡ word other =
            ((test p (word other ∷ rest)).0 yes').0 in
          absurd (apart (cc (same)))
      | inr not' ↦ not'
    ]

not-covers-functions :
    (covers : Key → Key → Bool) (pid other : Text) (more : List Text)
    → IsPrefixTest covers
    → other ≢ pid
    → FunctionQueries other (λ k. covers (words (codes "functions" ∷ pid ∷ more)) k ≡ false)
unfolding list_key detail_key versions_key deployments_key
not-covers-functions covers pid other more test apart =
    let miss = λ (rest : Key). not-covers_other covers pid other more rest test apart in
    (λ page filters. miss _, λ f. miss _, λ f. miss _, λ f. miss _)

not-covers-others :
    (covers : Key → Key → Bool) (pid : Text) (more : List Text)
    → IsPrefixTest covers
    → OtherQueries pid (λ k. covers (words (codes "functions" ∷ more)) k ≡ false)
unfolding build_status deployment_by_id
not-covers-others covers pid more test = (
  λ f vid. not-covers_word covers more (codes "build") _ test (λ e. cc (e)),
  λ f. not-covers_word covers more (codes "entrypoint") _ test (λ e. cc (e)),
  λ did option. not-covers_word covers more (codes "deployments") _ test (λ e. cc (e)),
)

-- A key of one kind covers none of another kind.
not-covers_kind :
    (covers : Key → Key → Bool) (pid kind other fid : Text) (rest : Key)
    → IsPrefixTest covers
    → other ≢ kind
    → covers
        (words (codes "functions" ∷ pid ∷ kind ∷ fid ∷ []))
        (word (codes "functions") ∷ word pid ∷ word other ∷ rest)
      ≡ false
not-covers_kind covers pid kind other fid rest test apart =
    let p = codes "functions" ∷ pid ∷ kind ∷ fid ∷ [] in
    let k = word (codes "functions") ∷ word pid ∷ word other ∷ rest in
    elim (Bool-cases (covers (words p) k)) [
      | inl yes' ↦
          let same : word kind ≡ word other = ((test p k).0 yes').1.1.0 in
          absurd (apart (cc (same)))
      | inr not' ↦ not'
    ]

module _ (parse : Text → Parsed) (stringify : List CachedItem → Text) (accepts : Text → Text → Bool)
    (now : ℕ) (covers : Key → Key → Bool) where
  -- Where the library's matching of keys is by their first elements, after a deployment each query
  -- that is kept under the key of the project's functions (the list, and the details, versions and
  -- deployments of each function) is stale, and none of another project's. The builds, the sources of
  -- entrypoints and the deployments by id, which have keys of their own, are not stale.
  pub deployed-stale :
      (pid fid other : Text) (w : World)
      → IsPrefixTest covers
      → other ≢ pid
      → (let (done, s) =
            run_effects parse stringify accepts now
              (deployed pid fid)
              (record { world = w; invalidated = [] }) in
          (done ≡ true)
          × FunctionQueries pid (λ k. is_stale covers s.invalidated k ≡ true)
          × FunctionQueries other (λ k. is_stale covers s.invalidated k ≡ false)
          × OtherQueries pid (λ k. is_stale covers s.invalidated k ≡ false))
  unfolding run_effects deployed is_stale all_key list_key detail_key versions_key deployments_key
      build_status deployment_by_id
  deployed-stale pid fid other w test apart =
      let hit : (rest : Key)
          → covers (all_key pid) (word (codes "functions") ∷ word pid ∷ rest) ≡ true =
        λ rest. covers_project covers pid rest test in
      let of_fid : List Text = codes "deployments" ∷ fid ∷ [] in
      let (list1, detail1, versions1, deployments1) =
        not-covers-functions covers pid other of_fid test apart in
      let (list2, detail2, versions2, deployments2) =
        not-covers-functions covers pid other [] test apart in
      let (build1, entry1, by_id1) = not-covers-others covers pid (pid ∷ of_fid) test in
      let (build2, entry2, by_id2) = not-covers-others covers pid (pid ∷ []) test in
      (
        refl,
        (
          λ page filters. rw (hit (word (codes "list") ∷ number page ∷ given filters ∷ [])) refl,
          λ f. rw (hit (word (codes "detail") ∷ word f ∷ [])) refl,
          λ f. rw (hit (word (codes "versions") ∷ word f ∷ [])) refl,
          λ f. rw (hit (word (codes "deployments") ∷ word f ∷ [])) refl,
        ),
        (
          λ page filters. rw (list1 page filters, list2 page filters) refl,
          λ f. rw (detail1 f, detail2 f) refl,
          λ f. rw (versions1 f, versions2 f) refl,
          λ f. rw (deployments1 f, deployments2 f) refl,
        ),
        (
          λ f vid. rw (build1 f vid, build2 f vid) refl,
          λ f. rw (entry1 f, entry2 f) refl,
          λ did option. rw (by_id1 did option, by_id2 did option) refl,
        ),
      )

  -- Where the library's matching of keys is by their first elements, after a rollback the
  -- deployments of the function are stale, but neither the list of the project's functions, which
  -- shows the status of the last deployment, nor a detail, which shows the current version, nor the
  -- versions of a function.
  pub rolled_back-stale :
      (pid fid : Text) (w : World)
      → IsPrefixTest covers
      → (let (done, s) =
            run_effects parse stringify accepts now
              (rolled_back pid fid)
              (record { world = w; invalidated = [] }) in
          (is_stale covers s.invalidated (deployments_key pid fid) ≡ true)
          × ((page : ℕ) (filters : Json)
              → is_stale covers s.invalidated (list_key pid page filters) ≡ false)
          × ((f : Text) → is_stale covers s.invalidated (detail_key pid f) ≡ false)
          × ((f : Text) → is_stale covers s.invalidated (versions_key pid f) ≡ false))
  unfolding run_effects rolled_back is_stale list_key detail_key versions_key deployments_key
  rolled_back-stale pid fid w test =
      let of_fid = codes "deployments" ∷ fid ∷ [] in
      let k = words (codes "functions" ∷ pid ∷ of_fid) in
      (
        rw ((test (codes "functions" ∷ pid ∷ of_fid) k).1 (refl, (refl, (refl, (refl, tt))))) refl,
        λ page filters.
            rw
              (not-covers_kind covers pid (codes "deployments") (codes "list") fid
                (number page ∷ given filters ∷ []) test (λ e. cc (e)))
              refl,
        λ f.
            rw
              (not-covers_kind covers pid (codes "deployments") (codes "detail") fid (word f ∷ [])
                test (λ e. cc (e)))
              refl,
        λ f.
            rw
              (not-covers_kind covers pid (codes "deployments") (codes "versions") fid (word f ∷ [])
                test (λ e. cc (e)))
              refl,
      )
