-- ===== src/Marketplace/Package/Laws.antt =====
-- The version that is published, and what its publication makes stale.
use nanas.Prelude.{
  ℕ, ◌≡◌, ◌≢◌, refl, ap, ◌∙◌, Bool, true, false, List, [], ◌∷◌, some, arith, Bool-cases, inl, inr,
}
use nanas.Prelude.Text.{Text, codes, text_eq, trim}
use nanas.Prelude.Json.{str, property}
use nanas.Web.LocalCache.{CachedItem, Parsed, World}
use nanas.Queries.{word, Key, run_effects, is_stale}
use nanas.Queries.Laws.{words, IsPrefixTest}
use nanas.Marketplace.Semver.{drop_v}
use nanas.Marketplace.Semver.Spec.{Version, IsVersion, version_text, core_text}
use nanas.Marketplace.Semver.Complete.{drop_v-version_text}
use nanas.Marketplace.Semver.Laws.{is_semver_iff}
use nanas.Marketplace.Package.{
  VersionForm, is_valid, publish_disabled, publish_vars, detail_key, versions_key,
  version_published,
}
use nanas.Marketplace.Listing.{list_key}

-- Where the button publishes, what was entered is a version between white space, and that version
-- is sent without its "v".
pub publish_vars-version :
    (d : VersionForm) (pending : Bool)
    → publish_disabled pending d ≡ false
    → (v : Version) × IsVersion v
      × (trim d.version ≡ version_text v)
      × (property (codes "version") (publish_vars d) ≡ some (str (core_text v)))
unfolding publish_disabled is_valid publish_vars property text_eq
publish_vars-version d pending enabled =
    let (v, good, same) = (is_semver_iff (trim d.version)).0 (ground arith) in
    (
      v,
      good,
      same,
      ap (λ z. some (str (drop_v z))) same ∙ ap (λ z. some (str z)) (drop_v-version_text v good),
    )

module _ (parse : Text → Parsed) (stringify : List CachedItem → Text) (accepts : Text → Text → Bool)
    (now : ℕ) (covers : Key → Key → Bool) where
  -- After a version of a package was published, the package and its versions are stale, and no page
  -- of the list is, though the list shows the latest version of each package, where the package is
  -- not named "list".
  pub version_published-stale :
      (slug : Text) (page : ℕ) (w : World)
      → IsPrefixTest covers
      → slug ≢ codes "list"
      → (let (done, s) =
            run_effects parse stringify accepts now
              (version_published slug)
              (record { world = w; invalidated = [] }) in
          (is_stale covers s.invalidated (detail_key slug) ≡ true)
          × (is_stale covers s.invalidated (versions_key slug) ≡ true)
          × (is_stale covers s.invalidated (list_key page) ≡ false))
  unfolding run_effects version_published is_stale detail_key versions_key list_key
  version_published-stale slug page w test apart =
      let p = codes "marketplace" ∷ slug ∷ [] in
      let other : covers (words p) (list_key page) ≡ false =
        elim (Bool-cases (covers (words p) (list_key page))) [
          | inl covered ↦
              let same : word slug ≡ word (codes "list") =
                ((test p (list_key page)).0 covered).1.0 in
              absurd (apart (cc (same)))
          | inr not_covered ↦ not_covered
        ] in
      (
        rw ((test p (detail_key slug)).1 (refl, (refl, tt))) refl,
        rw ((test p (versions_key slug)).1 (refl, (refl, tt))) refl,
        rw other refl,
      )
