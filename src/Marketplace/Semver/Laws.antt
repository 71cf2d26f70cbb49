-- ===== src/Marketplace/Semver/Laws.antt =====
-- Which texts the expression accepts.
use nanas.Prelude.{◌≡◌, ap, ◌∙◌, ◌↔◌, true}
use nanas.Prelude.Text.{Text}
use nanas.Marketplace.Semver.{is_semver}
use nanas.Marketplace.Semver.Spec.{Version, IsVersion, version_text}
use nanas.Marketplace.Semver.Sound.{is_semver_sound}
use nanas.Marketplace.Semver.Complete.{is_semver_complete}

-- The expression accepts exactly the texts of three numbers between dots, with an optional "v"
-- before them, an optional suffix behind "-" and then one behind "+", where a number is any run of
-- digits, leading zeros included, and a suffix any run of letters, digits, "_", "." and "-".
pub is_semver_iff :
    (s : Text) → (is_semver s ≡ true) ↔ ((v : Version) × IsVersion v × (s ≡ version_text v))
is_semver_iff s =
    (is_semver_sound s, λ (v, good, same). ap is_semver same ∙ is_semver_complete v good)
