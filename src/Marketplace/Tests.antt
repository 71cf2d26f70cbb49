-- ===== src/Marketplace/Tests.antt =====
-- Versions, and a package that is called "auth".
use nanas.Prelude.{◌≡◌, refl, ◌↔◌, true, false, some}
use nanas.Prelude.Text.{codes, trim}
use nanas.Prelude.Json.{str, property}
use nanas.Marketplace.Semver.{is_semver}
use nanas.Marketplace.Semver.Spec.{Version, IsVersion, version_text, core_text}
use nanas.Marketplace.Semver.Laws.{is_semver_iff}
use nanas.Marketplace.Package.{VersionForm, fresh_version, publish_disabled, publish_vars}
use nanas.Marketplace.Package.Laws.{publish_vars-version}

is_semver_iff_example :
    (is_semver (codes "v01.2.3-rc_1") ≡ true)
    ↔ ((v : Version) × IsVersion v × (codes "v01.2.3-rc_1" ≡ version_text v))
is_semver_iff_example = is_semver_iff (codes "v01.2.3-rc_1")

accepted : is_semver (codes "v01.2.3-rc_1+b.7") ≡ true
unfolding is_semver
accepted = refl

refused : is_semver (codes "1.2") ≡ false
unfolding is_semver
refused = refl

abbrev form : VersionForm
form = record fresh_version { version = codes " v1.2.3 " }

publish_vars-version_example :
    (v : Version) × IsVersion v
    × (trim form.version ≡ version_text v)
    × (property (codes "version") (publish_vars form) ≡ some (str (core_text v)))
unfolding publish_disabled
publish_vars-version_example = publish_vars-version form false refl
