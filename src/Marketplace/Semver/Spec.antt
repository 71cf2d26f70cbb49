-- ===== src/Marketplace/Semver/Spec.antt =====
-- What a version is, and its text.
use nanas.Prelude.{ℕ, ◌≡◌, Bool, false, [], ◌∷◌, ◌++◌, Option, none, some, if◌then◌else◌}
use nanas.Prelude.Text.{Text, is_empty, is_digit}
use nanas.Prelude.Scan.{AllIn}
use nanas.Marketplace.Semver.{is_suffix_unit}

-- The parts of a version.
pub record Version : Type 0 where
  pub has_v : Bool
  pub major : Text
  pub minor : Text
  pub patch : Text
  pub pre_release : Option Text
  pub build : Option Text

-- A text of the class, with one character at least.
abbrev pub IsRun : (ℕ → Bool) → Text → Type 0
IsRun p s = (is_empty s ≡ false) × AllIn p s

abbrev pub IsSuffix : Option Text → Type 0
IsSuffix none = Unit
IsSuffix (some s) = IsRun is_suffix_unit s

abbrev pub IsVersion : Version → Type 0
IsVersion v =
    IsRun is_digit v.major
    × IsRun is_digit v.minor
    × IsRun is_digit v.patch
    × IsSuffix v.pre_release
    × IsSuffix v.build

abbrev pub suffix_text : ℕ → Option Text → Text
suffix_text mark none = []
suffix_text mark (some s) = mark ∷ s

abbrev pub core_text : Version → Text
core_text v =
    v.major
    ++ (b'.'
        ∷ (v.minor
            ++ (b'.' ∷ (v.patch ++ (suffix_text b'-' v.pre_release ++ suffix_text b'+' v.build)))))

abbrev pub version_text : Version → Text
version_text v = if v.has_v then b'v' ∷ core_text v else core_text v
