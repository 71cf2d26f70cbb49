-- ===== src/Marketplace/Semver/Complete.antt =====
-- The expression accepts the text of every version.
use nanas.Prelude.{
  ℕ, ◌==◌, ◌≡◌, refl, true, false, [], ◌∷◌, ◌++◌, Option, none, some, arith, inl, inr, Bool-cases,
}
use nanas.Prelude.Text.{Text, is_digit, is_word}
use nanas.Prelude.Scan.{all-AllIn, take_while-run, StopsAt}
use nanas.Marketplace.Semver.{
  drop_v, digits, after, numbers, is_suffix_unit, is_build, is_ending, is_semver,
}
use nanas.Marketplace.Semver.Spec.{
  Version, IsRun, IsSuffix, IsVersion, suffix_text, core_text, version_text,
}

digits-run :
    (xs rest : Text) → IsRun is_digit xs → StopsAt is_digit rest → digits (xs ++ rest) ≡ some rest
unfolding digits
digits-run xs rest run stop = rw (take_while-run is_digit xs rest run.1 stop, run.0) refl

is_build-suffix_text : (b : Option Text) → IsSuffix b → is_build (suffix_text b'+' b) ≡ true
unfolding is_build
is_build-suffix_text none good = refl
is_build-suffix_text (some s) good = ground (arith, good, all-AllIn is_suffix_unit s)

suffix_text-StopsAt : (b : Option Text) → StopsAt is_suffix_unit (suffix_text b'+' b)
unfolding is_suffix_unit is_word
suffix_text-StopsAt none = tt
suffix_text-StopsAt (some s) = refl

is_ending-suffix_text :
    (a b : Option Text)
    → IsSuffix a
    → IsSuffix b
    → is_ending (suffix_text b'-' a ++ suffix_text b'+' b) ≡ true
unfolding is_ending
is_ending-suffix_text none none ga gb = refl
is_ending-suffix_text none (some s) ga gb = is_build-suffix_text (some s) gb
is_ending-suffix_text (some s) b ga gb =
    rw
      (
        take_while-run is_suffix_unit s (suffix_text b'+' b) ga.1 (suffix_text-StopsAt b),
        ga.0,
        is_build-suffix_text b gb,
      )
      refl

ending-StopsAt : (a b : Option Text) → StopsAt is_digit (suffix_text b'-' a ++ suffix_text b'+' b)
unfolding is_digit
ending-StopsAt none none = tt
ending-StopsAt none (some s) = refl
ending-StopsAt (some s) b = refl

numbers-core_text :
    (v : Version)
    → IsVersion v
    → numbers (core_text v) ≡ some (suffix_text b'-' v.pre_release ++ suffix_text b'+' v.build)
unfolding numbers after
numbers-core_text v (major, minor, patch, pre, build) =
    let ending = suffix_text b'-' v.pre_release ++ suffix_text b'+' v.build in
    let third = v.patch ++ ending in
    let second = v.minor ++ (b'.' ∷ third) in
    let stop : is_digit b'.' ≡ false = unfold is_digit in refl in
    rw
      (
        digits-run v.major (b'.' ∷ second) major stop,
        digits-run v.minor (b'.' ∷ third) minor stop,
        digits-run v.patch ending patch (ending-StopsAt v.pre_release v.build),
      )
      refl

digit-not-v : (c : ℕ) → is_digit c ≡ true → (c == b'v') ≡ false
unfolding is_digit
digit-not-v c h = ground arith

drop_v-run : (s rest : Text) → IsRun is_digit s → drop_v (s ++ rest) ≡ s ++ rest
unfolding drop_v
drop_v-run [] rest run = absurd (cc (run.0))
drop_v-run (c ∷ s) rest run = rw (digit-not-v c run.1.0) refl

pub drop_v-version_text : (v : Version) → IsVersion v → drop_v (version_text v) ≡ core_text v
drop_v-version_text v good = elim (Bool-cases v.has_v) [
  | inl with_v ↦ rw with_v (unfold drop_v in refl)
  | inr without ↦ rw without (drop_v-run v.major _ good.0)
]

pub is_semver_complete : (v : Version) → IsVersion v → is_semver (version_text v) ≡ true
unfolding is_semver
is_semver_complete v good =
    let (_, _, _, pre, build) = good in
    rw
      (
        drop_v-version_text v good,
        numbers-core_text v good,
        is_ending-suffix_text v.pre_release v.build pre build,
        is_semver,
      )
      refl
