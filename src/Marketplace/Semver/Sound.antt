-- ===== src/Marketplace/Semver/Sound.antt =====
-- What the expression accepts is the text of a version.
use nanas.Prelude.{
  ℕ, ◌==◌, ◌≡◌, refl, sym, ap, ◌∙◌, Bool, true, false, [], ◌∷◌, ◌++◌, Option, none, some, and_then,
  arith, inl, inr, ◌⊎◌, Bool-cases, Option-cases, ==_iff,
}
use nanas.Prelude.Text.{Text, is_empty, is_digit}
use nanas.Prelude.Scan.{all-AllIn, take_while, take_while_sound}
use nanas.Marketplace.Semver.{
  drop_v, digits, after, numbers, is_suffix_unit, is_build, is_ending, is_semver,
}
use nanas.Marketplace.Semver.Spec.{
  Version, IsRun, IsSuffix, IsVersion, suffix_text, core_text, version_text,
}

and_then-some {ℓ κ} :
    {A : Type ℓ} {B : Type κ} (o : Option A) (f : A → Option B) {b : B}
    → and_then o f ≡ some b
    → (a : A) × (o ≡ some a) × (f a ≡ some b)
and_then-some none f h = absurd (cc (h))
and_then-some (some a) f h = (a, refl, h)

digits_sound : (s r : Text) → digits s ≡ some r → (xs : Text) × IsRun is_digit xs × (s ≡ xs ++ r)
unfolding digits
digits_sound s r h =
    let (whole, each) = take_while_sound is_digit s in
    let xs = (take_while is_digit s).0 in
    elim (Bool-cases (is_empty xs)) [
      | inl none_there ↦ absurd (ground (arith, h, none_there))
      | inr full ↦
          let rest : (take_while is_digit s).1 ≡ r = ground (arith, h, full) in
          (xs, (full, each), sym whole ∙ ap (λ z. xs ++ z) rest)
    ]

after_sound : (d : ℕ) (s r : Text) → after d s ≡ some r → s ≡ d ∷ r
unfolding after
after_sound d [] r h = absurd (cc (h))
after_sound d (c ∷ s) r h = ground (arith, h)

build_sound :
    (s : Text) → is_build s ≡ true → (b : Option Text) × IsSuffix b × (s ≡ suffix_text b'+' b)
unfolding is_build
build_sound [] h = (none, tt, refl)
build_sound (c ∷ s) h =
    (some s, ground (arith, all-AllIn is_suffix_unit s), ap (λ z. z ∷ s) (ground arith))

ending_sound :
    (s : Text)
    → is_ending s ≡ true
    → (a : Option Text) × (b : Option Text) × IsSuffix a
      × IsSuffix b
      × (s ≡ suffix_text b'-' a ++ suffix_text b'+' b)
unfolding is_ending
ending_sound [] h = (none, none, tt, tt, refl)
ending_sound (c ∷ s) h =
    let (whole, each) = take_while_sound is_suffix_unit s in
    let xs = (take_while is_suffix_unit s).0 in
    let rest = (take_while is_suffix_unit s).1 in
    elim (Bool-cases (c == b'-')) [
      | inl dash ↦
          let full : is_empty xs ≡ false = ground (arith, h, dash) in
          let ended : is_build rest ≡ true = ground (arith, h, dash) in
          let (b, good, same) = build_sound rest ended in
          let mark : c ≡ b'-' = (==_iff c b'-').0 dash in
          (
            some xs,
            b,
            (full, each),
            good,
            ap (λ z. z ∷ s) mark ∙ ap (λ z. b'-' ∷ z) (sym whole ∙ ap (λ z. xs ++ z) same),
          )
      | inr other ↦
          let ended : is_build (c ∷ s) ≡ true = ground (arith, h, other) in
          let (b, good, same) = build_sound (c ∷ s) ended in (none, b, tt, good, same)
    ]

drop_v_sound : (s : Text) → (s ≡ b'v' ∷ drop_v s) ⊎ (s ≡ drop_v s)
unfolding drop_v
drop_v_sound [] = inr refl
drop_v_sound (c ∷ s) = elim (Bool-cases (c == b'v')) [
  | inl v ↦ inl (rw v (ap (λ z. z ∷ s) ((==_iff c b'v').0 v)))
  | inr other ↦ inr (rw other refl)
]

numbers_sound :
    (s r : Text)
    → numbers s ≡ some r
    → (a : Text) × (b : Text) × (c : Text) × IsRun is_digit a
      × IsRun is_digit b
      × IsRun is_digit c
      × (s ≡ a ++ (b'.' ∷ (b ++ (b'.' ∷ (c ++ r)))))
unfolding numbers
numbers_sound s r h =
    let (r0, first, h0) = and_then-some _ _ h in
    let (r1, dot, h1) = and_then-some _ _ h0 in
    let (r2, second, h2) = and_then-some _ _ h1 in
    let (r3, dot', third) = and_then-some _ _ h2 in
    let (a, run_a, at_a) = digits_sound s r0 first in
    let (b, run_b, at_b) = digits_sound r1 r2 second in
    let (c, run_c, at_c) = digits_sound r3 r third in
    let tail : r2 ≡ b'.' ∷ (c ++ r) = after_sound b'.' r2 r3 dot' ∙ ap (λ z. b'.' ∷ z) at_c in
    let mid : r0 ≡ b'.' ∷ (b ++ (b'.' ∷ (c ++ r))) =
      after_sound b'.' r0 r1 dot ∙ ap (λ z. b'.' ∷ z) (at_b ∙ ap (λ z. b ++ z) tail) in
    (a, b, c, run_a, run_b, run_c, at_a ∙ ap (λ z. a ++ z) mid)

core_sound :
    (t r : Text)
    → numbers t ≡ some r
    → is_ending r ≡ true
    → (has_v : Bool) → (v : Version) × IsVersion v × (v.has_v ≡ has_v) × (t ≡ core_text v)
core_sound t r read ended has_v =
    let (a, b, c, run_a, run_b, run_c, at) = numbers_sound t r read in
    let (pre, build, good_pre, good_build, same) = ending_sound r ended in
    (
      record { has_v = has_v; major = a; minor = b; patch = c; pre_release = pre; build = build },
      (run_a, run_b, run_c, good_pre, good_build),
      refl,
      at ∙ ap (λ z. a ++ (b'.' ∷ (b ++ (b'.' ∷ (c ++ z))))) same,
    )

pub is_semver_sound :
    (s : Text) → is_semver s ≡ true → (v : Version) × IsVersion v × (s ≡ version_text v)
unfolding is_semver
is_semver_sound s h = elim (Option-cases (numbers (drop_v s))) [
  | inl unread ↦ absurd (ground (arith, h, unread))
  | inr (r, read) ↦
      let ended : is_ending r ≡ true = ground (arith, h, read) in
      elim (drop_v_sound s) [
        | inl with_v ↦
            let (v, good, flag, same) = core_sound (drop_v s) r read ended true in
            (v, good, with_v ∙ rw flag (ap (λ z. b'v' ∷ z) same))
        | inr without ↦
            let (v, good, flag, same) = core_sound (drop_v s) r read ended false in
            (v, good, without ∙ rw flag same)
      ]
]
