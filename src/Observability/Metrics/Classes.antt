-- ===== src/Observability/Metrics/Classes.antt =====
-- Which characters a text of labels is made of.
use nanas.Prelude.{
  ℕ, ◌==◌, ◌≡◌, Bool, true, ◌||◌, List, [], ◌∷◌, ◌++◌, inl, inr, Bool-cases, All, All-append,
}
use nanas.Prelude.Text.{Text}
use nanas.Prelude.Scan.{AllIn}
use nanas.Observability.Metrics.{is_label_start, is_label_unit}
use nanas.Observability.Metrics.Laws.{IsName, escape, is_plain, label_text, labels_text, IsLabel}

-- The characters of a text that a class matches are matched by a wider class.
pub AllIn-wider :
    (p q : ℕ → Bool) (s : Text) → ((c : ℕ) → p c ≡ true → q c ≡ true) → AllIn p s → AllIn q s
AllIn-wider p q [] wider h = tt
AllIn-wider p q (c ∷ s) wider h = (wider c h.0, AllIn-wider p q s wider h.1)

pub IsName-AllIn :
    (start unit p : ℕ → Bool) (s : Text)
    → ((c : ℕ) → unit c ≡ true → p c ≡ true)
    → IsName start unit s
    → AllIn p s
IsName-AllIn start unit p [] wider h = absurd h
IsName-AllIn start unit p (c ∷ s) wider h = AllIn-wider unit p (c ∷ s) wider h.1

-- A class that holds the characters of names and of plain values, and the signs between them.
module _ (p : ℕ → Bool) (units : (c : ℕ) → is_label_unit c ≡ true → p c ≡ true)
    (plains : (c : ℕ) → is_plain c ≡ true → p c ≡ true)
    (signs : AllIn p (34 ∷ 92 ∷ b'=' ∷ b',' ∷ [])) where
  escape-AllIn : (v : Text) → AllIn is_plain v → AllIn p (escape v)
  unfolding escape
  escape-AllIn [] h = tt
  escape-AllIn (c ∷ v) h =
      let here = plains c h.0 in
      let more = escape-AllIn v h.1 in
      elim (Bool-cases ((c == 34) || (c == 92))) [
        | inl special ↦ rw special (signs.1.0, (here, more))
        | inr usual ↦ rw usual (here, more)
      ]

  label_text-AllIn : (kv : Text × Text) → IsLabel kv → AllIn p (label_text kv)
  label_text-AllIn (name, v) (good, plain) =
      All-append _ name (b'=' ∷ 34 ∷ (escape v ++ (34 ∷ [])))
        (IsName-AllIn is_label_start is_label_unit p name units good)
        (
          signs.1.1.0,
          (signs.0, All-append _ (escape v) (34 ∷ []) (escape-AllIn v plain) (signs.0, tt)),
        )

  pub labels_text-AllIn : (kvs : List (Text × Text)) → All IsLabel kvs → AllIn p (labels_text kvs)
  labels_text-AllIn [] h = tt
  labels_text-AllIn (kv ∷ []) h = label_text-AllIn kv h.0
  labels_text-AllIn (kv ∷ kw ∷ kvs) h =
      All-append _ (label_text kv) (b',' ∷ labels_text (kw ∷ kvs)) (label_text-AllIn kv h.0)
        (signs.1.1.1.0, labels_text-AllIn (kw ∷ kvs) h.1)
