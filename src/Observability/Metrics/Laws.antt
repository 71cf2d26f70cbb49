-- ===== src/Observability/Metrics/Laws.antt =====
-- The labels of a sample, written as the exposition format asks, are read back.
use nanas.Prelude.{
  ℕ, zero, suc, ◌==◌, ◌≡◌, ◌≤◌, refl, sym, ap, ◌∙◌, Bool, true, false, not, ◌||◌, List, [], ◌∷◌,
  ◌++◌, length, length-append, append_assoc, append-nil, some, arith, inl, inr, Bool-cases,
  if◌then◌else◌, All,
}
use nanas.Prelude.Text.{Text}
use nanas.Prelude.Scan.{AllIn, take_while-append}
use nanas.Observability.Metrics.{
  is_label_start, is_label_unit, match_name, match_body, match_label, find_labels,
}

-- Not empty, with a first character of the one kind and all of the other.
abbrev pub IsName : (start unit : ℕ → Bool) → Text → Type 0
IsName start unit [] = ⊥
IsName start unit (c ∷ s) = (start c ≡ true) × AllIn unit (c ∷ s)

pub match_name-append :
    (start unit : ℕ → Bool) (xs : Text) (c : ℕ) (rest : Text)
    → IsName start unit xs
    → unit c ≡ false
    → match_name start unit (xs ++ (c ∷ rest)) ≡ some (xs, c ∷ rest)
match_name-append start unit [] c rest h stop = absurd h
match_name-append start unit (x ∷ xs) c rest h stop =
    let taken = take_while-append unit (x ∷ xs) c rest h.1 stop in rw (h.0, taken) refl

-- A label value, with a backslash before each quote and each backslash.
unfoldable pub escape : Text → Text
escape [] = []
escape (c ∷ s) = if (c == 34) || (c == 92) then 92 ∷ c ∷ escape s else c ∷ escape s

-- No line ends and no closing brace.
abbrev pub is_plain : ℕ → Bool
is_plain c = not ((c == 10) || (c == 13) || (c == b'}'))

match_body-escape :
    (v rest : Text) → AllIn is_plain v → match_body false (escape v ++ (34 ∷ rest)) ≡ some (v, rest)
unfolding match_body escape
match_body-escape [] rest h = refl
match_body-escape (c ∷ v) rest h =
    let more = match_body-escape v rest h.1 in
    let no_line : ((c == 10) || (c == 13)) ≡ false = ground (arith, h.0) in
    elim (Bool-cases ((c == 34) || (c == 92))) [
      | inl special ↦ rw (special, no_line, more) refl
      | inr usual ↦
          let no_quote : (c == 34) ≡ false = ground (arith, usual) in
          let no_backslash : (c == 92) ≡ false = ground (arith, usual) in
          rw (usual, match_body, no_quote, no_backslash, more) refl
    ]

abbrev pub label_text : Text × Text → Text
label_text kv = kv.0 ++ (b'=' ∷ 34 ∷ (escape kv.1 ++ (34 ∷ [])))

-- The labels, with commas between them.
abbrev pub labels_text : List (Text × Text) → Text
labels_text [] = []
labels_text (kv ∷ []) = label_text kv
labels_text (kv ∷ kw ∷ kvs) = label_text kv ++ (b',' ∷ labels_text (kw ∷ kvs))

abbrev pub IsLabel : Text × Text → Type 0
IsLabel kv = IsName is_label_start is_label_unit kv.0 × AllIn is_plain kv.1

match_label-label_text :
    (kv : Text × Text) (rest : Text)
    → IsLabel kv
    → match_label (label_text kv ++ rest) ≡ some (kv.0, kv.1, rest)
unfolding match_label
match_label-label_text (name, v) rest (good, plain) =
    let tail = b'=' ∷ 34 ∷ (escape v ++ (34 ∷ [])) in
    let apart : (name ++ tail) ++ rest ≡ name ++ (b'=' ∷ 34 ∷ (escape v ++ (34 ∷ rest))) =
      append_assoc name tail rest
      ∙ ap (λ z. name ++ (b'=' ∷ 34 ∷ z)) (append_assoc (escape v) (34 ∷ []) rest) in
    let named =
      match_name-append is_label_start is_label_unit name b'=' (34 ∷ (escape v ++ (34 ∷ rest))) good
        refl in
    let read = match_body-escape v rest plain in rw (apart, match_label, named, read) refl

find_labels-label_text :
    (kv : Text × Text) (rest : Text) (fuel : ℕ)
    → IsLabel kv
    → find_labels (suc fuel) (label_text kv ++ rest) ≡ kv ∷ find_labels fuel rest
unfolding find_labels
find_labels-label_text ([], v) rest fuel good = absurd (good.0)
find_labels-label_text (c ∷ name, v) rest fuel good =
    rw (find_labels, match_label-label_text (c ∷ name, v) rest good) refl

find_labels-comma : (s : Text) (fuel : ℕ) → find_labels (suc fuel) (b',' ∷ s) ≡ find_labels fuel s
unfolding find_labels match_label is_label_start
find_labels-comma s fuel = refl

find_labels-empty : (fuel : ℕ) → find_labels fuel [] ≡ []
unfolding find_labels
find_labels-empty zero = refl
find_labels-empty (suc fuel) = refl

length-label_text : (kv : Text × Text) → 1 ≤ length (label_text kv)
length-label_text kv = omega (arith, length-append kv.0 (b'=' ∷ 34 ∷ (escape kv.1 ++ (34 ∷ []))))

-- Each match uses up some of the text, so that the length of the text is fuel enough.
pub find_labels-labels_text :
    (kvs : List (Text × Text)) (fuel : ℕ)
    → All IsLabel kvs
    → length (labels_text kvs) ≤ fuel
    → find_labels fuel (labels_text kvs) ≡ kvs
find_labels-labels_text [] fuel good enough = find_labels-empty fuel
find_labels-labels_text (kv ∷ []) zero good enough =
    absurd (omega (arith, enough, length-label_text kv))
find_labels-labels_text (kv ∷ []) (suc fuel) good enough =
    ap (find_labels (suc fuel)) (sym (append-nil (label_text kv)))
    ∙ find_labels-label_text kv [] fuel good.0
    ∙ ap (λ z. kv ∷ z) (find_labels-empty fuel)
find_labels-labels_text (kv ∷ kw ∷ kvs) zero good enough =
    let more = length-append (label_text kv) (b',' ∷ labels_text (kw ∷ kvs)) in
    absurd (omega (arith, enough, more))
find_labels-labels_text (kv ∷ kw ∷ kvs) (suc zero) good enough =
    let more = length-append (label_text kv) (b',' ∷ labels_text (kw ∷ kvs)) in
    absurd (omega (arith, enough, more, length-label_text kv))
find_labels-labels_text (kv ∷ kw ∷ kvs) (suc (suc fuel)) good enough =
    let rest = labels_text (kw ∷ kvs) in
    find_labels-label_text kv (b',' ∷ rest) (suc fuel) good.0
    ∙ ap (λ z. kv ∷ z) (find_labels-comma rest fuel)
    ∙ ap (λ z. kv ∷ z)
        (find_labels-labels_text (kw ∷ kvs) fuel good.1 (
          omega (arith, enough, length-label_text kv, length-append (label_text kv) (b',' ∷ rest))))
