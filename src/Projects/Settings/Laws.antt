-- ===== src/Projects/Settings/Laws.antt =====
-- What the card of the allowlist sends.
use nanas.Prelude.{
  ℕ, ◌≡◌, refl, ◌∙◌, ap, true, false, not, List, [], ◌∷◌, ◌++◌, map, keep, all, some, arith, All,
  append-nil, Bool-cases, inl, inr,
}
use nanas.Prelude.Text.{Text, codes, is_space, is_word, is_empty, trim, trim_start, trim_end, join}
use nanas.Prelude.Json.{obj, arr, nil, field, end}
use nanas.Projects.Settings.{
  is_separator, starts_apart, split_apart, tables_of, is_ident, invalid, AllowlistCard,
  save_disabled, save_request,
}

abbrev pub IsApart : Text → Type 0
IsApart sep = (is_empty sep ≡ false) × (all is_separator sep ≡ true)

abbrev pub IsIdent : Text → Type 0
IsIdent t = is_ident t ≡ true

word-not-separator : (c : ℕ) → is_word c ≡ true → is_separator c ≡ false
unfolding is_word is_separator is_space
word-not-separator c h = ground arith

word-not-space : (c : ℕ) → is_word c ≡ true → is_space c ≡ false
unfolding is_word is_space
word-not-space c h = ground arith

ident-words : (t : Text) → IsIdent t → (is_empty t ≡ false) × (all is_word t ≡ true)
unfolding is_ident
ident-words [] h = cc
ident-words (c ∷ s) h = ground arith

trim_end-words : (s : Text) → all is_word s ≡ true → trim_end s ≡ s
unfolding trim_end
trim_end-words [] h = refl
trim_end-words (c ∷ s) h = ground (arith, word-not-space c, trim_end-words s)

trim-words : (s : Text) → all is_word s ≡ true → trim s ≡ s
unfolding trim trim_start
trim-words [] h = refl
trim-words (c ∷ s) h =
    let first : is_space c ≡ false = ground (arith, word-not-space c) in
    rw first (trim_end-words (c ∷ s) h)

split_apart-separators :
    (sep rest : Text)
    → is_empty sep ≡ false
    → all is_separator sep ≡ true
    → starts_apart rest ≡ false
    → split_apart (sep ++ rest) ≡ [] ∷ split_apart rest
unfolding split_apart
split_apart-separators [] rest full seps starts = cc
split_apart-separators (c ∷ []) rest full seps starts = ground (arith, seps, starts)
split_apart-separators (c ∷ d ∷ s) rest full seps starts =
    ground (arith, split_apart-separators (d ∷ s) rest refl)

split_apart-words : (s : Text) → all is_word s ≡ true → split_apart s ≡ s ∷ []
unfolding split_apart
split_apart-words [] h = refl
split_apart-words (c ∷ s) h =
    let first : is_separator c ≡ false = ground (arith, word-not-separator c) in
    rw (first, split_apart-words s (ground arith)) refl

split_apart-append :
    (s rest : Text) (ps : List Text)
    → all is_word s ≡ true
    → split_apart rest ≡ [] ∷ ps
    → split_apart (s ++ rest) ≡ s ∷ ps
unfolding split_apart
split_apart-append [] rest ps h e = e
split_apart-append (c ∷ s) rest ps h e =
    let first : is_separator c ≡ false = ground (arith, word-not-separator c) in
    rw (first, split_apart-append s rest ps (ground arith) e) refl

starts_apart-ident : (t rest : Text) → IsIdent t → starts_apart (t ++ rest) ≡ false
unfolding is_ident starts_apart
starts_apart-ident [] rest h = cc
starts_apart-ident (c ∷ s) rest h = ground (arith, word-not-separator c)

starts_apart-join :
    (sep t : Text) (ts : List Text) → IsIdent t → starts_apart (join sep (t ∷ ts)) ≡ false
unfolding join
starts_apart-join sep t [] h = rw (← append-nil t) (starts_apart-ident t [] h)
starts_apart-join sep t (u ∷ ts) h = starts_apart-ident t (sep ++ join sep (u ∷ ts)) h

split_apart-join :
    (sep t : Text) (ts : List Text)
    → IsApart sep
    → All IsIdent (t ∷ ts)
    → split_apart (join sep (t ∷ ts)) ≡ t ∷ ts
unfolding join
split_apart-join sep t [] apart h = split_apart-words t (ident-words t h.0).1
split_apart-join sep t (u ∷ ts) apart h =
    let rest = join sep (u ∷ ts) in
    let cut = split_apart-separators sep rest apart.0 apart.1 (starts_apart-join sep u ts h.1.0) in
    split_apart-append t (sep ++ rest) (u ∷ ts) (ident-words t h.0).1
      (cut ∙ ap (λ ps. [] ∷ ps) (split_apart-join sep u ts apart h.1))

keep-trim-idents :
    (ts : List Text) → All IsIdent ts → keep (λ s. not (is_empty s)) (map trim ts) ≡ ts
keep-trim-idents [] h = refl
keep-trim-idents (t ∷ ts) h =
    let (full, words) = ident-words t h.0 in
    rw (trim-words t words, full, keep-trim-idents ts h.1) refl

keep-idents : (ts : List Text) → All IsIdent ts → keep (λ t. not (is_ident t)) ts ≡ []
keep-idents [] h = refl
keep-idents (t ∷ ts) h = rw (h.0, keep-idents ts h.1) refl

tables_of-idents :
    (sep : Text) (ts : List Text) → IsApart sep → All IsIdent ts → tables_of (join sep ts) ≡ ts
unfolding tables_of split_apart join
tables_of-idents sep [] apart named = refl
tables_of-idents sep (t ∷ ts) apart named =
    rw (split_apart-join sep t ts apart named) (keep-trim-idents (t ∷ ts) named)

-- Names of tables that are written one after another, with a text of commas and white space between
-- each two, are sent as they are, and the button sends them.
pub tables_of-join :
    (sep : Text) (ts : List Text) (card : AllowlistCard)
    → IsApart sep
    → All IsIdent ts
    → card.tables_raw ≡ join sep ts
    → (tables_of card.tables_raw ≡ ts) × (save_disabled false card ≡ false)
unfolding save_disabled invalid
tables_of-join sep ts card apart named made =
    let read = tables_of-idents sep ts apart named in
    (ap tables_of made ∙ read, rw (made, read, keep-idents ts named) refl)

tables_of-separators : (s : Text) → all is_separator s ≡ true → tables_of s ≡ []
unfolding tables_of split_apart join
tables_of-separators [] h = refl
tables_of-separators (c ∷ s) h =
    let rest : tables_of s ≡ [] = tables_of-separators s (ground arith) in
    let first : is_separator c ≡ true = ground arith in
    elim (Bool-cases (starts_apart s)) [
      | inl more ↦ rw (first, more) rest
      | inr last ↦ rw (first, last) rest
    ]

-- A text without a name, such as the one that the card shows at first, whatever is on the list, is
-- saved by the button as the empty list.
pub save_request-separators :
    (pid : Text) (card : AllowlistCard)
    → all is_separator card.tables_raw ≡ true
    → (save_disabled false card ≡ false)
      × ((save_request pid card).body ≡ some (obj (field (codes "tables") (arr nil) end)))
unfolding save_disabled invalid save_request
save_request-separators pid card blank =
    let empty = tables_of-separators card.tables_raw blank in (rw (empty) refl, rw (empty) refl)
