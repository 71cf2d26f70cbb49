-- ===== src/Storage/Objects/Laws.antt =====
-- Which object a removal names, and under which name a download is kept.
use nanas.Prelude.{
  ℕ, ◌==◌, ◌≡◌, ◌≢◌, refl, sym, ap, ◌∙◌, true, false, [], ◌∷◌, ◌++◌, if◌then◌else◌, ◌||◌, arith,
  All, All-append, append_assoc, append-nil, Bool-cases, inl, inr,
}
use nanas.Prelude.Text.{Text, codes, is_word}
use nanas.Storage.Objects.{encode_uri_unit, encode_uri, remove_path, file_name, has_slash}

-- A unit that does not end the path of an address.
abbrev pub IsPathUnit : ℕ → Type 0
IsPathUnit c = (c ≢ b'?') × (c ≢ b'#')

-- The path of an address without a scheme: what stands before the query and the fragment.
abbrev pub path_of : Text → Text
path_of [] = []
path_of (c ∷ s) = if (c == b'?') || (c == b'#') then [] else c ∷ path_of s

path_of-append : (s t : Text) → All IsPathUnit s → path_of (s ++ t) ≡ s ++ path_of t
path_of-append [] t h = refl
path_of-append (c ∷ s) t h = ground (arith, path_of-append s t h.1)

unit-IsPathUnit : (c : ℕ) → IsPathUnit c → All IsPathUnit (encode_uri_unit c)
unfolding encode_uri_unit is_word
unit-IsPathUnit c h = ground arith

encode_uri-IsPathUnit : (s : Text) → All IsPathUnit s → All IsPathUnit (encode_uri s)
unfolding encode_uri
encode_uri-IsPathUnit [] h = tt
encode_uri-IsPathUnit (c ∷ s) h =
    All-append IsPathUnit (encode_uri_unit c) (encode_uri s) (unit-IsPathUnit c h.0)
      (encode_uri-IsPathUnit s h.1)

encode_uri-append : (s t : Text) → encode_uri (s ++ t) ≡ encode_uri s ++ encode_uri t
unfolding encode_uri
encode_uri-append [] t = refl
encode_uri-append (c ∷ s) t =
    ap (λ z. encode_uri_unit c ++ z) (encode_uri-append s t)
    ∙ sym (append_assoc (encode_uri_unit c) (encode_uri s) (encode_uri t))

remove_path-IsPathUnit :
    (pid key : Text)
    → All IsPathUnit pid
    → All IsPathUnit key
    → All IsPathUnit (remove_path pid key)
unfolding remove_path
remove_path-IsPathUnit pid key h k = All-append IsPathUnit (codes "/v1/projects/") _ (omega arith) (
    All-append IsPathUnit pid _ h (
      All-append IsPathUnit (codes "/storage/objects/") _ (omega arith)
        (encode_uri-IsPathUnit key k)))

path_of-IsPathUnit : (s : Text) → All IsPathUnit s → path_of s ≡ s
path_of-IsPathUnit [] h = refl
path_of-IsPathUnit (c ∷ s) h = ground (arith, path_of-IsPathUnit s h.1)

remove_path-append :
    (pid key rest : Text) → remove_path pid (key ++ rest) ≡ remove_path pid key ++ encode_uri rest
unfolding remove_path
remove_path-append pid key rest =
    ap (λ z. codes "/v1/projects/" ++ (pid ++ (codes "/storage/objects/" ++ z)))
      (encode_uri-append key rest)
    ∙ ap (◌++◌ (codes "/v1/projects/"))
        (sym (append_assoc pid (codes "/storage/objects/" ++ encode_uri key) (encode_uri rest)))

mark : (t : Text) → path_of (encode_uri (b'?' ∷ t)) ≡ []
unfolding encode_uri encode_uri_unit is_word
mark t = refl

-- For a project and a key without a question mark and a number sign, the path of the removal is the
-- whole address. A question mark in a key is not escaped: the removal of the key with it, and
-- anything behind it, names the object of the part before it.
pub path_of-remove_path :
    (pid key rest : Text)
    → All IsPathUnit pid
    → All IsPathUnit key
    → (path_of (remove_path pid key) ≡ remove_path pid key)
      × (path_of (remove_path pid (key ++ (b'?' ∷ rest))) ≡ remove_path pid key)
path_of-remove_path pid key rest h k =
    let all_path = remove_path-IsPathUnit pid key h k in
    (
      path_of-IsPathUnit (remove_path pid key) all_path,
      ap path_of (remove_path-append pid key (b'?' ∷ rest))
          ∙ (path_of-append (remove_path pid key) (encode_uri (b'?' ∷ rest)) all_path
              ∙ (ap (◌++◌ (remove_path pid key)) (mark rest) ∙ append-nil (remove_path pid key))),
    )

has_slash-file_name : (s : Text) → has_slash (file_name s) ≡ false
unfolding file_name has_slash
has_slash-file_name [] = refl
has_slash-file_name (c ∷ s) = ground (arith, has_slash-file_name s)

-- A download whose key has a slash is kept under what stands behind the last one.
pub file_name_lem :
    (key : Text)
    → has_slash key ≡ true
    → (has_slash (file_name key) ≡ false)
      × (folder : Text) × (key ≡ folder ++ (b'/' ∷ file_name key))
unfolding file_name has_slash
file_name_lem [] h = absurd (cc)
file_name_lem (c ∷ s) h = elim (Bool-cases (has_slash s)) [
  | inl deeper ↦
      let (plain, folder, e) = file_name_lem s deeper in
      (has_slash-file_name (c ∷ s), c ∷ folder, rw (deeper, file_name) (ap (◌∷◌ c) e))
  | inr last ↦ (has_slash-file_name (c ∷ s), [], ground (arith, last, h))
]
