-- ===== src/Functions/Editor/Paths.antt =====
-- The paths of a list of files: which there are, and that they are distinct.
use nanas.Prelude.{
  ℕ, zero, suc, ◌≤◌, ◌≡◌, ◌≢◌, refl, sym, ap, true, not, List, [], ◌∷◌, ◌++◌, map, length, keep,
  find, arith, ◌⊎◌, ◌↔◌, inl, inr, Bool-cases, is_some,
}
use nanas.Prelude.Text.{Text, text_eq_iff}
use nanas.Functions.Editor.{SourceFile, first_path, has_path, set_content}

-- Some file has the path.
abbrev pub HasPath : Text → List SourceFile → Type 0
HasPath p [] = ⊥
HasPath p (f ∷ fs) = (f.path ≡ p) ⊎ HasPath p fs

abbrev pub Distinct : List SourceFile → Type 0
Distinct [] = Unit
Distinct (f ∷ fs) = ¬ HasPath f.path fs × Distinct fs

pub HasPath-first_path : (fs : List SourceFile) → 1 ≤ length fs → HasPath (first_path fs) fs
unfolding first_path
HasPath-first_path [] h = absurd (omega arith)
HasPath-first_path (f ∷ fs) h = inl refl

-- What keeps the paths keeps all of it.
pub paths-HasPath :
    (p : Text) (fs gs : List SourceFile)
    → map (λ (f : SourceFile). f.path) fs ≡ map (λ (f : SourceFile). f.path) gs
    → HasPath p fs
    → HasPath p gs
paths-HasPath p [] gs same h = absurd h
paths-HasPath p (f ∷ fs) [] same h = absurd (cc (same))
paths-HasPath p (f ∷ fs) (g ∷ gs) same (inl here) = inl (cc (same, here))
paths-HasPath p (f ∷ fs) (g ∷ gs) same (inr there) = inr (paths-HasPath p fs gs (cc (same)) there)

pub paths-Distinct :
    (fs gs : List SourceFile)
    → map (λ (f : SourceFile). f.path) fs ≡ map (λ (f : SourceFile). f.path) gs
    → Distinct fs
    → Distinct gs
paths-Distinct fs [] same h = tt
paths-Distinct [] (g ∷ gs) same h = absurd (cc (same))
paths-Distinct (f ∷ fs) (g ∷ gs) same h =
    let rest : map (λ (x : SourceFile). x.path) fs ≡ map (λ (x : SourceFile). x.path) gs =
      cc (same) in
    let first : g.path ≡ f.path = cc (same) in
    (
      λ there. h.0 (rw (← first) (paths-HasPath g.path gs fs (sym rest) there)),
      paths-Distinct fs gs rest h.1,
    )

pub map-set_content :
    (i : ℕ) (content : Text) (fs : List SourceFile)
    → map (λ (f : SourceFile). f.path) (set_content i content fs)
      ≡ map (λ (f : SourceFile). f.path) fs
unfolding set_content
map-set_content i content [] = refl
map-set_content zero content (f ∷ fs) = refl
map-set_content (suc i) content (f ∷ fs) = ap (λ z. f.path ∷ z) (map-set_content i content fs)

pub find-HasPath :
    (p : Text) (fs : List SourceFile) → (is_some (find (has_path p) fs) ≡ true) ↔ HasPath p fs
find-HasPath p [] = (λ h. absurd (cc (h)), λ h. absurd h)
find-HasPath p (f ∷ fs) = ground (arith, find-HasPath p fs, text_eq_iff f.path p)

pub HasPath-append :
    (p : Text) (fs : List SourceFile) (g : SourceFile)
    → HasPath p (fs ++ (g ∷ [])) ↔ (HasPath p fs ⊎ (g.path ≡ p))
HasPath-append p [] g = ground arith
HasPath-append p (f ∷ fs) g = ground (arith, HasPath-append p fs g)

pub Distinct-append :
    (fs : List SourceFile) (g : SourceFile)
    → ¬ HasPath g.path fs
    → Distinct fs
    → Distinct (fs ++ (g ∷ []))
Distinct-append [] g new h = (λ a. absurd a, tt)
Distinct-append (f ∷ fs) g new h = (
  λ there. elim ((HasPath-append f.path fs g).0 there) [
    | inl old ↦ h.0 old
    | inr same ↦ new (inl (sym same))
  ],
  Distinct-append fs g (λ old. new (inr old)) h.1,
)

pub HasPath-keep :
    (p q : Text) (fs : List SourceFile)
    → HasPath p (keep (λ (f : SourceFile). not (has_path q f)) fs) ↔ (HasPath p fs × (p ≢ q))
HasPath-keep p q [] = (λ h. absurd h, λ h. absurd h.0)
HasPath-keep p q (f ∷ fs) = ground (arith, HasPath-keep p q fs, text_eq_iff f.path q)

pub Distinct-keep :
    (q : Text) (fs : List SourceFile)
    → Distinct fs
    → Distinct (keep (λ (f : SourceFile). not (has_path q f)) fs)
Distinct-keep q [] h = tt
Distinct-keep q (f ∷ fs) h = elim (Bool-cases (has_path q f)) [
  | inl gone ↦ rw gone (Distinct-keep q fs h.1)
  | inr stays ↦
      rw stays (λ there. h.0 ((HasPath-keep f.path q fs).0 there).0, Distinct-keep q fs h.1)
]

pub length-keep-absent :
    (q : Text) (fs : List SourceFile)
    → ¬ HasPath q fs
    → length (keep (λ (f : SourceFile). not (has_path q f)) fs) ≡ length fs
length-keep-absent q [] no_path = refl
length-keep-absent q (f ∷ fs) no_path = elim (Bool-cases (has_path q f)) [
  | inl here ↦ absurd (no_path (inl ((text_eq_iff f.path q).0 here)))
  | inr other ↦ rw other (ap suc (length-keep-absent q fs (λ there. no_path (inr there))))
]

pub length-keep-Distinct :
    (q : Text) (fs : List SourceFile)
    → Distinct fs
    → length fs ≤ suc (length (keep (λ (f : SourceFile). not (has_path q f)) fs))
length-keep-Distinct q [] h = omega arith
length-keep-Distinct q (f ∷ fs) h = elim (Bool-cases (has_path q f)) [
  | inl gone ↦
      let same : f.path ≡ q = (text_eq_iff f.path q).0 gone in
      let absent : ¬ HasPath q fs = λ there. h.0 (rw same there) in
      rw gone (omega (arith, length-keep-absent q fs absent))
  | inr stays ↦ rw stays (omega (arith, length-keep-Distinct q fs h.1))
]

pub HasPath-length : (p : Text) (fs : List SourceFile) → HasPath p fs → 1 ≤ length fs
HasPath-length p [] h = absurd h
HasPath-length p (f ∷ fs) h = omega arith
