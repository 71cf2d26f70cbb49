-- ===== src/Routes/Links/Laws.antt =====
-- Where the links of the frame lead.
use nanas.Prelude.{
  ℕ, ◌≡◌, refl, sym, ◌==◌, Bool, true, false, not, ◌&&◌, ◌||◌, List, [], ◌∷◌, ◌++◌, map, all,
  Option, none, some, ap, ◌∙◌, arith, append-nil, ==_iff,
}
use nanas.Prelude.Text.{Text, codes, text_eq, is_empty, to_lower}
use nanas.Web.Session.{SessionState}
use nanas.Routes.Table.{Page}
use nanas.Routes.Matching.{split_slash, pieces, pathname, segments, fits, Matcher, follow}
use nanas.Routes.Outcomes.{Rights, rights_of, fits_refl}
use nanas.Routes.Settling.{settles, settles_at, settles_at_sound, settles_sound}
use nanas.Routes.Laws.{last}
use nanas.Routes.Links.{of_project}

abbrev pub is_inner : ℕ → Bool
is_inner c = not (c == b'/' || (c == b'?' || c == b'#'))

-- A text that is one segment of an address: it is not empty, and has no '/', no '?' and no '#'.
abbrev pub IsSegment : Text → Type 0
IsSegment s = (is_empty s ≡ false) × (all is_inner s ≡ true)

split_slash-append :
    (s rest : Text)
    → all is_inner s ≡ true
    → split_slash (s ++ (b'/' ∷ rest)) ≡ s ∷ split_slash rest
unfolding split_slash
split_slash-append [] rest h = refl
split_slash-append (c ∷ s) rest h =
    let other : (c == b'/') ≡ false = ground arith in
    rw (other, split_slash-append s rest (ground arith)) refl

split_slash-one : (s : Text) → all is_inner s ≡ true → split_slash s ≡ s ∷ []
unfolding split_slash
split_slash-one [] h = refl
split_slash-one (c ∷ s) h =
    let other : (c == b'/') ≡ false = ground arith in
    rw (other, split_slash-one s (ground arith)) refl

-- A continuation of an address: nothing, or one that begins with a slash.
abbrev pub is_rest : Text → Bool
is_rest [] = true
is_rest (c ∷ s) = c == b'/'

pathname-append :
    (s rest : Text) → all is_inner s ≡ true → pathname (s ++ rest) ≡ s ++ pathname rest
unfolding pathname
pathname-append [] rest h = refl
pathname-append (c ∷ s) rest h =
    let kept : (c == b'?' || c == b'#') ≡ false = ground arith in
    rw (kept, pathname-append s rest (ground arith)) refl

is_rest-pathname : (rest : Text) → is_rest rest ≡ true → is_rest (pathname rest) ≡ true
unfolding pathname
is_rest-pathname [] h = refl
is_rest-pathname (c ∷ rest) h = ground arith

pieces-append :
    (s rest : Text) → IsSegment s → is_rest rest ≡ true → pieces (s ++ rest) ≡ s ∷ pieces rest
unfolding pieces split_slash
pieces-append s [] seg h = rw (append-nil s, split_slash-one s seg.1, seg.0) refl
pieces-append s (c ∷ rest) seg h =
    let slash : c ≡ b'/' = (==_iff c b'/').0 h in
    rw (slash, split_slash-append s rest seg.1, seg.0) refl

segments-append :
    (s rest : Text) → IsSegment s → is_rest rest ≡ true → segments (s ++ rest) ≡ s ∷ segments rest
unfolding segments
segments-append s rest seg h =
    ap pieces (pathname-append s rest seg.1)
    ∙ pieces-append s (pathname rest) seg (is_rest-pathname rest h)

segments-of_project :
    (pid rest : Text)
    → IsSegment pid
    → is_rest rest ≡ true
    → segments (of_project pid rest) ≡ codes "app" ∷ codes "projects" ∷ pid ∷ segments rest
unfolding of_project
segments-of_project pid rest seg h =
    let cut : segments (codes "/app/projects/" ++ (pid ++ rest))
        ≡ codes "app" ∷ codes "projects" ∷ segments (pid ++ rest) =
      unfold segments in unfold pieces in unfold pathname in unfold split_slash in refl in
    cut ∙ ap (λ z. codes "app" ∷ codes "projects" ∷ z) (segments-append pid rest seg h)

pub Page-discrete : Discrete Page
Page-discrete = hlevel

unfoldable pub same_page : Page → Page → Bool
unfolding Page-discrete
same_page p q = elim (Page-discrete p q) [ yes e ↦ true | no ne ↦ false ]

eq_of_same_page : (p q : Page) → same_page p q ≡ true → p ≡ q
unfolding same_page
eq_of_same_page p q h =
    elim (Page-discrete p q) as (λ d. elim d [ yes e ↦ true | no ne ↦ false ] ≡ true → p ≡ q) [
      | yes e ↦ λ k. e
      | no ne ↦ λ k. absurd (cc (k))
    ]
      h

abbrev pub same_end : Page → Option Page → Bool
same_end p none = false
same_end p (some q) = same_page p q

pub same_end_sound : (p : Page) (o : Option Page) → same_end p o ≡ true → o ≡ some p
same_end_sound p none h = absurd (cc (h))
same_end_sound p (some q) h = ap some (sym (eq_of_same_page p q h))

abbrev pub ends_on : Page → List Page → Bool
ends_on p ps = same_end p (last ps)

abbrev pub pattern_of : (rest : Text) → List Text
pattern_of rest = codes "app" ∷ codes "projects" ∷ codes ":pid" ∷ segments rest

-- The pages at which the links are meant to end, checked on the table.
abbrev pub lead : Rights → List Text → List Page → Bool
lead r [] [] = true
lead r [] (p ∷ ps) = false
lead r (rest ∷ rests) [] = false
lead r (rest ∷ rests) (p ∷ ps) =
    is_rest rest && settles_at (settles (ends_on p) r 2) (pattern_of rest) && lead r rests ps

-- Following each address ends on the page that stands at its place.
abbrev pub Lead : Matcher → SessionState → List Text → List Page → Type 0
Lead m s [] [] = Unit
Lead m s [] (p ∷ ps) = ⊥
Lead m s (to ∷ tos) [] = ⊥
Lead m s (to ∷ tos) (p ∷ ps) =
    ((shown : List Page) × (follow m s 2 (segments to) ≡ some shown) × (last shown ≡ some p))
    × Lead m s tos ps

fits-pattern_of :
    (pid rest : Text)
    → fits (pattern_of rest) (codes "app" ∷ codes "projects" ∷ pid ∷ segments rest) ≡ true
unfolding fits to_lower text_eq
fits-pattern_of pid rest = fits_refl (segments rest)

module _ (m : Matcher) (s : SessionState) (pid : Text) (seg : IsSegment pid) where
  lead_one :
      (rest : Text) (p : Page)
      → is_rest rest ≡ true
      → settles_at (settles (ends_on p) (rights_of s) 2) (pattern_of rest) ≡ true
      → (shown : List Page) × (follow m s 2 (segments (of_project pid rest)) ≡ some shown)
        × (last shown ≡ some p)
  lead_one rest p goes_on h =
      let to = segments (of_project pid rest) in
      let cut = segments-of_project pid rest seg goes_on in
      let fit : fits (pattern_of rest) to ≡ true =
        ap (fits (pattern_of rest)) cut ∙ fits-pattern_of pid rest in
      let (c, chosen, good) =
        settles_at_sound m (settles (ends_on p) (rights_of s) 2) (pattern_of rest) to h fit in
      let (shown, ended, ends) = settles_sound m (ends_on p) s 2 to c chosen good in
      (shown, ended, same_end_sound p (last shown) ends)

  pub lead_sound :
      (rests : List Text) (ps : List Page)
      → lead (rights_of s) rests ps ≡ true
      → Lead m s (map (of_project pid) rests) ps
  lead_sound [] [] h = tt
  lead_sound [] (p ∷ ps) h = absurd (cc (h))
  lead_sound (rest ∷ rests) [] h = absurd (cc (h))
  lead_sound (rest ∷ rests) (p ∷ ps) h =
      (lead_one rest p (ground arith) (ground arith), lead_sound rests ps (ground arith))
