-- ===== src/Projects/ApiKeys/Laws.antt =====
-- When a new key is on display.
use nanas.Prelude.{◌≡◌, refl, List, [], ◌∷◌, none, some, inl, inr, All, ◌∙◌}
use nanas.Prelude.Text.{codes}
use nanas.Prelude.Json.{Json, Fields, obj, property}
use nanas.Projects.ApiKeys.{
  Tab, minted, Event, set_name, set_role, dismiss, mint_settled, revoke_settled, quota_settled,
  react, react_all,
}

-- The event brings no key.
abbrev pub BringsNone : Event → Type 0
BringsNone (mint_settled (inr body)) = body ≡ Json.null
BringsNone e = Unit

-- The event neither brings a key nor takes one away.
abbrev pub IsCalm : Event → Type 0
IsCalm dismiss = ⊥
IsCalm e = BringsNone e

react-IsCalm : (e : Event) (tab : Tab) → IsCalm e → (react e tab).plain_key ≡ tab.plain_key
unfolding react minted
react-IsCalm (set_name value) tab calm = refl
react-IsCalm (set_role value) tab calm = refl
react-IsCalm dismiss tab calm = absurd calm
react-IsCalm (mint_settled (inl err)) tab calm = refl
react-IsCalm (mint_settled (inr body)) tab calm = rw (calm, minted) refl
react-IsCalm (revoke_settled answer) tab calm = refl
react-IsCalm (quota_settled answer) tab calm = refl

react_all-IsCalm :
    (es : List Event) (tab : Tab) → All IsCalm es → (react_all es tab).plain_key ≡ tab.plain_key
unfolding react_all
react_all-IsCalm [] tab calm = refl
react_all-IsCalm (e ∷ es) tab calm =
    react_all-IsCalm es (react e tab) calm.1 ∙ react-IsCalm e tab calm.0

react-none :
    (e : Event) (tab : Tab) → BringsNone e → tab.plain_key ≡ none → (react e tab).plain_key ≡ none
unfolding react minted
react-none (set_name value) tab brings h = h
react-none (set_role value) tab brings h = h
react-none dismiss tab brings h = refl
react-none (mint_settled (inl err)) tab brings h = h
react-none (mint_settled (inr body)) tab brings h = rw (brings, minted) h
react-none (revoke_settled answer) tab brings h = h
react-none (quota_settled answer) tab brings h = h

react_all-none :
    (es : List Event) (tab : Tab)
    → All BringsNone es
    → tab.plain_key ≡ none
    → (react_all es tab).plain_key ≡ none
unfolding react_all
react_all-none [] tab brings h = h
react_all-none (e ∷ es) tab brings h =
    react_all-none es (react e tab) brings.1 (react-none e tab brings.0 h)

-- A key that was made is on display, whatever is entered, revoked or limited and whichever request
-- for another fails, until it is dismissed or another is made; once it is dismissed, none is on
-- display until another is made.
pub react_all-plain_key :
    (fs : Fields) (tab : Tab) (calm quiet : List Event)
    → All IsCalm calm
    → All BringsNone quiet
    → ((react_all (mint_settled (inr (obj fs)) ∷ calm) tab).plain_key
        ≡ some
            (record { id = property (codes "id") (obj fs); key = property (codes "key") (obj fs) }))
      × ((react_all (dismiss ∷ quiet) tab).plain_key ≡ none)
unfolding react_all react minted
react_all-plain_key fs tab calm quiet stays brings = (
  react_all-IsCalm calm (react (mint_settled (inr (obj fs))) tab) stays,
  react_all-none quiet (react dismiss tab) brings refl,
)
