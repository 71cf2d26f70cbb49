-- ===== src/Functions/Versions/Laws.antt =====
-- The artifact that a registration names.
use nanas.Prelude.{
  ◌≡◌, refl, false, List, [], ◌∷◌, some, inl, inr, Bool-cases, All, ◌∙◌, ap, leb, ltb, ◌&&◌,
}
use nanas.Prelude.Text.{codes, text_eq, is_empty}
use nanas.Prelude.Json.{str, property}
use nanas.Storage.Upload.{loaded, no_answer}
use nanas.Functions.Versions.{
  Tab, Presigned, Event, enter_version, choose_runtime, enter_checksum, pick_file, press_upload,
  presign_answer, progressed, ended, press_register, register_answer, react, react_all,
  register_vars, presign_settled,
}

-- Anything but the answer to another presign request and a registration that succeeds.
abbrev pub IsBetween : Event → Type 0
IsBetween (presign_answer (inr ps)) = ⊥
IsBetween (register_answer pid fid (inr v)) = ⊥
IsBetween e = Unit

react-artifact_key :
    (e : Event) (tab : Tab) → IsBetween e → (react e tab).artifact_key ≡ tab.artifact_key
unfolding react
react-artifact_key (enter_version t) tab h = refl
react-artifact_key (choose_runtime r) tab h = refl
react-artifact_key (enter_checksum t) tab h = refl
react-artifact_key (pick_file f) tab h = refl
react-artifact_key press_upload tab h = refl
react-artifact_key (presign_answer (inl e)) tab h = refl
react-artifact_key (presign_answer (inr ps)) tab h = absurd h
react-artifact_key (progressed computable done total) tab h = elim (Bool-cases computable) [
  | inl yes' ↦ rw yes' refl
  | inr no' ↦ rw no' refl
]
react-artifact_key (ended (loaded status message)) tab h =
    elim (Bool-cases (leb 200 status && ltb status 300)) [
      | inl good ↦ rw good refl
      | inr bad ↦ rw bad refl
    ]
react-artifact_key (ended no_answer) tab h = refl
react-artifact_key press_register tab h = refl
react-artifact_key (register_answer pid fid (inl e)) tab h = refl
react-artifact_key (register_answer pid fid (inr v)) tab h = absurd h

react_all-artifact_key :
    (es : List Event) (tab : Tab)
    → All IsBetween es
    → (react_all es tab).artifact_key ≡ tab.artifact_key
unfolding react_all
react_all-artifact_key [] tab h = refl
react_all-artifact_key (e ∷ es) tab h =
    react_all-artifact_key es (react e tab) h.1 ∙ react-artifact_key e tab h.0

property-register_vars :
    (tab : Tab)
    → is_empty tab.artifact_key ≡ false
    → property (codes "artifact_key") (register_vars tab) ≡ some (str tab.artifact_key)
unfolding property register_vars text_eq
property-register_vars tab full = elim (Bool-cases (is_empty tab.checksum)) [
  | inl missing ↦ rw (missing, full) refl
  | inr there ↦ rw (there, full) refl
]

-- From the answer to a presign request on, a registration names its artifact until one succeeds or
-- another answer arrives: also where the upload has failed, is going on or never began, and where
-- the version or the file is another one by then.
pub register_vars-react_all :
    (ps : Presigned) (tab : Tab) (es : List Event)
    → is_empty ps.artifact_key ≡ false
    → All IsBetween es
    → property (codes "artifact_key") (register_vars (react_all es (presign_settled (inr ps) tab)))
      ≡ some (str ps.artifact_key)
unfolding presign_settled
register_vars-react_all ps tab es full between =
    let after = react_all es (presign_settled (inr ps) tab) in
    let same : after.artifact_key ≡ ps.artifact_key =
      react_all-artifact_key es (presign_settled (inr ps) tab) between in
    property-register_vars after (ap is_empty same ∙ full) ∙ ap (λ k. some (str k)) same
