-- ===== src/Functions/Editor/Tests.antt =====
-- The editor on a draft of two files.
use nanas.Prelude.{List, [], ◌∷◌, none, some, inl, inr}
use nanas.Prelude.Text.{Text, codes}
use nanas.Prelude.Json.{Json}
use nanas.Functions.Editor.{
  SourceFile, DraftPayload, go, fresh, hydrate, Event, edited, added, removed, selected, react_all,
}
use nanas.Functions.Editor.Invariant.{IsSound, react_all-IsSound}

abbrev main_file : SourceFile
main_file = record { path = codes "a.js"; content = codes "1" }

abbrev other_file : SourceFile
other_file = record { path = codes "a.jsx"; content = [] }

abbrev draft : DraftPayload
draft = record {
  fn_id = codes "f";
  files = main_file ∷ other_file ∷ [];
  env = none;
  runtime = some go;
}

abbrev print : Json → Text
print v = codes "{}"

abbrev session : List Event
session =
    edited (codes "2")
    ∷ removed (codes "a.js")
    ∷ added (some (codes "c"))
    ∷ selected (codes "a.jsx")
    ∷ []

react_all-IsSound_example : IsSound (react_all session (hydrate print draft fresh))
react_all-IsSound_example = react_all-IsSound print draft fresh session (
  λ there. elim there [ inl same ↦ absurd (cc (same)) | inr no_more ↦ absurd no_more ],
  (λ there. absurd there, tt),
)
