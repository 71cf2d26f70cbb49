-- ===== src/Functions/Editor/Invariant.antt =====
-- The editor: there is always a file, no two share a path, and the active path is a file's.
use nanas.Prelude.{
  ◌≤◌, ◌==◌, ◌≡◌, ◌≢◌, refl, sym, ◌∙◌, false, not, List, [], ◌∷◌, ◌++◌, map, length, keep, find,
  Option, arith, inl, inr, Bool-cases, Option-cases, is_some, or_else, leb,
}
use nanas.Prelude.Text.{Text, text_eq, text_eq_iff}
use nanas.Prelude.Json.{Json}
use nanas.Http.{truthy}
use nanas.Functions.Editor.{
  SourceFile, DraftPayload, Runtime, node, starters, Editor, hydrate, has_path, index_of_path,
  set_content, update_active_content, add_file, remove_file, swap_runtime, Event, edited, added,
  removed, swapped, selected, env_edited, version_edited, react, react_all,
}
use nanas.Functions.Editor.Paths.{
  HasPath, Distinct, HasPath-first_path, paths-HasPath, paths-Distinct, map-set_content,
  find-HasPath, HasPath-append, Distinct-append, HasPath-keep, Distinct-keep, length-keep-Distinct,
  HasPath-length,
}

-- There is a file, no two share a path, and the active path is a file's.
abbrev pub IsSound : Editor → Type 0
IsSound e = (1 ≤ length e.files) × Distinct e.files × HasPath e.active_path e.files

update-IsSound :
    (content : Text) (e : Editor) → IsSound e → IsSound (update_active_content content e)
unfolding update_active_content
update-IsSound content e (some_file, distinct, active) =
    elim (Option-cases (index_of_path e.active_path e.files)) [
      | inl lost ↦ rw (lost, update_active_content) (some_file, distinct, active)
      | inr (i, found) ↦
          let same = map-set_content i content e.files in
          rw (found, update_active_content)
            (
              HasPath-length e.active_path (set_content i content e.files) (
                  paths-HasPath e.active_path e.files (set_content i content e.files) (sym same)
                    active),
              paths-Distinct e.files (set_content i content e.files) (sym same) distinct,
              paths-HasPath e.active_path e.files (set_content i content e.files) (sym same) active,
            )
    ]

add-IsSound : (name : Option Text) (e : Editor) → IsSound e → IsSound ((add_file name e).0)
unfolding add_file
add-IsSound name e sound =
    let path = or_else name [] in
    let file : SourceFile = record { path = path; content = [] } in
    elim (Bool-cases (truthy name)) [
      | inr empty ↦ rw empty sound
      | inl given ↦ elim (Bool-cases (is_some (find (has_path path) e.files))) [
        | inl taken ↦ rw (given, taken) sound
        | inr new ↦
            let absent : ¬ HasPath path e.files =
              λ there. cc (new, (find-HasPath path e.files).1 there) in
            rw (given, new)
              (
                HasPath-length path (e.files ++ (file ∷ []))
                    ((HasPath-append path e.files file).1 (inr refl)),
                Distinct-append e.files file absent sound.1,
                (HasPath-append path e.files file).1 (inr refl),
              )
      ]
    ]

remove-IsSound : (path : Text) (e : Editor) → IsSound e → IsSound ((remove_file path e).0)
unfolding remove_file
remove-IsSound path e sound =
    let rest = keep (λ (f : SourceFile). not (has_path path f)) e.files in
    elim (Bool-cases (leb (length e.files) 1)) [
      | inl only ↦ rw only sound
      | inr more ↦
          let many : 2 ≤ length e.files = ground (arith, more) in
          let left : 1 ≤ length rest =
            omega (arith, many, length-keep-Distinct path e.files sound.1) in
          rw more (
            left,
            Distinct-keep path e.files sound.1,
            elim (Bool-cases (text_eq e.active_path path)) [
              | inl gone ↦ rw gone (HasPath-first_path rest left)
              | inr stays ↦
                  let apart : e.active_path ≢ path =
                    λ same. cc (stays, (text_eq_iff e.active_path path).1 same) in
                  rw stays ((HasPath-keep e.active_path path e.files).1 (sound.2, apart))
            ],
          )
    ]

react-IsSound : (event : Event) (e : Editor) → IsSound e → IsSound (react event e)
unfolding react swap_runtime
react-IsSound (edited content) e sound = update-IsSound content e sound
react-IsSound (added name) e sound = add-IsSound name e sound
react-IsSound (removed path) e sound = remove-IsSound path e sound
react-IsSound (swapped r) e sound =
    let filled : (length e.files == 0) ≡ false = ground (arith, sound.0) in rw filled sound
react-IsSound (selected path) e sound = elim (Bool-cases (is_some (find (has_path path) e.files))) [
  | inl there ↦ rw there (sound.0, sound.1, (find-HasPath path e.files).0 there)
  | inr missing ↦ rw missing sound
]
react-IsSound (env_edited text) e sound = sound
react-IsSound (version_edited text) e sound = sound

react_all-keeps : (events : List Event) (e : Editor) → IsSound e → IsSound (react_all events e)
unfolding react_all
react_all-keeps [] e sound = sound
react_all-keeps (event ∷ events) e sound =
    react_all-keeps events (react event e) (react-IsSound event e sound)

hydrate-IsSound :
    (print : Json → Text) (d : DraftPayload) (e : Editor)
    → Distinct d.files
    → IsSound (hydrate print d e)
unfolding hydrate starters
hydrate-IsSound print d e distinct = elim (Bool-cases (leb 1 (length d.files))) [
  | inl filled ↦
      let many : 1 ≤ length d.files = ground (arith, filled) in
      rw filled (many, distinct, HasPath-first_path d.files many)
  | inr empty ↦ rw empty (omega arith, (λ h. absurd h, tt), inl refl)
]

-- Whatever is done after a draft without a repeated path has arrived: there is a file, no two files
-- share a path, and the active path is a file's.
pub react_all-IsSound :
    (print : Json → Text) (d : DraftPayload) (e : Editor) (events : List Event)
    → Distinct d.files
    → IsSound (react_all events (hydrate print d e))
react_all-IsSound print d e events distinct =
    react_all-keeps events (hydrate print d e) (hydrate-IsSound print d e distinct)

-- The files of a starter are those of node, whatever runtime the draft has and whatever runtimes
-- are chosen afterwards.
abbrev pub swap_all : List Runtime → Editor → Editor
swap_all rs e = react_all (map swapped rs) e

swap_all-files :
    (rs : List Runtime) (e : Editor) → 1 ≤ length e.files → (swap_all rs e).files ≡ e.files
unfolding react_all react swap_runtime
swap_all-files [] e h = refl
swap_all-files (r ∷ rs) e h =
    let filled : (length e.files == 0) ≡ false = ground (arith, h) in
    rw (filled, react_all, react) (swap_all-files rs (record e { runtime = r }) h)

-- A draft without files starts with the starter of node, and keeps it whatever runtimes are chosen.
pub swap_all-hydrate :
    (print : Json → Text) (d : DraftPayload) (e : Editor) (rs : List Runtime)
    → d.files ≡ []
    → (swap_all rs (hydrate print d e)).files ≡ starters node
unfolding hydrate starters
swap_all-hydrate print d e rs none_yet =
    swap_all-files rs (hydrate print d e) (rw none_yet (omega arith)) ∙ (rw none_yet refl)
