-- ===== src/Functions/Editor/Publish/Laws.antt =====
-- What saving and publishing send, and what is shown after them.
use nanas.Prelude.{
  ℕ, suc, ◌≡◌, refl, ap, ◌∙◌, List, [], ◌∷◌, get_elem?, some, arith, ◌⊎◌, inl, inr, Bool-cases,
  if◌then◌else◌,
}
use nanas.Prelude.Text.{Text, codes, text_eq_iff, is_empty}
use nanas.Prelude.Json.{Json, Fields, obj}
use nanas.Web.Problem.{Thrown}
use nanas.Queries.Mutations.{VersionRegisterResult}
use nanas.Functions.Editor.{
  SourceFile, Editor, index_of_path, set_content, has_path, update_active_content,
}
use nanas.Functions.Editor.Paths.{HasPath}
use nanas.Functions.Editor.Publish.{
  parse_env, Source, save_draft, publish, invalid_env, language_for, shown_file,
}

abbrev pub env_source : Editor → Text
env_source e = if is_empty e.env_text then codes "{}" else e.env_text

module _ (parse : Text → Text ⊎ Json) (pid fid : Text) where
  -- A text of the environment that does not parse stops both: nothing is sent, and what is shown is
  -- 'invalid env', not the message of the parser.
  pub save_draft-publish-invalid :
      (e : Editor) (message : Text) (answer : Thrown ⊎ Json) (upload : Thrown ⊎ Source)
      (register : Thrown ⊎ VersionRegisterResult)
      → parse (env_source e) ≡ inl message
      → ((save_draft parse pid fid answer e).requests ≡ [])
        × ((publish parse pid fid upload register e).requests ≡ [])
        × ((save_draft parse pid fid answer e).editor ≡ record e { error = some invalid_env })
        × ((publish parse pid fid upload register e).editor ≡ record e { error = some invalid_env })
  unfolding save_draft publish parse_env
  save_draft-publish-invalid e message answer upload register bad = (
    rw (bad, save_draft, parse_env) refl,
    rw (bad, publish, parse_env) refl,
    rw (bad, save_draft, parse_env, bad) refl,
    rw (bad, publish, parse_env, bad) refl,
  )

  -- What publishing sends and does, but for the error on the page, does not depend on the
  -- environment, as long as its text is an object.
  pub publish-env :
      (e : Editor) (text : Text) (env env' : Fields) (upload : Thrown ⊎ Source)
      (register : Thrown ⊎ VersionRegisterResult)
      → parse (env_source e) ≡ inr (obj env)
      → parse (env_source (record e { env_text = text })) ≡ inr (obj env')
      → ((publish parse pid fid upload register e).requests
          ≡ (publish parse pid fid upload register (record e { env_text = text })).requests)
        × ((publish parse pid fid upload register e).effects
            ≡ (publish parse pid fid upload register (record e { env_text = text })).effects)
  unfolding publish parse_env
  publish-env e text env env' (inl err) register good good' =
      (rw (good, publish, good') refl, rw (good, publish, good') refl)
  publish-env e text env env' (inr src) (inl err) good good' =
      (rw (good, publish, good') refl, rw (good, publish, good') refl)
  publish-env e text env env' (inr src) (inr v) good good' =
      (rw (good, publish, good') refl, rw (good, publish, good') refl)

-- The file that an edit is for, and where it stands before and after.
content-set_content :
    (p content : Text) (fs : List SourceFile)
    → HasPath p fs
    → (i : ℕ) × (f : SourceFile) × (index_of_path p fs ≡ some i)
      × (get_elem? fs i ≡ some f)
      × (f.path ≡ p)
      × (index_of_path p (set_content i content fs) ≡ some i)
      × (get_elem? (set_content i content fs) i ≡ some (record f { content = content }))
unfolding index_of_path set_content
content-set_content p content [] h = absurd h
content-set_content p content (f ∷ fs) h = elim (Bool-cases (has_path p f)) [
  | inl here ↦ (0, f, rw here refl, refl, (text_eq_iff f.path p).0 here, rw here refl, refl)
  | inr other ↦
      let below : HasPath p fs = ground (arith, h, other, text_eq_iff f.path p) in
      let (i, g, at, found, same, at', found') = content-set_content p content fs below in
      (suc i, g, rw (other, at) refl, found, same, rw (other, at') refl, found')
]

-- After an edit the editor shows the active file still, with the text that was typed.
pub shown_file-update_active_content :
    (content : Text) (e : Editor)
    → HasPath e.active_path e.files
    → shown_file (update_active_content content e)
      ≡ (e.active_path, content, language_for e.active_path)
unfolding shown_file update_active_content
shown_file-update_active_content content e active =
    let (i, f, at, found, same, at', found') =
      content-set_content e.active_path content e.files active in
    let after : Editor = record e { files = set_content i content e.files } in
    let moved : update_active_content content e ≡ after = rw (at, update_active_content) refl in
    let seen : shown_file after ≡ (f.path, content, language_for f.path) =
      rw (shown_file, at', found') refl in
    ap shown_file moved ∙ seen ∙ ap (λ p. (p, content, language_for p)) same
