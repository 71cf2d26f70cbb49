-- ===== src/Sdk/Problem.antt =====
-- packages/sdk/src/problem.ts: the error body that the API returns, and the choice of its message.
pub mod Laws
use nanas.Prelude.{
  ℕ, Bool, true, false, List, [], ◌∷◌, map, Option, none, some, if◌then◌else◌, is_some, or_else,
  or_option, and_then, find,
}
use nanas.Prelude.Text.{Text, codes, is_empty, text_eq}
use nanas.Prelude.Json.{Json, property, as_text, obj, str}
use nanas.Http.{truthy}

pub data PreferredLocale : Type 0 where
  en id : PreferredLocale

pub record ProblemMessage : Type 0 where
  pub id_text : Option Text
  pub en_text : Option Text

pub record ProblemFieldError : Type 0 where
  pub field : Option Text
  pub message : Option ProblemMessage

pub record ProblemBody : Type 0 where
  pub type : Option Text
  pub code : Text
  pub message : Option ProblemMessage
  pub message_preferred : Option Text
  pub instance_uri : Option Text
  pub errors : Option (List ProblemFieldError)

unfoldable pub pick_localized_message : Option ProblemMessage → PreferredLocale → Option Text
pick_localized_message none preferred = none
pick_localized_message (some m) id = or_option m.id_text m.en_text
pick_localized_message (some m) en = or_option m.en_text m.id_text

unfoldable pub pick_problem_message : ProblemBody → PreferredLocale → Text
unfolding pick_localized_message
pick_problem_message body preferred =
    let from_obj = pick_localized_message body.message preferred in
    if truthy body.message_preferred
    then or_else body.message_preferred body.code
    else if truthy from_obj
    then or_else from_obj body.code
    else body.code

pub record ProblemError : Type 0 where
  pub text : Text
  pub status : ℕ
  pub body : ProblemBody
  pub field_errors : List ProblemFieldError
  pub preferred_locale : PreferredLocale

-- The constructor of `ProblemError`.
unfoldable pub problem_error : ℕ → ProblemBody → PreferredLocale → ProblemError
problem_error status body preferred = record {
  text = pick_problem_message body preferred;
  status = status;
  body = body;
  field_errors = or_else body.errors [];
  preferred_locale = preferred;
}

-- `f.field === field`
abbrev pub names_field : Text → ProblemFieldError → Bool
names_field name f = elim f.field [ none ↦ false | some n ↦ text_eq n name ]

unfoldable pub field_message : ProblemError → Text → Option Text
field_message err name =
    pick_localized_message
      (and_then (find (names_field name) err.field_errors) (λ (f : ProblemFieldError). f.message))
      err.preferred_locale

unfoldable pub is_problem : Json → Bool
unfolding property
is_problem value = elim (property (codes "code") value) [
  | none ↦ false
  | some c ↦ is_some (as_text c)
]

-- What `problemMessage` is given: an error of this library, another error, or any value, with the
-- text that `String` makes of it.
pub data Thrown : Type 0 where
  problem : ProblemError → Thrown
  error : Text → Thrown
  value : Text → Thrown

unfoldable pub problem_message : Thrown → Text
problem_message (problem e) = e.text
problem_message (error m) = m
problem_message (value s) = s
