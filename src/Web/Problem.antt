-- ===== src/Web/Problem.antt =====
-- web/src/api/problem.ts: the console's own reading of the API's error body. The language is that
-- of `i18next`, and enters as a text.
pub mod Laws
use nanas.Prelude.{
  ℕ, Bool, true, false, List, [], Option, none, some, if◌then◌else◌, is_some, or_else, or_option,
  and_then, find,
}
use nanas.Prelude.Text.{Text, codes, is_empty, text_eq, starts_with, to_lower}
use nanas.Prelude.Json.{Json, property, as_text}

pub record ProblemMessage : Type 0 where
  pub id : Option Text
  pub en : Option Text

pub record ProblemFieldError : Type 0 where
  pub field : Option Text
  pub message : Option ProblemMessage

pub record ProblemBody : Type 0 where
  pub type : Option Text
  pub code : Text
  pub message : Option ProblemMessage
  pub message_preferred : Option Text
  pub instance_uri : Option Text
  pub errors : Option (List ProblemFieldError)

-- `(i18n.language || 'en').toLowerCase().startsWith('id')`
unfoldable pub is_indonesian : Text → Bool
is_indonesian language =
    starts_with (to_lower (if is_empty language then codes "en" else language)) (codes "id")

-- `message[lang]`
unfoldable pub in_language : Text → ProblemMessage → Option Text
in_language language m = if is_indonesian language then m.id else m.en

pub record ProblemError : Type 0 where
  pub text : Text
  pub status : ℕ
  pub body : ProblemBody
  pub field_errors : List ProblemFieldError

-- The constructor of `ProblemError`.
unfoldable pub problem_error : Text → ℕ → ProblemBody → ProblemError
problem_error language status body =
    let fallback =
      or_else
        (or_option body.message_preferred (
          or_option (and_then body.message (in_language language))
            (and_then body.message (λ (m : ProblemMessage). m.en))))
        body.code in
    record { text = fallback; status = status; body = body; field_errors = or_else body.errors [] }

-- `f.field === field`
abbrev pub names_field : Text → ProblemFieldError → Bool
names_field name f = elim f.field [ none ↦ false | some n ↦ text_eq n name ]

unfoldable pub field_message : Text → ProblemError → Text → Option Text
field_message language err name =
    and_then (find (names_field name) err.field_errors) (λ (f : ProblemFieldError).
      and_then f.message
        (λ (m : ProblemMessage). or_option (in_language language m) (or_option m.en m.id)))

unfoldable pub is_problem : Json → Bool
unfolding property
is_problem value = elim (property (codes "code") value) [
  | none ↦ false
  | some c ↦ is_some (as_text c)
]

-- What `problemMessage` is given: a problem, another error, or any value, with the text that
-- `String` makes of it.
pub data Thrown : Type 0 where
  problem : ProblemError → Thrown
  error : Text → Thrown
  value : Text → Thrown

unfoldable pub problem_message : Thrown → Text
problem_message (problem e) = e.text
problem_message (error m) = m
problem_message (value s) = s
