-- ===== src/Web/Problem/Laws.antt =====
-- The console's choice of a message, against that of the client library.
use nanas.Prelude.{
  ℕ, ◌≡◌, ◌≢◌, refl, Bool, true, false, ◌⊎◌, List, [], ◌∷◌, Option, none, some, arith,
  if◌then◌else◌, All, find, and_then,
}
use nanas.Prelude.Text.{Text}
use nanas.Sdk.Problem as Sdk
use nanas.Web.Problem.{
  ProblemMessage, ProblemBody, ProblemError, is_indonesian, in_language, problem_error, names_field,
  field_message,
}

abbrev pub sdk_message : ProblemMessage → Sdk.ProblemMessage
sdk_message m = record { id_text = m.id; en_text = m.en }

-- The message of a body, as the client library reads it. The parts that no message depends on are
-- left out.
abbrev pub sdk_body : ProblemBody → Sdk.ProblemBody
sdk_body body = record {
  type = body.type;
  code = body.code;
  message = and_then body.message (λ (m : ProblemMessage). some (sdk_message m));
  message_preferred = body.message_preferred;
  instance_uri = body.instance_uri;
  errors = none;
}

abbrev pub sdk_locale : Text → Sdk.PreferredLocale
sdk_locale language =
    if is_indonesian language then Sdk.PreferredLocale.id else Sdk.PreferredLocale.en

-- No text of the body is empty, and a message that is shown in English has an English text.
abbrev pub IsComplete : Text → Option ProblemMessage → Type 0
IsComplete language none = Unit
IsComplete language (some m) =
    (m.id ≢ some []) × (m.en ≢ some []) × ((is_indonesian language ≡ true) ⊎ (m.en ≢ none))

-- The console and the client library show the same message for a body none of whose texts is
-- empty, if the console's language is Indonesian or a message that is given has an English text.
pub problem_error-pick_problem_message :
    (language : Text) (status : ℕ) (body : ProblemBody)
    → body.message_preferred ≢ some []
    → IsComplete language body.message
    → (problem_error language status body).text
      ≡ Sdk.pick_problem_message (sdk_body body) (sdk_locale language)
unfolding problem_error Sdk.pick_problem_message in_language
problem_error-pick_problem_message language status body preferred complete = ground arith

-- A body whose only text is Indonesian shows its bare code in another language, though the client
-- library shows the Indonesian text.
pub problem_error_id_only :
    (language : Text) (status : ℕ) (body : ProblemBody) (c : ℕ) (t : Text)
    → is_indonesian language ≡ false
    → body.message_preferred ≡ none
    → body.message ≡ some (record { id = some (c ∷ t); en = none })
    → ((problem_error language status body).text ≡ body.code)
      × (Sdk.pick_problem_message (sdk_body body) (sdk_locale language) ≡ c ∷ t)
unfolding problem_error Sdk.pick_problem_message in_language
problem_error_id_only language status body c t other unset only = ground arith

find-none {ℓ} :
    {A : Type ℓ} (p : A → Bool) (xs : List A) → All (λ x. p x ≡ false) xs → find p xs ≡ none
find-none p [] h = refl
find-none p (x ∷ xs) h = rw h.0 (find-none p xs h.1)

-- There is no message for a field that no field error names, whatever the problem's own message.
pub field_message_absent :
    (language : Text) (err : ProblemError) (name : Text)
    → All (λ f. names_field name f ≡ false) err.field_errors
    → field_message language err name ≡ none
unfolding field_message
field_message_absent language err name h = rw (find-none (names_field name) err.field_errors h)
