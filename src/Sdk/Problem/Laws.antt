-- ===== src/Sdk/Problem/Laws.antt =====
-- What message a problem shows.
use nanas.Prelude.{◌≡◌, ◌≢◌, ◌⊎◌, [], arith}
use nanas.Sdk.Problem.{PreferredLocale, ProblemBody, pick_problem_message}

-- A problem whose code is not empty always shows a message.
pub pick_problem_message-ne-nil :
    (body : ProblemBody) (preferred : PreferredLocale)
    → (body.code ≡ []) ⊎ (pick_problem_message body preferred ≢ [])
unfolding pick_problem_message
pick_problem_message-ne-nil body preferred = ground arith
