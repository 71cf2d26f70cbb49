-- ===== src/Routes/Sign.antt =====
-- web/src/features/auth: signing in by a password or by an API key (LoginPage.tsx), and registering
-- (RegisterPage.tsx). The test of an e-mail address is that of zod. What the API client gives is
-- its data, or what was thrown; a token that is no text counts as none. The guard around the two
-- pages, which renders a redirect once there is a session, is in Routes/Table, and is no part of
-- what the pages do here.
pub mod Laws
use nanas.Prelude.{
  ℕ, Bool, true, false, not, ◌&&◌, List, [], ◌∷◌, length, leb, Option, none, some, if◌then◌else◌,
  or_else, and_then, ◌⊎◌, inl, inr,
}
use nanas.Prelude.Text.{Text, codes, text_eq, is_empty, trim}
use nanas.Prelude.Json.{Json, property, as_text}
use nanas.Http.{truthy}
use nanas.Web.Session.{AuthMode, jwt, api_key, SessionState, set_session}
use nanas.Web.Problem.{Thrown, error}
use nanas.Routes.Matching.{pathname}

-- `schema` of the two pages.
unfoldable pub login_valid : (is_email : Text → Bool) → (email password : Text) → Bool
login_valid is_email email password = is_email email && leb 1 (length password)

unfoldable pub register_valid : (is_email : Text → Bool) → (email password : Text) → Bool
register_valid is_email email password = is_email email && leb 8 (length password)

-- The cells of a page.
pub record Form : Type 0 where
  pub error_of : Option Thrown
  pub submitting : Bool
  pub mode : AuthMode
  pub api_key : Text

unfoldable pub fresh : Form
fresh = record { error_of = none; submitting = false; mode = jwt; api_key = [] }

unfoldable pub submitted : Form → Form
submitted f = record f { error_of = none; submitting = true }

unfoldable pub switch_mode : Form → Form
switch_mode f = record f { mode = elim f.mode [ jwt ↦ api_key | api_key ↦ jwt ] }

-- The page, the session, and where the page goes to, if it does.
pub record Signed : Type 0 where
  pub form : Form
  pub session : SessionState
  pub went : Option Text

-- `from` is the place to come back to, as a guard remembers it; of its address only the part before
-- the search and the hash is gone to.
unfoldable pub destination : (from : Option Text) → Text
unfolding pathname
destination from =
    let path = and_then from (λ (place : Text). some (pathname place)) in
    if truthy path && not (text_eq (or_else path []) (codes "/login"))
    then or_else path []
    else codes "/app"

unfoldable pub token_of : Option Json → Option Text
token_of answer = and_then (and_then answer (property (codes "token"))) as_text

unfoldable pub no_token : Thrown
no_token = error (codes "No token returned")

unfoldable pub refused : Thrown → Form → SessionState → Signed
refused err f s = record {
  form = record f { error_of = some err; submitting = false };
  session = s;
  went = none;
}

module _ (atob : Text → Option Text) (parse : Text → Option Json) where
  -- The rest of `onSubmit` once the answer is there.
  unfoldable pub signed_by :
      (to : Text) → (answer : Thrown ⊎ Option Json) → Form → SessionState → Signed
  unfolding refused token_of no_token
  signed_by to (inl err) f s = refused err f s
  signed_by to (inr answer) f s =
      if truthy (token_of answer)
      then record {
        form = record f { submitting = false };
        session = set_session atob parse (or_else (token_of answer) []) (some jwt) none;
        went = some to;
      }
      else refused no_token f s

  unfoldable pub login :
      (from : Option Text) → (answer : Thrown ⊎ Option Json) → Form → SessionState → Signed
  unfolding signed_by submitted destination
  login from answer f s = signed_by (destination from) answer (submitted f) s

  unfoldable pub register : (answer : Thrown ⊎ Option Json) → Form → SessionState → Signed
  unfolding signed_by submitted
  register answer f s = signed_by (codes "/app") answer (submitted f) s

  unfoldable pub use_api_key : Form → SessionState → Signed
  unfolding trim set_session
  use_api_key f s =
      if is_empty (trim f.api_key) then record { form = f; session = s; went = none } else record {
        form = f;
        session = set_session atob parse (trim f.api_key) (some api_key) none;
        went = some (codes "/app");
      }
