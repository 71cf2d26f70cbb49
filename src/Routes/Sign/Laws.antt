-- ===== src/Routes/Sign/Laws.antt =====
-- After signing in, or not, and what an API key gives no right to.
use nanas.Prelude.{◌≡◌, refl, false, Option, none, some, inl, inr}
use nanas.Prelude.Text.{Text, codes, is_empty, trim}
use nanas.Prelude.Json.{Json}
use nanas.Http.{truthy}
use nanas.Web.Problem.{Thrown}
use nanas.Web.Session.{PlatformRole, SessionState, set_session, api_key_user}
use nanas.Web.Guards.{navigate, children, require_auth, require_platform_role, platform_at_least}
use nanas.Routes.Sign.{Form, token_of, signed_by, refused, no_token, submitted, login, use_api_key}

-- An answer without a token, and a refusal, leave the session as it was and the page where it is,
-- with the error and open for another try.
pub login-refused :
    (atob : Text → Option Text) (parse : Text → Option Json) (from : Option Text) (s : SessionState)
    (f : Form) (answer : Option Json) (err : Thrown)
    → truthy (token_of answer) ≡ false
    → (login atob parse from (inr answer) f s ≡ refused no_token (submitted f) s)
      × (login atob parse from (inl err) f s ≡ refused err (submitted f) s)
unfolding login signed_by
login-refused atob parse from s f answer err none_there = (rw none_there refl, refl)

-- A session by an API key passes the guard of the console, and no guard of a platform role.
pub use_api_key-guards :
    (atob : Text → Option Text) (parse : Text → Option Json) (s : SessionState) (f : Form)
    (location : Text) (role : PlatformRole)
    → is_empty (trim f.api_key) ≡ false
    → let r = use_api_key atob parse f s in
      (r.went ≡ some (codes "/app"))
      × (require_auth r.session location ≡ children)
      × (require_platform_role role r.session ≡ navigate (codes "/app") none)
unfolding use_api_key require_auth require_platform_role platform_at_least set_session api_key_user
use_api_key-guards atob parse s f location role full =
    rw (full, use_api_key, full) (refl, refl, refl)
