-- ===== src/Web/Guards.antt =====
-- web/src/auth/guards.tsx: what a guarded route renders.
pub mod Laws
use nanas.Prelude.{
  ℕ, Bool, true, false, not, Option, none, some, if◌then◌else◌, leb, and_then, List, [], ◌∷◌, suc,
}
use nanas.Prelude.Text.{Text, codes, text_eq}
use nanas.Prelude.Json.{Json, str}
use nanas.Http.{truthy}
use nanas.Web.Session.{
  PlatformRole, super_admin, staff, user, SessionUser, SessionState, truthy_json,
}

abbrev pub role_text : PlatformRole → Text
role_text user = codes "user"
role_text staff = codes "staff"
role_text super_admin = codes "super_admin"

abbrev pub platform_order : List Text
platform_order = codes "user" ∷ codes "staff" ∷ codes "super_admin" ∷ []

-- `order.indexOf(text)`, from a given position; `none` is -1.
unfoldable pub index_from : ℕ → Text → List Text → Option ℕ
index_from i t [] = none
index_from i t (r ∷ rs) = if text_eq r t then some i else index_from (suc i) t rs

unfoldable pub index_of : Json → Option ℕ
unfolding index_from
index_of (str s) = index_from 0 s platform_order
index_of _ = none

-- -1 is below every position.
abbrev pub index_ge : Option ℕ → Option ℕ → Bool
index_ge have none = true
index_ge none (some n) = false
index_ge (some h) (some n) = leb n h

unfoldable pub platform_at_least : Option Json → PlatformRole → Bool
unfolding truthy_json
platform_at_least none need = false
platform_at_least (some have) need =
    if truthy_json have then index_ge (index_of have) (index_of (str (role_text need))) else false

-- What a guard renders: a redirect, with the place to come back to, or what it guards.
pub data View : Type 0 where
  navigate : (to : Text) (from : Option Text) → View
  children : View

unfoldable pub require_auth : SessionState → (location : Text) → View
require_auth s location =
    if not (truthy s.token) then navigate (codes "/login") (some location) else children

unfoldable pub require_platform_role : PlatformRole → SessionState → View
require_platform_role role s =
    if not (platform_at_least (and_then s.user (λ (u : SessionUser). u.platform_role)) role)
    then navigate (codes "/app") none
    else children

unfoldable pub redirect_if_authed : SessionState → View
redirect_if_authed s = if truthy s.token then navigate (codes "/app") none else children
