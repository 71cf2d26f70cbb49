-- ===== src/Web/Guards/Laws.antt =====
-- Who passes the guards of the routes.
use nanas.Prelude.{
  ℕ, ◌≤◌, ◌≡◌, ◌⊎◌, ◌↔◌, inl, inr, refl, true, false, Option, none, some, arith, if◌then◌else◌,
  and_then, not, leb, sym, ap, Bool-cases, Option-cases,
}
use nanas.Prelude.Text.{Text, codes, text_eq, text_eq_iff, is_empty}
use nanas.Prelude.Json.{Json, str}
use nanas.Web.Session.{
  PlatformRole, user, staff, super_admin, SessionUser, SessionState, truthy_json,
}
use nanas.Web.Guards.{
  role_text, index_of, platform_at_least, navigate, children, require_auth, require_platform_role,
  redirect_if_authed,
}

-- How much a role may do.
abbrev pub rank : PlatformRole → ℕ
rank user = 0
rank staff = 1
rank super_admin = 2

index_of-role_text : (r : PlatformRole) → index_of (str (role_text r)) ≡ some (rank r)
unfolding index_of text_eq
index_of-role_text user = refl
index_of-role_text staff = refl
index_of-role_text super_admin = refl

index_of_sound :
    (v : Json) (n : ℕ)
    → index_of v ≡ some n
    → (r : PlatformRole) × (v ≡ str (role_text r)) × (n ≡ rank r)
unfolding index_of
index_of_sound (str s) n e = elim (Bool-cases (text_eq (codes "user") s)) [
  | inl u ↦ (user, ap str (sym ((text_eq_iff _ _).0 u)), ground arith)
  | inr not_u ↦ elim (Bool-cases (text_eq (codes "staff") s)) [
    | inl t ↦ (staff, ap str (sym ((text_eq_iff _ _).0 t)), ground arith)
    | inr not_t ↦ elim (Bool-cases (text_eq (codes "super_admin") s)) [
      | inl a ↦ (super_admin, ap str (sym ((text_eq_iff _ _).0 a)), ground arith)
      | inr not_a ↦ absurd (ground arith)
    ]
  ]
]
index_of_sound v n e = absurd (cc)

platform_at_least_sound :
    (have : Option Json) (need : PlatformRole)
    → platform_at_least have need ≡ true
    → (r : PlatformRole) × (have ≡ some (str (role_text r))) × (rank need ≤ rank r)
unfolding platform_at_least
platform_at_least_sound none need e = absurd (cc)
platform_at_least_sound (some v) need e = elim (Option-cases (index_of v)) [
  | inl missing ↦ absurd (ground (arith, index_of-role_text need))
  | inr (n, found) ↦
      let (r, same, at) = index_of_sound v n found in
      (r, ap some same, ground (arith, index_of-role_text need))
]

platform_at_least_complete :
    (r need : PlatformRole)
    → rank need ≤ rank r
    → platform_at_least (some (str (role_text r))) need ≡ true
unfolding platform_at_least truthy_json
platform_at_least_complete r need h = rw (index_of-role_text r, index_of-role_text need) (step r h)
  where
    step :
        (q : PlatformRole)
        → rank need ≤ rank q
        → (if not (is_empty (role_text q)) then leb (rank need) (rank q) else false) ≡ true
    step user k = ground arith
    step staff k = ground arith
    step super_admin k = ground arith

-- The platform role of a session's user.
abbrev pub role_of : SessionState → Option Json
role_of s = and_then s.user (λ (u : SessionUser). u.platform_role)

-- A session reaches a page for a role exactly if its user's role is the name of a platform role
-- that may do at least as much. No role, an unknown role or a value of another type reaches none.
pub require_platform_role-eq-children_iff :
    (need : PlatformRole) (s : SessionState)
    → (require_platform_role need s ≡ children) ↔ (
        (have : PlatformRole) × (role_of s ≡ some (str (role_text have))) × (rank need ≤ rank have))
unfolding require_platform_role
require_platform_role-eq-children_iff need s = (
  λ e. platform_at_least_sound (role_of s) need (ground arith),
  λ (have, same, h). rw (same, platform_at_least_complete have need h),
)

-- A visit to "/app" and one to "/login" never send each other back: one of the two pages is shown,
-- and the redirect from the other leads to it. Each guard asks for the token alone.
pub require_auth-redirect_if_authed :
    (s : SessionState) (location : Text)
    → (require_auth s location ≡ children) × (redirect_if_authed s ≡ navigate (codes "/app") none)
      ⊎ (require_auth s location ≡ navigate (codes "/login") (some location))
        × (redirect_if_authed s ≡ children)
unfolding require_auth redirect_if_authed
require_auth-redirect_if_authed s location = ground arith
