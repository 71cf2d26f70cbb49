-- ===== src/Web/Session.antt =====
-- web/src/auth/session.ts: the signed-in session. `persist` writes the three fields of the state
-- to `localStorage` after each change.
pub mod Laws
use nanas.Prelude.{
  ℕ, ◌+◌, ◌-◌, ◌*◌, ◌/◌, Bool, true, false, not, ◌&&◌, ◌||◌, List, [], ◌∷◌, ◌++◌, map, Option, none,
  some, if◌then◌else◌, ◌==◌, or_else, or_option, and_then, length, replicate, all, get_elem?,
}
use nanas.Prelude.Text.{Text, codes, is_empty}
use nanas.Prelude.Json.{Json, null, bool, num, str, property}
use nanas.Http.{truthy}

pub data AuthMode : Type 0 where
  jwt api_key : AuthMode

pub data PlatformRole : Type 0 where
  super_admin staff user : PlatformRole

-- The claims of a token are taken over as they stand, so the fields hold any JSON value.
pub record SessionUser : Type 0 where
  pub id : Json
  pub email : Json
  pub platform_role : Option Json

pub record SessionState : Type 0 where
  pub token : Option Text
  pub mode : AuthMode
  pub user : Option SessionUser

abbrev pub initial : SessionState
initial = record { token = none; mode = jwt; user = none }

-- `token.split('.')`
unfoldable pub split_dot : Text → List Text
split_dot [] = [] ∷ []
split_dot (c ∷ s) =
    let rest = split_dot s in
    if c == b'.' then [] ∷ rest else elim rest [ [] ↦ (c ∷ []) ∷ [] | p ∷ ps ↦ (c ∷ p) ∷ ps ]

-- `.replace(/-/g, '+').replace(/_/g, '/')`
unfoldable pub from_url_alphabet : ℕ → ℕ
from_url_alphabet c =
    let plus = if c == b'-' then b'+' else c in if plus == b'_' then b'/' else plus

-- `s.padEnd(Math.ceil(s.length / 4) * 4, '=')`
unfoldable pub pad : Text → Text
pad s = s ++ replicate ((length s + 3) / 4 * 4 - length s) b'='

-- A number literal that stands for zero: no other digit before the exponent.
unfoldable pub is_zero_literal : Text → Bool
is_zero_literal [] = true
is_zero_literal (c ∷ s) =
    let rest = is_zero_literal s in
    if (c == b'e') || (c == b'E') then true else ((c == b'0') || (c == b'.') || (c == b'-')) && rest

-- A value in a condition.
unfoldable pub truthy_json : Json → Bool
truthy_json null = false
truthy_json (bool b) = b
truthy_json (num s) = not (is_zero_literal s)
truthy_json (str s) = not (is_empty s)
truthy_json _ = true

-- `??` passes over null as well as over a missing value.
unfoldable pub not_null : Option Json → Option Json
not_null none = none
not_null (some null) = none
not_null (some v) = some v

unfoldable pub api_key_user : SessionUser
api_key_user = record {
  id = str (codes "api-key");
  email = str (codes "API key session");
  platform_role = none;
}

-- `atob` and `JSON.parse` are the platform's; `none` where they throw.
module _ (atob : Text → Option Text) (parse : Text → Option Json) where
  unfoldable pub claims : Text → Option Json
  claims token = and_then (get_elem? (split_dot token) 1) (λ (part : Text).
      if is_empty part then none else and_then (atob (pad (map from_url_alphabet part))) parse)

  unfoldable pub decode_jwt : Text → Option SessionUser
  decode_jwt token = and_then (claims token) (λ (payload : Json).
      and_then
        (or_option (not_null (property (codes "sub") payload))
          (not_null (property (codes "user_id") payload)))
        (λ (sub : Json).
          if truthy_json sub
          then some (record {
            id = sub;
            email = or_else (not_null (property (codes "email") payload)) (str (codes ""));
            platform_role = property (codes "platform_role") payload;
          })
          else none))

  -- `setSession`; the mode is 'jwt' where none is given.
  unfoldable pub set_session : Text → Option AuthMode → Option SessionUser → SessionState
  set_session token given_mode given_user =
      let mode = or_else given_mode jwt in
      record {
        token = some token;
        mode = mode;
        user =
            or_option given_user
              (elim mode [ jwt ↦ decode_jwt token | api_key ↦ some api_key_user ]);
      }

unfoldable pub set_user : Option SessionUser → SessionState → SessionState
set_user u s = record s { user = u }

unfoldable pub clear : SessionState → SessionState
clear s = record { token = none; mode = jwt; user = none }

unfoldable pub is_authenticated : SessionState → Bool
is_authenticated s = truthy s.token
