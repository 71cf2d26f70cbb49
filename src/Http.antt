-- ===== src/Http.antt =====
-- The parts of the Fetch standard that both clients use: header lists, whose names are compared
-- without case, requests and responses.
use nanas.Prelude.{
  ℕ, ◌≡◌, Bool, false, not, ◌&&◌, List, Option, none, some, leb, ltb, if◌then◌else◌, is_some,
}
use nanas.Prelude.Text.{Text, codes, to_lower, lookup, insert, lookup-insert, is_empty, text_eq}

-- A header list, keyed by the lower-case name.
abbrev pub Headers : Type 0
Headers = List (Text × Text)

-- `headers.get(name)`; `none` is `null`.
unfoldable pub get_header : Text → Headers → Option Text
get_header name h = lookup (to_lower name) h

-- `headers.set(name, value)`
unfoldable pub set_header : Text → Text → Headers → Headers
set_header name value h = insert (to_lower name) value h

-- `headers.has(name)`
unfoldable pub has_header : Text → Headers → Bool
has_header name h = is_some (get_header name h)

pub record Request : Type 0 where
  pub method : Text
  pub url : Text
  pub headers : Headers

pub record Response : Type 0 where
  pub status : ℕ
  pub status_text : Text
  pub text : Text

-- `response.ok`
unfoldable pub is_ok : Response → Bool
is_ok r = leb 200 r.status && ltb r.status 300

-- A text in a condition: missing and empty are both false.
abbrev pub truthy : Option Text → Bool
truthy none = false
truthy (some s) = not (is_empty s)

abbrev pub same_name : Text → Text → Bool
same_name a b = text_eq (to_lower a) (to_lower b)

pub get_header-set_header :
    (name other value : Text) (h : Headers)
    → get_header other (set_header name value h)
      ≡ (if same_name name other then some value else get_header other h)
unfolding get_header set_header
get_header-set_header name other value h = lookup-insert (to_lower name) (to_lower other) value h

abbrev pub authorization : Text
authorization = codes "Authorization"

abbrev pub accept_language : Text
accept_language = codes "Accept-Language"
