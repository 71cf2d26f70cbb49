-- ===== src/Web/Session/Laws.antt =====
-- Tokens taken apart, and what a session holds.
use nanas.Prelude.{
  ℕ, ◌+◌, ◌*◌, ◌-◌, ◌/◌, ◌%◌, ◌<◌, ◌≡◌, ◌≢◌, refl, true, false, not, [], ◌∷◌, ◌++◌, map, Option,
  none, some, arith, if◌then◌else◌, All, and_then, length, length-append, replicate,
  length-replicate, or_option, or_else,
}
use nanas.Prelude.Text.{Text, is_empty}
use nanas.Prelude.Json.{Json}
use nanas.Web.Session.{
  AuthMode, jwt, api_key, SessionUser, split_dot, from_url_alphabet, pad, truthy_json, claims,
  decode_jwt, api_key_user, set_session, clear, is_authenticated,
}

-- The decoder is given whole groups of four characters: the padded text has such a length, and it
-- is the text with fewer than four "=" behind it.
pub pad_lem :
    (s : Text) → (n : ℕ) × (pad s ≡ s ++ replicate n b'=') × (n < 4) × (length (pad s) % 4 ≡ 0)
unfolding pad
pad_lem s =
    let n = (length s + 3) / 4 * 4 - length s in
    (
      n,
      refl,
      omega arith,
      omega (arith, length-append s (replicate n b'='), length-replicate {A = ℕ} n b'='),
    )

abbrev pub NoDot : Text → Type 0
NoDot s = All (λ (c : ℕ). c ≢ b'.') s

split_dot-NoDot : (s rest : Text) → NoDot s → split_dot (s ++ (b'.' ∷ rest)) ≡ s ∷ split_dot rest
unfolding split_dot
split_dot-NoDot [] rest h = refl
split_dot-NoDot (c ∷ s) rest h = ground (arith, split_dot-NoDot s rest h.1)

-- The claims of a token of three parts are those of its middle part, decoded after the change of
-- alphabet and padded; whatever stands in the other two parts. A token with no middle part has no
-- claims.
pub claims_lem :
    (atob : Text → Option Text) (parse : Text → Option Json) (header part signature : Text)
    → NoDot header
    → NoDot part
    → claims atob parse (header ++ (b'.' ∷ (part ++ (b'.' ∷ signature))))
      ≡ (if is_empty part then none else and_then (atob (pad (map from_url_alphabet part))) parse)
unfolding claims
claims_lem atob parse header part signature h k =
    rw (split_dot-NoDot header (part ++ (b'.' ∷ signature)) h, split_dot-NoDot part signature k)

-- A user that a token yields has an id that is not null, false, zero or the empty text, and was
-- read from claims that parse.
pub decode_jwt-truthy :
    (atob : Text → Option Text) (parse : Text → Option Json) (token : Text) (u : SessionUser)
    → decode_jwt atob parse token ≡ some u
    → (truthy_json u.id ≡ true) × (claims atob parse token ≢ none)
unfolding decode_jwt
decode_jwt-truthy atob parse token u e = ground arith

-- Signing in stores the token and the mode, and a user: the one given, or else the one of the
-- token, and a fixed one for an API key. The session then counts as authenticated exactly if the
-- token is not empty; signing out undoes it.
pub set_session_lem :
    (atob : Text → Option Text) (parse : Text → Option Json) (token : Text) (mode : Option AuthMode)
    (given : Option SessionUser)
    → let s = set_session atob parse token mode given in
      (is_authenticated s ≡ not (is_empty token))
      × (is_authenticated (clear s) ≡ false)
      × (s.user
          ≡ or_option given (elim (or_else mode jwt) as (λ m. Option SessionUser) [
            | jwt ↦ decode_jwt atob parse token
            | api_key ↦ some api_key_user
          ]))
unfolding set_session clear is_authenticated
set_session_lem atob parse [] mode given = ground arith
set_session_lem atob parse (c ∷ t) mode given = ground arith
