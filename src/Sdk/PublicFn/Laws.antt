-- ===== src/Sdk/PublicFn/Laws.antt =====
-- The address, the query and the headers of a public call.
use nanas.Prelude.{
  ℕ, zero, suc, ◌≡◌, refl, ap, ◌≢◌, false, not, ◌&&◌, ◌==◌, List, [], ◌∷◌, ◌++◌, Option, none, some,
  if◌then◌else◌, or_else, or_option, arith, replicate, Bool-cases, inl, inr, All, All-append,
}
use nanas.Prelude.Text.{
  Text, codes, is_empty, text_eq, lookup, insert, lookup-insert, to_lower, is_word,
}
use nanas.Http.{
  Headers, get_header, set_header, truthy, authorization, get_header-set_header, same_name,
}
use nanas.Sdk.PublicFn.{
  slash, normalize_base_url, ends_with_slash, encode_unit, encode_uri_component, Url,
  NanasPublicInvokeInit, set_all, invoke_search, invoke_headers, nanas_public_invoke,
}

-- Normalising a base address takes away slashes at its end, and nothing else: the address is the
-- result followed by some number of slashes, and the result does not end with a slash.
pub normalize_base_url_lem :
    (s : Text)
    → (n : ℕ) × (s ≡ normalize_base_url s ++ replicate n slash)
      × (ends_with_slash (normalize_base_url s) ≡ false)
unfolding normalize_base_url ends_with_slash
normalize_base_url_lem [] = (0, refl, refl)
normalize_base_url_lem (c ∷ s) = step (normalize_base_url s) (normalize_base_url_lem s)
  where
    step :
        (rest : Text)
        → (n : ℕ) × (s ≡ rest ++ replicate n slash) × (ends_with_slash rest ≡ false)
        → (n : ℕ) × (c ∷ s
            ≡ (if (c == slash) && is_empty rest then [] else c ∷ rest) ++ replicate n slash)
          × (ends_with_slash (if (c == slash) && is_empty rest then [] else c ∷ rest) ≡ false)
    step [] (n, e, f) = elim (Bool-cases (c == slash)) [
      | inl h ↦ (suc n, ground (arith, e), rw h)
      | inr h ↦ (n, rw h (ap (◌∷◌ c) e), rw h h)
    ]
    step (d ∷ rest) (n, e, f) = (n, ground arith, ground arith)

normalize-replicate : (n : ℕ) → normalize_base_url (replicate n slash) ≡ []
unfolding normalize_base_url
normalize-replicate zero = refl
normalize-replicate (suc n) = rw (normalize-replicate n)

normalize-append_slashes :
    (s : Text) (n : ℕ) → normalize_base_url (s ++ replicate n slash) ≡ normalize_base_url s
unfolding normalize_base_url
normalize-append_slashes [] n = normalize-replicate n
normalize-append_slashes (c ∷ s) n = rw (normalize-append_slashes s n)

-- A call does not depend on how many slashes end the base address.
pub nanas_public_invoke-append_slashes :
    (new_url : Text → Text → Url) (base : Text) (n : ℕ) (init : NanasPublicInvokeInit)
    → nanas_public_invoke new_url (base ++ replicate n slash) init
      ≡ nanas_public_invoke new_url base init
unfolding nanas_public_invoke
nanas_public_invoke-append_slashes new_url base n init = rw (normalize-append_slashes base n)

-- No part of an address begins or ends at such a unit.
abbrev pub NotDelimiter : ℕ → Type 0
NotDelimiter c = (c ≢ slash) × (c ≢ b'?') × (c ≢ b'#')

encode_unit-NotDelimiter : (c : ℕ) → All NotDelimiter (encode_unit c)
unfolding encode_unit is_word
encode_unit-NotDelimiter c = ground arith

-- An encoded slug stays one segment of the path: it holds no "/", "?" or "#", whatever was given.
pub encode_uri_component-NotDelimiter : (s : Text) → All NotDelimiter (encode_uri_component s)
unfolding encode_uri_component
encode_uri_component-NotDelimiter [] = tt
encode_uri_component-NotDelimiter (c ∷ s) =
    All-append NotDelimiter (encode_unit c) (encode_uri_component s) (encode_unit-NotDelimiter c)
      (encode_uri_component-NotDelimiter s)

abbrev pub entrypoint_header : Text
entrypoint_header = codes "X-Entrypoint-Token"

authorization_kept :
    (v : Text) (h : Headers)
    → get_header authorization (set_header entrypoint_header v h) ≡ get_header authorization h
unfolding text_eq to_lower
authorization_kept v h = get_header-set_header entrypoint_header authorization v h

-- Each header of a public call: the bearer token is sent only where the caller gave one and set no
-- `Authorization` of its own, the entrypoint token replaces the caller's, and every other header is
-- the caller's.
pub get_header-invoke_headers :
    (init : NanasPublicInvokeInit) (name : Text)
    → get_header name (invoke_headers init) ≡ (
        if truthy init.bearer_token
          && not (truthy (get_header authorization init.headers))
          && same_name authorization name
        then some (codes "Bearer " ++ or_else init.bearer_token [])
        else if truthy init.entrypoint_token && same_name entrypoint_header name
        then some (or_else init.entrypoint_token [])
        else get_header name init.headers)
unfolding invoke_headers
get_header-invoke_headers init name =
    let entry = or_else init.entrypoint_token [] in
    let bearer = codes "Bearer " ++ or_else init.bearer_token [] in
    ground (
      arith,
      authorization_kept entry init.headers,
      get_header-set_header entrypoint_header name entry init.headers,
      get_header-set_header authorization name bearer init.headers,
      get_header-set_header authorization name bearer
          (set_header entrypoint_header entry init.headers),
    )

-- The last value that the query gives a name.
abbrev pub latest : Text → List (Text × Text) → Option Text
latest k [] = none
latest k ((j, v) ∷ q) = or_option (latest k q) (if text_eq j k then some v else none)

lookup-set_all :
    (k : Text) (q search : List (Text × Text))
    → lookup k (set_all q search) ≡ or_option (latest k q) (lookup k search)
unfolding set_all
lookup-set_all k [] search = refl
lookup-set_all k ((j, v) ∷ q) search =
    ground (arith, lookup-set_all k q (insert j v search), lookup-insert j k v search)

-- Each query parameter of a public call: `token` is the query token where one is given; otherwise
-- the value is the last that the query gives, and where it gives none, that of the address.
pub lookup-invoke_search :
    (k : Text) (init : NanasPublicInvokeInit) (search : List (Text × Text))
    → lookup k (invoke_search init search) ≡ (
        if text_eq (codes "token") k
        then or_option init.query_token (or_option (latest k init.query) (lookup k search))
        else or_option (latest k init.query) (lookup k search))
unfolding invoke_search
lookup-invoke_search k init search = step init.query_token
  where
    step :
        (token : Option Text)
        → lookup k (elim token [
          | none ↦ set_all init.query search
          | some tk ↦ insert (codes "token") tk (set_all init.query search)
        ])
          ≡ (if text_eq (codes "token") k
              then or_option token (or_option (latest k init.query) (lookup k search))
              else or_option (latest k init.query) (lookup k search))
    step none = ground (arith, lookup-set_all k init.query search)
    step (some tk) = ground (
      arith,
      lookup-set_all k init.query search,
      lookup-insert (codes "token") k tk (set_all init.query search),
    )
