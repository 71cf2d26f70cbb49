-- ===== src/Sdk/PublicFn.antt =====
-- packages/sdk/src/public-fn.ts: the base address and the call of a public function.
pub mod Laws
use nanas.Prelude.{
  ℕ, ◌+◌, ◌-◌, ◌/◌, ◌%◌, Bool, true, false, not, ◌&&◌, ◌||◌, List, [], ◌∷◌, ◌++◌, map, Option, none,
  some, if◌then◌else◌, ltb, leb, ◌==◌, or_else, or_option,
}
use nanas.Prelude.Text.{Text, codes, is_empty, starts_with, trim, to_upper, is_word, insert}
use nanas.Http.{Headers, get_header, set_header, truthy, authorization}

abbrev pub slash : ℕ
slash = b'/'

-- `baseUrl.replace(/\/+$/, '')`: the run of slashes at the end goes.
unfoldable pub normalize_base_url : Text → Text
normalize_base_url [] = []
normalize_base_url (c ∷ s) =
    let rest = normalize_base_url s in if (c == slash) && is_empty rest then [] else c ∷ rest

-- `s.endsWith('/')`
unfoldable pub ends_with_slash : Text → Bool
ends_with_slash [] = false
ends_with_slash (c ∷ []) = c == slash
ends_with_slash (c ∷ d ∷ s) = ends_with_slash (d ∷ s)

abbrev pub hex_digit : ℕ → ℕ
hex_digit n = if ltb n 10 then n + b'0' else n - 10 + b'A'

-- One code unit under `encodeURIComponent`, for ASCII.
unfoldable pub encode_unit : ℕ → Text
unfolding is_word
encode_unit c =
    if is_word c
      || (c == b'-')
      || (c == b'.')
      || (c == b'!')
      || (c == b'~')
      || (c == b'*')
      || (c == 39)
      || (c == b'(')
      || (c == b')')
    then c ∷ []
    else b'%' ∷ hex_digit (c / 16) ∷ hex_digit (c % 16) ∷ []

unfoldable pub encode_uri_component : Text → Text
encode_uri_component [] = []
encode_uri_component (c ∷ s) = encode_unit c ++ encode_uri_component s

-- The `URL` object, as far as it is used: what stands before the query, and its parameters.
pub record Url : Type 0 where
  pub address : Text
  pub search : List (Text × Text)

pub record NanasPublicInvokeInit : Type 0 where
  pub project_slug : Text
  pub fn_slug : Text
  pub method : Option Text
  pub path_suffix : Option Text
  pub query : List (Text × Text)
  pub query_token : Option Text
  pub headers : Headers
  pub body : Option Text
  pub entrypoint_token : Option Text
  pub bearer_token : Option Text

-- What is handed to `fetch`.
pub record Call : Type 0 where
  pub url : Url
  pub method : Text
  pub headers : Headers
  pub body : Option Text

-- The optional path below the function, with no slash in front.
unfoldable pub suffix_of : Option Text → Text
suffix_of given =
    let s = trim (or_else given []) in
    if starts_with s (codes "/") then elim s [ [] ↦ [] | c ∷ r ↦ r ] else s

unfoldable pub invoke_path : NanasPublicInvokeInit → Text
invoke_path init =
    let path =
      codes "/fn/"
      ++ (encode_uri_component init.project_slug
          ++ (codes "/" ++ encode_uri_component init.fn_slug)) in
    let suffix = suffix_of init.path_suffix in
    if is_empty suffix then path else path ++ (codes "/" ++ suffix)

-- The loop over `init.query`.
unfoldable pub set_all : List (Text × Text) → List (Text × Text) → List (Text × Text)
set_all [] search = search
set_all ((k, v) ∷ q) search = set_all q (insert k v search)

unfoldable pub invoke_search : NanasPublicInvokeInit → List (Text × Text) → List (Text × Text)
unfolding set_all
invoke_search init search =
    let given = set_all init.query search in
    elim init.query_token [ none ↦ given | some tk ↦ insert (codes "token") tk given ]

unfoldable pub invoke_headers : NanasPublicInvokeInit → Headers
invoke_headers init =
    let h =
      if truthy init.entrypoint_token
      then set_header (codes "X-Entrypoint-Token") (or_else init.entrypoint_token []) init.headers
      else init.headers in
    if truthy init.bearer_token && not (truthy (get_header authorization h))
    then set_header authorization (codes "Bearer " ++ or_else init.bearer_token []) h
    else h

-- `new URL(path, base)` is the platform's.
module _ (new_url : Text → Text → Url) where
  unfoldable pub nanas_public_invoke : Text → NanasPublicInvokeInit → Call
  nanas_public_invoke base_raw init =
      let base = normalize_base_url base_raw in
      let url =
        new_url (invoke_path init) (if ends_with_slash base then base else base ++ codes "/") in
      record {
        url = record url { search = invoke_search init url.search };
        method = to_upper (or_else init.method (codes "POST"));
        headers = invoke_headers init;
        body = init.body;
      }
