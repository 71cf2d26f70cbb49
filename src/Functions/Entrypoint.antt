-- ===== src/Functions/Entrypoint.antt =====
-- web/src/features/functions/EntrypointTab.tsx: the form of a function's public entrypoint, its
-- address and the command that calls it.
use nanas.Prelude.{
  Bool, true, ◌&&◌, [], ◌∷◌, ◌++◌, Option, none, some, if◌then◌else◌, or_else, and_then,
}
use nanas.Prelude.Text.{Text, codes, starts_with}
use nanas.Prelude.Json.{str, bool, obj, field, end}
use nanas.Http.{truthy}
use nanas.Web.Client.{api_origin}
use nanas.Queries.{ApiRequest}
use nanas.Queries.Mutations.{upsert_entrypoint}

pub data AuthMode : Type 0 where
  open_to_all : AuthMode
  signed : AuthMode
  project_key : AuthMode

abbrev pub mode_text : AuthMode → Text
mode_text open_to_all = codes "public"
mode_text signed = codes "signed"
mode_text project_key = codes "project_key"

pub record EntrypointConfig : Type 0 where
  pub auth_mode : AuthMode
  pub enabled : Bool
  pub public_url : Option Text
  pub project_slug : Option Text
  pub function_slug : Option Text
  pub secret_token : Option Text

pub record Form : Type 0 where
  pub auth_mode : AuthMode
  pub enabled : Bool

unfoldable pub fresh : Form
fresh = record { auth_mode = open_to_all; enabled = true }

-- The effect that runs when a configuration arrives.
unfoldable pub arrive : Option EntrypointConfig → Form → Form
arrive none f = f
arrive (some c) f = record { auth_mode = c.auth_mode; enabled = c.enabled }

unfoldable pub set_auth_mode : AuthMode → Form → Form
set_auth_mode m f = record f { auth_mode = m }

unfoldable pub set_enabled : Bool → Form → Form
set_enabled b f = record f { enabled = b }

unfoldable pub on_save : (pid fid : Text) → Form → ApiRequest
unfolding upsert_entrypoint
on_save pid fid f = upsert_entrypoint pid fid (
    obj (
      field (codes "auth_mode") (str (mode_text f.auth_mode))
        (field (codes "enabled") (bool f.enabled) end)))

unfoldable pub full_url :
    (base_url : Text) → (window : Option Text) → Option EntrypointConfig → Option Text
unfolding api_origin
full_url base_url window none = none
full_url base_url window (some c) =
    let origin = api_origin base_url window in
    let url = or_else c.public_url [] in
    if truthy c.public_url
    then some (if starts_with url (codes "http") then url else origin ++ url)
    else if truthy c.project_slug && truthy c.function_slug
    then some (
        origin
        ++ (codes "/fn/" ++ (or_else c.project_slug [] ++ (b'/' ∷ or_else c.function_slug []))))
    else none

-- The header that the chosen mode asks of a caller.
abbrev pub caller_header : AuthMode → Option EntrypointConfig → Text
caller_header open_to_all c = []
caller_header signed c =
    codes "-H 'X-Entrypoint-Token: "
    ++ (or_else (and_then c (λ (x : EntrypointConfig). x.secret_token)) (codes "<TOKEN>")
        ++ codes "' ")
caller_header project_key c = codes "-H 'Authorization: Bearer sk_xxx' "

unfoldable pub curl_snippet :
    (base_url : Text) → (window : Option Text) → Option EntrypointConfig → Form → Option Text
unfolding full_url
curl_snippet base_url window c f = elim (full_url base_url window c) [
  | none ↦ none
  | some url ↦
      if truthy (some url)
      then some (
          codes "curl -X POST '"
          ++ (url
              ++ (codes "' "
                  ++ (caller_header f.auth_mode c
                      ++ codes "-H 'Content-Type: application/json' -d '{}'"))))
      else none
]
