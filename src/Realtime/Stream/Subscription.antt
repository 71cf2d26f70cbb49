-- ===== src/Realtime/Stream/Subscription.antt =====
-- `QueryTab`: the subscription to a query, on the hook of web/src/hooks/useQueryRealtime.ts.
-- `quote` is `JSON.stringify` on a text.
pub mod Steps
pub mod Laws
use nanas.Prelude.{
  ℕ, Bool, true, false, not, ◌&&◌, ◌||◌, List, [], ◌∷◌, ◌++◌, Option, none, some, if◌then◌else◌,
  or_else, take, length, ◌==◌,
}
use nanas.Prelude.Text.{Text, codes, text_eq}
use nanas.Http.{truthy}
use nanas.Realtime.Wire.{Env}
use nanas.Realtime.Query.{
  QueryMode, diff, full, QueryStatus, idle, connecting, opened, closed, reconnecting, failed, Props,
  Hook, new_hook, is_off, run_effect, clean_up, clear_events,
}

abbrev pub mode_text : QueryMode → Text
mode_text diff = codes "diff"
mode_text full = codes "full"

pub record QueryTab : Type 0 where
  pub draft : Text
  pub query : Option Text
  pub mode : QueryMode
  pub hook : Hook

-- The tab before its first effect.
unfoldable pub fresh : QueryTab
fresh = record {
  draft = codes "SELECT * FROM orders WHERE status = 'open'";
  query = none;
  mode = diff;
  hook = new_hook;
}

unfoldable pub props : (pid : Text) → QueryTab → Props
props pid tab = record { project_id = some pid; query = tab.query; mode = tab.mode; enabled = none }

abbrev pub same_query : Option Text → Option Text → Bool
same_query none none = true
same_query none (some q) = false
same_query (some p) none = false
same_query (some p) (some q) = text_eq p q

-- Whether the effect of the hook goes on: its project and `enabled` are the same here.
unfoldable pub same_effect : Props → Props → Bool
unfolding text_eq
same_effect p q = same_query p.query q.query && text_eq (mode_text p.mode) (mode_text q.mode)

-- The effect leaves a function to end it where it was not off.
unfoldable pub end_effect : Props → Hook → Hook
unfolding is_off clean_up
end_effect p h = if is_off p then h else clean_up h

-- The tab is rendered with other props.
unfoldable pub render :
    (encode : Text → Text) → Env → (pid : Text) → (old new : QueryTab) → QueryTab
unfolding props same_effect end_effect run_effect
render encode env pid old new =
    if same_effect (props pid old) (props pid new) then new else record new {
      hook = run_effect encode env (props pid new) (end_effect (props pid old) new.hook);
    }

abbrev is_up : QueryStatus → Bool
is_up connecting = true
is_up opened = true
is_up idle = false
is_up closed = false
is_up reconnecting = false
is_up failed = false

unfoldable pub subscribe_disabled : QueryTab → Bool
subscribe_disabled tab = is_up tab.hook.status

unfoldable pub on_subscribe : (encode : Text → Text) → Env → (pid : Text) → QueryTab → QueryTab
unfolding subscribe_disabled render
on_subscribe encode env pid tab =
    if subscribe_disabled tab
    then tab
    else render encode env pid tab (record tab { query = some tab.draft })

unfoldable pub unsubscribe_disabled : QueryTab → Bool
unsubscribe_disabled tab = not (truthy tab.query)

unfoldable pub on_unsubscribe : (encode : Text → Text) → Env → (pid : Text) → QueryTab → QueryTab
unfolding unsubscribe_disabled render
on_unsubscribe encode env pid tab =
    if unsubscribe_disabled tab
    then tab
    else render encode env pid tab (record tab { query = none })

unfoldable pub set_mode :
    (encode : Text → Text) → Env → (pid : Text) → QueryMode → QueryTab → QueryTab
unfolding render
set_mode encode env pid m tab = render encode env pid tab (record tab { mode = m })

unfoldable pub set_draft : Text → QueryTab → QueryTab
set_draft s tab = record tab { draft = s }

unfoldable pub on_clear : QueryTab → QueryTab
unfolding clear_events
on_clear tab =
    if length tab.hook.events == 0 then tab else record tab { hook = clear_events tab.hook }

-- `sdkSnippet`
unfoldable pub sdk_snippet : (quote : Text → Text) → (pid : Text) → QueryTab → Text
sdk_snippet quote pid tab =
    codes
      "import { NanasClient } from '@nanas/sdk';\n\nconst client = new NanasClient({ projectId: '"
    ++ (pid
        ++ (codes "' });\nconst sub = await client.realtime.subscribe({\n  query: "
            ++ (quote (or_else tab.query tab.draft)
                ++ (codes ",\n  mode: '"
                    ++ (mode_text tab.mode
                        ++ codes "',\n});\nsub.on('event', (e) => console.log(e));\n")))))

-- The badge of the subscription.
unfoldable pub sub_badge : QueryTab → Option Text
sub_badge tab =
    if truthy tab.hook.subscription_id
    then some (codes "sub: " ++ take 8 (or_else tab.hook.subscription_id []))
    else none
