-- ===== src/Realtime/Stream/Selection.antt =====
-- `ChannelsTab`: the boxes of the channels, on the hook of web/src/hooks/useRealtime.ts.
pub mod Laws
use nanas.Prelude.{
  Bool, true, false, not, ◌||◌, List, [], ◌∷◌, ◌++◌, map, keep, Option, none, some, if◌then◌else◌,
  or_else, length, ◌==◌,
}
use nanas.Prelude.Text.{Text, codes, text_eq, join}
use nanas.Prelude.Names.{contains, unique}
use nanas.Http.{truthy}
use nanas.Realtime.Wire.{Env}
use nanas.Realtime.Channels.{
  Props, Hook, new_hook, run_effect, clean_up, clear_events, ask_reconnect,
}

pub data Channel : Type 0 where
  triggers objects entrypoint cdc : Channel

abbrev pub channel_text : Channel → Text
channel_text triggers = codes "triggers"
channel_text objects = codes "objects"
channel_text entrypoint = codes "entrypoint"
channel_text cdc = codes "cdc"

abbrev pub all_channels : List Channel
all_channels = triggers ∷ objects ∷ entrypoint ∷ cdc ∷ []

pub record ChannelsTab : Type 0 where
  pub selected : List Channel
  pub hook : Hook

abbrev pub fresh : ChannelsTab
fresh = record { selected = all_channels; hook = new_hook }

-- Whether a box is checked.
unfoldable pub checked : (selected : List Channel) → Channel → Bool
unfolding contains
checked selected c = contains (map channel_text selected) (channel_text c)

-- `onCheckedChange`
unfoldable pub select : (v : Bool) → Channel → (prev : List Channel) → List Channel
unfolding unique
select v c prev =
    if v
    then unique channel_text [] (prev ++ (c ∷ []))
    else keep (λ x. not (text_eq (channel_text x) (channel_text c))) prev

unfoldable pub props : (pid : Text) → (selected : List Channel) → Props
props pid selected = record {
  project_id = some pid;
  channels = map channel_text selected;
  enabled = none;
}

-- What the effect of the hook is keyed by, the project aside.
unfoldable pub effect_key : Props → Text
unfolding join
effect_key p = join (codes "|") p.channels

-- The effect leaves a function to end it where it had something to connect.
unfoldable pub end_effect : Props → Hook → Hook
unfolding clean_up
end_effect p h = if not (or_else p.enabled true) || not (truthy p.project_id) then h else clean_up h

-- The hook is called with `q` after it was called with `p`, for the same project.
unfoldable pub call_hook : (encode : Text → Text) → Env → (p q : Props) → Hook → Hook
unfolding effect_key end_effect run_effect
call_hook encode env p q h =
    if text_eq (effect_key p) (effect_key q) then h else run_effect encode env q (end_effect p h)

unfoldable pub on_checked :
    (encode : Text → Text) → Env → (pid : Text) → (v : Bool) → Channel → ChannelsTab → ChannelsTab
unfolding select props call_hook
on_checked encode env pid v c tab =
    let next = select v c tab.selected in
    record {
      selected = next;
      hook = call_hook encode env (props pid tab.selected) (props pid next) tab.hook;
    }

-- The buttons "reconnect" and "clear".
unfoldable pub on_reconnect : ChannelsTab → ChannelsTab
unfolding ask_reconnect
on_reconnect tab = record tab { hook = ask_reconnect tab.hook }

unfoldable pub clear_disabled : ChannelsTab → Bool
clear_disabled tab = length tab.hook.events == 0

unfoldable pub on_clear : ChannelsTab → ChannelsTab
unfolding clear_events clear_disabled
on_clear tab = if clear_disabled tab then tab else record tab { hook = clear_events tab.hook }
