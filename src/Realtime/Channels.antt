-- ===== src/Realtime/Channels.antt =====
-- web/src/hooks/useRealtime.ts: the hook that subscribes to channels.
pub mod Laws
use nanas.Prelude.{
  ℕ, ◌==◌, Bool, true, false, not, ◌||◌, List, [], ◌∷◌, ◌++◌, Option, none, some, if◌then◌else◌,
  or_else, take,
}
use nanas.Prelude.Text.{Text, codes, is_empty}
use nanas.Prelude.Json.{Json, obj, str, property}
use nanas.Http.{truthy}
use nanas.Realtime.Wire.{
  Wire, Env, endpoint, new_socket, schedule, cleanup, reconnect, drop_socket, drop_timer,
}

pub data Status : Type 0 where
  idle connecting opened closed reconnecting : Status

pub record RealtimeEvent : Type 0 where
  pub channel : Text
  pub payload : Json
  pub received_at : ℕ

abbrev pub max_buffer : ℕ
max_buffer = 200

-- What an effect closes over. `enabled` is true where it is not given.
pub record Props : Type 0 where
  pub project_id : Option Text
  pub channels : List Text
  pub enabled : Option Bool

-- `sent` are the subscriptions sent, with their sockets; `delivered` what `onEvent` was called on.
pub record Hook : Type 0 where
  pub status : Status
  pub events : List RealtimeEvent
  pub wire : Wire Props
  pub sent : List (ℕ × List Text)
  pub delivered : List RealtimeEvent

abbrev pub new_wire : Wire Props
new_wire = record {
  ws_ref = none;
  closed_by_us = false;
  attempts = 0;
  reconnect_timer = none;
  next = 1;
  sockets = [];
  closing = [];
  timers = [];
}

abbrev pub new_hook : Hook
new_hook = record { status = idle; events = []; wire = new_wire; sent = []; delivered = [] }

unfoldable pub schedule_reconnect : Props → Hook → Hook
schedule_reconnect p h = record h { status = reconnecting; wire = schedule p h.wire }

-- `encode` is `encodeURIComponent`, `parse` is `JSON.parse`.
module _ (encode : Text → Text) where
  unfoldable pub connect : Env → Props → Hook → Hook
  connect env p h =
      let token = or_else env.token [] in
      let url = endpoint encode env (or_else p.project_id []) token in
      let next_status = if h.wire.attempts == 0 then connecting else reconnecting in
      let begun = record h { status = next_status } in
      if is_empty token
      then record h { status = closed }
      else if env.accepts url
      then record begun { wire = new_socket p h.wire }
      else schedule_reconnect p begun

  -- The body of the effect.
  unfoldable pub run_effect : Env → Props → Hook → Hook
  run_effect env p h =
      let fresh = record h { wire = record h.wire { closed_by_us = false } } in
      if not (or_else p.enabled true) || not (truthy p.project_id)
      then record fresh { status = idle }
      else connect env p fresh

  -- The timer of a number fires.
  unfoldable pub on_timer : Env → ℕ → Props → Hook → Hook
  on_timer env i p h = connect env p (record h { wire = drop_timer i h.wire })

-- `ws.onopen`; `sends` is whether `ws.send` does not throw.
unfoldable pub on_open : (sends : Bool) → ℕ → Props → Hook → Hook
on_open sends i p h = record h {
  status = opened;
  wire = record h.wire { attempts = 0 };
  sent = if sends then (i, p.channels) ∷ h.sent else h.sent;
}

-- The event of a message that parses. A primitive value has no property, so it is its own payload.
unfoldable pub event_of : (now : ℕ) → Json → RealtimeEvent
event_of now data_value = record {
  channel = elim (property (codes "channel") data_value) [
    | none ↦ codes "event"
    | some c ↦ elim c [ str s ↦ s | _ ↦ codes "event" ]
  ];
  payload = or_else (property (codes "payload") data_value) data_value;
  received_at = now;
}

-- `ws.onmessage`, on a frame of text; a frame that does not parse is ignored.
unfoldable pub on_message : (parse : Text → Option Json) → (now : ℕ) → Text → Hook → Hook
on_message parse now frame h = elim (parse frame) [
  | none ↦ h
  | some data_value ↦
      let next = event_of now data_value in
      record h { events = take max_buffer (next ∷ h.events); delivered = next ∷ h.delivered }
]

-- `ws.onclose`
unfoldable pub on_close : ℕ → Props → Hook → Hook
on_close i p h =
    let gone = record h { wire = record (drop_socket i h.wire) { ws_ref = none } } in
    if h.wire.closed_by_us then record gone { status = closed } else schedule_reconnect p gone

unfoldable pub clean_up : Hook → Hook
clean_up h = record h { wire = cleanup h.wire }

unfoldable pub clear_events : Hook → Hook
clear_events h = record h { events = [] }

unfoldable pub ask_reconnect : Hook → Hook
ask_reconnect h = record h { wire = reconnect h.wire }
