-- ===== src/Realtime/Query.antt =====
-- web/src/hooks/useQueryRealtime.ts: the hook that subscribes to a query.
pub mod Laws
use nanas.Prelude.{
  ℕ, ◌==◌, Bool, true, false, not, ◌||◌, List, [], ◌∷◌, Option, none, some, if◌then◌else◌, or_else,
  take, and_then,
}
use nanas.Prelude.Text.{Text, codes, is_empty, text_eq, trim}
use nanas.Prelude.Json.{Json, null, str, arr, obj, property, as_text, items}
use nanas.Http.{truthy}
use nanas.Web.Session.{not_null}
use nanas.Realtime.Wire.{
  Wire, Env, endpoint, new_socket, schedule, cleanup, reconnect, drop_socket, drop_timer,
}

pub data QueryMode : Type 0 where
  diff full : QueryMode

pub data QueryStatus : Type 0 where
  idle connecting opened closed reconnecting failed : QueryStatus

pub record QueryEvent : Type 0 where
  pub subscription_id : Text
  pub type : Text
  pub rows : List Json
  pub timestamp : Text
  pub received_at : ℕ

abbrev pub max_buffer : ℕ
max_buffer = 200

-- What an effect closes over. `enabled` is true where it is not given.
pub record Props : Type 0 where
  pub project_id : Option Text
  pub query : Option Text
  pub mode : QueryMode
  pub enabled : Option Bool

-- `sent` are the subscriptions sent, with their sockets.
pub record Hook : Type 0 where
  pub status : QueryStatus
  pub events : List QueryEvent
  pub error : Option Text
  pub subscription_id : Option Text
  pub table : Option Json
  pub filter : Option Json
  pub wire : Wire Props
  pub sent : List (ℕ × Option Text × QueryMode)

abbrev pub new_hook : Hook
new_hook = record {
  status = idle;
  events = [];
  error = none;
  subscription_id = none;
  table = none;
  filter = none;
  wire = record {
    ws_ref = none;
    closed_by_us = false;
    attempts = 0;
    reconnect_timer = none;
    next = 1;
    sockets = [];
    closing = [];
    timers = [];
  };
  sent = [];
}

unfoldable pub schedule_reconnect : Props → Hook → Hook
schedule_reconnect p h = record h { status = reconnecting; wire = schedule p h.wire }

-- Without a project, or with a query that is missing or blank, the effect only goes idle.
unfoldable pub is_off : Props → Bool
is_off p =
    not (or_else p.enabled true)
    || not (truthy p.project_id)
    || not (truthy (and_then p.query (λ (q : Text). some (trim q))))

-- `encode` is `encodeURIComponent`.
module _ (encode : Text → Text) where
  unfoldable pub connect : Env → Props → Hook → Hook
  connect env p h =
      let token = or_else env.token [] in
      let url = endpoint encode env (or_else p.project_id []) token in
      let next_status = if h.wire.attempts == 0 then connecting else reconnecting in
      let begun = record h { status = next_status } in
      if is_empty token
      then record h { status = closed }
      else if env.accepts url
      then record begun { wire = new_socket p h.wire }
      else schedule_reconnect p begun

  unfoldable pub run_effect : Env → Props → Hook → Hook
  run_effect env p h =
      let fresh = record h { wire = record h.wire { closed_by_us = false } } in
      if is_off p then record fresh { status = idle } else connect env p fresh

  -- The timer of a number fires.
  unfoldable pub on_timer : Env → ℕ → Props → Hook → Hook
  on_timer env i p h = connect env p (record h { wire = drop_timer i h.wire })

-- `ws.onopen`; `thrown` is the text of what `ws.send` throws, if it does.
unfoldable pub on_open : (thrown : Option Text) → ℕ → Props → Hook → Hook
on_open thrown i p h =
    let up = record h { status = opened; wire = record h.wire { attempts = 0 } } in
    elim thrown [
      | none ↦ record up { sent = (i, p.query, p.mode) ∷ h.sent }
      | some e ↦ record up { error = some e }
    ]

-- `data.op === op`
abbrev pub op_is : Text → Json → Bool
op_is op v = elim (and_then (property (codes "op") v) as_text) [
  | none ↦ false
  | some s ↦ text_eq s op
]

-- `Array.isArray(data.rows) ? data.rows : []`
abbrev pub rows_of : Option Json → List Json
rows_of none = []
rows_of (some v) = elim v [ arr vs ↦ items vs | _ ↦ [] ]

-- `String` is the language's conversion.
module _ (to_text : Json → Text) where
  -- `String(data.k ?? other)`
  abbrev pub shown : Text → Text → Json → Text
  shown k missing v = elim (not_null (property k v)) [ none ↦ missing | some x ↦ to_text x ]

  unfoldable pub event_of : (now : ℕ) → Json → QueryEvent
  event_of now v = record {
    subscription_id = shown (codes "subscription_id") [] v;
    type = shown (codes "type") (codes "event") v;
    rows = rows_of (property (codes "rows") v);
    timestamp = shown (codes "timestamp") [] v;
    received_at = now;
  }

  unfoldable pub on_error_frame : Json → Hook → Hook
  on_error_frame v h = record h {
    error = some (shown (codes "error") (codes "subscription error") v);
    status = failed;
  }

  unfoldable pub on_subscribed : Text → Json → Hook → Hook
  on_subscribed id v h = record h {
    subscription_id = some id;
    table = not_null (property (codes "table") v);
    filter = not_null (property (codes "filter") v);
    error = none;
  }

  unfoldable pub on_event : (now : ℕ) → Json → Hook → Hook
  on_event now v h =
      if op_is (codes "event") v
      then record h { events = take max_buffer (event_of now v ∷ h.events) }
      else h

  -- A frame that parses to a value which is no object has no `op`, and changes nothing.
  unfoldable pub on_value : (now : ℕ) → Json → Hook → Hook
  on_value now v h =
      if op_is (codes "error") v
      then on_error_frame v h
      else if op_is (codes "subscribed") v
      then elim (and_then (property (codes "subscription_id") v) as_text) [
        | none ↦ on_event now v h
        | some id ↦ on_subscribed id v h
      ]
      else on_event now v h

  -- `ws.onmessage`, on a frame of text.
  unfoldable pub on_message : (parse : Text → Option Json) → (now : ℕ) → Text → Hook → Hook
  on_message parse now frame h = elim (parse frame) [ none ↦ h | some v ↦ on_value now v h ]

-- `ws.onerror`
unfoldable pub on_error : Hook → Hook
on_error h = record h { status = failed }

-- `ws.onclose`
unfoldable pub on_close : ℕ → Props → Hook → Hook
on_close i p h =
    let gone = record h { wire = record (drop_socket i h.wire) { ws_ref = none } } in
    if h.wire.closed_by_us then record gone { status = closed } else schedule_reconnect p gone

unfoldable pub clean_up : Hook → Hook
clean_up h = record h { wire = cleanup h.wire }

unfoldable pub clear_events : Hook → Hook
clear_events h = record h { events = [] }

unfoldable pub ask_reconnect : Hook → Hook
ask_reconnect h = record h { wire = reconnect h.wire }
