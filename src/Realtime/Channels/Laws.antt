-- ===== src/Realtime/Channels/Laws.antt =====
-- What each handler of `useRealtime` does to the phase of its connection.
pub mod Lifetime
pub mod Change
use nanas.Prelude.{
  ℕ, suc, ◌+◌, ◌≤◌, ◌≡◌, ◌≢◌, refl, ap, ◌∙◌, ◌⊎◌, inl, inr, Bool, true, false, not, ◌||◌, List, [],
  ◌∷◌, Option, none, some, arith, length, length-take-le, take, or_else, Listed, if◌then◌else◌,
  Bool-cases, Option-cases, ◌==◌, ==_refl, keep,
}
use nanas.Prelude.Text.{Text, codes, is_empty}
use nanas.Prelude.Json.{Json}
use nanas.Http.{truthy}
use nanas.Realtime.Wire.{
  Wire, Env, delay, endpoint, new_socket, schedule, cleanup, reconnect, drop_socket, drop_timer,
  clear_timeout, close_current,
}
use nanas.Realtime.Wire.Laws.{
  Phase, down, up, waiting, new_socket-Phase, schedule-Phase, drop_socket-empty, drop_timer-empty,
  reset-Phase, reconnect-Phase, Phase-le-one, cleanup_fields, drop_only, same_number,
}
use nanas.Realtime.Channels.{
  Status, idle, connecting, opened, closed, reconnecting, RealtimeEvent, event_of, max_buffer,
  Props, Hook, schedule_reconnect, connect, run_effect, on_timer, on_open, on_message, on_close,
  clean_up, clear_events, ask_reconnect,
}

-- `connect` leaves the connection as it is, opens a socket, or schedules another attempt.
pub connect_cases :
    (encode : Text → Text) (env : Env) (p : Props) (h : Hook)
    → ((connect encode env p h).wire ≡ h.wire)
      ⊎ ((connect encode env p h).wire ≡ new_socket p h.wire)
      ⊎ ((connect encode env p h).wire ≡ schedule p h.wire)
unfolding connect schedule_reconnect
connect_cases encode env p h = elim (Bool-cases (is_empty (or_else env.token []))) [
  | inl out ↦ inl (ground arith)
  | inr signed_in ↦
      let url = endpoint encode env (or_else p.project_id []) (or_else env.token []) in
      elim (Bool-cases (env.accepts url)) [
        | inl taken ↦ inr (inl (ground arith))
        | inr refused ↦ inr (inr (ground arith))
      ]
]

pub connect_events :
    (encode : Text → Text) (env : Env) (p : Props) (h : Hook)
    → (connect encode env p h).events ≡ h.events
unfolding connect schedule_reconnect
connect_events encode env p h = ground arith

pub connect-Phase :
    (encode : Text → Text) (env : Env) (p : Props) (h : Hook)
    → h.wire.sockets ≡ []
    → h.wire.timers ≡ []
    → h.wire.ws_ref ≡ none
    → Phase (connect encode env p h).wire
connect-Phase encode env p h a b c = elim (connect_cases encode env p h) [
  | inl e ↦ rw e (down a b c)
  | inr (inl e) ↦ rw e (new_socket-Phase p h.wire a b)
  | inr (inr e) ↦ rw e (schedule-Phase p h.wire a b c)
]

-- The connection after a close that is not the hook's own doing.
abbrev pub lost : ℕ → Props → Wire Props → Wire Props
lost i p w = schedule p (record (drop_socket i w) { ws_ref = none })

pub on_close_theirs :
    (i : ℕ) (p : Props) (h : Hook)
    → h.wire.closed_by_us ≡ false
    → (on_close i p h).wire ≡ lost i p h.wire
unfolding on_close schedule_reconnect
on_close_theirs i p h e = ground arith

pub on_close_ours :
    (i : ℕ) (p : Props) (h : Hook)
    → h.wire.closed_by_us ≡ true
    → ((on_close i p h).wire ≡ record (drop_socket i h.wire) { ws_ref = none })
      × ((on_close i p h).status ≡ closed)
unfolding on_close
on_close_ours i p h e = ground arith

pub on_close_cases :
    (i : ℕ) (p : Props) (h : Hook)
    → ((on_close i p h).wire ≡ record (drop_socket i h.wire) { ws_ref = none })
      ⊎ ((on_close i p h).wire ≡ schedule p (record (drop_socket i h.wire) { ws_ref = none }))
unfolding on_close schedule_reconnect
on_close_cases i p h = elim (Bool-cases h.wire.closed_by_us) [
  | inl ours ↦ inl (ground arith)
  | inr theirs ↦ inr (ground arith)
]

pub on_close_events : (i : ℕ) (p : Props) (h : Hook) → (on_close i p h).events ≡ h.events
unfolding on_close schedule_reconnect
on_close_events i p h = ground arith

pub on_close-Phase :
    (i : ℕ) (p : Props) (h : Hook)
    → Phase h.wire
    → Listed (i, p) h.wire.sockets
    → Phase (on_close i p h).wire
unfolding drop_socket
on_close-Phase i p h ph l =
    let (none_live, none_due) = drop_socket-empty i p h.wire ph l in
    let gone = record (drop_socket i h.wire) { ws_ref = none } in
    elim (on_close_cases i p h) [
      | inl e ↦ rw e (down none_live none_due refl)
      | inr e ↦ rw e (schedule-Phase p gone none_live none_due refl)
    ]

pub on_timer-Phase :
    (encode : Text → Text) (env : Env) (i d : ℕ) (p : Props) (h : Hook)
    → Phase h.wire
    → Listed (i, d, p) h.wire.timers
    → Phase (on_timer encode env i p h).wire
unfolding on_timer drop_timer
on_timer-Phase encode env i d p h ph l =
    let (none_due, none_live, unset) = drop_timer-empty i d p h.wire ph l in
    connect-Phase encode env p (record h { wire = drop_timer i h.wire }) none_live none_due unset

pub on_timer_events :
    (encode : Text → Text) (env : Env) (i : ℕ) (p : Props) (h : Hook)
    → (on_timer encode env i p h).events ≡ h.events
unfolding on_timer
on_timer_events encode env i p h =
    connect_events encode env p (record h { wire = drop_timer i h.wire })

-- Nothing is live, and the buffer is within its bound: a new hook, or one whose effect ended.
pub record IsQuiet (h : Hook) : Type 0 where
  pub no_socket : h.wire.sockets ≡ []
  pub no_timer : h.wire.timers ≡ []
  pub unset : h.wire.ws_ref ≡ none
  pub within : length h.events ≤ max_buffer
