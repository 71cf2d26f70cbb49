-- ===== src/Realtime/Query/Laws/Lifetime.antt =====
-- One run of the effect of `useQueryRealtime`.
use nanas.Prelude.{
  ℕ, ◌+◌, ◌≤◌, ◌≡◌, refl, ◌⊎◌, inl, inr, false, [], Option, none, some, length, or_else, Listed,
  Bool-cases, arith,
}
use nanas.Prelude.Text.{Text, is_empty}
use nanas.Prelude.Json.{Json}
use nanas.Realtime.Wire.{Env, endpoint, new_socket, schedule, drop_socket, drop_timer}
use nanas.Realtime.Wire.Laws.{
  Phase, down, new_socket-Phase, schedule-Phase, drop_socket-empty, drop_timer-empty, reset-Phase,
  reconnect-Phase, Phase-le-one,
}
use nanas.Realtime.Query.{
  max_buffer, Props, Hook, schedule_reconnect, connect, is_off, run_effect, on_timer, on_open,
  on_message, on_error, on_close, clear_events, ask_reconnect,
}
use nanas.Realtime.Query.Laws.{on_message-IsFrameStep}

-- `connect` leaves the connection as it is, opens a socket, or schedules another attempt.
connect_cases :
    (encode : Text → Text) (env : Env) (p : Props) (h : Hook)
    → ((connect encode env p h).wire ≡ h.wire)
      ⊎ ((connect encode env p h).wire ≡ new_socket p h.wire)
      ⊎ ((connect encode env p h).wire ≡ schedule p h.wire)
unfolding connect schedule_reconnect
connect_cases encode env p h = elim (Bool-cases (is_empty (or_else env.token []))) [
  | inl out ↦ inl (ground arith)
  | inr signed_in ↦
      let url = endpoint encode env (or_else p.project_id []) (or_else env.token []) in
      elim (Bool-cases (env.accepts url)) [
        | inl taken ↦ inr (inl (ground arith))
        | inr refused ↦ inr (inr (ground arith))
      ]
]

connect_events :
    (encode : Text → Text) (env : Env) (p : Props) (h : Hook)
    → (connect encode env p h).events ≡ h.events
unfolding connect schedule_reconnect
connect_events encode env p h = ground arith

connect-Phase :
    (encode : Text → Text) (env : Env) (p : Props) (h : Hook)
    → h.wire.sockets ≡ []
    → h.wire.timers ≡ []
    → h.wire.ws_ref ≡ none
    → Phase (connect encode env p h).wire
connect-Phase encode env p h a b c = elim (connect_cases encode env p h) [
  | inl e ↦ rw e (down a b c)
  | inr (inl e) ↦ rw e (new_socket-Phase p h.wire a b)
  | inr (inr e) ↦ rw e (schedule-Phase p h.wire a b c)
]

on_close_cases :
    (i : ℕ) (p : Props) (h : Hook)
    → ((on_close i p h).wire ≡ record (drop_socket i h.wire) { ws_ref = none })
      ⊎ ((on_close i p h).wire ≡ schedule p (record (drop_socket i h.wire) { ws_ref = none }))
unfolding on_close schedule_reconnect
on_close_cases i p h = elim (Bool-cases h.wire.closed_by_us) [
  | inl ours ↦ inl (ground arith)
  | inr theirs ↦ inr (ground arith)
]

on_close_events : (i : ℕ) (p : Props) (h : Hook) → (on_close i p h).events ≡ h.events
unfolding on_close schedule_reconnect
on_close_events i p h = ground arith

on_close-Phase :
    (i : ℕ) (p : Props) (h : Hook)
    → Phase h.wire
    → Listed (i, p) h.wire.sockets
    → Phase (on_close i p h).wire
unfolding drop_socket
on_close-Phase i p h ph l =
    let (none_live, none_due) = drop_socket-empty i p h.wire ph l in
    let gone = record (drop_socket i h.wire) { ws_ref = none } in
    elim (on_close_cases i p h) [
      | inl e ↦ rw e (down none_live none_due refl)
      | inr e ↦ rw e (schedule-Phase p gone none_live none_due refl)
    ]

on_timer-Phase :
    (encode : Text → Text) (env : Env) (i d : ℕ) (p : Props) (h : Hook)
    → Phase h.wire
    → Listed (i, d, p) h.wire.timers
    → Phase (on_timer encode env i p h).wire
unfolding on_timer drop_timer
on_timer-Phase encode env i d p h ph l =
    let (none_due, none_live, unset) = drop_timer-empty i d p h.wire ph l in
    connect-Phase encode env p (record h { wire = drop_timer i h.wire }) none_live none_due unset

on_timer_events :
    (encode : Text → Text) (env : Env) (i : ℕ) (p : Props) (h : Hook)
    → (on_timer encode env i p h).events ≡ h.events
unfolding on_timer
on_timer_events encode env i p h =
    connect_events encode env p (record h { wire = drop_timer i h.wire })

-- Nothing is live, and the buffer is within its bound: a new hook, or one whose effect ended.
pub record IsQuiet (h : Hook) : Type 0 where
  pub no_socket : h.wire.sockets ≡ []
  pub no_timer : h.wire.timers ≡ []
  pub unset : h.wire.ws_ref ≡ none
  pub within : length h.events ≤ max_buffer

-- What can happen to a hook while one run of its effect, over `p`, is in force: the browser's
-- events on its live sockets and timers, and the two functions of its result.
module _ (encode : Text → Text) (to_text : Json → Text) (parse : Text → Option Json)
    (p : Props) where
  pub data Step : Hook → Hook → Type 0 where
    opens :
        (h : Hook) (thrown : Option Text) (i : ℕ)
        → Listed (i, p) h.wire.sockets
        → Step h (on_open thrown i p h)
    hears : (h : Hook) (now : ℕ) (frame : Text) → Step h (on_message to_text parse now frame h)
    errs : (h : Hook) → Step h (on_error h)
    closes : (h : Hook) (i : ℕ) → Listed (i, p) h.wire.sockets → Step h (on_close i p h)
    fires :
        (h : Hook) (env : Env) (i d : ℕ)
        → Listed (i, d, p) h.wire.timers
        → Step h (on_timer encode env i p h)
    clears : (h : Hook) → Step h (clear_events h)
    asks : (h : Hook) → Step h (ask_reconnect h)

  -- The states that the effect reaches from the one in which it ran.
  pub data Reach (h0 : Hook) : Hook → Type 0 where
    here : Reach h0 h0
    next : {h h' : Hook} → Reach h0 h → Step h h' → Reach h0 h'

  pub record IsSound (h : Hook) : Type 0 where
    pub phase : Phase h.wire
    pub bounded : length h.events ≤ max_buffer

  on_open-IsSound :
      (thrown : Option Text) (i : ℕ) (h : Hook) → IsSound h → IsSound (on_open thrown i p h)
  unfolding on_open
  on_open-IsSound none i h s = record { phase = reset-Phase h.wire s.phase; bounded = s.bounded }
  on_open-IsSound (some e) i h s = record {
    phase = reset-Phase h.wire s.phase;
    bounded = s.bounded;
  }

  Step-IsSound : {h h' : Hook} → Step h h' → IsSound h → IsSound h'
  unfolding on_error clear_events ask_reconnect
  Step-IsSound (opens h thrown i l) s = on_open-IsSound thrown i h s
  Step-IsSound (hears h now frame) s =
      let f = on_message-IsFrameStep to_text now parse frame h in
      record { phase = rw f.wire s.phase; bounded = f.kept s.bounded }
  Step-IsSound (errs h) s = record { phase = s.phase; bounded = s.bounded }
  Step-IsSound (closes h i l) s = record {
    phase = on_close-Phase i p h s.phase l;
    bounded = rw on_close_events s.bounded;
  }
  Step-IsSound (fires h env i d l) s = record {
    phase = on_timer-Phase encode env i d p h s.phase l;
    bounded = rw on_timer_events s.bounded;
  }
  Step-IsSound (clears h) s = record { phase = s.phase; bounded = omega arith }
  Step-IsSound (asks h) s = record { phase = reconnect-Phase h.wire s.phase; bounded = s.bounded }

  run_effect-IsSound : (env : Env) (h : Hook) → IsQuiet h → IsSound (run_effect encode env p h)
  unfolding run_effect
  run_effect-IsSound env h q = elim (Bool-cases (is_off p)) [
    | inl off ↦
        rw (off, run_effect)
          (record { phase = down q.no_socket q.no_timer q.unset; bounded = q.within })
    | inr on ↦
        let fresh = record h { wire = record h.wire { closed_by_us = false } } in
        rw (on, run_effect)
          (record {
            phase = connect-Phase encode env p fresh q.no_socket q.no_timer q.unset;
            bounded = rw connect_events q.within;
          })
  ]

  Reach-IsSound : {h0 h : Hook} → IsSound h0 → Reach h0 h → IsSound h
  Reach-IsSound s here = s
  Reach-IsSound s (next r st) = Step-IsSound st (Reach-IsSound s r)

  -- Where the effect of the query hook runs in a hook that is quiet, with no socket, no pending
  -- attempt and at most 200 events, then whatever happens while that run is in force, in whatever
  -- order: there is at most one socket or pending attempt, `wsRef` names the socket if there is one, a
  -- pending attempt is due after one to fifteen seconds, and at most 200 events are kept.
  pub run_effect-Reach_query :
      (env : Env) (h0 h : Hook)
      → IsQuiet h0
      → Reach (run_effect encode env p h0) h
      → (length h.wire.sockets + length h.wire.timers ≤ 1)
        × Phase h.wire
        × (length h.events ≤ max_buffer)
  run_effect-Reach_query env h0 h q r =
      let s = Reach-IsSound (run_effect-IsSound env h0 q) r in
      (Phase-le-one h.wire s.phase, s.phase, s.bounded)
