-- ===== src/Realtime/Channels/Laws/Lifetime.antt =====
-- One run of the effect of `useRealtime`, from its start in a quiet hook to its end. The run that
-- follows a change of the channels starts with the old socket still live, and is in Change.
use nanas.Prelude.{
  ℕ, ◌+◌, ◌≤◌, ◌≡◌, ap, ◌∙◌, inl, inr, Bool, true, false, not, ◌||◌, [], ◌∷◌, Option, none, arith,
  length, length-take-le, or_else, Listed, Bool-cases, Option-cases,
}
use nanas.Prelude.Text.{Text}
use nanas.Prelude.Json.{Json}
use nanas.Http.{truthy}
use nanas.Realtime.Wire.{Wire, Env, drop_socket}
use nanas.Realtime.Wire.Laws.{
  Phase, down, up, waiting, reset-Phase, reconnect-Phase, Phase-le-one, cleanup_fields, drop_only,
  same_number,
}
use nanas.Realtime.Channels.{
  closed, RealtimeEvent, event_of, max_buffer, Props, Hook, run_effect, on_timer, on_open,
  on_message, on_close, clean_up, clear_events, ask_reconnect,
}
use nanas.Realtime.Channels.Laws.{
  connect_events, connect-Phase, on_close_ours, on_close_events, on_close-Phase, on_timer-Phase,
  on_timer_events, IsQuiet,
}

-- What can happen to a hook while one run of its effect, over `p`, is in force: the browser's
-- events on its live sockets and timers, and the two functions of its result.
module _ (encode : Text → Text) (parse : Text → Option Json) (p : Props) where
  pub data Step : Hook → Hook → Type 0 where
    opens :
        (h : Hook) (sends : Bool) (i : ℕ)
        → Listed (i, p) h.wire.sockets
        → Step h (on_open sends i p h)
    hears : (h : Hook) (now : ℕ) (frame : Text) → Step h (on_message parse now frame h)
    closes : (h : Hook) (i : ℕ) → Listed (i, p) h.wire.sockets → Step h (on_close i p h)
    fires :
        (h : Hook) (env : Env) (i d : ℕ)
        → Listed (i, d, p) h.wire.timers
        → Step h (on_timer encode env i p h)
    clears : (h : Hook) → Step h (clear_events h)
    asks : (h : Hook) → Step h (ask_reconnect h)

  -- The states that the effect reaches from the one in which it ran.
  pub data Reach (h0 : Hook) : Hook → Type 0 where
    here : Reach h0 h0
    next : {h h' : Hook} → Reach h0 h → Step h h' → Reach h0 h'

  pub record IsSound (h : Hook) : Type 0 where
    pub phase : Phase h.wire
    pub bounded : length h.events ≤ max_buffer

  hears-IsSound :
      (now : ℕ) (frame : Text) (h : Hook) → IsSound h → IsSound (on_message parse now frame h)
  unfolding on_message
  hears-IsSound now frame h s = elim (Option-cases (parse frame)) [
    | inl unread ↦ rw (unread, on_message) (record { phase = s.phase; bounded = s.bounded })
    | inr (v, read) ↦
        rw (read, on_message)
          (record {
            phase = s.phase;
            bounded = length-take-le {A = RealtimeEvent} 200 (event_of now v ∷ h.events);
          })
  ]

  Step-IsSound : {h h' : Hook} → Step h h' → IsSound h → IsSound h'
  unfolding on_open clear_events ask_reconnect
  Step-IsSound (opens h sends i l) s = record {
    phase = reset-Phase h.wire s.phase;
    bounded = s.bounded;
  }
  Step-IsSound (hears h now frame) s = hears-IsSound now frame h s
  Step-IsSound (closes h i l) s = record {
    phase = on_close-Phase i p h s.phase l;
    bounded = rw on_close_events s.bounded;
  }
  Step-IsSound (fires h env i d l) s = record {
    phase = on_timer-Phase encode env i d p h s.phase l;
    bounded = rw on_timer_events s.bounded;
  }
  Step-IsSound (clears h) s = record { phase = s.phase; bounded = omega arith }
  Step-IsSound (asks h) s = record { phase = reconnect-Phase h.wire s.phase; bounded = s.bounded }

  run_effect-IsSound : (env : Env) (h : Hook) → IsQuiet h → IsSound (run_effect encode env p h)
  unfolding run_effect
  run_effect-IsSound env h q =
      elim (Bool-cases (not (or_else p.enabled true) || not (truthy p.project_id))) [
        | inl off ↦
            rw (off, run_effect)
              (record { phase = down q.no_socket q.no_timer q.unset; bounded = q.within })
        | inr on ↦
            let fresh = record h { wire = record h.wire { closed_by_us = false } } in
            rw (on, run_effect)
              (record {
                phase = connect-Phase encode env p fresh q.no_socket q.no_timer q.unset;
                bounded = rw connect_events q.within;
              })
      ]

  Reach-IsSound : {h0 h : Hook} → IsSound h0 → Reach h0 h → IsSound h
  Reach-IsSound s here = s
  Reach-IsSound s (next r st) = Step-IsSound st (Reach-IsSound s r)

  -- Where the effect runs in a hook that is quiet, with no socket, no pending attempt and at most 200
  -- events, then whatever happens while that run is in force, in whatever order: there is at most
  -- one socket or pending attempt, `wsRef` names the socket if there is one, a pending attempt is
  -- due after one to fifteen seconds, and at most 200 events are kept.
  pub run_effect-Reach :
      (env : Env) (h0 h : Hook)
      → IsQuiet h0
      → Reach (run_effect encode env p h0) h
      → (length h.wire.sockets + length h.wire.timers ≤ 1)
        × Phase h.wire
        × (length h.events ≤ max_buffer)
  run_effect-Reach env h0 h q r =
      let s = Reach-IsSound (run_effect-IsSound env h0 q) r in
      (Phase-le-one h.wire s.phase, s.phase, s.bounded)

  -- Every live socket was asked to close, and leaves nothing behind when it has.
  abbrev pub IsEnding : Hook → Type 0
  IsEnding h =
      (i : ℕ)
      → Listed (i, p) h.wire.sockets
      → Listed i h.wire.closing
        × ((on_close i p h).status ≡ closed)
        × ((on_close i p h).wire.sockets ≡ [])
        × ((on_close i p h).wire.timers ≡ [])

  -- After the effect ended with one socket up, that socket's close leaves nothing.
  ended :
      (h : Hook) (j : ℕ) (q : Props)
      → h.wire.closed_by_us ≡ true
      → h.wire.timers ≡ []
      → h.wire.sockets ≡ (j, q) ∷ []
      → Listed j h.wire.closing
      → IsEnding h
  unfolding drop_socket
  ended h j q ours no_timer one asked i l =
      let (wire, status) = on_close_ours i p h ours in
      (
        same_number i j p q h.wire.closing (rw one at l) asked,
        status,
        ap (λ (v : Wire Props). v.sockets) wire
            ∙ drop_only (λ (s : ℕ × Props). s.0) h.wire.sockets (i, p) (j, q) one l,
        ap (λ (v : Wire Props). v.timers) wire ∙ no_timer,
      )

  -- When the effect ends, no attempt is pending and `close` was called on the socket if there is
  -- one; when that reports its close, nothing is left and nothing is scheduled.
  pub clean_up-Phase :
      (h : Hook)
      → Phase h.wire
      → ((clean_up h).wire.timers ≡ []) × ((clean_up h).wire.ws_ref ≡ none) × IsEnding (clean_up h)
  unfolding clean_up
  clean_up-Phase h (down a b c) =
      let (live, no_timer, unset, _, _, _, _, _) = cleanup_fields h.wire in
      (no_timer b, unset, λ i l. absurd (rw (live ∙ a) at l))
  clean_up-Phase h (up i q a b c) =
      let (live, no_timer, unset, ours, _, _, asked, _) = cleanup_fields h.wire in
      (no_timer b, unset, ended (clean_up h) i q ours (no_timer b) (live ∙ a) (asked i c))
  clean_up-Phase h (waiting i d q a b c e f g) =
      let (live, _, unset, _, _, _, _, fired) = cleanup_fields h.wire in
      (fired i d q b e, unset, λ j l. absurd (rw (live ∙ a) at l))

  -- When the effect ends, no attempt is pending and `wsRef` names no socket. A socket that is still up
  -- was asked to close; when it reports its close, the status is closed, nothing is left and no
  -- attempt is scheduled.
  pub on_close-clean_up :
      (h : Hook) (i : ℕ)
      → Phase h.wire
      → Listed (i, p) (clean_up h).wire.sockets
      → ((clean_up h).wire.timers ≡ [])
        × ((clean_up h).wire.ws_ref ≡ none)
        × Listed i (clean_up h).wire.closing
        × ((on_close i p (clean_up h)).status ≡ closed)
        × ((on_close i p (clean_up h)).wire.sockets ≡ [])
        × ((on_close i p (clean_up h)).wire.timers ≡ [])
  on_close-clean_up h i ph l =
      let (no_timer, unset, end_of) = clean_up-Phase h ph in
      let (asked, status, none_live, none_due) = end_of i l in
      (no_timer, unset, asked, status, none_live, none_due)
