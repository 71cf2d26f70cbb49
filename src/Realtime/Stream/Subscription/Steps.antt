-- ===== src/Realtime/Stream/Subscription/Steps.antt =====
-- How an effect of the hook ends, runs again, and is revived by the close of a socket.
use nanas.Prelude.{
  ℕ, suc, ◌≡◌, ◌↔◌, refl, ap, ◌∙◌, true, false, [], ◌∷◌, Option, none, some, arith, or_else,
  if◌then◌else◌, ◌==◌, Bool-cases, inl, inr,
}
use nanas.Prelude.Text.{Text, is_empty, trim, text_eq_iff}
use nanas.Realtime.Wire.{
  Env, delay, endpoint, new_socket, schedule, cleanup, drop_socket, drop_timer,
}
use nanas.Realtime.Wire.Laws.{cleanup_fields}
use nanas.Realtime.Query.{
  idle, connecting, reconnecting, Props, Hook, is_off, connect, run_effect, on_open, on_close,
  on_timer, clean_up, schedule_reconnect,
}
use nanas.Realtime.Stream.Subscription.{same_query, end_effect}

-- What is left of the connection by an effect that ends before one that is off.
abbrev pub idled : Hook → Hook
idled h = record h { status = idle; wire = record (cleanup h.wire) { closed_by_us = false } }

pub trim-full : (q : Text) → is_empty (trim q) ≡ false → is_empty q ≡ false
unfolding trim
trim-full [] h = h
trim-full (c ∷ q) h = refl

pub end_effect_fields :
    (p : Props) (h : Hook)
    → ((end_effect p h).wire.sockets ≡ h.wire.sockets)
      × ((end_effect p h).wire.next ≡ h.wire.next)
      × ((end_effect p h).sent ≡ h.sent)
unfolding end_effect clean_up
end_effect_fields p h =
    let (sockets, _, _, _, _, next, _, _) = cleanup_fields h.wire in
    elim (Bool-cases (is_off p)) [
      | inl off ↦ rw off (refl, refl, refl)
      | inr on ↦ rw on (sockets, next, refl)
    ]

pub same_query_iff : (p : Option Text) (q : Text) → (same_query p (some q) ≡ true) ↔ (p ≡ some q)
same_query_iff none q = ground arith
same_query_iff (some p) q = ground (arith, text_eq_iff p q)

module _ (encode : Text → Text) (env : Env) where
  connect_taken :
      (p : Props) (h : Hook)
      → is_empty (or_else env.token []) ≡ false
      → env.accepts (endpoint encode env (or_else p.project_id []) (or_else env.token [])) ≡ true
      → connect encode env p h ≡ record h {
        status = if h.wire.attempts == 0 then connecting else reconnecting;
        wire = new_socket p h.wire;
      }
  unfolding connect
  connect_taken p h token accepts = rw (token, accepts) refl

  -- The socket of an effect is lost where the hook has not closed it: a timer is set, and when it
  -- fires and the new socket opens, the same subscription is sent.
  pub resubscribed :
      (i n a : ℕ) (p : Props) (h : Hook)
      → h.wire.next ≡ n
      → h.wire.attempts ≡ a
      → h.wire.closed_by_us ≡ false
      → h.wire.sockets ≡ (i, p) ∷ []
      → h.wire.timers ≡ []
      → is_empty (or_else env.token []) ≡ false
      → ((url : Text) → env.accepts url ≡ true)
      → (let lost = on_close i p h in
          let again = on_timer encode env n p lost in
          let back = on_open none (suc n) p again in
          (lost.status ≡ reconnecting)
          × (lost.wire.timers ≡ (n, delay a, p) ∷ [])
          × (again.wire.sockets ≡ (suc n, p) ∷ [])
          × (back.sent ≡ (suc n, p.query, p.mode) ∷ h.sent))
  unfolding on_timer on_open on_close schedule_reconnect schedule new_socket drop_socket drop_timer
  resubscribed i n a p h next tries theirs live due token accepts =
      let gone =
        schedule_reconnect p
          (record h { wire = record (drop_socket i h.wire) { ws_ref = none } }) in
      let lost : on_close i p h ≡ gone = rw theirs refl in
      let made =
        connect_taken p (record gone { wire = drop_timer n gone.wire }) token (accepts _) in
      let again = ap (on_timer encode env n p) lost ∙ made in
      (
        ap (λ (x : Hook). x.status) lost,
        ap (λ (x : Hook). x.wire.timers) lost ∙ ground (arith, next, tries, due),
        ap (λ (x : Hook). x.wire.sockets) again ∙ ground (arith, next, live),
        ap (λ (x : Hook). (suc n, p.query, p.mode) ∷ x.sent) again,
      )

  pub run_effect-sent :
      (n : ℕ) (p : Props) (h : Hook)
      → h.wire.next ≡ n
      → is_off p ≡ false
      → is_empty (or_else env.token []) ≡ false
      → ((url : Text) → env.accepts url ≡ true)
      → (let up = run_effect encode env p h in
          (up.wire.sockets ≡ (n, p) ∷ h.wire.sockets)
          × (up.wire.ws_ref ≡ some n)
          × ((on_open none n p up).sent ≡ (n, p.query, p.mode) ∷ h.sent))
  unfolding run_effect on_open new_socket
  run_effect-sent n p h next on token accepts =
      let fresh = record h { wire = record h.wire { closed_by_us = false } } in
      rw (on, connect_taken p fresh token (accepts _)) (cc (next), cc (next), refl)
