-- ===== src/Realtime/Channels/Laws/Change.antt =====
-- A change of what `useRealtime` subscribes to while it is connected.
use nanas.Prelude.{ℕ, suc, ◌≡◌, ◌≢◌, ap, ◌∙◌, true, false, [], ◌∷◌, none, some, arith, or_else}
use nanas.Prelude.Text.{Text, is_empty}
use nanas.Http.{truthy}
use nanas.Realtime.Wire.{
  Wire, Env, delay, endpoint, new_socket, schedule, cleanup, drop_socket, drop_timer,
}
use nanas.Realtime.Wire.Laws.{cleanup_fields}
use nanas.Realtime.Channels.{Props, Hook, connect, run_effect, on_timer, on_close, clean_up}
use nanas.Realtime.Channels.Laws.{lost, on_close_theirs}

connect_taken :
    (encode : Text → Text) (env : Env) (p : Props) (h : Hook)
    → is_empty (or_else env.token []) ≡ false
    → env.accepts (endpoint encode env (or_else p.project_id []) (or_else env.token [])) ≡ true
    → (connect encode env p h).wire ≡ new_socket p h.wire
unfolding connect
connect_taken encode env p h token accepts = ground arith

lost_new :
    (i : ℕ) (p q : Props) (v : Wire Props)
    → v.sockets ≡ (i, q) ∷ []
    → v.timers ≡ []
    → i ≢ v.next
    → (let w = lost i q (new_socket p (record v { closed_by_us = false })) in
        (w.sockets ≡ (v.next, p) ∷ [])
        × (w.ws_ref ≡ none)
        × (w.timers ≡ (suc v.next, delay v.attempts, q) ∷ [])
        × (w.next ≡ suc (suc v.next)))
unfolding new_socket schedule drop_socket
lost_new i p q v live due fresh = ground arith

run_effect_taken :
    (encode : Text → Text) (env : Env) (p : Props) (h : Hook)
    → is_empty (or_else env.token []) ≡ false
    → env.accepts (endpoint encode env (or_else p.project_id []) (or_else env.token [])) ≡ true
    → or_else p.enabled true ≡ true
    → truthy p.project_id ≡ true
    → (run_effect encode env p h).wire ≡ new_socket p (record h.wire { closed_by_us = false })
unfolding run_effect connect
run_effect_taken encode env p h token accepts on project = ground arith

-- A change of what a connected hook subscribes to: the effect ends and runs again before the old
-- socket reports its close.
abbrev pub changed : (Text → Text) → Env → Props → Hook → Hook
changed encode env p h = run_effect encode env p (clean_up h)

-- After such a change the close of the old socket is taken for a loss of the new one. `wsRef` no
-- longer names the new socket, which stays up, an attempt for what was subscribed before is
-- scheduled, and when it is made two sockets are up, one for each subscription.
pub changed-on_close :
    (encode : Text → Text) (env : Env) (p q : Props) (h : Hook) (i : ℕ)
    → h.wire.sockets ≡ (i, q) ∷ []
    → h.wire.timers ≡ []
    → h.wire.ws_ref ≡ some i
    → i ≢ h.wire.next
    → is_empty (or_else env.token []) ≡ false
    → ((url : Text) → env.accepts url ≡ true)
    → or_else p.enabled true ≡ true
    → truthy p.project_id ≡ true
    → (let h1 = on_close i q (changed encode env p h) in
        (h1.wire.sockets ≡ (h.wire.next, p) ∷ [])
        × (h1.wire.ws_ref ≡ none)
        × (h1.wire.timers ≡ (suc h.wire.next, delay h.wire.attempts, q) ∷ [])
        × ((on_timer encode env (suc h.wire.next) q h1).wire.sockets
            ≡ (suc (suc h.wire.next), q) ∷ (h.wire.next, p) ∷ []))
unfolding clean_up new_socket on_timer drop_timer
changed-on_close encode env p q h i live due names fresh token accepts on project =
    let h0 = changed encode env p h in
    let v = cleanup h.wire in
    let (sockets, no_timer, _, _, attempts, next_id, _, _) = cleanup_fields h.wire in
    let ran : h0.wire ≡ new_socket p (record v { closed_by_us = false }) =
      run_effect_taken encode env p (clean_up h) token (accepts _) on project in
    let left =
      on_close_theirs i q h0 (ap (λ (x : Wire Props). x.closed_by_us) ran) ∙ ap (lost i q) ran in
    let (one, unset, due', next') =
      lost_new i p q v (sockets ∙ live) (no_timer due) (rw next_id fresh) in
    let made =
      connect_taken encode env q
        (record (on_close i q h0) { wire = drop_timer (suc h.wire.next) (on_close i q h0).wire })
        token (accepts _) in
    let up_sockets = ap (λ (x : Wire Props). x.sockets) left ∙ one in
    let up_next = ap (λ (x : Wire Props). x.next) left ∙ next' in
    (
      cc (up_sockets, next_id),
      ap (λ (x : Wire Props). x.ws_ref) left ∙ unset,
      cc (ap (λ (x : Wire Props). x.timers) left ∙ due', next_id, attempts),
      ap (λ (x : Wire Props). x.sockets) made ∙ cc (up_sockets, up_next, next_id),
    )
