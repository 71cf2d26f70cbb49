-- ===== src/Realtime/Wire.antt =====
-- What both hooks of web/src/hooks/useRealtime.ts and useQueryRealtime.ts share: the four refs, the
-- browser's sockets and timers, and the address of the endpoint. `P` is what the running effect
-- closes over.
pub mod Laws
use nanas.Prelude.{
  ℕ, suc, ◌+◌, ◌*◌, ◌^◌, Bool, true, false, not, List, [], ◌∷◌, ◌++◌, Option, none, some, min,
  if◌then◌else◌, ◌==◌, keep, drop, or_else,
}
use nanas.Prelude.Text.{Text, codes, is_empty, starts_with}

-- `sockets` are those whose close event is still to come, `timers` those that are still to fire,
-- with their delays. Both are numbered as they are made. `closing` are the sockets on which the
-- hook has called `close`.
pub record Wire (P : Type 0) : Type 0 where
  pub ws_ref : Option ℕ
  pub closed_by_us : Bool
  pub attempts : ℕ
  pub reconnect_timer : Option ℕ
  pub next : ℕ
  pub sockets : List (ℕ × P)
  pub closing : List ℕ
  pub timers : List (ℕ × ℕ × P)

-- What `connect` reads when it runs: the session's token, the API's origin, the page's origin, and
-- whether the constructor of `WebSocket` takes the address.
pub record Env : Type 0 where
  pub token : Option Text
  pub origin : Text
  pub window : Text
  pub accepts : Text → Bool

-- `origin.replace(/^https?:\/\//, '')`
unfoldable pub strip_scheme : Text → Text
strip_scheme s =
    if starts_with s (codes "https://")
    then drop 8 s
    else if starts_with s (codes "http://")
    then drop 7 s
    else s

-- `url` in `connect`; `encode` is `encodeURIComponent`.
unfoldable pub endpoint : (encode : Text → Text) → Env → (project_id token : Text) → Text
unfolding strip_scheme
endpoint encode env project_id token =
    let scheme = if starts_with env.origin (codes "https") then codes "wss" else codes "ws" in
    let http_origin = if is_empty env.origin then env.window else env.origin in
    scheme
    ++ (codes "://"
        ++ (strip_scheme http_origin
            ++ (codes "/v1/projects/"
                ++ (project_id ++ (codes "/realtime/ws?access_token=" ++ encode token)))))

-- `Math.min(1000 * 2 ** attempts, 15_000)`
unfoldable pub delay : ℕ → ℕ
delay attempts = min (1000 * 2 ^ attempts) 15000

module _ {P : Type 0} where
  unfoldable pub new_socket : P → Wire P → Wire P
  new_socket p w = record w {
    ws_ref = some w.next;
    next = suc w.next;
    sockets = (w.next, p) ∷ w.sockets;
  }

  -- The refs' part of `scheduleReconnect`.
  unfoldable pub schedule : P → Wire P → Wire P
  schedule p w = record w {
    attempts = w.attempts + 1;
    reconnect_timer = some w.next;
    next = suc w.next;
    timers = (w.next, delay w.attempts, p) ∷ w.timers;
  }

  unfoldable pub clear_timeout : Option ℕ → Wire P → Wire P
  clear_timeout none w = w
  clear_timeout (some i) w = record w { timers = keep (λ (t : ℕ × ℕ × P). not (t.0 == i)) w.timers }

  -- `wsRef.current?.close()`
  unfoldable pub close_current : Wire P → Wire P
  close_current w = elim w.ws_ref [ none ↦ w | some i ↦ record w { closing = i ∷ w.closing } ]

  -- The function that the effect returns.
  unfoldable pub cleanup : Wire P → Wire P
  unfolding clear_timeout close_current
  cleanup w =
      let marked = record w { closed_by_us = true } in
      let untimed = record (clear_timeout w.reconnect_timer marked) { reconnect_timer = none } in
      record (close_current untimed) { ws_ref = none }

  -- `reconnect` of the hook's result.
  unfoldable pub reconnect : Wire P → Wire P
  unfolding close_current
  reconnect w = close_current (record w { attempts = 0 })

  -- The browser reports a socket closed, and takes a timer that fires off the list.
  unfoldable pub drop_socket : ℕ → Wire P → Wire P
  drop_socket i w = record w { sockets = keep (λ (s : ℕ × P). not (s.0 == i)) w.sockets }

  unfoldable pub drop_timer : ℕ → Wire P → Wire P
  drop_timer i w = record w { timers = keep (λ (t : ℕ × ℕ × P). not (t.0 == i)) w.timers }
