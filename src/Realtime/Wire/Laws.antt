-- ===== src/Realtime/Wire/Laws.antt =====
-- The phases of a connection that is managed by one effect, and the delays between attempts.
use nanas.Prelude.{
  ℕ, zero, suc, ◌+◌, ◌*◌, ◌^◌, ◌≤◌, ◌≡◌, refl, ap, inl, inr, true, List, [], ◌∷◌, none, some, arith,
  length, keep, Listed, ==_refl, ◌==◌, not, Option-cases,
}
use native.Mathlib.Nat.{pow-suc}
use native.Mathlib.Numerals.{towards_suc}
use nanas.Realtime.Wire.{
  Wire, delay, new_socket, schedule, cleanup, close_current, reconnect, drop_socket, drop_timer,
}

one-le-pow : (n : ℕ) → 1 ≤ 2 ^ n
one-le-pow zero = omega arith
one-le-pow (suc n) = rw pow-suc (omega (arith, one-le-pow n))

-- An attempt follows the last after one to fifteen seconds, and never sooner than the one before
-- it did; the first after one second, and from the fifth on each after fifteen.
pub delay_bounds :
    (n : ℕ)
    → (1000 ≤ delay n)
      × (delay n ≤ 15000)
      × (delay n ≤ delay (suc n))
      × (delay 0 ≡ 1000)
      × (delay (n + 4) ≡ 15000)
unfolding delay
delay_bounds n =
    let low = one-le-pow n in
    let twice : 2 ^ suc n ≡ 2 ^ n * 2 = pow-suc 2 n in
    let later : 2 ^ (n + 4) ≡ 16 * 2 ^ n = simp towards_suc (omega arith) in
    (omega arith, omega arith, rw twice (omega arith), refl, rw later (omega arith))

-- From a list of one, what is listed is dropped, and nothing is left.
pub drop_only :
    {A : Type 0} (key : A → ℕ) (xs : List A) (a b : A)
    → xs ≡ b ∷ []
    → Listed a xs
    → keep (λ x. not (key x == key a)) xs ≡ []
drop_only {A} key xs a b e l = rw e (step (rw e at l))
  where
    step : Listed a (b ∷ []) → keep (λ x. not (key x == key a)) (b ∷ []) ≡ []
    step (inl same) = rw (same, ==_refl (key b))
    step (inr h) = absurd h

module _ {P : Type 0} where
  -- The connection is down for good, up, or down until a timer fires. Whatever is live is what the
  -- refs name, and there is at most one socket or timer.
  pub data Phase (w : Wire P) : Type 0 where
    down : w.sockets ≡ [] → w.timers ≡ [] → w.ws_ref ≡ none → Phase w
    up : (i : ℕ) (p : P) → w.sockets ≡ (i, p) ∷ [] → w.timers ≡ [] → w.ws_ref ≡ some i → Phase w
    waiting :
        (i d : ℕ) (p : P)
        → w.sockets ≡ []
        → w.timers ≡ (i, d, p) ∷ []
        → w.ws_ref ≡ none
        → w.reconnect_timer ≡ some i
        → 1000 ≤ d
        → d ≤ 15000
        → Phase w

  pub new_socket-Phase :
      (p : P) (w : Wire P) → w.sockets ≡ [] → w.timers ≡ [] → Phase (new_socket p w)
  unfolding new_socket
  new_socket-Phase p w none_live none_due = up w.next p (rw none_live) none_due refl

  pub schedule-Phase :
      (p : P) (w : Wire P) → w.sockets ≡ [] → w.timers ≡ [] → w.ws_ref ≡ none → Phase (schedule p w)
  unfolding schedule
  schedule-Phase p w none_live none_due unset =
      let (low, high, _, _, _) = delay_bounds w.attempts in
      waiting w.next (delay w.attempts) p none_live (rw none_due) unset refl low high

  -- The only live socket closes.
  pub drop_socket-empty :
      (i : ℕ) (q : P) (w : Wire P)
      → Phase w
      → Listed (i, q) w.sockets
      → ((drop_socket i w).sockets ≡ []) × (w.timers ≡ [])
  unfolding drop_socket
  drop_socket-empty i q w (down e _ _) l = absurd (rw e at l)
  drop_socket-empty i q w (up j p e f g) l =
      (drop_only (λ (s : ℕ × P). s.0) w.sockets (i, q) (j, p) e l, f)
  drop_socket-empty i q w (waiting j d p e _ _ _ _ _) l = absurd (rw e at l)

  -- The only timer fires.
  pub drop_timer-empty :
      (i d : ℕ) (q : P) (w : Wire P)
      → Phase w
      → Listed (i, d, q) w.timers
      → ((drop_timer i w).timers ≡ []) × (w.sockets ≡ []) × (w.ws_ref ≡ none)
  unfolding drop_timer
  drop_timer-empty i d q w (down _ e _) l = absurd (rw e at l)
  drop_timer-empty i d q w (up j p _ e _) l = absurd (rw e at l)
  drop_timer-empty i d q w (waiting j d' p e f g _ _ _) l =
      (drop_only (λ (t : ℕ × ℕ × P). t.0) w.timers (i, d, q) (j, d', p) f l, e, g)

  pub reset-Phase : (w : Wire P) → Phase w → Phase (record w { attempts = 0 })
  reset-Phase w (down a b c) = down a b c
  reset-Phase w (up i p a b c) = up i p a b c
  reset-Phase w (waiting i d p a b c e f g) = waiting i d p a b c e f g

  pub reconnect-Phase : (w : Wire P) → Phase w → Phase (reconnect w)
  unfolding reconnect
  reconnect-Phase w (down a b c) = rw (c, close_current) (down a b c)
  reconnect-Phase w (up i p a b c) = rw (c, close_current) (up i p a b c)
  reconnect-Phase w (waiting i d p a b c e f g) = rw (c, close_current) (waiting i d p a b c e f g)

  pub Phase-le-one : (w : Wire P) → Phase w → length w.sockets + length w.timers ≤ 1
  Phase-le-one w (down a b c) = rw (a, b) (omega arith)
  Phase-le-one w (up i p a b c) = rw (a, b) (omega arith)
  Phase-le-one w (waiting i d p a b c e f g) = rw (a, b) (omega arith)

  -- The number of a listed item is that of the only one.
  pub same_number :
      (i j : ℕ) (p q : P) (ns : List ℕ)
      → Listed {A = ℕ × P} (i, p) ((j, q) ∷ [])
      → Listed j ns
      → Listed i ns
  same_number i j p q ns (inl e) l = rw (ap (λ (s : ℕ × P). s.0) e) l
  same_number i j p q ns (inr h) l = absurd h

  keep_single :
      (i j d : ℕ) (p : P) → i ≡ j → keep (λ (t : ℕ × ℕ × P). not (t.0 == j)) ((i, d, p) ∷ []) ≡ []
  keep_single i j d p e = ground arith

  -- What the end of an effect leaves of the connection.
  pub cleanup_fields :
      (w : Wire P)
      → ((cleanup w).sockets ≡ w.sockets)
        × (w.timers ≡ [] → (cleanup w).timers ≡ [])
        × ((cleanup w).ws_ref ≡ none)
        × ((cleanup w).closed_by_us ≡ true)
        × ((cleanup w).attempts ≡ w.attempts)
        × ((cleanup w).next ≡ w.next)
        × ((i : ℕ) → w.ws_ref ≡ some i → Listed i (cleanup w).closing)
        × ((i d : ℕ) (p : P)
            → w.timers ≡ (i, d, p) ∷ []
            → w.reconnect_timer ≡ some i
            → (cleanup w).timers ≡ [])
  unfolding cleanup
  cleanup_fields w = (
    ground arith,
    λ e. ground arith,
    refl,
    ground arith,
    ground arith,
    ground arith,
    λ i e. ground arith,
    λ i d p e f. elim (Option-cases w.reconnect_timer) [
      | inl unset ↦ absurd (cc)
      | inr (j, set) ↦ ground (arith, keep_single i j d p)
    ],
  )
