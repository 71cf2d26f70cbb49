-- ===== src/Realtime/Stream/Subscription/Laws.antt =====
-- What the two buttons do to the connection.
use nanas.Prelude.{
  ℕ, suc, ◌≡◌, ◌≢◌, ◌⊎◌, refl, ap, ◌∙◌, true, false, [], ◌∷◌, none, some, or_else, Bool-cases, inl,
  inr,
}
use nanas.Prelude.Text.{Text, is_empty, trim, text_eq_refl}
use nanas.Realtime.Wire.{Env, delay}
use nanas.Realtime.Wire.Laws.{cleanup_fields}
use nanas.Realtime.Query.{
  idle, opened, reconnecting, is_off, run_effect, on_open, on_close, on_timer, clean_up,
  schedule_reconnect,
}
use nanas.Realtime.Stream.Subscription.{
  QueryTab, mode_text, props, same_query, same_effect, end_effect, render, subscribe_disabled,
  on_subscribe, unsubscribe_disabled, on_unsubscribe,
}
use nanas.Realtime.Stream.Subscription.Steps.{
  idled, trim-full, end_effect_fields, same_query_iff, resubscribed, run_effect-sent,
}

module _ (encode : Text → Text) (env : Env) (pid : Text) where
  on_unsubscribe-hook :
      (tab : QueryTab) (q : Text)
      → is_empty pid ≡ false
      → tab.query ≡ some q
      → is_empty (trim q) ≡ false
      → (on_unsubscribe encode env pid tab).hook ≡ idled tab.hook
  unfolding on_unsubscribe unsubscribe_disabled render props same_effect end_effect is_off
      run_effect clean_up
  on_unsubscribe-hook tab q named asked full = rw (asked, trim-full q full, named, full) refl

  -- The button "Unsubscribe" of a tab that is subscribed to a query over a socket goes idle, and
  -- undoes itself: the close of that socket, reported after the button, sets a timer, and once the
  -- timer fires and the new socket opens, the tab is subscribed to the query again.
  pub on_unsubscribe-revived :
      (tab : QueryTab) (q : Text) (i : ℕ)
      → is_empty pid ≡ false
      → tab.query ≡ some q
      → is_empty (trim q) ≡ false
      → tab.hook.wire.sockets ≡ (i, props pid tab) ∷ []
      → tab.hook.wire.timers ≡ []
      → is_empty (or_else env.token []) ≡ false
      → ((url : Text) → env.accepts url ≡ true)
      → (let p = props pid tab in
          let n = tab.hook.wire.next in
          let left = on_unsubscribe encode env pid tab in
          let lost = on_close i p left.hook in
          let again = on_timer encode env n p lost in
          let back = on_open none (suc n) p again in
          (left.hook.status ≡ idle)
          × (lost.status ≡ reconnecting)
          × (lost.wire.timers ≡ (n, delay tab.hook.wire.attempts, p) ∷ [])
          × (again.wire.sockets ≡ (suc n, p) ∷ [])
          × (back.status ≡ opened)
          × (back.sent ≡ (suc n, some q, tab.mode) ∷ tab.hook.sent))
  unfolding on_timer on_open on_close schedule_reconnect props
  on_unsubscribe-revived tab q i named asked full live due token accepts =
      let (sockets, no_timer, _, _, attempts, next_id, _, _) = cleanup_fields tab.hook.wire in
      let p = props pid tab in
      let left = on_unsubscribe-hook tab q named asked full in
      let (lost, set, live_again, sent) =
        resubscribed encode env i tab.hook.wire.next tab.hook.wire.attempts p (idled tab.hook)
          next_id attempts refl (sockets ∙ live) (no_timer due) token accepts in
      rw (left) (
        refl,
        lost,
        set,
        live_again,
        refl,
        sent ∙ ap (λ z. (suc tab.hook.wire.next, z, tab.mode) ∷ tab.hook.sent) asked,
      )

  abbrev asked : QueryTab → QueryTab
  asked tab = record tab { query = some tab.draft }

  asked-on :
      (tab : QueryTab)
      → is_empty pid ≡ false
      → is_empty (trim tab.draft) ≡ false
      → is_off (props pid (asked tab)) ≡ false
  unfolding is_off props
  asked-on tab named full = rw (named, full) refl

  on_subscribe-same :
      (tab : QueryTab)
      → subscribe_disabled tab ≡ false
      → same_query tab.query (some tab.draft) ≡ true
      → on_subscribe encode env pid tab ≡ asked tab
  unfolding on_subscribe render props same_effect
  on_subscribe-same tab enabled same = rw (enabled, same, text_eq_refl (mode_text tab.mode)) refl

  on_subscribe-other :
      (tab : QueryTab)
      → subscribe_disabled tab ≡ false
      → same_query tab.query (some tab.draft) ≡ false
      → on_subscribe encode env pid tab ≡ record (asked tab) {
        hook = run_effect encode env (props pid (asked tab)) (end_effect (props pid tab) tab.hook);
      }
  unfolding on_subscribe render same_effect props
  on_subscribe-other tab enabled other = rw (enabled, other) refl

  -- The button "Subscribe", where it is enabled and the draft is not blank, does nothing to the
  -- connection if the draft is the query asked for already; if it is another, it opens a socket of
  -- its own on which, once it is up, the draft is sent with the mode.
  pub on_subscribe-sent :
      (tab : QueryTab)
      → subscribe_disabled tab ≡ false
      → is_empty pid ≡ false
      → is_empty (trim tab.draft) ≡ false
      → is_empty (or_else env.token []) ≡ false
      → ((url : Text) → env.accepts url ≡ true)
      → let n = tab.hook.wire.next in
        let after = on_subscribe encode env pid tab in
        let p = props pid after in
        (after.query ≡ some tab.draft)
        × (((tab.query ≡ some tab.draft) × (after.hook ≡ tab.hook))
            ⊎ ((tab.query ≢ some tab.draft)
                × (after.hook.wire.sockets ≡ (n, p) ∷ tab.hook.wire.sockets)
                × (after.hook.wire.ws_ref ≡ some n)
                × ((on_open none n p after.hook).sent
                    ≡ (n, some tab.draft, tab.mode) ∷ tab.hook.sent)))
  unfolding props
  on_subscribe-sent tab enabled named full token accepts =
      elim (Bool-cases (same_query tab.query (some tab.draft))) [
        | inl same ↦
            rw (on_subscribe-same tab enabled same)
              (refl, inl ((same_query_iff tab.query tab.draft).0 same, refl))
        | inr other ↦
            let ended = end_effect (props pid tab) tab.hook in
            let (held, next, sent_before) = end_effect_fields (props pid tab) tab.hook in
            let (opens, names, sends) =
              run_effect-sent encode env tab.hook.wire.next (props pid (asked tab)) ended next
                (asked-on tab named full) token accepts in
            rw (on_subscribe-other tab enabled other) (
              refl,
              inr (
                λ e. cc (other, (same_query_iff tab.query tab.draft).1 e),
                opens ∙ ap (λ z. (tab.hook.wire.next, props pid (asked tab)) ∷ z) held,
                names,
                sends ∙ ap (λ z. (tab.hook.wire.next, some tab.draft, tab.mode) ∷ z) sent_before,
              ),
            )
      ]
