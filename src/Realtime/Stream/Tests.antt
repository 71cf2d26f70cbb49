-- ===== src/Realtime/Stream/Tests.antt =====
-- The two tabs on concrete clicks.
use nanas.Prelude.{◌≡◌, ◌≢◌, ◌⊎◌, refl, Bool, true, false, List, [], ◌∷◌, map, some, none}
use nanas.Prelude.Text.{Text, codes, text_eq, trim}
use nanas.Prelude.Names.{contains, IsDistinct}
use nanas.Realtime.Wire.{Env, new_socket, delay}
use nanas.Realtime.Channels
use nanas.Realtime.Query.{new_hook, idle, opened, reconnecting, on_close, on_timer, on_open}
use nanas.Realtime.Stream.Selection.{
  Channel, triggers, objects, cdc, entrypoint, channel_text, ChannelsTab, checked, select,
  on_checked, props,
}
use nanas.Realtime.Stream.Selection
use nanas.Realtime.Stream.Selection.Laws.{
  last_choice, on_checked_all, on_checked_all-selected, on_checked-hook,
}
use nanas.Realtime.Stream.Subscription.{QueryTab, on_subscribe, on_unsubscribe}
use nanas.Realtime.Stream.Subscription
use nanas.Realtime.Stream.Subscription.Laws.{on_unsubscribe-revived, on_subscribe-sent}

abbrev same : Text → Text
same s = s

abbrev env : Env
env = record {
  token = some (codes "t");
  origin = codes "https://a";
  window = [];
  accepts = λ url. true;
}

abbrev clicks : List (Bool × Channel)
clicks = (false, cdc) ∷ (false, objects) ∷ (true, cdc) ∷ []

clicks-selected :
    (on_checked_all same env (codes "p") clicks Selection.fresh).selected
    ≡ triggers ∷ entrypoint ∷ cdc ∷ []
unfolding on_checked select text_eq
clicks-selected = refl

on_checked_all-selected_example :
    IsDistinct
      (map channel_text (on_checked_all same env (codes "p") clicks Selection.fresh).selected)
    × (checked (on_checked_all same env (codes "p") clicks Selection.fresh).selected cdc
        ≡ last_choice clicks cdc (checked Selection.fresh.selected cdc))
unfolding text_eq contains
on_checked_all-selected_example =
    on_checked_all-selected same env (codes "p") clicks Selection.fresh cdc
      (refl, (refl, (refl, (refl, tt))))

on_checked-hook_example :
    let next = select false cdc Selection.fresh.selected in
    let after = on_checked same env (codes "p") false cdc Selection.fresh in
    (after.selected ≡ next)
    × (((next ≡ Selection.fresh.selected) × (after.hook ≡ Channels.new_hook))
        ⊎ ((next ≢ Selection.fresh.selected)
            × (after.hook
                ≡ Channels.run_effect same env
                    (props (codes "p") next)
                    (Channels.clean_up Channels.new_hook))))
on_checked-hook_example = on_checked-hook same env (codes "p") false cdc Selection.fresh refl

abbrev asks : QueryTab
asks = record Subscription.fresh {
  query = some (codes "select");
  hook = record new_hook { status = opened };
}

abbrev subscribed : QueryTab
subscribed = record asks {
  hook = record asks.hook { wire = new_socket (Subscription.props (codes "p") asks) new_hook.wire };
}

on_unsubscribe-revived_example :
    (let p = Subscription.props (codes "p") subscribed in
      let left = on_unsubscribe same env (codes "p") subscribed in
      let lost = on_close 1 p left.hook in
      let again = on_timer same env 2 p lost in
      let back = on_open none 3 p again in
      (left.hook.status ≡ idle)
      × (lost.status ≡ reconnecting)
      × (lost.wire.timers ≡ (2, delay 0, p) ∷ [])
      × (again.wire.sockets ≡ (3, p) ∷ [])
      × (back.status ≡ opened)
      × (back.sent ≡ (3, some (codes "select"), subscribed.mode) ∷ []))
unfolding new_socket Subscription.props trim
on_unsubscribe-revived_example =
    on_unsubscribe-revived same env (codes "p") subscribed (codes "select") 1 refl refl refl refl
      refl refl (λ url. refl)

on_subscribe-sent_example :
    let after = on_subscribe same env (codes "p") Subscription.fresh in
    let p = Subscription.props (codes "p") after in
    (after.query ≡ some Subscription.fresh.draft)
    × (((Subscription.fresh.query ≡ some Subscription.fresh.draft)
          × (after.hook ≡ Subscription.fresh.hook))
        ⊎ ((Subscription.fresh.query ≢ some Subscription.fresh.draft)
            × (after.hook.wire.sockets ≡ (1, p) ∷ [])
            × (after.hook.wire.ws_ref ≡ some 1)
            × ((on_open none 1 p after.hook).sent
                ≡ (1, some Subscription.fresh.draft, Subscription.fresh.mode) ∷ [])))
unfolding Subscription.fresh Subscription.subscribe_disabled trim
on_subscribe-sent_example =
    on_subscribe-sent same env (codes "p") Subscription.fresh refl refl refl refl (λ url. refl)
