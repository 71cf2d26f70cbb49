-- ===== src/Realtime/Query/Laws.antt =====
-- What the frames of a query subscription change, and the connection of one effect.
pub mod Lifetime
use nanas.Prelude.{
  ℕ, ◌≤◌, ◌≡◌, ◌∙◌, refl, inl, inr, Bool, true, false, List, [], ◌∷◌, Option, none, some, arith,
  length, length-take-le, take, if◌then◌else◌, Bool-cases, Option-cases, and_then,
}
use nanas.Prelude.Text.{Text, codes}
use nanas.Prelude.Json.{Json, property, as_text}
use nanas.Realtime.Query.{
  QueryStatus, failed, QueryEvent, max_buffer, Hook, op_is, event_of, on_error_frame, on_subscribed,
  on_event, on_value, on_message,
}

-- What a frame may change: not the connection, not a failed status, and the events by at most one.
pub record IsFrameStep (h h' : Hook) : Type 0 where
  pub wire : h'.wire ≡ h.wire
  pub stuck : h.status ≡ failed → h'.status ≡ failed
  pub kept : length h.events ≤ max_buffer → length h'.events ≤ max_buffer

module _ (to_text : Json → Text) (now : ℕ) where
  on_event-IsFrameStep : (v : Json) (h : Hook) → IsFrameStep h (on_event to_text now v h)
  unfolding on_event
  on_event-IsFrameStep v h = elim (Bool-cases (op_is (codes "event") v)) [
    | inl yes_event ↦
        rw (yes_event, on_event)
          (record {
            wire = refl;
            stuck = λ e. e;
            kept =
                λ k. length-take-le {A = QueryEvent} max_buffer (event_of to_text now v ∷ h.events);
          })
    | inr other ↦ rw (other, on_event) (record { wire = refl; stuck = λ e. e; kept = λ k. k })
  ]

  on_value-IsFrameStep : (v : Json) (h : Hook) → IsFrameStep h (on_value to_text now v h)
  unfolding on_value on_error_frame on_subscribed
  on_value-IsFrameStep v h = elim (Bool-cases (op_is (codes "error") v)) [
    | inl bad ↦ rw (bad, on_value) (record { wire = refl; stuck = λ e. refl; kept = λ k. k })
    | inr good ↦ elim (Bool-cases (op_is (codes "subscribed") v)) [
      | inl answer ↦ elim (Option-cases (and_then (property (codes "subscription_id") v) as_text)) [
        | inl unnamed ↦ rw (good, answer, unnamed, on_value) (on_event-IsFrameStep v h)
        | inr (id, named) ↦
            rw (good, answer, named, on_value)
              (record { wire = refl; stuck = λ e. e; kept = λ k. k })
      ]
      | inr other ↦ rw (good, other, on_value) (on_event-IsFrameStep v h)
    ]
  ]

  module _ (parse : Text → Option Json) where
    pub on_message-IsFrameStep :
        (frame : Text) (h : Hook) → IsFrameStep h (on_message to_text parse now frame h)
    unfolding on_message
    on_message-IsFrameStep frame h = elim (Option-cases (parse frame)) [
      | inl unread ↦ rw (unread, on_message) (record { wire = refl; stuck = λ e. e; kept = λ k. k })
      | inr (v, read) ↦ rw (read, on_message) (on_value-IsFrameStep v h)
    ]

    -- The frames that arrive one after the other.
    abbrev pub on_messages : List Text → Hook → Hook
    on_messages [] h = h
    on_messages (frame ∷ frames) h = on_messages frames (on_message to_text parse now frame h)

    -- Once an error frame failed the hook, no frames bring its status back, not even the answer to
    -- a subscription; they leave the connection alone, and keep at most 200 events.
    pub on_messages-failed :
        (frames : List Text) (h : Hook)
        → h.status ≡ failed
        → length h.events ≤ max_buffer
        → ((on_messages frames h).status ≡ failed)
          × ((on_messages frames h).wire ≡ h.wire)
          × (length (on_messages frames h).events ≤ max_buffer)
    on_messages-failed [] h bad within = (bad, refl, within)
    on_messages-failed (frame ∷ frames) h bad within =
        let s = on_message-IsFrameStep frame h in
        let (status, wire, events) =
          on_messages-failed frames (on_message to_text parse now frame h) (s.stuck bad)
            (s.kept within) in
        (status, wire ∙ s.wire, events)
