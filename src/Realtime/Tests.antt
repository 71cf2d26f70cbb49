-- ===== src/Realtime/Tests.antt =====
-- The connections of the two hooks on concrete runs.
use nanas.Prelude.{
  ◌+◌, ◌≤◌, ◌≡◌, refl, true, [], ◌∷◌, Option, none, some, arith, length, Listed, inl,
}
use nanas.Prelude.Text.{Text, codes, trim}
use nanas.Prelude.Json.{Json}
use nanas.Realtime.Wire.{Env, delay, new_socket}
use nanas.Realtime.Wire.Laws.{Phase}
use nanas.Realtime.Channels.{
  Props, Hook, new_hook, opened, connect, run_effect, on_open, on_close, on_timer, max_buffer,
}
use nanas.Realtime.Channels.Laws.{IsQuiet}
use nanas.Realtime.Channels.Laws.Lifetime.{Reach, Step, run_effect-Reach}
use nanas.Realtime.Channels.Laws.Change.{changed, changed-on_close}
use nanas.Realtime.Query
use nanas.Realtime.Query.Laws.Lifetime
use nanas.Realtime.Query.Laws.Lifetime.{run_effect-Reach_query}

abbrev same : Text → Text
same s = s

abbrev no_json : Text → Option Json
no_json s = none

abbrev env : Env
env = record {
  token = some (codes "t");
  origin = codes "https://a";
  window = [];
  accepts = λ url. true;
}

abbrev props : Props
props = record { project_id = some (codes "p"); channels = codes "c" ∷ []; enabled = none }

new_hook-IsQuiet : IsQuiet new_hook
new_hook-IsQuiet = record { no_socket = refl; no_timer = refl; unset = refl; within = omega arith }

abbrev ran : Hook
ran = run_effect same env props new_hook

-- The socket opens, and the server closes it.
abbrev heard : Hook
heard = on_open true 1 props ran

abbrev lost : Hook
lost = on_close 1 props heard

ran-socket : Listed (1, props) ran.wire.sockets
unfolding run_effect connect new_socket
ran-socket = inl refl

heard-socket : Listed (1, props) heard.wire.sockets
unfolding run_effect connect new_socket on_open
heard-socket = inl refl

run_effect-Reach_example :
    (length lost.wire.sockets + length lost.wire.timers ≤ 1)
    × Phase lost.wire
    × (length lost.events ≤ max_buffer)
run_effect-Reach_example = run_effect-Reach same no_json props env new_hook lost new_hook-IsQuiet (
    Reach.next (Reach.next Reach.here (Step.opens ran true 1 ran-socket))
      (Step.closes heard 1 heard-socket))

abbrev connected : Hook
connected = record new_hook { status = opened; wire = new_socket props new_hook.wire }

abbrev other : Props
other = record { project_id = some (codes "p"); channels = codes "d" ∷ []; enabled = none }

changed-on_close_example :
    (let h1 = on_close 1 props (changed same env other connected) in
      (h1.wire.sockets ≡ (2, other) ∷ [])
      × (h1.wire.ws_ref ≡ none)
      × (h1.wire.timers ≡ (3, delay 0, props) ∷ [])
      × ((on_timer same env 3 props h1).wire.sockets ≡ (4, props) ∷ (2, other) ∷ []))
unfolding new_socket
changed-on_close_example =
    changed-on_close same env other props connected 1 refl refl refl (omega arith) refl
      (λ url. refl) refl refl

abbrev json_text : Json → Text
json_text v = []

abbrev query_props : Query.Props
query_props = record {
  project_id = some (codes "p");
  query = some (codes "select");
  mode = Query.QueryMode.diff;
  enabled = none;
}

new_query-IsQuiet : Lifetime.IsQuiet Query.new_hook
new_query-IsQuiet = record { no_socket = refl; no_timer = refl; unset = refl; within = omega arith }

abbrev query_ran : Query.Hook
query_ran = Query.run_effect same env query_props Query.new_hook

-- The socket opens, reports an error, and is closed by the server.
abbrev query_failed : Query.Hook
query_failed = Query.on_error (Query.on_open none 1 query_props query_ran)

abbrev query_lost : Query.Hook
query_lost = Query.on_close 1 query_props query_failed

query_ran-socket : Listed (1, query_props) query_ran.wire.sockets
unfolding Query.run_effect Query.connect new_socket Query.is_off trim
query_ran-socket = inl refl

query_failed-socket : Listed (1, query_props) query_failed.wire.sockets
unfolding Query.run_effect Query.connect new_socket Query.is_off trim Query.on_open Query.on_error
query_failed-socket = inl refl

run_effect-Reach_query_example :
    (length query_lost.wire.sockets + length query_lost.wire.timers ≤ 1)
    × Phase query_lost.wire
    × (length query_lost.events ≤ Query.max_buffer)
run_effect-Reach_query_example =
    run_effect-Reach_query same json_text no_json query_props env Query.new_hook query_lost
      new_query-IsQuiet
      (Lifetime.Reach.next
        (Lifetime.Reach.next
          (Lifetime.Reach.next Lifetime.Reach.here
            (Lifetime.Step.opens query_ran none 1 query_ran-socket))
          (Lifetime.Step.errs (Query.on_open none 1 query_props query_ran)))
        (Lifetime.Step.closes query_failed 1 query_failed-socket))
