-- ===== src/Master/Edges.antt =====
-- Edge events: `_updateEdgeStateChanges` and `processEdgeEvents` of src/controller/
-- master-controller.ts.
pub mod Agreement
pub mod Changes
use mathlib.Core.Option
use vda_5050_lib_js.Common.{
  Bool, Option, any, eq_Bool, eq_Option, eq_String, eq_ℕ, false, if◌then◌else◌, is_some, none, not,
  opt_eq, some, true, ℕ, ◌!=◌, ◌&&◌, ◌+◌, ◌==◌, ◌||◌,
}
use vda_5050_lib_js.Vda.{
  ActionStatus, EStop, EdgeState, OperatingMode, SafetyStatus, State, autoack, automatic, eq_AgvId,
  finished, manual, no_e_stop, paused, remote, running, semiautomatic, service, teachin,
}
use vda_5050_lib_js.Master.Controller.{
  EdgeObject, EdgeStateChanges, EdgeStatus, Environment, MasterController, NodeObject,
  OrderStateCache, change, edge_traversed, edge_traversing, emit_if,
}
use vda_5050_lib_js.Master.Queries.{
  are_all_blocking_actions_ended, get_edge_end_node, get_edge_start_node, get_next_released_edge,
  is_order_canceling,
}

abbrev mode_number : OperatingMode → ℕ
mode_number automatic = 0
mode_number manual = 1
mode_number semiautomatic = 2
mode_number service = 3
mode_number teachin = 4

abbrev pub same_mode : OperatingMode → OperatingMode → Bool
same_mode a b = mode_number a == mode_number b

abbrev pub stop_number : EStop → ℕ
stop_number autoack = 0
stop_number EStop.manual = 1
stop_number no_e_stop = 2
stop_number remote = 3

abbrev pub same_safety : SafetyStatus → SafetyStatus → Bool
same_safety a b =
    not
      (not (stop_number a.e_stop == stop_number b.e_stop) || a.field_violation != b.field_violation)

abbrev pub edge_status : State → EdgeStatus
edge_status state = record {
  distance_since_last_node = state.distance_since_last_node;
  driving = state.driving;
  new_base_request = state.new_base_request;
  operating_mode = state.operating_mode;
  paused = state.paused;
  safety_state = state.safety_state;
}

abbrev pub all_of : EdgeStatus → EdgeStateChanges
all_of s = record {
  distance_since_last_node = some s.distance_since_last_node;
  driving = some s.driving;
  new_base_request = some s.new_base_request;
  operating_mode = some s.operating_mode;
  paused = some s.paused;
  safety_state = some s.safety_state;
}

abbrev pub delta {ℓ} : {A : Type ℓ} → Bool → A → Option A
delta same new = if same then none else some new

-- The keys whose values differ.
unfoldable pub new_deltas : Environment → EdgeStatus → EdgeStatus → EdgeStateChanges
new_deltas env old new = record {
  distance_since_last_node =
      delta (opt_eq env.same_number old.distance_since_last_node new.distance_since_last_node)
        new.distance_since_last_node;
  driving = delta (old.driving == new.driving) new.driving;
  new_base_request = delta (old.new_base_request == new.new_base_request) new.new_base_request;
  operating_mode = delta (same_mode old.operating_mode new.operating_mode) new.operating_mode;
  paused = delta (old.paused == new.paused) new.paused;
  safety_state = delta (same_safety old.safety_state new.safety_state) new.safety_state;
}

abbrev pub has_changes : EdgeStateChanges → Bool
has_changes d =
    is_some d.distance_since_last_node
    || is_some d.driving
    || is_some d.new_base_request
    || is_some d.operating_mode
    || is_some d.paused
    || is_some d.safety_state

-- The values that are kept: only those of the changed keys are replaced.
abbrev pub overwritten : EdgeStateChanges → EdgeStatus → EdgeStatus
overwritten d old = record {
  distance_since_last_node = Option.get_or d.distance_since_last_node old.distance_since_last_node;
  driving = Option.get_or d.driving old.driving;
  new_base_request = Option.get_or d.new_base_request old.new_base_request;
  operating_mode = Option.get_or d.operating_mode old.operating_mode;
  paused = Option.get_or d.paused old.paused;
  safety_state = Option.get_or d.safety_state old.safety_state;
}

abbrev pub count_invocation : OrderStateCache → OrderStateCache
count_invocation cache = record cache {
  edge_state_change_invocations = cache.edge_state_change_invocations + 1;
}

unfoldable pub report_changes :
    ℕ
    → EdgeObject
    → Option NodeObject
    → Option NodeObject
    → EdgeStateChanges
    → State
    → MasterController
    → MasterController
report_changes k edge start end changes state c =
    let counted = change k count_invocation c in
    emit_if (c.caches k).event_handler.on_edge_traversing
      (edge_traversing k edge start end changes (counted.caches k).edge_state_change_invocations
        state)
      counted

abbrev pub keep_status : EdgeStatus → OrderStateCache → OrderStateCache
keep_status s cache = record cache { last_edge_state_changes = some s }

-- From the values that were reported last, if any.
abbrev pub update_from :
    Environment
    → ℕ
    → EdgeObject
    → Option NodeObject
    → Option NodeObject
    → State
    → MasterController
    → Option EdgeStatus
    → MasterController
update_from env k edge start end state c none =
    report_changes k edge start end (all_of (edge_status state)) state
      (change k (keep_status (edge_status state)) c)
update_from env k edge start end state c (some old) =
    let changes = new_deltas env old (edge_status state) in
    if has_changes changes
    then report_changes k edge start end changes state
        (change k (keep_status (overwritten changes old)) c)
    else c

unfoldable pub update_edge_state_changes :
    Environment
    → ℕ
    → EdgeObject
    → Option NodeObject
    → Option NodeObject
    → State
    → MasterController
    → MasterController
unfolding report_changes new_deltas
update_edge_state_changes env k edge start end state c =
    update_from env k edge start end state c (c.caches k).last_edge_state_changes

abbrev pub is_state_of_edge : EdgeObject → EdgeState → Bool
is_state_of_edge e s = s.edge_id == e.edge.edge_id && s.sequence_id == e.edge.sequence_id

abbrev pub same_edge : Option EdgeObject → EdgeObject → Bool
same_edge none e = false
same_edge (some f) e = f.identity == e.identity

abbrev pub leave_edge : EdgeObject → OrderStateCache → OrderStateCache
leave_edge edge cache = record cache {
  last_edge_state_changes = none;
  edge_state_change_invocations = 0;
  last_edge_processed = some edge;
}

unfoldable pub edge_is_traversed :
    Environment
    → ℕ
    → EdgeObject
    → Option NodeObject
    → Option NodeObject
    → State
    → MasterController
    → MasterController
unfolding update_edge_state_changes
edge_is_traversed env k edge start end state c =
    emit_if (c.caches k).event_handler.on_edge_traversed (edge_traversed k edge start end state)
      (change k (leave_edge edge) (update_edge_state_changes env k edge start end state c))

abbrev pub running_or_finished : ActionStatus → Bool
running_or_finished running = true
running_or_finished finished = true
running_or_finished _ = false

-- The events of the next released edge.
unfoldable pub edge_events :
    Environment → ℕ → NodeObject → EdgeObject → State → MasterController → MasterController
unfolding get_edge_start_node get_edge_end_node edge_is_traversed update_edge_state_changes
    are_all_blocking_actions_ended
edge_events env k node edge state c =
    let cache = c.caches k in
    let start = get_edge_start_node cache.combined_order edge in
    let end = get_edge_end_node cache.combined_order edge in
    if any (is_state_of_edge edge) state.edge_states
    then if is_some cache.last_edge_state_changes || are_all_blocking_actions_ended c node state
      then update_edge_state_changes env k edge start end state c
      else c
    else if same_edge cache.last_edge_processed edge
    then c
    else edge_is_traversed env k edge start end state c

-- `node` is the last node traversed.
unfoldable pub process_edge_events :
    Environment → ℕ → NodeObject → State → MasterController → MasterController
unfolding is_order_canceling get_next_released_edge edge_events
process_edge_events env k node state c =
    if is_order_canceling (c.caches k).agv_id state running_or_finished c
    then c
    else elim (get_next_released_edge (c.caches k).combined_order node) [
      | none ↦ c
      | some edge ↦ edge_events env k node edge state c
    ]
