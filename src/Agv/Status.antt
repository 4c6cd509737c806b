-- ===== src/Agv/Status.antt =====
-- What follows on a change of an action's status: `_updateActionStatus`, `_cancelOrder`,
-- `_processInstantAction`, `_processInstantActionChunk` and their helpers in
-- src/controller/agv-controller.ts. These call one another: an instant action may end at once,
-- and the next one is started then. `update` stands for the inner call of `_updateActionStatus`.
pub mod Apply
pub mod Cancel
pub mod Keeps
pub mod Inner
pub mod Ended
pub mod Fuel
use Prim.Native.String
use mathlib.Core.Option
use vda_5050_lib_js.Common.Map
use vda_5050_lib_js.Common.{
  Bool, List, Option, String, drop_last, eq_Option, eq_String, eq_ℕ, false, get_elem?,
  if◌then◌else◌, length, map, none, remove_at, set, some, suc, true, zero, ℕ, ◌++◌, ◌+◌, ◌-◌, ◌==◌,
  ◌||◌,
}
use vda_5050_lib_js.Vda.{Action, ActionStatus, failed, finished, is_ended, is_hard}
use vda_5050_lib_js.Agv.Controller.{
  ActionContext, ActionStatusChangeInfo, Adapter, Controller, Outcome, done, edge_scope, emit,
  execute_action, instant_scope, node_scope, out_of_fuel, publish_factsheet, ◌>>=◌,
}
use vda_5050_lib_js.Agv.Queries.{has_active_order, has_canceling_order}
use vda_5050_lib_js.Agv.Chunk.{
  Chunk, are_parallel_actions_ended, get_hard_blocking_action_after, index_of, next_chunk,
}
use vda_5050_lib_js.Agv.Traversal.{
  or_throw, process_edge, process_edge_action, process_edge_actions, process_node_action,
  process_node_actions, traverse,
}
use vda_5050_lib_js.Agv.Status.Apply.{apply_status}
use vda_5050_lib_js.Agv.Status.Cancel.{cancel_if_all_ended, cancel_order}

abbrev pub Update : Type 0
Update = ActionContext → ActionStatusChangeInfo → Controller → Outcome

abbrev pub change_to : ActionStatus → ActionStatusChangeInfo
change_to s = record {
  action_status = s;
  result_description = none;
  error_description = none;
  linked_state = none;
}

-- `hasActiveOrder ? currentOrder.orderId : undefined`; the outer `none` is a throw.
unfoldable pub active_order_id : Controller → Option (Option String)
unfolding has_active_order
active_order_id c =
    if has_active_order c
    then Option.map (λ order. some order.order_id) c.current_order
    else some none

abbrev pub instant_context : Action → Option Bool → Option String → ActionContext
instant_context a stop_driving id = record {
  action = a;
  scope = instant_scope;
  stop_driving = stop_driving;
  node = none;
  edge = none;
  edge_start_node = none;
  edge_end_node = none;
  active_order_id = id;
}

abbrev pub unsupported_factsheet : Adapter → ActionStatusChangeInfo
unsupported_factsheet env = record {
  action_status = failed;
  result_description = none;
  error_description = some (
      String.◌++◌ "Requesting factsheet with VDA Version "
        (String.◌++◌ env.vda_version " is not supported"));
  linked_state = none;
}

abbrev pub state_reported : ActionStatusChangeInfo
state_reported = record {
  action_status = finished;
  result_description = some "Reported new state";
  error_description = none;
  linked_state = none;
}

-- The `switch` over the type of an instant action.
unfoldable pub start_instant_action : Adapter → Update → ActionContext → Controller → Outcome
unfolding cancel_order
start_instant_action env update context c =
    let type = context.action.action_type in
    if type == "stateRequest"
    then update context state_reported c
    else if type == "cancelOrder"
    then cancel_order update context c
    else if type == "factsheetRequest"
    then if env.vda_version == "2.0.0" || env.vda_version == "2.1.0"
      then done (emit (publish_factsheet context) c)
      else update context (unsupported_factsheet env) c
    else done (emit (execute_action context) c)

unfoldable pub process_instant_action : Adapter → Update → Action → Bool → Controller → Outcome
unfolding start_instant_action active_order_id
process_instant_action env update a stop_driving c = or_throw c (active_order_id c) λ id.
    start_instant_action env update (instant_context a (some stop_driving) id) (record c {
      instant_actions_ended_publish_count =
          Map.set a.action_id 0 c.instant_actions_ended_publish_count;
    })

-- The loop of `_processInstantActionChunk`, with `n` rounds from index `i` on: each reads the list
-- as the rounds before have left it, and an index past its end throws.
unfoldable pub process_instant_each : Adapter → Update → Bool → ℕ → ℕ → Controller → Outcome
unfolding process_instant_action
process_instant_each env update stop_driving i zero c = done c
process_instant_each env update stop_driving i (suc n) c =
    or_throw c (get_elem? c.current_instant_actions i)
      (λ a. process_instant_action env update a stop_driving c)
    >>= process_instant_each env update stop_driving (suc i) n

unfoldable pub run_instant_chunk : Adapter → Update → Chunk → Bool → Controller → Outcome
unfolding process_instant_each
run_instant_chunk env update k skip_initial_hard c =
    if k.stop_index == k.start
    then if skip_initial_hard then done c else elim k.hard_index [
      | none ↦ done c
      | some i ↦
          or_throw c (get_elem? c.current_instant_actions i)
            λ a. process_instant_action env update a true c
    ]
    else process_instant_each env update k.stop_driving k.start (k.stop_index - k.start) c

unfoldable pub process_instant_action_chunk :
    Adapter → Update → Option Action → Bool → Controller → Outcome
unfolding run_instant_chunk next_chunk
process_instant_action_chunk env update after skip_initial_hard c =
    run_instant_chunk env update (next_chunk after c.current_instant_actions) skip_initial_hard c

-- `splice(index, 1)`, where -1 means the last element.
abbrev pub splice_one : Option ℕ → List Action → List Action
splice_one none actions = drop_last actions
splice_one (some i) actions = remove_at i actions

-- An instant action leaves the list.
unfoldable pub drop_instant_action : Action → Controller → Controller
unfolding index_of
drop_instant_action a c = record c {
  current_instant_actions =
      splice_one (index_of a c.current_instant_actions) c.current_instant_actions;
}

-- The case `"instant"` of an ended action.
unfoldable pub on_instant_action_ended : Adapter → Update → Action → Controller → Outcome
unfolding drop_instant_action process_instant_action_chunk process_instant_action
on_instant_action_ended env update a c =
    let next_hard_action = get_hard_blocking_action_after c.current_instant_actions a in
    let all_ended = are_parallel_actions_ended c c.current_instant_actions a false in
    let rest = drop_instant_action a c in
    if is_hard a.blocking_type
    then process_instant_action_chunk env update none false rest
    else elim next_hard_action [
      | none ↦ done rest
      | some hard_action ↦
          if all_ended then process_instant_action env update hard_action true rest else done rest
    ]

-- The cases `"node"` and `"edge"`, which differ in what is processed next.
unfoldable pub on_order_action_ended :
    (Option Action → Controller → Outcome)
    → (Action → Bool → Controller → Outcome)
    → (Controller → Outcome)
    → List Action
    → Action
    → Controller
    → Outcome
unfolding cancel_if_all_ended
on_order_action_ended process_actions process_action go_on actions a c =
    if has_canceling_order c
    then cancel_if_all_ended c
    else if is_hard a.blocking_type
    then process_actions (some a) c
    else elim (get_hard_blocking_action_after actions a) [
      | none ↦ if are_parallel_actions_ended c actions a true then go_on c else done c
      | some hard_action ↦
          if are_parallel_actions_ended c actions a false
          then process_action hard_action true c
          else done c
    ]

unfoldable pub on_ended : Adapter → Update → ActionContext → Controller → Outcome
unfolding on_instant_action_ended on_order_action_ended process_node_actions process_edge_actions
on_ended env update context c = elim context.scope [
  | node_scope ↦ or_throw c context.node λ n.
      on_order_action_ended (process_node_actions n) (process_node_action n) (process_edge n)
        n.actions context.action c
  | edge_scope ↦ or_throw c context.edge λ e.
      on_order_action_ended (process_edge_actions e) (process_edge_action e) (traverse e) e.actions
        context.action c
  | instant_scope ↦ on_instant_action_ended env update context.action c
]

-- `_updateActionStatus` over its inner calls.
unfoldable pub update_with : Adapter → Update → Update
unfolding on_ended apply_status is_ended
update_with env update context change c =
    let reported = apply_status context change c in
    if is_ended change.action_status then on_ended env update context reported else done reported

unfoldable pub update_fueled : Adapter → ℕ → Update
unfolding update_with
update_fueled env zero = λ context change c. out_of_fuel
update_fueled env (suc fuel) = update_with env (update_fueled env fuel)

-- Each inner call finds one instant action less, so their number is fuel enough.
abbrev pub enough_fuel : Controller → ℕ
enough_fuel c = length c.current_instant_actions + 1

unfoldable pub update_action_status : Adapter → Update
unfolding update_fueled
update_action_status env context change c = update_fueled env (enough_fuel c) context change c
