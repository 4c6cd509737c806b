-- ===== src/Agv/Updates.antt =====
-- Changing and publishing the state: the `update…` methods, `_updateState`, `_mergeState`,
-- `_cloneState` and the comparison of errors in src/controller/agv-controller.ts.
use mathlib.Core.Option
use vda_5050_lib_js.Common.{
  Bool, List, Option, String, [], all, eq_Option, eq_String, eq_ℕ, false, find?, if◌then◌else◌,
  is_some, length, none, remove_at, some, suc, true, ℕ, ◌&&◌, ◌++◌, ◌+◌, ◌==◌, ◌∷◌,
}
use vda_5050_lib_js.Vda.{
  BatteryState, Error, ErrorLevel, ErrorReference, Json, OperatingMode, PartialState, SafetyStatus,
  State, fatal, no_fields, object, warning,
}
use vda_5050_lib_js.Agv.Controller.{Controller, Outcome, done, emit, publish_state, thrown}

abbrev pub no_changes : PartialState
no_changes = record {
  timestamp = none;
  action_states = none;
  agv_position = none;
  battery_state = none;
  distance_since_last_node = none;
  driving = none;
  edge_states = none;
  errors = none;
  information = none;
  last_node_id = none;
  last_node_sequence_id = none;
  loads = none;
  maps = none;
  new_base_request = none;
  node_states = none;
  operating_mode = none;
  order_id = none;
  order_update_id = none;
  paused = none;
  safety_state = none;
  velocity = none;
  zone_set_id = none;
}

abbrev given {ℓ} : {A : Type ℓ} → Option A → A → A
given none a = a
given (some b) a = b

abbrev given? {ℓ} : {A : Type ℓ} → Option A → Option A → Option A
given? none a = a
given? (some b) a = some b

-- A new timestamp is kept unless it is empty; otherwise the old one is deleted.
abbrev kept_timestamp : Option String → Option String
kept_timestamp none = none
kept_timestamp (some t) = if t == "" then none else some t

-- A key of the partial state overwrites that of the state.
unfoldable pub merge_state : PartialState → State → State
merge_state p s = record {
  timestamp = kept_timestamp p.timestamp;
  action_states = given p.action_states s.action_states;
  agv_position = given? p.agv_position s.agv_position;
  battery_state = given p.battery_state s.battery_state;
  distance_since_last_node = given? p.distance_since_last_node s.distance_since_last_node;
  driving = given p.driving s.driving;
  edge_states = given p.edge_states s.edge_states;
  errors = given p.errors s.errors;
  information = given? p.information s.information;
  last_node_id = given p.last_node_id s.last_node_id;
  last_node_sequence_id = given p.last_node_sequence_id s.last_node_sequence_id;
  loads = given? p.loads s.loads;
  maps = given? p.maps s.maps;
  new_base_request = given? p.new_base_request s.new_base_request;
  node_states = given p.node_states s.node_states;
  operating_mode = given p.operating_mode s.operating_mode;
  order_id = given p.order_id s.order_id;
  order_update_id = given p.order_update_id s.order_update_id;
  paused = given? p.paused s.paused;
  safety_state = given p.safety_state s.safety_state;
  velocity = given? p.velocity s.velocity;
  zone_set_id = given? p.zone_set_id s.zone_set_id;
}

-- The part of `_publishCurrentState` before it waits: the state is sent as it is now.
unfoldable pub publish_current_state : Controller → Controller
publish_current_state c = emit (publish_state c.current_state) c

unfoldable pub update_state : PartialState → Bool → Controller → Controller
unfolding publish_current_state merge_state
update_state p publish_immediately c =
    let merged = record c { current_state = merge_state p c.current_state } in
    if publish_immediately then publish_current_state merged else merged

-- A copy by way of JSON: every error in it is a new object.
unfoldable pub renumber : ℕ → List Error → List Error
renumber i [] = []
renumber i (e ∷ es) = record e { identity = i } ∷ renumber (suc i) es

unfoldable pub clone_state : PartialState → ℕ → PartialState
unfolding renumber
clone_state p i = record p { errors = Option.map (renumber i) p.errors }

abbrev pub error_count : Option (List Error) → ℕ
error_count none = 0
error_count (some es) = length es

unfoldable pub update_partial_state : PartialState → Bool → Controller → Controller
unfolding update_state clone_state
update_partial_state p report_immediately c =
    update_state (clone_state p c.next_identity) report_immediately
      (record c { next_identity = c.next_identity + error_count p.errors })

pub update_agv_position_velocity : Option Json → Option Json → Bool → Controller → Controller
unfolding update_partial_state
update_agv_position_velocity agv_position velocity =
    update_partial_state (record no_changes { agv_position = agv_position; velocity = velocity })

pub update_battery_state : BatteryState → Bool → Controller → Controller
unfolding update_partial_state
update_battery_state battery_state =
    update_partial_state (record no_changes { battery_state = some battery_state })

pub update_driving_state : Bool → Bool → Controller → Controller
unfolding update_partial_state
update_driving_state driving = update_partial_state (record no_changes { driving = some driving })

pub update_paused_state : Bool → Bool → Controller → Controller
unfolding update_partial_state
update_paused_state is_paused = update_partial_state (record no_changes { paused = some is_paused })

pub update_new_base_request : Bool → Bool → Controller → Controller
unfolding update_partial_state
update_new_base_request new_base_request =
    update_partial_state (record no_changes { new_base_request = some new_base_request })

pub update_safety_status : SafetyStatus → Bool → Controller → Controller
unfolding update_partial_state
update_safety_status safety_status =
    update_partial_state (record no_changes { safety_state = some safety_status })

pub update_operating_mode : OperatingMode → Bool → Controller → Controller
unfolding update_partial_state
update_operating_mode operating_mode =
    update_partial_state (record no_changes { operating_mode = some operating_mode })

unfoldable pub update_factsheet : Option Json → Controller → Controller
update_factsheet none c = record c { current_factsheet = object no_fields }
update_factsheet (some factsheet) c = record c { current_factsheet = factsheet }

abbrev same_level : ErrorLevel → ErrorLevel → Bool
same_level fatal fatal = true
same_level warning warning = true
same_level _ _ = false

abbrev same_reference : ErrorReference → ErrorReference → Bool
same_reference r s = s.reference_key == r.reference_key && s.reference_value == r.reference_value

-- `_areErrorReferencesEqual`.
unfoldable pub references_equal : List ErrorReference → List ErrorReference → Bool
references_equal rs ss =
    length rs == length ss && all (λ r. is_some (find? (same_reference r) ss)) rs

-- The references of an error may be missing, and reading their length then throws: `none`.
abbrev missing_or_equal : Option (List ErrorReference) → Option (List ErrorReference) → Option Bool
missing_or_equal (some rs) (some ss) = some (references_equal rs ss)
missing_or_equal _ _ = none

same_error : Error → Error → Option Bool
unfolding references_equal
same_error error e =
    if e.error_description == error.error_description
      && same_level e.error_level error.error_level
      && e.error_type == error.error_type
    then missing_or_equal e.error_references error.error_references
    else some false

abbrev found_at : Option Bool → Option (Option ℕ) → Option (Option ℕ)
found_at none rest = none
found_at (some true) rest = some (some 0)
found_at (some false) rest = Option.map (Option.map suc) rest

-- `findIndex`; the outer `none` is a throw, the inner one is -1.
unfoldable pub find_error_index : Error → List Error → Option (Option ℕ)
unfolding same_error
find_error_index error [] = some none
find_error_index error (e ∷ es) = found_at (same_error error e) (find_error_index error es)

pub data ErrorMode : Type 0 where
  add remove : ErrorMode

-- The list that `updateErrors` reports, if any.
unfoldable pub changed_errors : Error → ErrorMode → Option ℕ → List Error → Option (List Error)
changed_errors error add (some i) es = none
changed_errors error remove (some i) es = some (remove_at i es)
changed_errors error remove none es = none
changed_errors error add none es = some (es ++ error ∷ [])

abbrev pub report_errors : Option (List Error) → Bool → Controller → Controller
report_errors none report_immediately c = c
report_errors (some es) report_immediately c =
    update_partial_state (record no_changes { errors = some es }) report_immediately c

unfoldable pub update_errors : Error → ErrorMode → Bool → Controller → Outcome
unfolding find_error_index changed_errors update_partial_state
update_errors error mode report_immediately c =
    elim (find_error_index error c.current_state.errors) [
      | none ↦ thrown c
      | some index ↦ done (
          report_errors (changed_errors error mode index c.current_state.errors) report_immediately
            c)
    ]
