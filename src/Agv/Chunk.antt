-- ===== src/Agv/Chunk.antt =====
-- The choice of the actions to start next, which `_processNodeActions`, `_processEdgeActions` and
-- `_processInstantActionChunk` of src/controller/agv-controller.ts make alike, and the tests on
-- the actions that run in parallel.
use mathlib.Core.Option
use mathlib.Core.List.{reverse}
use vda_5050_lib_js.Common.{
  Bool, List, Option, [], drop, eq_Option, eq_String, eq_ℕ, false, find?, find_index?, length, ltb,
  none, not, some, suc, take, true, ℕ, ◌&&◌, ◌+◌, ◌-◌, ◌==◌, ◌||◌, ◌∷◌,
}
use vda_5050_lib_js.Vda.{Action, is_hard, is_soft}
use vda_5050_lib_js.Agv.Controller.{Controller}
use vda_5050_lib_js.Agv.Queries.{is_action_ended}

abbrev pub has_id_of : Action → Action → Bool
has_id_of a b = b.action_id == a.action_id

unfoldable pub index_of : Action → List Action → Option ℕ
index_of a actions = find_index? (has_id_of a) actions

-- `findIndex((a, i) => i >= start && p(a))`.
unfoldable pub find_from : ℕ → (Action → Bool) → List Action → Option ℕ
find_from start p actions = Option.map (λ i. start + i) (find_index? p (drop start actions))

-- `afterIndex + 1`: -1 stands for no action before, and for one that is not in the list.
abbrev pub after_start : Option Action → List Action → ℕ
after_start none actions = 0
after_start (some a) actions = elim (index_of a actions) [ none ↦ 0 | some i ↦ suc i ]

pub record Chunk : Type 0 where
  pub start : ℕ
  pub hard_index : Option ℕ
  pub stop_index : ℕ
  pub stop_driving : Bool

abbrev pub index_or : Option ℕ → ℕ → ℕ
index_or none n = n
index_or (some i) n = i

abbrev pub is_before : Option ℕ → ℕ → Bool
is_before none n = false
is_before (some i) n = ltb i n

abbrev pub chunk_from : ℕ → List Action → Chunk
chunk_from start actions =
    let hard_index = find_from start (λ a. is_hard a.blocking_type) actions in
    let stop_index = index_or hard_index (length actions) in
    record {
      start = start;
      hard_index = hard_index;
      stop_index = stop_index;
      stop_driving = is_before (find_from start (λ a. is_soft a.blocking_type) actions) stop_index;
    }

unfoldable pub next_chunk : Option Action → List Action → Chunk
unfolding index_of find_from is_hard is_soft
next_chunk after actions = chunk_from (after_start after actions) actions

-- The actions from index `start` up to `stop`.
abbrev pub slice {ℓ} : {A : Type ℓ} → ℕ → ℕ → List A → List A
slice start stop xs = take (stop - start) (drop start xs)

-- `_getHardBlockingActionAfterParallelActions`.
unfoldable pub get_hard_blocking_action_after : List Action → Action → Option Action
unfolding index_of is_hard
get_hard_blocking_action_after actions a =
    find? (λ b. is_hard b.blocking_type) (drop (after_start (some a) actions) actions)

-- One of the two loops of `_areParallelActionsEnded`, over the actions in the order of its visits.
unfoldable pub ended_up_to_hard : Controller → Bool → List Action → Bool
unfolding is_hard is_soft is_action_ended
ended_up_to_hard c soft_only [] = true
ended_up_to_hard c soft_only (a ∷ actions) =
    is_hard a.blocking_type
    || ((soft_only && not (is_soft a.blocking_type)) || is_action_ended c a)
      && ended_up_to_hard c soft_only actions

abbrev before_index : Option ℕ → List Action → List Action
before_index none actions = []
before_index (some i) actions = reverse (take i actions)

-- `_areParallelActionsEnded`: the actions before the ended one, backwards, and those behind it,
-- each up to the next hard one.
unfoldable pub are_parallel_actions_ended : Controller → List Action → Action → Bool → Bool
unfolding ended_up_to_hard index_of
are_parallel_actions_ended c actions ended_action soft_only =
    ended_up_to_hard c soft_only (before_index (index_of ended_action actions) actions)
    && ended_up_to_hard c soft_only (drop (after_start (some ended_action) actions) actions)
