-- ===== src/Master/Edges/Agreement.antt =====
-- When two statuses of an edge agree: the comparisons of `_updateEdgeStateChanges` of src/
-- controller/master-controller.ts.
use mathlib.Core.Option
use vda_5050_lib_js.Common.{
  ==_of_eq, Bool, Option, arith, eq_Bool, eq_Option, eq_String, eq_of_==, eq_ℕ, false, inl, inr,
  is_some, none, not, opt_eq, refl, some, true, ◌==◌, ◌||◌, ◌↔◌, ◌≡◌, ◌⊎◌,
}
use vda_5050_lib_js.Vda.{EStop, Json, OperatingMode, SafetyStatus, eq_AgvId}
use vda_5050_lib_js.Master.Controller.{EdgeStateChanges, EdgeStatus, Environment}
use vda_5050_lib_js.Master.Edges.{
  delta, has_changes, new_deltas, overwritten, same_mode, stop_number,
}

-- The values agree, numbers by their comparison.
pub record Agree (env : Environment) (x y : EdgeStatus) : Type 0 where
  pub distance : opt_eq env.same_number x.distance_since_last_node y.distance_since_last_node ≡ true
  pub driving : x.driving ≡ y.driving
  pub new_base_request : x.new_base_request ≡ y.new_base_request
  pub operating_mode : x.operating_mode ≡ y.operating_mode
  pub paused : x.paused ≡ y.paused
  pub e_stop : x.safety_state.e_stop ≡ y.safety_state.e_stop
  pub field_violation : x.safety_state.field_violation ≡ y.safety_state.field_violation

same_mode_iff : (a b : OperatingMode) → (same_mode a b ≡ true) ↔ (a ≡ b)
same_mode_iff a b = (forth a b, λ e. rw e (back b))
  where
    forth : (a b : OperatingMode) → same_mode a b ≡ true → a ≡ b
    forth a b h = ground arith

    back : (b : OperatingMode) → same_mode b b ≡ true
    back b = ground arith

same_stop_iff : (a b : EStop) → (stop_number a == stop_number b ≡ true) ↔ (a ≡ b)
same_stop_iff a b = (forth a b, λ e. rw e (back b))
  where
    forth : (a b : EStop) → stop_number a == stop_number b ≡ true → a ≡ b
    forth a b h = ground arith

    back : (b : EStop) → stop_number b == stop_number b ≡ true
    back b = ground arith

safety_split : (p q : Bool) → not (not p || not q) ≡ true → (p ≡ true) × (q ≡ true)
safety_split true true h = (refl, refl)
safety_split true false h = cc
safety_split false q h = cc

safety_join : (p q : Bool) → p ≡ true → q ≡ true → not (not p || not q) ≡ true
safety_join p q e f = rw (e, f) refl

-- One key: it is there exactly if the test fails.
delta-none {ℓ} : {A : Type ℓ} (b : Bool) (a : A) → is_some (delta b a) ≡ false → b ≡ true
delta-none true a h = refl
delta-none false a h = cc

delta-same {ℓ} : {A : Type ℓ} (b : Bool) (a : A) → b ≡ true → is_some (delta b a) ≡ false
delta-same b a e = rw e refl

-- The value that is kept: the old one if it is the same, and else the new one.
delta-kept {ℓ κ} :
    {A : Type ℓ} (P : A → Type κ) (b : Bool) (new old : A)
    → (b ≡ true → P old)
    → P new
    → P (Option.get_or (delta b new) old)
delta-kept P true new old h n = h refl
delta-kept P false new old h n = n

none_of :
    (a b c d e f : Bool)
    → (a || b || c || d || e || f) ≡ false
    → (a ≡ false) × (b ≡ false) × (c ≡ false) × (d ≡ false) × (e ≡ false) × (f ≡ false)
none_of a b c d e f h = ground arith

all_false :
    (a b c d e f : Bool)
    → a ≡ false
    → b ≡ false
    → c ≡ false
    → d ≡ false
    → e ≡ false
    → f ≡ false
    → (a || b || c || d || e || f) ≡ false
all_false a b c d e f p q r s t u = rw (p, q, r, s, t, u) refl

opt_eq_refl :
    (f : Json → Json → Bool) → ((j : Json) → f j j ≡ true) → (o : Option Json) → opt_eq f o o ≡ true
opt_eq_refl f h none = refl
opt_eq_refl f h (some j) = h j

-- One key of the changes: left out where the values are the same, and else with the new value.
abbrev pub IsDelta : {A : Type 0} → Type 0 → A → Option A → Type 0
IsDelta Same new d = ((d ≡ none) × Same) ⊎ ((d ≡ some new) × (¬ Same))

-- Exactly the keys whose values differ, with the new values.
pub record AreDeltas (env : Environment) (x y : EdgeStatus) (d : EdgeStateChanges) : Type 0 where
  pub distance :
      IsDelta
        (opt_eq env.same_number x.distance_since_last_node y.distance_since_last_node ≡ true)
        y.distance_since_last_node
        d.distance_since_last_node
  pub driving : IsDelta (x.driving ≡ y.driving) y.driving d.driving
  pub new_base_request :
      IsDelta (x.new_base_request ≡ y.new_base_request) y.new_base_request d.new_base_request
  pub operating_mode :
      IsDelta (x.operating_mode ≡ y.operating_mode) y.operating_mode d.operating_mode
  pub paused : IsDelta (x.paused ≡ y.paused) y.paused d.paused
  pub safety_state :
      IsDelta
        ((x.safety_state.e_stop ≡ y.safety_state.e_stop)
          × (x.safety_state.field_violation ≡ y.safety_state.field_violation))
        y.safety_state
        d.safety_state

delta-IsDelta :
    {A : Type 0} (Same : Type 0) (b : Bool) (new : A)
    → (b ≡ true) ↔ Same
    → IsDelta Same new (delta b new)
delta-IsDelta Same true new h = inl (refl, h.0 refl)
delta-IsDelta Same false new h = inr (refl, λ same. let t = h.1 same in absurd (cc))

module _ (env : Environment) (old new : EdgeStatus) where
  pub new_deltas-AreDeltas : AreDeltas env old new (new_deltas env old new)
  unfolding new_deltas
  new_deltas-AreDeltas = record {
    distance = delta-IsDelta _ _ _ (λ e. e, λ e. e);
    driving =
        delta-IsDelta _ _ _ (eq_of_== old.driving new.driving, ==_of_eq old.driving new.driving);
    new_base_request = delta-IsDelta _ _ _ (
      eq_of_== old.new_base_request new.new_base_request,
      ==_of_eq old.new_base_request new.new_base_request,
    );
    operating_mode = delta-IsDelta _ _ _ (same_mode_iff old.operating_mode new.operating_mode);
    paused = delta-IsDelta _ _ _ (eq_of_== old.paused new.paused, ==_of_eq old.paused new.paused);
    safety_state = delta-IsDelta _ _ _ (
      λ e.
          let (stop, violation) = safety_split _ _ e in
          (
            (same_stop_iff old.safety_state.e_stop new.safety_state.e_stop).0 stop,
            eq_of_== old.safety_state.field_violation new.safety_state.field_violation violation,
          ),
      λ (stop, violation).
          safety_join _ _ ((same_stop_iff old.safety_state.e_stop new.safety_state.e_stop).1 stop)
            (==_of_eq old.safety_state.field_violation new.safety_state.field_violation violation),
    );
  }

  pub unchanged-Agree : has_changes (new_deltas env old new) ≡ false → Agree env old new
  unfolding new_deltas
  unchanged-Agree h =
      let (a, b, c, d, e, f) = none_of _ _ _ _ _ _ h in
      let (stop, violation) = safety_split _ _ (delta-none _ _ f) in
      record {
        distance = delta-none _ _ a;
        driving = eq_of_== old.driving new.driving (delta-none _ _ b);
        new_base_request = eq_of_== old.new_base_request new.new_base_request (delta-none _ _ c);
        operating_mode = (same_mode_iff old.operating_mode new.operating_mode).0 (delta-none _ _ d);
        paused = eq_of_== old.paused new.paused (delta-none _ _ e);
        e_stop = (same_stop_iff old.safety_state.e_stop new.safety_state.e_stop).0 stop;
        field_violation =
            eq_of_== old.safety_state.field_violation new.safety_state.field_violation violation;
      }

  pub Agree-unchanged : Agree env old new → has_changes (new_deltas env old new) ≡ false
  unfolding new_deltas
  Agree-unchanged h =
      all_false _ _ _ _ _ _ (delta-same _ _ h.distance)
        (delta-same _ _ (==_of_eq old.driving new.driving h.driving))
        (delta-same _ _ (==_of_eq old.new_base_request new.new_base_request h.new_base_request))
        (delta-same _ _ ((same_mode_iff old.operating_mode new.operating_mode).1 h.operating_mode))
        (delta-same _ _ (==_of_eq old.paused new.paused h.paused))
        (delta-same _ _ (
          safety_join _ _
            ((same_stop_iff old.safety_state.e_stop new.safety_state.e_stop).1 h.e_stop)
            (==_of_eq old.safety_state.field_violation new.safety_state.field_violation
              h.field_violation)))

  -- What is kept afterwards agrees with the new values.
  pub overwritten-Agree :
      ((j : Json) → env.same_number j j ≡ true)
      → Agree env (overwritten (new_deltas env old new) old) new
  unfolding new_deltas
  overwritten-Agree reflexive = record {
    distance =
        delta-kept (λ x. opt_eq env.same_number x new.distance_since_last_node ≡ true) _
          new.distance_since_last_node old.distance_since_last_node (λ e. e)
          (opt_eq_refl env.same_number reflexive new.distance_since_last_node);
    driving =
        delta-kept (λ x. x ≡ new.driving) _ new.driving old.driving
          (eq_of_== old.driving new.driving) refl;
    new_base_request =
        delta-kept (λ x. x ≡ new.new_base_request) _ new.new_base_request old.new_base_request
          (eq_of_== old.new_base_request new.new_base_request) refl;
    operating_mode =
        delta-kept (λ x. x ≡ new.operating_mode) _ new.operating_mode old.operating_mode
          (λ e. (same_mode_iff old.operating_mode new.operating_mode).0 e) refl;
    paused =
        delta-kept (λ x. x ≡ new.paused) _ new.paused old.paused (eq_of_== old.paused new.paused)
          refl;
    e_stop =
        delta-kept (λ (x : SafetyStatus). x.e_stop ≡ new.safety_state.e_stop) _ new.safety_state
          old.safety_state
          (λ e.
            (same_stop_iff old.safety_state.e_stop new.safety_state.e_stop).0
              (safety_split _ _ e).0)
          refl;
    field_violation =
        delta-kept (λ (x : SafetyStatus). x.field_violation ≡ new.safety_state.field_violation) _
          new.safety_state old.safety_state
          (λ e.
            eq_of_== old.safety_state.field_violation new.safety_state.field_violation
              (safety_split _ _ e).1)
          refl;
  }
