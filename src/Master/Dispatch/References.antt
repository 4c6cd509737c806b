-- ===== src/Master/Dispatch/References.antt =====
-- The error references of a refused order: `_rejectOrder` of src/controller/agv-controller.ts, read
-- by `_dispatchState` of src/controller/master-controller.ts.
use vda_5050_lib_js.Agv.ErrorType
use vda_5050_lib_js.Common.{
  ==_refl, Bool, Bool-cases, List, String, [], any, ap, arith, eq_Bool, eq_Option, eq_String,
  eq_iff, eq_ℕ, false, filter, inl, inr, none, not, refl, some, ℕ, ◌==◌, ◌∙◌, ◌∷◌, ◌≡◌, ◌⊎◌,
}
use vda_5050_lib_js.Vda.{AgvId, Error, ErrorReference, Order, eq_AgvId}
use vda_5050_lib_js.Common.Decimal.{to_string}
use vda_5050_lib_js.Common.Decimal.RoundTrip.{parse_int-to_string}
use vda_5050_lib_js.Agv.Faults.{create_order_error, ref, ref_key_error_description_detail, refs_of}
use vda_5050_lib_js.Master.Controller.{MasterController}
use vda_5050_lib_js.Master.Queries.{references}
use vda_5050_lib_js.Master.Caches.{get_order_state_cache}
use vda_5050_lib_js.Master.Dispatch.{
  cache_at, is_action_error, last_value, rejected_by, rejected_cache,
}

-- No reference has the key.
abbrev pub Without : String → List ErrorReference → Type 0
Without key refs = any (λ r. r.reference_key == key) refs ≡ false

pub last_value-Without :
    (key : String) (refs : List ErrorReference) → Without key refs → last_value key refs ≡ none
unfolding last_value
last_value-Without key [] h = refl
last_value-Without key (r ∷ rs) h =
    let later : Without key rs = ground arith in
    let other : (r.reference_key == key) ≡ false = ground arith in
    rw (last_value-Without key rs later, last_value) (rw other refl)

filter-Without :
    (p : ErrorReference → Bool) (key : String) (refs : List ErrorReference)
    → Without key refs
    → Without key (filter p refs)
filter-Without p key [] h = refl
filter-Without p key (r ∷ rs) h =
    let later : Without key rs = ground arith in
    let other : (r.reference_key == key) ≡ false = ground arith in
    elim (Bool-cases (p r)) [
      | inl e ↦ rw e (rw other (filter-Without p key rs later))
      | inr e ↦ rw e (filter-Without p key rs later)
    ]

-- The references that an adapter or a check adds do not stand for those of the order itself, and
-- name an action in an error of type orderError only.
pub record AreDetails (type : String) (refs : List ErrorReference) : Type 0 where
  pub topic : Without "topic" refs
  pub order_id : Without "orderId" refs
  pub order_update_id : Without "orderUpdateId" refs
  pub action : Without "actionId" refs ⊎ (type ≡ ErrorType.order)

module _ (order : Order) (type text : String) (refs : List ErrorReference) (i : ℕ)
    (h : AreDetails type refs) where
  abbrev order_error : Error
  order_error = create_order_error (refs_of order) type text refs i

  abbrev pub details : List ErrorReference
  details = filter (λ r. not (r.reference_key == ref_key_error_description_detail)) refs

  abbrev all_refs : List ErrorReference
  all_refs =
      ref "topic" "order"
      ∷ ref "headerId" (to_string order.header.header_id)
      ∷ ref "orderId" order.order_id
      ∷ ref "orderUpdateId" (to_string order.order_update_id)
      ∷ details

  all_refs_lem : references order_error ≡ all_refs
  unfolding create_order_error refs_of
  all_refs_lem = refl

  pub type_lem : order_error.error_type ≡ type
  unfolding create_order_error
  type_lem = refl

  topic_found : last_value "topic" all_refs ≡ some "order"
  unfolding last_value
  topic_found =
      rw (last_value-Without "topic" details (filter-Without _ "topic" refs h.topic), last_value)
        refl

  order_id_found : last_value "orderId" all_refs ≡ some order.order_id
  unfolding last_value
  order_id_found =
      rw
        (
          last_value-Without "orderId" details (filter-Without _ "orderId" refs h.order_id),
          last_value,
        )
        refl

  order_update_id_found :
      last_value "orderUpdateId" all_refs ≡ some (to_string order.order_update_id)
  unfolding last_value
  order_update_id_found =
      rw
        (
          last_value-Without "orderUpdateId" details
              (filter-Without _ "orderUpdateId" refs h.order_update_id),
          last_value,
        )
        refl

  no_action_error : is_action_error type all_refs ≡ false
  no_action_error = elim h.action [
    | inl plain ↦ rw (filter-Without _ "actionId" refs plain) refl
    | inr typed ↦ let same = ==_refl type in ground (arith, eq_iff type ErrorType.order)
  ]

  -- The error of a refused order leads to the cache of that order.
  pub rejected_cache-order_error :
      (a : AgvId) (c : MasterController)
      → rejected_cache a order_error c
        ≡ get_order_state_cache a order.order_id order.order_update_id c
  unfolding rejected_cache create_order_error refs_of
  rejected_cache-order_error a c =
      ap
        (λ x.
          rejected_by a type x (last_value "topic" all_refs) (last_value "orderId" all_refs)
            (last_value "orderUpdateId" all_refs) c)
        no_action_error
      ∙ ap
          (λ x.
            rejected_by a type false x (last_value "orderId" all_refs)
              (last_value "orderUpdateId" all_refs) c)
          topic_found
      ∙ ap (λ x. rejected_by a type false (some "order") x (last_value "orderUpdateId" all_refs) c)
          order_id_found
      ∙ ap (λ x. rejected_by a type false (some "order") (some order.order_id) x c)
          order_update_id_found
      ∙ ap (λ x. cache_at a order.order_id x c) (parse_int-to_string order.order_update_id)
