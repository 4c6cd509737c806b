-- ===== src/Mqtt/Subscriptions/Undispatch.antt =====
-- What `remove` changes in what `find` yields, and both operations together.
use vda_5050_lib_js.Common.Map
use vda_5050_lib_js.Common.{
  Bool-cases, In, Option, Option-cases, String, ap, eq_Option, eq_String, eq_ℕ, false, inl, inr,
  is_some, none, refl, some, sym, ◌↔◌, ◌∙◌, ◌≡◌, ◌≢◌, ◌⊎◌,
}
use vda_5050_lib_js.Common.Map.{Map}
use vda_5050_lib_js.Mqtt.Subscriptions.{
  Path3, SubscriptionManager, added, find_handlers, handlers_at, put_handlers, remove,
  remove_at_path,
}
use vda_5050_lib_js.Mqtt.Subscriptions.Paths.{at-put_ne, at-put_self}
use vda_5050_lib_js.Mqtt.Subscriptions.Found.{Matches, find_iff}
use vda_5050_lib_js.Mqtt.Subscriptions.Entries.{In-known, delete-In, path_cases}
use vda_5050_lib_js.Mqtt.Subscriptions.Dispatch.{IsConsistent, added-IsConsistent, added-find}

none_of_is_some : {A : Type 0} (o : Option A) → is_some o ≡ false → o ≡ none
none_of_is_some none e = refl
none_of_is_some (some a) e = cc

module _ {H : Type 0} (id : String) (m : SubscriptionManager H) (ok : IsConsistent m) where
  abbrev LeavesOut : SubscriptionManager H → Type 0
  LeavesOut m' =
      (q : Path3) (x : String × H)
      → In x (handlers_at q m'.subscriptions).handlers
        ↔ (In x (handlers_at q m.subscriptions).handlers × (x.0 ≢ id))

  -- Nothing is to be removed.
  unchanged :
      ((q : Path3) (x : String × H) → In x (handlers_at q m.subscriptions).handlers → x.0 ≢ id)
      → LeavesOut m
  unchanged other q x = (λ i. (i, other q x i), λ (i, d). i)

  not_known : Map.get id m.subscription_ids ≡ none → LeavesOut m
  not_known e = unchanged λ q x i same.
      let there = ok.referred q x i in
      let here : Map.get id m.subscription_ids ≡ some q =
        ap (λ k. Map.get k m.subscription_ids) (sym same) ∙ there in
      let clash : none ≡ some q = sym e ∙ here in cc

  module _ (p : Path3) (known : Map.get id m.subscription_ids ≡ some p) where
    abbrev old : Map String H
    old = (handlers_at p m.subscriptions).handlers

    at_path :
        (q : Path3) (x : String × H)
        → In x (handlers_at q m.subscriptions).handlers
        → x.0 ≡ id
        → p ≡ q
    at_path q x i same =
        let there = ok.referred q x i in
        let both : some p ≡ some q =
          sym known ∙ ap (λ k. Map.get k m.subscription_ids) (sym same) ∙ there in
        cc

    gone_before : Map.has id old ≡ false → LeavesOut m
    unfolding Map.has
    gone_before e = unchanged λ q x i same.
        let path = at_path q x i same in
        let here : In x old = rw path i in
        let missing : Map.get x.0 old ≡ none = rw same (none_of_is_some (Map.get id old) e) in
        In-known x old here missing

    abbrev left : SubscriptionManager H
    left = record m {
      subscriptions =
          put_handlers p (record (handlers_at p m.subscriptions) { handlers = Map.delete id old })
            m.subscriptions;
    }

    taken : LeavesOut left
    taken q x = elim (path_cases p q) [
      | inl same ↦
          let here : (handlers_at q left.subscriptions).handlers ≡ Map.delete id old =
            ap (λ r. (handlers_at r left.subscriptions).handlers) (sym same)
            ∙ ap (λ k. k.handlers) (at-put_self p _ m.subscriptions) in
          let before : (handlers_at q m.subscriptions).handlers ≡ old =
            ap (λ r. (handlers_at r m.subscriptions).handlers) (sym same) in
          rw (here, before) (delete-In id x old (ok.distinct p))
      | inr d ↦
          let there : (handlers_at q left.subscriptions).handlers
              ≡ (handlers_at q m.subscriptions).handlers =
            ap (λ k. k.handlers) (at-put_ne p _ m.subscriptions q d) in
          rw there (λ i. (i, λ same. d (at_path q x i same)), λ (i, _). i)
    ]

    at_path-left : LeavesOut (remove_at_path id p m).1
    at_path-left = elim (Bool-cases (Map.has id old)) [
      | inl e ↦ simp e taken
      | inr e ↦ simp e (gone_before e)
    ]

  pub removed-at : LeavesOut (remove id m).1
  unfolding remove
  removed-at = elim (Option-cases (Map.get id m.subscription_ids)) [
    | inl e ↦ rw (e, remove) (not_known e)
    | inr (p, e) ↦ rw (e, remove) (at_path-left p e)
  ]

  pub removed-find :
      (x : String × H) (r : Path3)
      → In x (find_handlers r (remove id m).1.subscriptions)
        ↔ (In x (find_handlers r m.subscriptions) × (x.0 ≢ id))
  removed-find x r =
      let (to, from) = find_iff x r (remove id m).1.subscriptions in
      let (to_old, from_old) = find_iff x r m.subscriptions in
      (
        λ i.
            let (q, matches, k) = to i in
            let (a, d) = (removed-at q x).0 k in (from_old (q, matches, a), d),
        λ (i, d). let (q, matches, k) = to_old i in from (q, matches, (removed-at q x).1 (k, d)),
      )

-- A subscription's handler is found for exactly the topics that match it, from its addition under
-- a new id until its removal; all other handlers are found as before, at both times.
pub dispatch_iff :
    {H : Type 0} (id : String) (p r : Path3) (h : H) (m : SubscriptionManager H) (x : String × H)
    → IsConsistent m
    → Map.get id m.subscription_ids ≡ none
    → (In x (find_handlers r (added id p h m).1.subscriptions)
        ↔ (In x (find_handlers r m.subscriptions) ⊎ ((x ≡ (id, h)) × Matches p r)))
      × (In x (find_handlers r (remove id (added id p h m).1).1.subscriptions)
          ↔ (In x (find_handlers r (added id p h m).1.subscriptions) × (x.0 ≢ id)))
      × IsConsistent (added id p h m).1
dispatch_iff id p r h m x ok fresh = (
  added-find id p h m ok fresh x r,
  removed-find id (added id p h m).1 (added-IsConsistent id p h m ok fresh) x r,
  added-IsConsistent id p h m ok fresh,
)
