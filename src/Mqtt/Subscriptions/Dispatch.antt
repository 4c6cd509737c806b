-- ===== src/Mqtt/Subscriptions/Dispatch.antt =====
-- What `add` and `remove` change in what `find` yields.
use vda_5050_lib_js.Common.Map
use vda_5050_lib_js.Common.{
  In, Option-cases, String, ap, eq_Option, eq_String, eq_ℕ, inl, inr, none, refl, some, sym, ◌↔◌,
  ◌∙◌, ◌≡◌, ◌≢◌, ◌⊎◌,
}
use vda_5050_lib_js.Common.Map.{IsMap, Map, get-set_ne, get-set_self, set-IsMap}
use vda_5050_lib_js.Mqtt.Subscriptions.{
  Path3, SubscriptionManager, added, find_handlers, handlers_at,
}
use vda_5050_lib_js.Mqtt.Subscriptions.Paths.{at-put_ne, at-put_self}
use vda_5050_lib_js.Mqtt.Subscriptions.Found.{Matches, find_iff}
use vda_5050_lib_js.Mqtt.Subscriptions.Entries.{get-In, path_cases, set-In}

-- A handler stands at the path that its id refers to, and once there.
pub record IsConsistent {H : Type 0} (m : SubscriptionManager H) : Type 0 where
  pub referred :
      (q : Path3) (x : String × H)
      → In x (handlers_at q m.subscriptions).handlers
      → Map.get x.0 m.subscription_ids ≡ some q
  pub distinct : (q : Path3) → IsMap (handlers_at q m.subscriptions).handlers

module _ {H : Type 0} (id : String) (p : Path3) (h : H) (m : SubscriptionManager H)
    (ok : IsConsistent m) (fresh : Map.get id m.subscription_ids ≡ none) where
  abbrev old : Map String H
  old = (handlers_at p m.subscriptions).handlers

  abbrev after : SubscriptionManager H
  after = (added id p h m).1

  not_there : (q : Path3) (v : H) → In (id, v) (handlers_at q m.subscriptions).handlers → ⊥
  not_there q v i = let t = ok.referred q (id, v) i in cc

  unknown : Map.get id old ≡ none
  unknown = elim (Option-cases (Map.get id old)) [
    | inl e ↦ e
    | inr (v, e) ↦ absurd (not_there p v (get-In id v old e))
  ]

  added_here : (handlers_at p after.subscriptions).handlers ≡ Map.set id h old
  unfolding added
  added_here = ap (λ k. k.handlers) (at-put_self p _ m.subscriptions)

  added_there :
      (q : Path3) → p ≢ q → handlers_at q after.subscriptions ≡ handlers_at q m.subscriptions
  unfolding added
  added_there q d = at-put_ne p _ m.subscriptions q d

  In-added :
      (q : Path3) (x : String × H)
      → In x (handlers_at q after.subscriptions).handlers
        ↔ (In x (handlers_at q m.subscriptions).handlers ⊎ ((x ≡ (id, h)) × (q ≡ p)))
  In-added q x = elim (path_cases p q) [
    | inl same ↦
        let (to, from) = set-In id h x old unknown in
        let here : (handlers_at q after.subscriptions).handlers ≡ Map.set id h old =
          ap (λ r. (handlers_at r after.subscriptions).handlers) (sym same) ∙ added_here in
        let before : (handlers_at q m.subscriptions).handlers ≡ old =
          ap (λ r. (handlers_at r m.subscriptions).handlers) (sym same) in
        (
          λ i. elim (to (rw here at i)) [ inl a ↦ inl (rw before a) | inr b ↦ inr (b, sym same) ],
          λ i. rw here (elim i [ inl a ↦ from (inl (rw before at a)) | inr (b, _) ↦ from (inr b) ]),
        )
    | inr d ↦
        let there = ap (λ k. k.handlers) (added_there q d) in
        (
          λ i. inl (rw there at i),
          λ i. elim i [ inl a ↦ rw there a | inr (_, same) ↦ absurd (d (sym same)) ],
        )
  ]

  pub added-find :
      (x : String × H) (r : Path3)
      → In x (find_handlers r after.subscriptions)
        ↔ (In x (find_handlers r m.subscriptions) ⊎ ((x ≡ (id, h)) × Matches p r))
  added-find x r =
      let (to, from) = find_iff x r after.subscriptions in
      let (to_old, from_old) = find_iff x r m.subscriptions in
      (
        λ i.
            let (q, matches, k) = to i in
            elim ((In-added q x).0 k) [
              | inl a ↦ inl (from_old (q, matches, a))
              | inr (b, same) ↦ inr (b, rw same at matches)
            ],
        λ i. elim i [
          | inl a ↦ let (q, matches, k) = to_old a in from (q, matches, (In-added q x).1 (inl k))
          | inr (b, matches) ↦ from (p, matches, (In-added p x).1 (inr (b, refl)))
        ],
      )

  ids_after : after.subscription_ids ≡ Map.set id p m.subscription_ids
  unfolding added
  ids_after = refl

  pub added-IsConsistent : IsConsistent after
  unfolding added
  added-IsConsistent = record {
    referred = λ q x i. elim ((In-added q x).0 i) [
      | inl a ↦
          let before = ok.referred q x a in
          Map.get-set_ne id x.0 p m.subscription_ids (λ same.
            let known : Map.get id m.subscription_ids ≡ some q =
              ap (λ k. Map.get k m.subscription_ids) same ∙ before in
            let clash : none ≡ some q = sym fresh ∙ known in cc)
          ∙ before
      | inr (b, same) ↦
          let key : x.0 ≡ id = ap (λ (y : String × H). y.0) b in
          ap (λ k. Map.get k after.subscription_ids) key
          ∙ Map.get-set_self id p m.subscription_ids
          ∙ ap some (sym same)
    ];
    distinct = λ q. elim (path_cases p q) [
      | inl same ↦
          let here : (handlers_at q after.subscriptions).handlers ≡ Map.set id h old =
            ap (λ r. (handlers_at r after.subscriptions).handlers) (sym same) ∙ added_here in
          rw here (Map.set-IsMap id h old (ok.distinct p))
      | inr d ↦ rw (added_there q d) (ok.distinct q)
    ];
  }
