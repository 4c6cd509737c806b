-- ===== src/Mqtt/Subscriptions/Topics.antt =====
-- The topics that `getAll` of src/common/subscription-manager.ts collects.
use mathlib.Core.Option
use vda_5050_lib_js.Common.Map
use vda_5050_lib_js.Common.{
  Bool-cases, In, In-append, List, Option, Option-cases, String, [], ap, arith, eq_Bool, eq_Option,
  eq_String, eq_of_==, eq_ℕ, false, flat_map, if◌then◌else◌, inl, inr, length, map, none, refl,
  some, sym, ◌==◌, ◌∙◌, ◌∷◌, ◌≡◌,
}
use vda_5050_lib_js.Vda.{eq_AgvId}
use vda_5050_lib_js.Common.Map.{Map}
use vda_5050_lib_js.Mqtt.Subscriptions.{
  Handlers, Key, Path3, SubscriptionManager, added, clear, get_all, get_mqtt_topic, handlers_at,
  no_handlers, put_handlers, remove, topic_of, under,
}
use vda_5050_lib_js.Mqtt.Subscriptions.Paths.{at-put_ne, at-put_self}
use vda_5050_lib_js.Mqtt.Subscriptions.Entries.{path_cases}

In-flat_map :
    {A B : Type 0} (f : A → List B) (a : A) (b : B) (l : List A)
    → In a l
    → In b (f a)
    → In b (flat_map f l)
In-flat_map f a b [] i h = absurd i
In-flat_map f a b (x ∷ l) (inl e) i =
    let here : In b (f x) = rw⁻¹ e i in (In-append b (f x) (flat_map f l)).1 (inl here)
In-flat_map f a b (x ∷ l) (inr j) i =
    (In-append b (f x) (flat_map f l)).1 (inr (In-flat_map f a b l j i))

pub In-map : {A B : Type 0} (f : A → B) (a : A) (l : List A) → In a l → In (f a) (map f l)
In-map f a [] i = absurd i
In-map f a (x ∷ l) (inl e) = inl (ap f e)
In-map f a (x ∷ l) (inr i) = inr (In-map f a l i)

get-entry : {V : Type 0} (k : Key) (v : V) (l : Map Key V) → Map.get k l ≡ some v → In (k, v) l
unfolding Map.get
get-entry k v [] e = cc
get-entry k v ((j, w) ∷ l) e = elim (Bool-cases (j == k)) [
  | inl same ↦
      let keys : j ≡ k = eq_of_== j k same in
      let values : some w ≡ some v = simp same at e in
      let value : w ≡ v = cc in inl (λ i. (sym keys i, sym value i))
  | inr other ↦ let later : Map.get k l ≡ some v = simp other at e in inr (get-entry k v l later)
]

In-delete :
    {V : Type 0} (k : String) (x : String × V) (l : Map String V) → In x (Map.delete k l) → In x l
unfolding Map.delete
In-delete k x [] i = i
In-delete k x ((j, w) ∷ l) i = elim (Bool-cases (j == k)) [
  | inl same ↦ inr (simp same at i)
  | inr other ↦ elim (simp other at i) [ inl a ↦ inl a | inr b ↦ inr (In-delete k x l b) ]
]

-- A path with a handler has its MQTT topic.
abbrev pub HasTopics : {H : Type 0} → SubscriptionManager H → Type 0
HasTopics {H} m =
    (q : Path3) (x : String × H)
    → In x (handlers_at q m.subscriptions).handlers
    → (handlers_at q m.subscriptions).mqtt_topic ≡ some (get_mqtt_topic m.format q)

-- One level of the walk.
In-level :
    {V : Type 0} (g : V → List String) (k : Key) (d : V) (b : String) (l : Map Key V)
    → (In b (g d) → ⊥)
    → In b (g (Option.get_or (Map.get k l) d))
    → In b (flat_map (λ (e : Key × V). g e.1) l)
In-level g k d b l h i = elim (Option-cases (Map.get k l)) [
  | inl e ↦ absurd (h (rw e at i))
  | inr (v, e) ↦ In-flat_map (λ e. g e.1) (k, v) b l (get-entry k v l e) (rw e at i)
]

module _ {H : Type 0} (topic : String) (x : String × H) where
  In-topic_of :
      (l : Map String H) (o : Option String)
      → In x l
      → o ≡ some topic
      → In topic (topic_of (record { handlers = l; mqtt_topic = o }))
  In-topic_of [] o i e = absurd i
  In-topic_of (y ∷ l) none i e = absurd (cc)
  In-topic_of (y ∷ l) (some t) i e =
      let positive : (length (y ∷ l) == 0) ≡ false = ground arith in
      let same : t ≡ topic = cc in simp positive (inl (sym same))

  abbrev of_manufacturers : Map Key (Handlers H) → List String
  of_manufacturers s = flat_map (λ (k : Key × Handlers H). topic_of k.1) s

  abbrev of_serial_numbers : Map Key (Map Key (Handlers H)) → List String
  of_serial_numbers t = flat_map (λ (s : Key × Map Key (Handlers H)). of_manufacturers s.1) t

  pub get_all-In :
      (q : Path3) (m : SubscriptionManager H)
      → In x (handlers_at q m.subscriptions).handlers
      → (handlers_at q m.subscriptions).mqtt_topic ≡ some topic
      → In topic (get_all m)
  unfolding get_all handlers_at
  get_all-In q m i e =
      let h = handlers_at q m.subscriptions in
      let serials = under q.topic m.subscriptions in
      In-level of_serial_numbers q.topic [] topic m.subscriptions (λ k. k)
        (In-level of_manufacturers q.serial_number [] topic serials (λ k. k)
          (In-level topic_of q.manufacturer no_handlers topic (under q.serial_number serials)
            (λ k. k) (In-topic_of h.handlers h.mqtt_topic i e)))

module _ {H : Type 0} (m : SubscriptionManager H) (ok : HasTopics m) where
  -- The first handler brings the topic, and with an earlier one it is there.
  topic-there :
      (id topic : String) (h : H) (l : Map String H) (old : Option String)
      → ((x : String × H) → In x l → old ≡ some topic)
      → (if length (Map.set id h l) == 1 then some topic else old) ≡ some topic
  unfolding Map.set
  topic-there id topic h [] old k = refl
  topic-there id topic h (y ∷ l) old k = elim (Bool-cases (length (Map.set id h (y ∷ l)) == 1)) [
    | inl e ↦ simp e
    | inr e ↦ simp e (k y (inl refl))
  ]

  -- Handlers are put at a path with the topic of the path.
  put-HasTopics :
      (p : Path3) (l : Handlers H)
      → ((x : String × H) → In x l.handlers → l.mqtt_topic ≡ some (get_mqtt_topic m.format p))
      → HasTopics (record m { subscriptions = put_handlers p l m.subscriptions })
  put-HasTopics p l right q x i = elim (path_cases p q) [
    | inl same ↦
        let here : handlers_at q (put_handlers p l m.subscriptions) ≡ l =
          ap (λ r. handlers_at r (put_handlers p l m.subscriptions)) (sym same)
          ∙ at-put_self p l m.subscriptions in
        ap (λ k. k.mqtt_topic) here
        ∙ right x (rw here at i)
        ∙ ap (λ r. some (get_mqtt_topic m.format r)) same
    | inr d ↦
        let there = at-put_ne p l m.subscriptions q d in
        ap (λ k. k.mqtt_topic) there ∙ ok q x (rw there at i)
  ]

  pub added-HasTopics : (id : String) (p : Path3) (h : H) → HasTopics (added id p h m).1
  unfolding added
  added-HasTopics id p h =
      let old = handlers_at p m.subscriptions in
      put-HasTopics p _
        (λ x i. topic-there id (get_mqtt_topic m.format p) h old.handlers old.mqtt_topic (ok p))

  pub removed-HasTopics : (id : String) → HasTopics (remove id m).1
  unfolding remove Map.has
  removed-HasTopics id = elim (Option-cases (Map.get id m.subscription_ids)) [
    | inl e ↦ rw (e, remove) ok
    | inr (p, e) ↦
        let old = handlers_at p m.subscriptions in
        elim (Bool-cases (Map.has id old.handlers)) [
          | inl e' ↦
              rw (e, remove)
                (simp e' (
                  put-HasTopics p (record old { handlers = Map.delete id old.handlers })
                    (λ x i. ok p x (In-delete id x old.handlers i))))
          | inr e' ↦ rw (e, remove) (simp e' ok)
        ]
  ]

  pub clear-HasTopics : HasTopics (clear m)
  unfolding clear handlers_at Map.get
  clear-HasTopics q x i = absurd i
