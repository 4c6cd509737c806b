-- ===== src/Mqtt/Subscriptions/Paths.antt =====
-- The maps of handlers at their paths: reading after writing, and finding by a path.
use mathlib.Core.Option
use vda_5050_lib_js.Common.Map
use vda_5050_lib_js.Common.{
  Bool-cases, [], ap, eq_Option, eq_String, eq_of_==, eq_ℕ, inl, inr, ne_of_==, sym, ◌==◌, ◌∙◌, ◌≡◌,
  ◌≢◌,
}
use vda_5050_lib_js.Common.Map.{Map, get-set_ne, get-set_self}
use vda_5050_lib_js.Mqtt.Subscriptions.{
  Handlers, Key, Path3, handlers_at, no_handlers, put_handlers, under,
}

get_or_under-set_self :
    {V : Type 0} (k : Key) (v d : V) (subs : Map Key V)
    → Option.get_or (Map.get k (Map.set k v subs)) d ≡ v
get_or_under-set_self k v d subs = ap (λ o. Option.get_or o d) (Map.get-set_self k v subs)

get_or_under-set_ne :
    {V : Type 0} (k j : Key) (v d : V) (subs : Map Key V)
    → k ≢ j
    → Option.get_or (Map.get j (Map.set k v subs)) d ≡ Option.get_or (Map.get j subs) d
get_or_under-set_ne k j v d subs h = ap (λ o. Option.get_or o d) (Map.get-set_ne k j v subs h)

abbrev read : {H : Type 0} → Path3 → Map Key (Map Key (Handlers H)) → Handlers H
read q t = Option.get_or (Map.get q.manufacturer (under q.serial_number t)) no_handlers

module _ {H : Type 0} (p : Path3) (h : Handlers H)
    (subs : Map Key (Map Key (Map Key (Handlers H)))) where
  under_topic :
      under p.topic (put_handlers p h subs)
      ≡ Map.set p.serial_number
          (Map.set p.manufacturer h (under p.serial_number (under p.topic subs)))
          (under p.topic subs)
  unfolding put_handlers
  under_topic = get_or_under-set_self p.topic _ [] subs

  pub at-put_self : handlers_at p (put_handlers p h subs) ≡ h
  unfolding handlers_at
  at-put_self =
      ap (λ t. Option.get_or (Map.get p.manufacturer (under p.serial_number t)) no_handlers)
        under_topic
      ∙ ap (λ s. Option.get_or (Map.get p.manufacturer s) no_handlers)
          (get_or_under-set_self p.serial_number
            (Map.set p.manufacturer h (under p.serial_number (under p.topic subs))) []
            (under p.topic subs))
      ∙ get_or_under-set_self p.manufacturer h no_handlers
          (under p.serial_number (under p.topic subs))

  pub at-put_ne : (q : Path3) → p ≢ q → handlers_at q (put_handlers p h subs) ≡ handlers_at q subs
  unfolding handlers_at put_handlers
  at-put_ne q d = elim (Bool-cases (p.topic == q.topic)) [
    | inr e ↦
        ap (λ t. Option.get_or (Map.get q.manufacturer (under q.serial_number t)) no_handlers)
          (get_or_under-set_ne p.topic q.topic _ [] subs (ne_of_== p.topic q.topic e))
    | inl e ↦
        let topics : p.topic ≡ q.topic = eq_of_== p.topic q.topic e in
        let old = under p.topic subs in
        let inner = under p.serial_number old in
        ap (λ k. read q (under k (put_handlers p h subs))) (sym topics)
        ∙ ap (read q) under_topic
        ∙ elim (Bool-cases (p.serial_number == q.serial_number)) [
          | inr e' ↦
              ap (λ s. Option.get_or (Map.get q.manufacturer s) no_handlers)
                (get_or_under-set_ne p.serial_number q.serial_number
                  (Map.set p.manufacturer h inner) [] old
                  (ne_of_== p.serial_number q.serial_number e'))
          | inl e' ↦
              let serials : p.serial_number ≡ q.serial_number =
                eq_of_== p.serial_number q.serial_number e' in
              ap
                (λ k.
                  Option.get_or
                    (Map.get q.manufacturer
                      (under k (Map.set p.serial_number (Map.set p.manufacturer h inner) old)))
                    no_handlers)
                (sym serials)
              ∙ ap (λ s. Option.get_or (Map.get q.manufacturer s) no_handlers)
                  (get_or_under-set_self p.serial_number (Map.set p.manufacturer h inner) [] old)
              ∙ get_or_under-set_ne p.manufacturer q.manufacturer h no_handlers inner
                  (λ manufacturers. d (λ i. record {
                    manufacturer = manufacturers i;
                    serial_number = serials i;
                    topic = topics i;
                  }))
              ∙ ap (λ k. Option.get_or (Map.get q.manufacturer (under k old)) no_handlers) serials
        ]
        ∙ ap (λ k. read q (under k subs)) topics
  ]
