-- ===== src/Mqtt/Subscriptions/Found.antt =====
-- What `_findInternal` yields, against the paths that match.
use mathlib.Core.Option
use vda_5050_lib_js.Common.Map
use vda_5050_lib_js.Common.{
  In, In-append, List, Option, String, [], eq_Option, eq_String, eq_ℕ, inl, inr, none, refl, some,
  ◌↔◌, ◌≡◌, ◌⊎◌,
}
use vda_5050_lib_js.Common.Map.{Map}
use vda_5050_lib_js.Mqtt.Subscriptions.{
  Handlers, Key, Path3, find_handlers, follow, handlers_at, no_handlers, under, yielded,
}

-- A level of a subscription matches a level of a topic if it is the same or the wildcard.
abbrev pub MatchesLevel : Key → Key → Type 0
MatchesLevel j k = (j ≡ k) ⊎ (j ≡ none)

abbrev pub Matches : Path3 → Path3 → Type 0
Matches q p =
    MatchesLevel q.manufacturer p.manufacturer
    × MatchesLevel q.serial_number p.serial_number
    × MatchesLevel q.topic p.topic

In-yielded :
    {V A : Type 0} (f : V → List A) (d : V) (x : A) (o : Option V)
    → (In x (f d) → ⊥)
    → In x (yielded f o) ↔ In x (f (Option.get_or o d))
In-yielded f d x none h = (λ k. absurd k, λ k. absurd (h k))
In-yielded f d x (some v) h = (λ k. k, λ k. k)

module _ {V A : Type 0} (f : V → List A) (d : V) (x : A) (k : Key) (level : Map Key V)
    (h : In x (f d) → ⊥) where
  In-follow :
      In x (follow f k level)
      → (j : Key) × MatchesLevel j k × In x (f (Option.get_or (Map.get j level) d))
  In-follow i =
      elim ((In-append x (yielded f (Map.get k level)) (yielded f (Map.get none level))).0 i) [
        | inl a ↦ (k, inl refl, (In-yielded f d x (Map.get k level) h).0 a)
        | inr b ↦ (none, inr refl, (In-yielded f d x (Map.get none level) h).0 b)
      ]

  follow-In :
      (j : Key)
      → MatchesLevel j k
      → In x (f (Option.get_or (Map.get j level) d))
      → In x (follow f k level)
  follow-In j (inl same) i =
      let here : In x (f (Option.get_or (Map.get k level) d)) = rw same at i in
      (In-append x (yielded f (Map.get k level)) (yielded f (Map.get none level))).1
        (inl ((In-yielded f d x (Map.get k level) h).1 here))
  follow-In j (inr wild) i =
      let here : In x (f (Option.get_or (Map.get none level) d)) = rw wild at i in
      (In-append x (yielded f (Map.get k level)) (yielded f (Map.get none level))).1
        (inr ((In-yielded f d x (Map.get none level) h).1 here))

nothing_followed : {V A : Type 0} (f : V → List A) (x : A) (k : Key) → In x (follow f k []) → ⊥
unfolding Map.get
nothing_followed f x k i = i

module _ {H : Type 0} (x : String × H) (p : Path3)
    (subs : Map Key (Map Key (Map Key (Handlers H)))) where
  abbrev by_manufacturer : Map Key (Handlers H) → List (String × H)
  by_manufacturer = follow (λ h. h.handlers) p.manufacturer

  abbrev by_serial_number : Map Key (Map Key (Handlers H)) → List (String × H)
  by_serial_number = follow by_manufacturer p.serial_number

  find-Matches :
      In x (find_handlers p subs) → (q : Path3) × Matches q p × In x (handlers_at q subs).handlers
  unfolding find_handlers handlers_at
  find-Matches i =
      let (t, mt, it) =
        In-follow by_serial_number [] x p.topic subs
          (nothing_followed by_manufacturer x p.serial_number) i in
      let (s, ms, is) =
        In-follow by_manufacturer [] x p.serial_number (under t subs)
          (nothing_followed (λ (h : Handlers H). h.handlers) x p.manufacturer) it in
      let (k, mk, ik) =
        In-follow (λ h. h.handlers) no_handlers x p.manufacturer (under s (under t subs)) (λ e. e)
          is in
      (record { manufacturer = k; serial_number = s; topic = t }, (mk, ms, mt), ik)

  Matches-find :
      (q : Path3) → Matches q p → In x (handlers_at q subs).handlers → In x (find_handlers p subs)
  unfolding find_handlers handlers_at
  Matches-find q (mk, ms, mt) i =
      follow-In by_serial_number [] x p.topic subs
        (nothing_followed by_manufacturer x p.serial_number) q.topic mt
        (follow-In by_manufacturer [] x p.serial_number (under q.topic subs)
          (nothing_followed (λ (h : Handlers H). h.handlers) x p.manufacturer) q.serial_number ms
          (follow-In (λ h. h.handlers) no_handlers x p.manufacturer
            (under q.serial_number (under q.topic subs)) (λ e. e) q.manufacturer mk i))

-- `find` yields exactly the handlers of the subscriptions that match the topic, level by level, by
-- the same name or by a wildcard.
pub find_iff :
    {H : Type 0} (x : String × H) (p : Path3) (subs : Map Key (Map Key (Map Key (Handlers H))))
    → In x (find_handlers p subs) ↔ ((q : Path3) × Matches q p × In x (handlers_at q subs).handlers)
find_iff x p subs = (find-Matches x p subs, λ (q, h, i). Matches-find x p subs q h i)
