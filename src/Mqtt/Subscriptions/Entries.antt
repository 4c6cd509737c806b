-- ===== src/Mqtt/Subscriptions/Entries.antt =====
-- The entries of a map after `set` and `delete`, and the cases of two paths.
use vda_5050_lib_js.Common.Map
use vda_5050_lib_js.Common.{
  Bool-cases, In, String, [], ap, eq_Option, eq_String, eq_of_==, eq_ℕ, inl, inr, ne_of_==, none,
  some, sym, ◌==◌, ◌↔◌, ◌∙◌, ◌∷◌, ◌≡◌, ◌≢◌, ◌⊎◌,
}
use vda_5050_lib_js.Common.Map.{IsMap, Lacks, Map}
use vda_5050_lib_js.Mqtt.Subscriptions.{Path3}

module _ {V : Type 0} where
  pub get-In : (k : String) (v : V) (l : Map String V) → Map.get k l ≡ some v → In (k, v) l
  unfolding Map.get
  get-In k v [] e = cc
  get-In k v ((j, w) ∷ l) e = elim (Bool-cases (j == k)) [
    | inl same ↦
        let keys : j ≡ k = eq_of_== j k same in
        let values : some w ≡ some v = simp same at e in
        let value : w ≡ v = cc in inl (λ i. (sym keys i, sym value i))
    | inr other ↦ let later : Map.get k l ≡ some v = simp other at e in inr (get-In k v l later)
  ]

  pub set-In :
      (k : String) (v : V) (x : String × V) (l : Map String V)
      → Map.get k l ≡ none
      → In x (Map.set k v l) ↔ (In x l ⊎ (x ≡ (k, v)))
  unfolding Map.get Map.set
  set-In k v x [] e = (
    λ h. elim h [ inl a ↦ inr a | inr b ↦ absurd b ],
    λ h. elim h [ inl a ↦ absurd a | inr b ↦ inl b ],
  )
  set-In k v x ((j, w) ∷ l) e = elim (Bool-cases (j == k)) [
    | inl same ↦ let t : some w ≡ none = simp same at e in absurd (cc)
    | inr other ↦
        let later : Map.get k l ≡ none = simp other at e in
        let (to, from) = set-In k v x l later in
        simp other (
          λ h. elim h [
            | inl a ↦ inl (inl a)
            | inr b ↦ elim (to b) [ inl a ↦ inl (inr a) | inr c ↦ inr c ]
          ],
          λ h. elim h [
            | inl a ↦ elim a [ inl c ↦ inl c | inr d ↦ inr (from (inl d)) ]
            | inr b ↦ inr (from (inr b))
          ],
        )
  ]

  Lacks-In : (k : String) (x : String × V) (l : Map String V) → Lacks k l → In x l → x.0 ≢ k
  Lacks-In k x [] h i = absurd i
  Lacks-In k x (b ∷ l) (h, t) (inl e) = λ same. h (sym (ap (λ (y : String × V). y.0) e) ∙ same)
  Lacks-In k x (b ∷ l) (h, t) (inr i) = Lacks-In k x l t i

  pub delete-In :
      (k : String) (x : String × V) (l : Map String V)
      → IsMap l
      → In x (Map.delete k l) ↔ (In x l × (x.0 ≢ k))
  unfolding Map.delete
  delete-In k x [] h = (λ i. absurd i, λ i. absurd i.0)
  delete-In k x ((j, w) ∷ l) (lacks, h) = elim (Bool-cases (j == k)) [
    | inl same ↦
        let keys : j ≡ k = eq_of_== j k same in
        simp same (
          λ i. (inr i, Lacks-In k x l (rw keys at lacks) i),
          λ (i, d). elim i [
            | inl e ↦ absurd (d (ap (λ (y : String × V). y.0) e ∙ keys))
            | inr t ↦ t
          ],
        )
    | inr other ↦
        let (to, from) = delete-In k x l h in
        simp other (
          λ i. elim i [
            | inl e ↦
                (inl e, λ same. ne_of_== j k other (sym (ap (λ (y : String × V). y.0) e) ∙ same))
            | inr t ↦ let (a, d) = to t in (inr a, d)
          ],
          λ (i, d). elim i [ inl e ↦ inl e | inr t ↦ inr (from (t, d)) ],
        )
  ]

  pub In-known : (x : String × V) (l : Map String V) → In x l → Map.get x.0 l ≡ none → ⊥
  unfolding Map.get
  In-known x [] i e = i
  In-known x ((j, w) ∷ l) i e = elim (Bool-cases (j == x.0)) [
    | inl same ↦ let t : some w ≡ none = simp same at e in cc
    | inr other ↦
        let later : Map.get x.0 l ≡ none = simp other at e in
        elim i [
          | inl k ↦ ne_of_== j x.0 other (sym (ap (λ (y : String × V). y.0) k))
          | inr t ↦ In-known x l t later
        ]
  ]

pub path_cases : (p q : Path3) → (p ≡ q) ⊎ (p ≢ q)
path_cases p q = elim (Bool-cases (p.manufacturer == q.manufacturer)) [
  | inr e ↦ inr (λ h. ne_of_== p.manufacturer q.manufacturer e (ap (λ r. r.manufacturer) h))
  | inl a ↦ elim (Bool-cases (p.serial_number == q.serial_number)) [
    | inr e ↦ inr (λ h. ne_of_== p.serial_number q.serial_number e (ap (λ r. r.serial_number) h))
    | inl b ↦ elim (Bool-cases (p.topic == q.topic)) [
      | inr e ↦ inr (λ h. ne_of_== p.topic q.topic e (ap (λ r. r.topic) h))
      | inl c ↦ inl (λ i. record {
        manufacturer = eq_of_== p.manufacturer q.manufacturer a i;
        serial_number = eq_of_== p.serial_number q.serial_number b i;
        topic = eq_of_== p.topic q.topic c i;
      })
    ]
  ]
]
