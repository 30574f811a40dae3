-- ===== src/Mqtt/Discovery/Topics.antt =====
-- internal/mqtt/discovery.go: that the topics of different entities differ.
use aerosmart_gateway.Base.{
  ◌≡◌, refl, ap, ◌∙◌, sym, inl, inr, true, false, [], ◌∷◌, ◌++◌, Bytes, codes, eq_bytes,
  eq_bytes_iff, length, length-append, Bool-cases, arith,
}
use aerosmart_gateway.Mqtt.Discovery.{Discovery, unique_id, topic_of}

pub eq_bytes-append : (s t u : Bytes) → eq_bytes (s ++ t) (s ++ u) ≡ eq_bytes t u
unfolding eq_bytes
eq_bytes-append [] t u = refl
eq_bytes-append (c ∷ s) t u = ground (arith, eq_bytes-append s t u)

eq_bytes-cancel : (s t u : Bytes) → eq_bytes (s ++ u) (t ++ u) ≡ true → eq_bytes s t ≡ true
unfolding eq_bytes
eq_bytes-cancel [] [] u h = refl
eq_bytes-cancel [] (d ∷ t) u h =
    let same = ap length ((eq_bytes_iff u (d ∷ t ++ u)).0 h) in
    absurd (omega (arith, length-append t u))
eq_bytes-cancel (c ∷ s) [] u h =
    let same = ap length ((eq_bytes_iff (c ∷ s ++ u) u).0 h) in
    absurd (omega (arith, length-append s u))
eq_bytes-cancel (c ∷ s) (d ∷ t) u h = ground (arith, eq_bytes-cancel s t u)

-- Whatever they are called, entities of different components have different topics.
pub component_ne :
    (d : Discovery) (u v : Bytes)
    → (eq_bytes (topic_of d (codes "sensor") u) (topic_of d (codes "switch") v) ≡ false)
      × (eq_bytes (topic_of d (codes "sensor") u) (topic_of d (codes "number") v) ≡ false)
      × (eq_bytes (topic_of d (codes "switch") u) (topic_of d (codes "number") v) ≡ false)
      × (eq_bytes (topic_of d (codes "number") u) (topic_of d (codes "switch") v) ≡ false)
unfolding topic_of eq_bytes
component_ne d u v = (
  eq_bytes-append d.prefix _ _,
  eq_bytes-append d.prefix _ _,
  eq_bytes-append d.prefix _ _,
  eq_bytes-append d.prefix _ _,
)

pub command_ne_sensor :
    (d : Discovery) (u v : Bytes)
    → (eq_bytes (topic_of d (codes "switch") u) (topic_of d (codes "sensor") v) ≡ false)
      × (eq_bytes (topic_of d (codes "number") u) (topic_of d (codes "sensor") v) ≡ false)
unfolding topic_of eq_bytes
command_ne_sensor d u v = (eq_bytes-append d.prefix _ _, eq_bytes-append d.prefix _ _)

-- Entities of the same component with different names have different topics.
pub name_ne :
    (d : Discovery) (component n m : Bytes)
    → eq_bytes n m ≡ false
    → eq_bytes (topic_of d component (unique_id d n)) (topic_of d component (unique_id d m)) ≡ false
unfolding topic_of unique_id
name_ne d component n m differ =
    eq_bytes-append d.prefix _ _
    ∙ eq_bytes-append (codes "/") _ _
    ∙ eq_bytes-append component _ _
    ∙ eq_bytes-append (codes "/") _ _
    ∙ eq_bytes-append d.device_id _ _
    ∙ eq_bytes-append (codes "/") _ _
    ∙ ends
  where
    ends : eq_bytes (unique_id d n ++ codes "/config") (unique_id d m ++ codes "/config") ≡ false
    ends =
        elim (Bool-cases
          (eq_bytes (unique_id d n ++ codes "/config") (unique_id d m ++ codes "/config"))) [
            | inr apart ↦ apart
            | inl same ↦
                let bad : true ≡ false =
                  sym (eq_bytes-cancel (unique_id d n) (unique_id d m) (codes "/config") same)
                  ∙ eq_bytes-append d.device_id _ _
                  ∙ eq_bytes-append (codes "_") n m
                  ∙ differ in
                cc
          ]
