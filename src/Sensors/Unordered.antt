-- ===== src/Sensors/Unordered.antt =====
-- JSON objects without the order of their fields, which is what Go's maps are: `mergeSensorConfig` and
-- `endpointFingerprint` (cloud/internal/api/sensors.go) do not depend on the order in which a map is run through.
use mathlib.Core.Quot
use mathlib.Core.Quot.{Quot, Quot-set}
use qube_enterprise_home.Prelude.{
  ◌≡◌, refl, sym, ◌∙◌, inl, inr, String, true, false, Option, none, some, [], ◌∷◌, str_eq, eq_iff,
  arith, Bool-cases,
}
use qube_enterprise_home.Sensors.{Json, Object, get, put, merge, or_empty, merge_sensor_config}
use qube_enterprise_home.Sensors.Merging.{lists_key, AreDistinct, or_else, get-merge}

lists_key-put :
    (k j : String) (v : Json) (o : Object)
    → lists_key k o ≡ false
    → str_eq j k ≡ false
    → lists_key k (put j v o) ≡ false
unfolding lists_key put
lists_key-put k j v [] h n = rw n refl
lists_key-put k j v ((l, w) ∷ rest) h n = ground (arith, n, lists_key-put k j v rest)

clash : true ≡ false → ⊥
clash h = cc

str_eq-sym : (j l : String) → str_eq l j ≡ false → str_eq j l ≡ false
str_eq-sym j l h = elim (Bool-cases (str_eq j l)) [
  | inl same ↦ absurd (clash (sym ((eq_iff l j).1 (sym ((eq_iff j l).0 same))) ∙ h))
  | inr other ↦ other
]

AreDistinct-put : (j : String) (v : Json) (o : Object) → AreDistinct o → AreDistinct (put j v o)
unfolding put lists_key
AreDistinct-put j v [] d = (refl, tt)
AreDistinct-put j v ((l, w) ∷ rest) (new, d) = elim (Bool-cases (str_eq l j)) [
  | inl hit ↦ rw hit (rw ((eq_iff l j).0 hit) at new, d)
  | inr miss ↦
      rw miss (lists_key-put l j v rest new (str_eq-sym j l miss), AreDistinct-put j v rest d)
]

AreDistinct-merge : (tmpl params : Object) → AreDistinct tmpl → AreDistinct (merge tmpl params)
unfolding merge
AreDistinct-merge tmpl [] d = d
AreDistinct-merge tmpl ((k, v) ∷ rest) d =
    AreDistinct-merge (put k v tmpl) rest (AreDistinct-put k v tmpl d)

-- The fields of a map in one of its orders.
abbrev pub Fields : Type 0
Fields = (o : Object) × AreDistinct o

abbrev pub SameFields : Fields → Fields → Type 0
SameFields o p = (k : String) → get k o.0 ≡ get k p.0

abbrev pub Map : Type 0
Map = Quot SameFields

pub AreDistinct-merge_sensor_config :
    (t p : Fields) → AreDistinct (merge_sensor_config (some t.0) (some p.0))
unfolding merge_sensor_config or_empty
AreDistinct-merge_sensor_config t p = AreDistinct-merge t.0 p.0 t.1

unfoldable pub merged : Fields → Fields → Fields
merged tmpl params =
    (merge_sensor_config (some tmpl.0) (some params.0), AreDistinct-merge_sensor_config tmpl params)

SameFields-merged :
    (t u p q : Fields) → SameFields t u → SameFields p q → SameFields (merged t p) (merged u q)
unfolding merged merge_sensor_config or_empty
SameFields-merged t u p q h g k =
    get-merge k t.0 p.0 p.1 ∙ rw (h k, g k) (sym (get-merge k u.0 q.0 q.1))

merge_into : Fields → Map → Map
unfolding merged
merge_into t =
    Quot.lift Quot-set (λ p. Quot.mk (merged t p))
      (λ p q h. Quot.sound (SameFields-merged t t p q (λ k. refl) h))

-- `mergeSensorConfig` on maps.
pub merge_maps : Map → Map → Map
unfolding merge_into
merge_maps t p =
    Quot.lift Quot-set (λ t. merge_into t p)
      (λ t u h.
        Quot.ind (λ b. Quot-set (merge_into t b) (merge_into u b))
          (λ q. Quot.sound (SameFields-merged t u q q h (λ k. refl))) p)
      t

or_else_assoc : (x y z : Option Json) → or_else x (or_else y z) ≡ or_else (or_else x y) z
or_else_assoc none y z = refl
or_else_assoc (some v) y z = refl

or_else_same : (x : Option Json) → or_else x x ≡ x
or_else_same none = refl
or_else_same (some v) = refl

or_else-none : (x : Option Json) → or_else x none ≡ x
or_else-none none = refl
or_else-none (some v) = refl

abbrev pub empty_map : Map
empty_map = Quot.mk ([], tt)

merged_assoc : (a b c : Fields) → SameFields (merged (merged a b) c) (merged a (merged b c))
unfolding merged merge_sensor_config or_empty
merged_assoc a b c k =
    get-merge k (merge a.0 b.0) c.0 c.1
    ∙ rw (get-merge k a.0 b.0 b.1, get-merge k a.0 (merge b.0 c.0) (AreDistinct-merge b.0 c.0 b.1))
        (rw (get-merge k b.0 c.0 c.1) (or_else_assoc (get k c.0) (get k b.0) (get k a.0)))

merge_maps_assoc : (a b c : Map) → merge_maps (merge_maps a b) c ≡ merge_maps a (merge_maps b c)
unfolding merge_maps merge_into
merge_maps_assoc a b c =
    Quot.ind (λ x. Quot-set (merge_maps (merge_maps x b) c) (merge_maps x (merge_maps b c)))
      (λ x.
        Quot.ind
          (λ y.
            Quot-set (merge_maps (merge_maps (Quot.mk x) y) c)
              (merge_maps (Quot.mk x) (merge_maps y c)))
          (λ y.
            Quot.ind
              (λ z.
                Quot-set (merge_maps (merge_maps (Quot.mk x) (Quot.mk y)) z)
                  (merge_maps (Quot.mk x) (merge_maps (Quot.mk y) z)))
              (λ z. Quot.sound (merged_assoc x y z)) c)
          b)
      a

merge_maps_empty : (a : Map) → merge_maps a empty_map ≡ a
unfolding merge_maps merge_into merged merge merge_sensor_config or_empty
merge_maps_empty = Quot.ind (λ x. Quot-set (merge_maps x empty_map) x) (λ x. Quot.sound (λ k. refl))

empty_merge_maps : (a : Map) → merge_maps empty_map a ≡ a
unfolding merge_maps merge_into merged get merge_sensor_config or_empty
empty_merge_maps =
    Quot.ind (λ x. Quot-set (merge_maps empty_map x) x)
      (λ x. Quot.sound (λ k. get-merge k [] x.0 x.1 ∙ or_else-none (get k x.0)))

merge_maps_same : (a : Map) → merge_maps a a ≡ a
unfolding merge_maps merge_into merged merge_sensor_config or_empty
merge_maps_same =
    Quot.ind (λ x. Quot-set (merge_maps x x) x)
      (λ x. Quot.sound (λ k. get-merge k x.0 x.0 x.1 ∙ or_else_same (get k x.0)))

-- On JSON objects without the order of their fields, `mergeSensorConfig` does not depend on the order of the two maps:
-- it gives one whose every field is that of the sensor's parameters if they have it, and else that of the template. It
-- is associative, the empty object is neutral on both sides, and merging an object into itself changes nothing.
pub merge_maps-laws :
    (t p : Fields) (a b c : Map)
    → ((m : Fields) × (merge_maps (Quot.mk t) (Quot.mk p) ≡ Quot.mk m)
        × ((key : String) → get key m.0 ≡ or_else (get key p.0) (get key t.0)))
      × (merge_maps (merge_maps a b) c ≡ merge_maps a (merge_maps b c))
      × (merge_maps a empty_map ≡ a)
      × (merge_maps empty_map a ≡ a)
      × (merge_maps a a ≡ a)
unfolding merge_maps merge_into merged merge_sensor_config or_empty
merge_maps-laws t p a b c = (
  (merged t p, refl, λ key. get-merge key t.0 p.0 p.1),
  merge_maps_assoc a b c,
  merge_maps_empty a,
  empty_merge_maps a,
  merge_maps_same a,
)
