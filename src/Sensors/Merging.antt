-- ===== src/Sensors/Merging.antt =====
-- A template's configuration with the parameters of a sensor (`mergeSensorConfig`, cloud/internal/api/sensors.go).
use qube_enterprise_home.Prelude.{
  ◌≡◌, refl, sym, ◌∙◌, inl, inr, String, Bool, false, ◌||◌, Option, none, some, [], ◌∷◌, str_eq,
  eq_iff, arith, Bool-cases,
}
use mathlib.Core.Path.{subst}
use qube_enterprise_home.Sensors.{Json, Object, get, put, merge, or_empty, merge_sensor_config}

pub get-put : (k : String) (v : Json) (o : Object) → get k (put k v o) ≡ some v
unfolding get put
get-put k v [] = rw ((eq_iff k k).1 refl) refl
get-put k v ((j, w) ∷ rest) = elim (Bool-cases (str_eq j k)) [
  | inl hit ↦ rw (hit, (eq_iff k k).1 refl) refl
  | inr miss ↦ rw miss (rw miss (get-put k v rest))
]

pub get-put_other :
    (j k : String) (v : Json) (o : Object) → str_eq j k ≡ false → get k (put j v o) ≡ get k o
unfolding get put
get-put_other j k v [] h = rw h refl
get-put_other j k v ((l, w) ∷ rest) h = elim (Bool-cases (str_eq l j)) [
  | inl hit ↦ rw (hit, h) (rw ((eq_iff l j).0 hit, h) refl)
  | inr miss ↦ elim (Bool-cases (str_eq l k)) [
    | inl there ↦ rw (miss, there) refl
    | inr other ↦ rw (miss, other) (get-put_other j k v rest h)
  ]
]

abbrev pub or_else : Option Json → Option Json → Option Json
or_else none w = w
or_else (some v) w = some v

-- Whether each key stands once, as in a JSON object.
unfoldable pub lists_key : String → Object → Bool
lists_key k [] = false
lists_key k ((j, w) ∷ rest) = str_eq j k || lists_key k rest

abbrev pub AreDistinct : Object → Type 0
AreDistinct [] = Unit
AreDistinct ((k, v) ∷ rest) = (lists_key k rest ≡ false) × AreDistinct rest

get-unlisted : (k : String) (o : Object) → lists_key k o ≡ false → get k o ≡ none
unfolding get lists_key
get-unlisted k [] h = refl
get-unlisted k ((j, w) ∷ rest) h = elim (Bool-cases (str_eq j k)) [
  | inl hit ↦ ground (arith, hit)
  | inr miss ↦ rw miss (get-unlisted k rest (rw miss at h))
]

pub get-merge :
    (k : String) (tmpl params : Object)
    → AreDistinct params
    → get k (merge tmpl params) ≡ or_else (get k params) (get k tmpl)
unfolding merge get
get-merge k tmpl [] d = refl
get-merge k tmpl ((j, v) ∷ rest) (new, d) = elim (Bool-cases (str_eq j k)) [
  | inl hit ↦
      (let same = (eq_iff j k).0 hit in
        get-merge k (put j v tmpl) rest d
        ∙ rw
            (
              hit,
              get-unlisted k rest (subst (λ x. lists_key x rest ≡ false) same new),
              subst (λ x. get k (put x v tmpl) ≡ some v) (sym same) (get-put k v tmpl),
            )
            refl)
  | inr miss ↦ get-merge k (put j v tmpl) rest d ∙ rw (miss, get-put_other j k v tmpl miss) refl
]

-- A field of the merged configuration is the user's where there is one, else the template's; parameters that are no
-- object leave the template as it is.
merge_sensor_config-get :
    (k : String) (tmpl params : Option Object)
    → AreDistinct (or_empty params)
    → get k (merge_sensor_config tmpl params)
      ≡ or_else (get k (or_empty params)) (get k (or_empty tmpl))
unfolding merge_sensor_config or_empty get
merge_sensor_config-get k tmpl none d = refl
merge_sensor_config-get k tmpl (some params) d = get-merge k (or_empty tmpl) params d
