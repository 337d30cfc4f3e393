-- ===== src/Transfer/Mapping.antt =====
-- Which sensor a record goes to (`lookupSensor` and `loadFromSQLite` of
-- enterprise-influx-to-sql/transfer/transfer.go).
use qube_enterprise_home.Prelude.{
  ℕ, ◌≡◌, refl, ◌≢◌, ◌⊎◌, inl, inr, true, false, none, some, [], ◌∷◌, ◌++◌, arith, if◌then◌else◌,
  Bool-cases, ◌↔◌,
}
use mathlib.Core.Path.{subst, ap, ap₂, ◌∙◌}
use mathlib.Core.List.{append_assoc}
use mathlib.Core.Option.{some-injective}
use qube_enterprise_home.Prelude.Text.{
  Text, codes, text_eq, text_eq_iff, has_byte, has_byte-append, replace_all, has_byte-replace_all,
}
use qube_enterprise_home.Transfer.{SensorMap, find, put, normalise, load_from_sqlite, lookup_sensor}

-- No key of the map has a colon.
abbrev pub ColonFree : SensorMap → Type 0
ColonFree [] = Unit
ColonFree ((k, v) ∷ m) = (has_byte b':' k ≡ false) × ColonFree m

pub find-put :
    (k j v : Text) (m : SensorMap) → find j (put k v m) ≡ (if text_eq k j then some v else find j m)
unfolding find put
find-put k j v [] = refl
find-put k j v ((i, w) ∷ m) =
    ground (arith, text_eq_iff k j, text_eq_iff i k, text_eq_iff i j, find-put k j v m)

put-ColonFree :
    (k v : Text) (m : SensorMap) → has_byte b':' k ≡ false → ColonFree m → ColonFree (put k v m)
unfolding put
put-ColonFree k v [] h c = (h, tt)
put-ColonFree k v ((j, w) ∷ m) h c = elim (Bool-cases (text_eq j k)) [
  | inl e ↦ rw e (h, c.1)
  | inr e ↦ rw e (c.0, put-ColonFree k v m h c.1)
]

normalise-ColonFree : (raw m : SensorMap) → ColonFree m → ColonFree (normalise raw m)
unfolding normalise
normalise-ColonFree [] m c = c
normalise-ColonFree ((key, id) ∷ raw) m c =
    normalise-ColonFree raw (put (replace_all b':' (codes ".") key) id m) (
      put-ColonFree (replace_all b':' (codes ".") key) id m
        (has_byte-replace_all b':' (codes ".") key (unfold has_byte in refl)) c)

find-ColonFree : (k : Text) (m : SensorMap) → has_byte b':' k ≡ true → ColonFree m → find k m ≡ none
unfolding find
find-ColonFree k [] h c = refl
find-ColonFree k ((j, v) ∷ m) h c = ground (arith, text_eq_iff j k, find-ColonFree k m h c.1)

-- A device whose name has a colon never has a sensor when the map comes from SQLite: the keys of the map
-- have their colons replaced, and the name that is looked up does not.
colon_unmapped :
    (raw m : SensorMap) (equipment reading : Text)
    → load_from_sqlite (some raw) ≡ some m
    → has_byte b':' equipment ≡ true
    → lookup_sensor m equipment reading ≡ []
unfolding load_from_sqlite lookup_sensor
colon_unmapped raw m equipment reading e h =
    let free : ColonFree m =
      subst ColonFree (some-injective (normalise raw []) m e) (normalise-ColonFree raw [] tt) in
    let missing =
      λ (rest : Text). find-ColonFree (equipment ++ rest) m (rw has_byte-append (rw h refl)) free in
    rw (missing (b'.' ∷ reading), missing (codes ".*"), find-ColonFree equipment m h free)

-- The sensor of a record is the one of its field, or else that of all fields of its device, or else that of
-- the device; there is none exactly if none of the three is mapped or the one that counts is "".
lookup_sensor-priority :
    (m : SensorMap) (equipment reading id : Text)
    → id ≢ []
    → (lookup_sensor m equipment reading ≡ id) ↔ (
        (find (equipment ++ (b'.' ∷ reading)) m ≡ some id)
        ⊎ ((find (equipment ++ (b'.' ∷ reading)) m ≡ none)
            × ((find (equipment ++ codes ".*") m ≡ some id)
                ⊎ ((find (equipment ++ codes ".*") m ≡ none) × (find equipment m ≡ some id)))))
unfolding lookup_sensor
lookup_sensor-priority m equipment reading id h = ground arith

replace_all-append :
    (c : ℕ) (by s t : Text) → replace_all c by (s ++ t) ≡ replace_all c by s ++ replace_all c by t
unfolding replace_all
replace_all-append c by [] t = refl
replace_all-append c by (x ∷ xs) t = simp (replace_all-append c by xs t, append_assoc)

replace_all-none : (c : ℕ) (by s : Text) → has_byte c s ≡ false → replace_all c by s ≡ s
unfolding replace_all has_byte
replace_all-none c by [] h = refl
replace_all-none c by (x ∷ xs) h = ground (arith, replace_all-none c by xs)

normalise-append :
    (raw m : SensorMap) (key id : Text)
    → normalise (raw ++ ((key, id) ∷ [])) m
      ≡ put (replace_all b':' (codes ".") key) id (normalise raw m)
unfolding normalise
normalise-append [] m key id = refl
normalise-append ((k, v) ∷ raw) m key id =
    normalise-append raw (put (replace_all b':' (codes ".") k) v m) key id

-- The sensor of a field that is mapped in SQLite, and that no entry read later maps again, is found for the
-- records of that field, whatever else is mapped.
lookup-setting :
    (raw : SensorMap) (device reading id : Text)
    → has_byte b':' device ≡ false
    → has_byte b':' reading ≡ false
    → lookup_sensor (normalise (raw ++ ((device ++ (b':' ∷ reading), id) ∷ [])) []) device reading
      ≡ id
unfolding lookup_sensor replace_all
lookup-setting raw device reading id h k =
    let key = device ++ (b'.' ∷ reading) in
    let same_key : replace_all b':' (codes ".") (device ++ (b':' ∷ reading)) ≡ key =
      replace_all-append b':' (codes ".") device (b':' ∷ reading)
      ∙ ap₂ (λ x y. x ++ y) (replace_all-none b':' (codes ".") device h)
          (ap (λ x. b'.' ∷ x) (replace_all-none b':' (codes ".") reading k)) in
    rw (
      normalise-append raw [] (device ++ (b':' ∷ reading)) id,
      same_key,
      find-put key key id (normalise raw []),
      (text_eq_iff key key).1 refl,
    )
