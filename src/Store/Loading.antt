-- ===== src/Store/Loading.antt =====
-- What a reader loads of a configuration that has been written (conf-agent/sqlite/sqlite.go,
-- pkg/sqliteconfig/loader.go).
use qube_enterprise_home.Prelude.{
  ℕ, ◌≡◌, refl, sym, ap, ◌∙◌, inl, inr, Bool, true, false, ◌&&◌, ◌||◌, some, List, [], ◌∷◌, ◌++◌,
  map, ◌==◌, arith, Bool-cases,
}
use mathlib.Core.Path.{subst}
use mathlib.Core.List.{append_assoc, append-nil}
use qube_enterprise_home.Prelude.Text.{text_eq}
use qube_enterprise_home.Qubes.{first_row, rows}
use qube_enterprise_home.Store.{
  Sensor, Reader, SyncConfig, ReaderRow, SensorRow, Store, lists_id, insert_row, status_or,
  reader_row, sensor_row, write_sensors, write_readers, write_config, order_by_name, is_active,
  with_sensors, load_reader_config,
}

module _ {A : Type 0} (key : A → ℕ) where
  -- No key stands twice.
  abbrev pub AreDistinct : List A → Type 0
  AreDistinct [] = Unit
  AreDistinct (x ∷ xs) = (lists_id key (key x) xs ≡ false) × AreDistinct xs

  pub lists_id-append :
      (i : ℕ) (xs ys : List A)
      → lists_id key i (xs ++ ys) ≡ (lists_id key i xs || lists_id key i ys)
  unfolding lists_id
  lists_id-append i [] ys = refl
  lists_id-append i (x ∷ xs) ys = ground (arith, lists_id-append i xs ys)

  insert_all : List A → List A → List A
  insert_all [] acc = acc
  insert_all (x ∷ xs) acc = insert_all xs (insert_row key x acc)

  insert_all-append :
      (xs ys acc : List A) → insert_all (xs ++ ys) acc ≡ insert_all ys (insert_all xs acc)
  unfolding insert_all
  insert_all-append [] ys acc = refl
  insert_all-append (x ∷ xs) ys acc = insert_all-append xs ys (insert_row key x acc)

  -- The key of an element is not among those before it.
  before-new :
      (acc : List A) (x : A) (xs : List A)
      → AreDistinct (acc ++ (x ∷ xs))
      → lists_id key (key x) acc ≡ false
  unfolding lists_id
  before-new [] x xs d = refl
  before-new (y ∷ ys) x xs (new, d) =
      ground (arith, before-new ys x xs d, new, lists_id-append (key y) ys (x ∷ xs))

  insert_all-distinct : (xs acc : List A) → AreDistinct (acc ++ xs) → insert_all xs acc ≡ acc ++ xs
  unfolding insert_all insert_row
  insert_all-distinct [] acc d = sym (append-nil acc)
  insert_all-distinct (x ∷ xs) acc d = rw (before-new acc x xs d) (
      insert_all-distinct xs (acc ++ (x ∷ []))
        (subst AreDistinct (sym (append_assoc acc (x ∷ []) xs)) d)
      ∙ append_assoc acc (x ∷ []) xs)

-- The rows of all sensors, reader by reader.
unfoldable pub sensor_rows : List Reader → List SensorRow
sensor_rows [] = []
sensor_rows (r ∷ rest) = map (sensor_row r.id) r.sensors ++ sensor_rows rest

write_sensors-all :
    (reader : ℕ) (sensors : List Sensor) (ss : List SensorRow)
    → write_sensors reader sensors ss ≡ insert_all (λ r. r.id) (map (sensor_row reader) sensors) ss
unfolding write_sensors insert_all
write_sensors-all reader [] ss = refl
write_sensors-all reader (s ∷ rest) ss =
    write_sensors-all reader rest (insert_row (λ r. r.id) (sensor_row reader s) ss)

write_readers-all :
    (rds : List Reader) (rs : List ReaderRow) (ss : List SensorRow)
    → write_readers rds rs ss ≡ (
      insert_all (λ r. r.id) (map reader_row rds) rs,
      insert_all (λ s. s.id) (sensor_rows rds) ss,
    )
unfolding write_readers insert_all sensor_rows
write_readers-all [] rs ss = refl
write_readers-all (r ∷ rest) rs ss =
    write_readers-all rest (insert_row (λ x. x.id) (reader_row r) rs)
      (write_sensors r.id r.sensors ss)
    ∙ ap (λ t. (insert_all (λ x. x.id) (map reader_row (r ∷ rest)) rs, t))
        (ap (insert_all (λ s. s.id) (sensor_rows rest)) (write_sensors-all r.id r.sensors ss)
          ∙ sym (
              insert_all-append (λ s. s.id) (map (sensor_row r.id) r.sensors) (sensor_rows rest)
                ss))

-- The sensors that a reader's query finds.
abbrev pub of_reader : ℕ → SensorRow → Bool
of_reader i s = s.reader == i && is_active s.status

rows-append :
    (p : SensorRow → Bool) (xs ys : List SensorRow) → rows p (xs ++ ys) ≡ rows p xs ++ rows p ys
unfolding rows
rows-append p [] ys = refl
rows-append p (x ∷ xs) ys = elim (Bool-cases (p x)) [
  | inl hit ↦ rw (hit, rows-append p xs ys) refl
  | inr miss ↦ rw miss (rows-append p xs ys)
]

of_reader-own : (i : ℕ) (s : Sensor) → of_reader i (sensor_row i s) ≡ true
unfolding text_eq
of_reader-own i s = ground arith

rows-own :
    (i : ℕ) (sensors : List Sensor)
    → rows (of_reader i) (map (sensor_row i) sensors) ≡ map (sensor_row i) sensors
unfolding rows
rows-own i [] = refl
rows-own i (s ∷ rest) = rw (of_reader-own i s, rows-own i rest) refl

rows-other :
    (i j : ℕ) (sensors : List Sensor)
    → (j == i) ≡ false
    → rows (of_reader i) (map (sensor_row j) sensors) ≡ []
unfolding rows
rows-other i j [] h = refl
rows-other i j (s ∷ rest) h = rw h (rows-other i j rest h)

rows-none :
    (i : ℕ) (rds : List Reader)
    → lists_id (λ r. r.id) i rds ≡ false
    → rows (of_reader i) (sensor_rows rds) ≡ []
unfolding sensor_rows lists_id rows
rows-none i [] h = refl
rows-none i (r ∷ rest) h =
    rows-append (of_reader i) (map (sensor_row r.id) r.sensors) (sensor_rows rest)
    ∙ rw (rows-other i r.id r.sensors (ground (arith, h)), rows-none i rest (ground (arith, h)))
        refl

rows-first :
    (x : Reader) (rest : List Reader)
    → lists_id (λ r. r.id) x.id rest ≡ false
    → rows (of_reader x.id) (sensor_rows (x ∷ rest)) ≡ map (sensor_row x.id) x.sensors
unfolding sensor_rows
rows-first x rest new =
    rows-append (of_reader x.id) (map (sensor_row x.id) x.sensors) (sensor_rows rest)
    ∙ rw (rows-own x.id x.sensors, rows-none x.id rest new)
        (append-nil (map (sensor_row x.id) x.sensors))

same_id : {i j : ℕ} → (i == j) ≡ true → i ≡ j
same_id h = ground arith

same_reader : {x y : Reader} → some x ≡ some y → x ≡ y
same_reader h = cc

rows-found :
    (i : ℕ) (r : Reader) (rds : List Reader)
    → AreDistinct (λ x. x.id) rds
    → first_row (λ x. x.id == i) rds ≡ some r
    → rows (of_reader i) (sensor_rows rds) ≡ map (sensor_row i) r.sensors
unfolding sensor_rows first_row
rows-found i r [] d h = cc
rows-found i r (x ∷ rest) (new, d) h = elim (Bool-cases (x.id == i)) [
  | inl hit ↦
      subst (λ j. rows (of_reader j) (sensor_rows (x ∷ rest)) ≡ map (sensor_row j) r.sensors)
        (same_id hit)
        (subst
          (λ q. rows (of_reader x.id) (sensor_rows (x ∷ rest)) ≡ map (sensor_row x.id) q.sensors)
          (same_reader (rw hit at h)) (rows-first x rest new))
  | inr miss ↦
      rows-append (of_reader i) (map (sensor_row x.id) x.sensors) (sensor_rows rest)
      ∙ rw (rows-other i x.id x.sensors miss) (rows-found i r rest d (rw miss at h))
]

-- The row of a reader is found where the reader is, if it is active.
row-found :
    (i : ℕ) (r : Reader) (rds : List Reader)
    → first_row (λ x. x.id == i) rds ≡ some r
    → is_active (status_or r.status) ≡ true
    → first_row (λ x. x.id == i && is_active x.status) (map reader_row rds) ≡ some (reader_row r)
unfolding first_row
row-found i r [] h a = cc
row-found i r (x ∷ rest) h a = elim (Bool-cases (x.id == i)) [
  | inl hit ↦
      (let picked = same_reader (rw hit at h) in
        rw (hit, subst (λ q. is_active (status_or q.status) ≡ true) (sym picked) a)
          (ap (λ q. some (reader_row q)) picked))
  | inr miss ↦ rw miss (row-found i r rest (rw miss at h) a)
]

lists_id-rows :
    (i : ℕ) (rds : List Reader)
    → lists_id (λ x. x.id) i (map reader_row rds) ≡ lists_id (λ x. x.id) i rds
unfolding lists_id
lists_id-rows i [] = refl
lists_id-rows i (r ∷ rest) = rw (lists_id-rows i rest) refl

AreDistinct-rows :
    (rds : List Reader) → AreDistinct (λ x. x.id) rds → AreDistinct (λ x. x.id) (map reader_row rds)
AreDistinct-rows [] d = tt
AreDistinct-rows (r ∷ rest) (new, d) = (lists_id-rows r.id rest ∙ new, AreDistinct-rows rest d)

-- A reader loads what the cloud has sent for it: behind a configuration that is written, whatever stood in the
-- tables, an active reader of it has its row and all of its sensors, by name. No id of a reader or a sensor stands
-- twice in the configuration. A transaction that fails leaves the tables as they were.
pub write_config-loaded :
    (c : SyncConfig) (store : Store) (i : ℕ) (r : Reader)
    → AreDistinct (λ x. x.id) c.readers
    → AreDistinct (λ s. s.id) (sensor_rows c.readers)
    → first_row (λ x. x.id == i) c.readers ≡ some r
    → is_active (status_or r.status) ≡ true
    → let (works, written) = write_config true true c store in
      (works ≡ true)
      × (load_reader_config i written
          ≡ some (reader_row r, order_by_name (map (sensor_row i) r.sensors)))
      × (write_config true false c store ≡ (false, store))
      × (write_config false true c store ≡ (false, store))
unfolding write_config load_reader_config with_sensors
write_config-loaded c store i r dr ds found active =
    rw
      (
        write_readers-all c.readers [] [],
        insert_all-distinct (λ x. x.id) (map reader_row c.readers) []
            (AreDistinct-rows c.readers dr),
        insert_all-distinct (λ s. s.id) (sensor_rows c.readers) [] ds,
      )
      (
        refl,
        rw (row-found i r c.readers found active, rows-found i r c.readers dr found) refl,
        refl,
        refl,
      )
