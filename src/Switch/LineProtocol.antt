-- ===== src/Switch/LineProtocol.antt =====
-- The line protocol that `BatchWrite` prints (core-switch/influx/influx.go), against a reader that takes the
-- byte behind a backslash as it is, ends a name at a bare comma, space or equals sign, and a line at a line feed.
use qube_enterprise_home.Prelude.{
  ℕ, ◌≡◌, refl, ap, ◌∙◌, inl, inr, Bool, true, false, not, ◌&&◌, ◌||◌, Option, none, some, [], ◌∷◌,
  ◌++◌, arith, if◌then◌else◌, Bool-cases, ◌==◌,
}
use mathlib.Core.List.{append_assoc}
use qube_enterprise_home.Prelude.Int.{ℤ}
use qube_enterprise_home.Prelude.Text.{Text, codes, text_eq, replace_all}
use qube_enterprise_home.Switch.{DataIn, escape_lp, line}

-- The bytes that end a name.
unfoldable pub ends_name : Bool → ℕ → Bool
ends_name is_tag x = x == b',' || (x == b' ' || (is_tag && x == b'='))

-- A name, read up to the byte that ends it. The first flag tells that the byte before was a backslash.
unfoldable pub read_name : Bool → Bool → Text → Text × Text
read_name escaped is_tag [] = ([], [])
read_name escaped is_tag (x ∷ xs) =
    let rest = read_name false is_tag xs in
    let next = read_name true is_tag xs in
    if x == b'\n'
    then ([], x ∷ xs)
    else if escaped
    then (x ∷ rest.0, rest.1)
    else if x == b'\\'
    then next
    else if ends_name is_tag x
    then ([], x ∷ xs)
    else (x ∷ rest.0, rest.1)

-- No backslash and no line feed.
unfoldable pub is_plain : Text → Bool
is_plain [] = true
is_plain (x ∷ xs) = not (x == b'\\' || x == b'\n') && is_plain xs

-- What is left behind a literal.
unfoldable pub expect : Text → Text → Option Text
expect [] s = some s
expect (p ∷ ps) [] = none
expect (p ∷ ps) (x ∷ xs) = let rest = expect ps xs in if p == x then rest else none

read_reading : Text → Text → Option Text → Option (Text × Text × Text)
read_reading table equipment none = none
read_reading table equipment (some s) = some (table, equipment, (read_name false true s).0)

read_equipment : Text → Option Text → Option (Text × Text × Text)
unfolding read_reading
read_equipment table none = none
read_equipment table (some s) =
    let name = read_name false true s in
    read_reading table name.0 (expect (codes ",reading=") name.1)

-- The measurement, the device and the reading of a line.
unfoldable pub read_series : Text → Option (Text × Text × Text)
unfolding read_equipment
read_series s =
    let name = read_name false false s in read_equipment name.0 (expect (codes ",device=") name.1)

-- `escapeLP` in one pass.
unfoldable pub escape_each : Bool → Text → Text
escape_each is_tag [] = []
escape_each is_tag (x ∷ xs) =
    let rest = escape_each is_tag xs in if ends_name is_tag x then b'\\' ∷ x ∷ rest else x ∷ rest

escape_lp-escape_each : (is_tag : Bool) (s : Text) → escape_lp s is_tag ≡ escape_each is_tag s
unfolding escape_lp escape_each replace_all ends_name
escape_lp-escape_each is_tag [] = ground arith
escape_lp-escape_each true (x ∷ xs) = ground (arith, escape_lp-escape_each true xs)
escape_lp-escape_each false (x ∷ xs) = ground (arith, escape_lp-escape_each false xs)

read_name-escape_each :
    (is_tag : Bool) (s rest : Text) (c : ℕ)
    → is_plain s ≡ true
    → (c == b'\\' || c == b'\n') ≡ false
    → ends_name is_tag c ≡ true
    → read_name false is_tag (escape_each is_tag s ++ (c ∷ rest)) ≡ (s, c ∷ rest)
unfolding read_name escape_each is_plain
read_name-escape_each is_tag [] rest c h k e =
    let slash : (c == b'\\') ≡ false = ground (arith, k) in
    let feed : (c == b'\n') ≡ false = ground (arith, k) in rw (feed, slash, e) refl
read_name-escape_each is_tag (x ∷ xs) rest c h k e =
    let slash : (x == b'\\') ≡ false = ground (arith, h) in
    let feed : (x == b'\n') ≡ false = ground (arith, h) in
    let later = read_name-escape_each is_tag xs rest c (ground (arith, h)) k e in
    elim (Bool-cases (ends_name is_tag x)) [
      | inl special ↦ rw (special, feed, later) refl
      | inr bare ↦ rw (bare, feed, slash, bare, later) refl
    ]

expect-append : (p s : Text) → expect p (p ++ s) ≡ some s
unfolding expect
expect-append [] s = refl
expect-append (x ∷ xs) s = ground (arith, expect-append xs s)

-- What follows the name of a reading in a line.
tail_of : (ℤ → Text) → DataIn → Text
tail_of print_time m =
    (if text_eq m.tags [] then [] else (b',' ∷ m.tags))
    ++ (codes " value=" ++ (m.value ++ (b' ' ∷ (print_time m.time ++ (b'\n' ∷ [])))))

read_name-tail :
    (print_time : ℤ → Text) (m : DataIn)
    → is_plain m.reading ≡ true
    → (read_name false true (escape_each true m.reading ++ tail_of print_time m)).0 ≡ m.reading
unfolding tail_of
read_name-tail print_time m h = elim (Bool-cases (text_eq m.tags [])) [
  | inl none_given ↦
      rw (none_given, read_name-escape_each true m.reading _ b' ' h refl (unfold ends_name in refl))
        refl
  | inr given ↦
      rw (given, read_name-escape_each true m.reading _ b',' h refl (unfold ends_name in refl)) refl
]

read_series-parts :
    (table equipment rest : Text)
    → is_plain table ≡ true
    → is_plain equipment ≡ true
    → read_series (
        escape_each false table
        ++ (codes ",device=" ++ (escape_each true equipment ++ (codes ",reading=" ++ rest))))
      ≡ some (table, equipment, (read_name false true rest).0)
unfolding read_series read_equipment read_reading
read_series-parts table equipment rest h k =
    rw
      (
        read_name-escape_each false table _ b',' h refl (unfold ends_name in refl),
        expect-append (codes ",device=")
            (escape_each true equipment ++ (codes ",reading=" ++ rest)),
        read_name-escape_each true equipment _ b',' k refl (unfold ends_name in refl),
        expect-append (codes ",reading=") rest,
      )
      refl

-- The line of a point is read back as its table, its equipment and its reading, commas, spaces and equals
-- signs included, if none of the three has a backslash or a line feed.
pub read_series-line :
    (print_time : ℤ → Text) (m : DataIn)
    → is_plain m.table ≡ true
    → is_plain m.equipment ≡ true
    → is_plain m.reading ≡ true
    → read_series (line print_time m) ≡ some (m.table, m.equipment, m.reading)
unfolding line tail_of
read_series-line print_time m h k l =
    rw
      (
        escape_lp-escape_each false m.table,
        escape_lp-escape_each true m.equipment,
        escape_lp-escape_each true m.reading,
      )
      (read_series-parts m.table m.equipment (escape_each true m.reading ++ tail_of print_time m) h
          k
        ∙ ap (λ (r : Text). some (m.table, m.equipment, r)) (read_name-tail print_time m l))

read_name-append :
    (is_tag : Bool) (s rest : Text)
    → is_plain s ≡ true
    → read_name false is_tag (escape_each is_tag s ++ rest)
      ≡ (s ++ (read_name false is_tag rest).0, (read_name false is_tag rest).1)
unfolding read_name escape_each is_plain
read_name-append is_tag [] rest h = refl
read_name-append is_tag (x ∷ xs) rest h =
    let slash : (x == b'\\') ≡ false = ground (arith, h) in
    let feed : (x == b'\n') ≡ false = ground (arith, h) in
    let later = read_name-append is_tag xs rest (ground (arith, h)) in
    elim (Bool-cases (ends_name is_tag x)) [
      | inl special ↦ rw (special, feed, later) refl
      | inr bare ↦ rw (bare, feed, slash, bare, later) refl
    ]

escape_each-snoc :
    (s : Text) → escape_each true (s ++ (b'\\' ∷ [])) ≡ escape_each true s ++ (b'\\' ∷ [])
unfolding escape_each ends_name
escape_each-snoc [] = refl
escape_each-snoc (x ∷ xs) = elim (Bool-cases (ends_name true x)) [
  | inl special ↦ unfold ends_name in ground (arith, escape_each-snoc xs)
  | inr bare ↦ unfold ends_name in ground (arith, escape_each-snoc xs)
]

-- A point whose equipment ends in a backslash, which is not escaped, is not read back at all: the comma in
-- front of `reading=` becomes a part of the device's name.
read_series-backslash :
    (print_time : ℤ → Text) (m : DataIn) (name : Text)
    → m.equipment ≡ name ++ (b'\\' ∷ [])
    → is_plain m.table ≡ true
    → is_plain name ≡ true
    → read_series (line print_time m) ≡ none
unfolding line read_series read_equipment read_reading tail_of
read_series-backslash print_time m name e h k =
    let rest = codes ",reading=" ++ (escape_lp m.reading true ++ tail_of print_time m) in
    rw
      (
        e,
        escape_lp-escape_each false m.table,
        escape_lp-escape_each true (name ++ (b'\\' ∷ [])),
        escape_each-snoc name,
        append_assoc (escape_each true name) (b'\\' ∷ []) rest,
        read_name-escape_each false m.table _ b',' h refl (unfold ends_name in refl),
        expect-append (codes ",device=") (escape_each true name ++ (b'\\' ∷ rest)),
        read_name-append true name (b'\\' ∷ rest) k,
      )
      (unfold read_name ends_name expect read_reading in refl)
