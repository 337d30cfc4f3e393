-- ===== src/Sensors/Names.antt =====
-- The names of services (`sanitizeServiceName`, cloud/internal/api/readers.go).
use qube_enterprise_home.Prelude.{
  ℕ, ◌≡◌, refl, ap, ◌∙◌, inl, inr, Bool, true, false, ◌&&◌, ◌||◌, [], ◌∷◌, ◌==◌, leb, map, arith,
  Bool-cases,
}
use qube_enterprise_home.Prelude.Text.{Text}
use qube_enterprise_home.Sensors.{
  service_byte, trim_left, trim_end, trim_right, sanitize_service_name,
}

-- A lower-case letter, a digit or a dash.
abbrev pub is_service_byte : ℕ → Bool
is_service_byte c = leb b'a' c && leb c b'z' || (leb b'0' c && leb c b'9' || c == b'-')

unfoldable pub all_service : Text → Bool
all_service [] = true
all_service (c ∷ s) = is_service_byte c && all_service s

-- Whether a text starts with a dash, and whether it ends with one.
abbrev pub starts_dash : Text → Bool
starts_dash [] = false
starts_dash (c ∷ s) = c == b'-'

unfoldable pub ends_dash : Text → Bool
ends_dash [] = false
ends_dash (c ∷ []) = c == b'-'
ends_dash (c ∷ d ∷ s) = ends_dash (d ∷ s)

service_byte-service : (c : ℕ) → is_service_byte (service_byte c) ≡ true
unfolding service_byte
service_byte-service c = ground arith

service_byte-same : (c : ℕ) → is_service_byte c ≡ true → service_byte c ≡ c
unfolding service_byte
service_byte-same c h = rw h refl

map-service : (s : Text) → all_service (map service_byte s) ≡ true
unfolding all_service
map-service [] = refl
map-service (c ∷ s) = rw (service_byte-service c, map-service s) refl

map-same : (s : Text) → all_service s ≡ true → map service_byte s ≡ s
unfolding all_service
map-same [] h = refl
map-same (c ∷ s) h = rw (service_byte-same c (ground arith), map-same s (ground arith)) refl

trim_left-service : (s : Text) → all_service s ≡ true → all_service (trim_left s) ≡ true
unfolding trim_left all_service
trim_left-service [] h = refl
trim_left-service (c ∷ s) h = elim (Bool-cases (c == b'-')) [
  | inl dash ↦ rw dash (trim_left-service s (ground arith))
  | inr other ↦ rw other h
]

trim_left-starts : (s : Text) → starts_dash (trim_left s) ≡ false
unfolding trim_left
trim_left-starts [] = refl
trim_left-starts (c ∷ s) = elim (Bool-cases (c == b'-')) [
  | inl dash ↦ rw dash (trim_left-starts s)
  | inr other ↦ rw other other
]

trim_left-same : (s : Text) → starts_dash s ≡ false → trim_left s ≡ s
unfolding trim_left
trim_left-same [] h = refl
trim_left-same (c ∷ s) h = rw h refl

-- One step of the trimming at the end.
trim_end-service :
    (c : ℕ) (s : Text)
    → is_service_byte c ≡ true
    → all_service s ≡ true
    → all_service (trim_end c s) ≡ true
unfolding trim_end all_service
trim_end-service c [] h k = ground (arith, h)
trim_end-service c (d ∷ s) h k = ground (arith, h, k)

trim_end-ends : (c : ℕ) (s : Text) → ends_dash s ≡ false → ends_dash (trim_end c s) ≡ false
unfolding trim_end ends_dash
trim_end-ends c [] k = ground arith
trim_end-ends c (d ∷ s) k = k

trim_end-starts : (c : ℕ) (s : Text) → (c == b'-') ≡ false → starts_dash (trim_end c s) ≡ false
unfolding trim_end
trim_end-starts c [] h = rw h h
trim_end-starts c (d ∷ s) h = h

trim_right-service : (s : Text) → all_service s ≡ true → all_service (trim_right s) ≡ true
unfolding trim_right all_service
trim_right-service [] h = refl
trim_right-service (c ∷ s) h =
    trim_end-service c (trim_right s) (ground arith) (trim_right-service s (ground arith))

trim_right-ends : (s : Text) → ends_dash (trim_right s) ≡ false
unfolding trim_right ends_dash
trim_right-ends [] = refl
trim_right-ends (c ∷ s) = trim_end-ends c (trim_right s) (trim_right-ends s)

trim_right-starts : (s : Text) → starts_dash s ≡ false → starts_dash (trim_right s) ≡ false
unfolding trim_right
trim_right-starts [] h = refl
trim_right-starts (c ∷ s) h = trim_end-starts c (trim_right s) h

trim_right-same : (s : Text) → ends_dash s ≡ false → trim_right s ≡ s
unfolding trim_right trim_end ends_dash
trim_right-same [] h = refl
trim_right-same (c ∷ []) h = rw h refl
trim_right-same (c ∷ d ∷ s) h = rw (trim_right-same (d ∷ s) h) refl

-- Whatever a reader's name, its service's has small letters, digits and dashes only, with no dash at its ends, and
-- such a name is kept as it is.
sanitize_service_name-fixed :
    (name : Text)
    → let service = sanitize_service_name name in
      (all_service service ≡ true)
      × (starts_dash service ≡ false)
      × (ends_dash service ≡ false)
      × (sanitize_service_name service ≡ service)
unfolding sanitize_service_name
sanitize_service_name-fixed name =
    let mapped = map service_byte name in
    let left = trim_left mapped in
    let service = trim_right left in
    let good = trim_right-service left (trim_left-service mapped (map-service name)) in
    let start = trim_right-starts left (trim_left-starts mapped) in
    (
      good,
      start,
      trim_right-ends left,
      ap (λ s. trim_right (trim_left s)) (map-same service good)
          ∙ ap trim_right (trim_left-same service start)
          ∙ trim_right-same service (trim_right-ends left),
    )
