-- ===== src/Switch/Alerts.antt =====
-- Repeated alerts (`alertRx`, core-switch/http/http.go).
use qube_enterprise_home.Prelude.{
  ℕ, ◌+◌, ◌*◌, ◌≤◌, ◌<◌, ◌≡◌, refl, inl, inr, Bool, true, false, not, ◌||◌, none, some, List, [],
  ◌∷◌, ◌++◌, arith, if◌then◌else◌, Bool-cases, length, ◌==◌,
}
use mathlib.Core.List.{append_assoc}
use qube_enterprise_home.Prelude.Text.{Text, text_eq, text_eq_iff}
use qube_enterprise_home.Switch.{
  Alert, Config, Switch, find_last, put_last, alert_key, repeats, alert_rx, forward_alert, emit,
}

find_last-put_last :
    (k j : Text) (t : ℕ) (m : List (Text × ℕ))
    → find_last j (put_last k t m) ≡ (if text_eq k j then some t else find_last j m)
unfolding find_last put_last
find_last-put_last k j t [] = refl
find_last-put_last k j t ((i, u) ∷ m) =
    ground (arith, text_eq_iff k j, text_eq_iff i k, text_eq_iff i j, find_last-put_last k j t m)

-- Whether an alert that comes at a time makes the switch send nothing.
unfoldable pub is_silent : Config → ℕ → Alert → Switch → Bool
is_silent c now a s = length (alert_rx c now (some a) s).1.sent == length s.sent

-- The alerts, with their times, for which the switch sends something.
keep_passed : Bool → ℕ × Alert → List (ℕ × Alert) → List (ℕ × Alert)
keep_passed true p rest = rest
keep_passed false p rest = p ∷ rest

unfoldable pub passed : Config → List (ℕ × Alert) → Switch → List (ℕ × Alert)
unfolding keep_passed
passed c [] s = []
passed c ((now, a) ∷ rest) s =
    keep_passed (is_silent c now a s) (now, a) (passed c rest (alert_rx c now (some a) s).1)

-- The times do not go back.
abbrev pub AreInOrder : ℕ → List (ℕ × Alert) → Type 0
AreInOrder low [] = Unit
AreInOrder low (p ∷ ps) = (low ≤ p.0) × AreInOrder p.0 ps

-- Every alert with the key is an interval later than a time, or more.
abbrev pub AreLater : Text → ℕ → List (ℕ × Alert) → Type 0
AreLater k t [] = Unit
AreLater k t (p ∷ ps) = (alert_key p.1 ≡ k → t ≤ p.0) × AreLater k t ps

abbrev pub AreSpaced : ℕ → List (ℕ × Alert) → Type 0
AreSpaced gap [] = Unit
AreSpaced gap (p ∷ ps) = AreLater (alert_key p.1) (p.0 + gap) ps × AreSpaced gap ps

module _ (c : Config) where
  gap : ℕ
  gap = c.ignore_interval * 1000000000

  last-forward : (a : Alert) (s : Switch) → (forward_alert c a s).last ≡ s.last
  unfolding forward_alert emit
  last-forward a s = elim (Bool-cases (not c.live_enabled || text_eq c.live_url [])) [
    | inl off ↦ rw off refl
    | inr on ↦ rw on refl
  ]

  last-passed :
      (now : ℕ) (a : Alert) (s : Switch)
      → repeats c (find_last (alert_key a) s.last) now ≡ false
      → (alert_rx c now (some a) s).1.last ≡ put_last (alert_key a) now s.last
  unfolding alert_rx
  last-passed now a s h =
      rw h (last-forward a (record s { last = put_last (alert_key a) now s.last }))

  -- Two alerts of different senders share a key if the text behind a colon in one sender's name begins the
  -- other's message: within the interval, the second sender's alert is dropped, with a live view or without.
  alert-collides :
      (s : Switch) (a b : Alert) (mid : Text) (now later : ℕ)
      → a.message ≡ mid ++ (b':' ∷ b.message)
      → b.sender ≡ a.sender ++ (b':' ∷ mid)
      → find_last (alert_key a) s.last ≡ none
      → now ≤ later
      → later < now + c.ignore_interval * 1000000000
      → let first = (alert_rx c now (some a) s).1 in
        (alert_rx c later (some b) first ≡ (200, first))
  unfolding alert_rx
  alert-collides s a b mid now later m n fresh h k =
      let same : alert_key b ≡ alert_key a =
        rw (m, n) (append_assoc a.sender (b':' ∷ mid) (b':' ∷ b.message)) in
      let new : repeats c (find_last (alert_key a) s.last) now ≡ false =
        rw fresh (unfold repeats in refl) in
      let known : find_last (alert_key b) (alert_rx c now (some a) s).1.last ≡ some now =
        rw
          (
            last-passed now a s new,
            find_last-put_last (alert_key a) (alert_key b) now s.last,
            same,
            (text_eq_iff (alert_key a) (alert_key a)).1 refl,
          )
          refl in
      let held : repeats c (some now) later ≡ true = unfold repeats in ground arith in
      rw (known, held) refl
