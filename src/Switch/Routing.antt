-- ===== src/Switch/Routing.antt =====
-- Where points go (`batchData`, `singleData` and what they call, core-switch/http/http.go).
use qube_enterprise_home.Prelude.{
  ℕ, ◌+◌, ◌≡◌, refl, sym, ap, ◌∙◌, inl, inr, Bool, true, false, not, ◌||◌, some, List, [], ◌∷◌,
  ◌++◌, arith, if◌then◌else◌, length, length-append, Bool-cases,
}
use mathlib.Core.List.{append_assoc, append-nil}
use qube_enterprise_home.Prelude.Int.{ℤ}
use qube_enterprise_home.Prelude.Text.{Text, codes, text_eq, contains}
use qube_enterprise_home.Switch.{
  DataIn, Config, Effect, influx_write, live_forward, alert_forward, Switch, emit, post_body, line,
  lines, batch_write, forward_live, routed, count_points, write_routed, forward_routed, batch_data,
  single_influx, single_live, single_data,
}

-- The bytes that InfluxDB was given, and the points that the live view was.
unfoldable pub written : List Effect → Text
written [] = []
written (influx_write body ∷ es) = body ++ written es
written (live_forward ms ∷ es) = written es
written (alert_forward a ∷ es) = written es

unfoldable pub forwarded : List Effect → List DataIn
forwarded [] = []
forwarded (influx_write body ∷ es) = forwarded es
forwarded (live_forward ms ∷ es) = ms ++ forwarded es
forwarded (alert_forward a ∷ es) = forwarded es

written-append : (es fs : List Effect) → written (es ++ fs) ≡ written es ++ written fs
unfolding written
written-append [] fs = refl
written-append (influx_write body ∷ es) fs =
    rw (written-append es fs) (sym (append_assoc body (written es) (written fs)))
written-append (live_forward ms ∷ es) fs = written-append es fs
written-append (alert_forward a ∷ es) fs = written-append es fs

forwarded-append : (es fs : List Effect) → forwarded (es ++ fs) ≡ forwarded es ++ forwarded fs
unfolding forwarded
forwarded-append [] fs = refl
forwarded-append (influx_write body ∷ es) fs = forwarded-append es fs
forwarded-append (live_forward ms ∷ es) fs =
    rw (forwarded-append es fs) (sym (append_assoc ms (forwarded es) (forwarded fs)))
forwarded-append (alert_forward a ∷ es) fs = forwarded-append es fs

-- What can be seen of a switch.
pub record Seen : Type 0 where
  pub total : ℕ
  pub influx : ℕ
  pub live : ℕ
  pub body : Text
  pub points : List DataIn

unfoldable pub see : Switch → Seen
see s = record {
  total = s.total;
  influx = s.influx;
  live = s.live;
  body = written s.sent;
  points = forwarded s.sent;
}

Seen-eq :
    {n n' i i' l l' : ℕ} {b b' : Text} {p p' : List DataIn}
    → n ≡ n'
    → i ≡ i'
    → l ≡ l'
    → b ≡ b'
    → p ≡ p'
    → Path Seen
        (record { total = n; influx = i; live = l; body = b; points = p })
        (record { total = n'; influx = i'; live = l'; body = b'; points = p' })
Seen-eq e f g h k = cc

count-append {ℓ} :
    {A : Type ℓ} (n : ℕ) (xs ys : List A) {zs : List A}
    → zs ≡ xs ++ ys
    → n + length xs + length ys ≡ n + length zs
count-append n xs ys e = rw (e, length-append xs ys) (omega arith)

on-append {ℓ} :
    {A : Type ℓ} (on : Bool) (v : List A) (xs ys : List A) {zs : List A}
    → zs ≡ xs ++ ys
    → (v ++ (if on then xs else [])) ++ (if on then ys else []) ≡ v ++ (if on then zs else [])
on-append true v xs ys e = rw e (append_assoc v xs ys)
on-append false v xs ys e = append_assoc v [] []

off-append {ℓ} :
    {A : Type ℓ} (off : Bool) (v : List A) (xs ys : List A) {zs : List A}
    → zs ≡ xs ++ ys
    → (v ++ (if off then [] else xs)) ++ (if off then [] else ys) ≡ v ++ (if off then [] else zs)
off-append true v xs ys e = append_assoc v [] []
off-append false v xs ys e = rw e (append_assoc v xs ys)

plus_zero : (n : ℕ) → n + 0 ≡ n
plus_zero n = omega arith

off-nil {ℓ} : {A : Type ℓ} (off : Bool) (v : List A) → v ≡ v ++ (if off then [] else [])
off-nil true v = sym (append-nil v)
off-nil false v = sym (append-nil v)

abbrev add_body : Text → Seen → Seen
add_body body v = record v { body = v.body ++ body }

abbrev add_points : List DataIn → Seen → Seen
add_points ms v = record v { points = v.points ++ ms }

see-post : (body : Text) (s : Switch) → see (post_body body s) ≡ add_body body (see s)
unfolding see post_body
see-post [] s = rw (append-nil (written s.sent)) refl
see-post (x ∷ xs) s =
    unfold emit in
    let w = written-append s.sent (influx_write (x ∷ xs) ∷ []) in
    let f = forwarded-append s.sent (influx_write (x ∷ xs) ∷ []) in
    rw (w, f) (unfold written forwarded in simp append-nil)

see-forward :
    (ms : List DataIn) (s : Switch) → see (emit (live_forward ms) s) ≡ add_points ms (see s)
unfolding see emit
see-forward ms s =
    let w = written-append s.sent (live_forward ms ∷ []) in
    let f = forwarded-append s.sent (live_forward ms ∷ []) in
    rw (w, f) (unfold written forwarded in simp append-nil)

module _ (print_time : ℤ → Text) (c : Config) where
  -- What a list of points is to do.
  unfoldable pub after : List DataIn → Seen → Seen
  after ms v = record {
    total = v.total + length ms;
    influx = v.influx + length (routed (codes "influxdb") ms);
    live = v.live + length (routed (codes "live") ms);
    body =
        v.body
        ++ (if c.influx_enabled then lines print_time (routed (codes "influxdb") ms) else []);
    points =
        v.points
        ++ (if not c.live_enabled || text_eq c.live_url [] then [] else routed (codes "live") ms);
  }

  -- The points one at a time, each by `singleData`.
  unfoldable pub singles : List DataIn → Switch → Switch
  singles [] s = s
  singles (m ∷ ms) s = singles ms (single_data print_time c (some m) s).1

  see-batch_write :
      (ms : List DataIn) (s : Switch)
      → see (batch_write print_time c ms s)
        ≡ add_body (if c.influx_enabled then lines print_time ms else []) (see s)
  unfolding see batch_write
  see-batch_write ms s = elim (Bool-cases c.influx_enabled) [
    | inr off ↦ rw (off, append-nil (written s.sent)) refl
    | inl on ↦ rw on (see-post (lines print_time ms) s)
  ]

  see-forward_live :
      (ms : List DataIn) (s : Switch)
      → see (forward_live c ms s)
        ≡ add_points (if not c.live_enabled || text_eq c.live_url [] then [] else ms) (see s)
  unfolding see forward_live
  see-forward_live ms s = elim (Bool-cases (not c.live_enabled || text_eq c.live_url [])) [
    | inl off ↦ rw (off, append-nil (forwarded s.sent)) refl
    | inr on ↦ rw on (see-forward ms s)
  ]

  nothing_written :
      (on : Bool) (s : Switch) → see s ≡ add_body (if on then lines print_time [] else []) (see s)
  unfolding see lines
  nothing_written true s = rw (append-nil (written s.sent)) refl
  nothing_written false s = rw (append-nil (written s.sent)) refl

  nothing_forwarded :
      (off : Bool) (s : Switch) → see s ≡ add_points (if off then [] else []) (see s)
  unfolding see
  nothing_forwarded true s = rw (append-nil (forwarded s.sent)) refl
  nothing_forwarded false s = rw (append-nil (forwarded s.sent)) refl

  see-write_routed :
      (ms : List DataIn) (s : Switch)
      → see (write_routed print_time c ms s)
        ≡ add_body (if c.influx_enabled then lines print_time ms else []) (see s)
  unfolding write_routed
  see-write_routed [] s = nothing_written c.influx_enabled s
  see-write_routed (m ∷ ms) s = see-batch_write (m ∷ ms) s

  see-forward_routed :
      (ms : List DataIn) (s : Switch)
      → see (forward_routed c ms s)
        ≡ add_points (if not c.live_enabled || text_eq c.live_url [] then [] else ms) (see s)
  unfolding forward_routed
  see-forward_routed [] s = nothing_forwarded (not c.live_enabled || text_eq c.live_url []) s
  see-forward_routed (m ∷ ms) s = see-forward_live (m ∷ ms) s

  -- A batch has the effect it is to have.
  see-batch_data :
      (ms : List DataIn) (s : Switch)
      → see (batch_data print_time c (some ms) s).1 ≡ after ms (see s)
  unfolding batch_data after see count_points
  see-batch_data ms s =
      let inf = routed (codes "influxdb") ms in
      let counted = count_points ms s in
      see-forward_routed (routed (codes "live") ms) (write_routed print_time c inf counted)
      ∙ ap
          (add_points
            (if not c.live_enabled || text_eq c.live_url [] then [] else routed (codes "live") ms))
          (see-write_routed inf counted)

  see-single_influx :
      (m : DataIn) (s : Switch)
      → see (single_influx print_time c m s)
        ≡ add_body
            (if c.influx_enabled then lines print_time (routed (codes "influxdb") (m ∷ [])) else [])
            (record (see s) { influx = s.influx + length (routed (codes "influxdb") (m ∷ [])) })
  unfolding single_influx routed see
  see-single_influx m s = elim (Bool-cases (contains m.output (codes "influxdb"))) [
    | inl named ↦
        rw named
          (ap (λ (v : Seen). record v { influx = v.influx + 1 }) (see-batch_write (m ∷ []) s))
    | inr other ↦ rw (other, plus_zero s.influx) (nothing_written c.influx_enabled s)
  ]

  see-single_live :
      (m : DataIn) (s : Switch)
      → see (single_live c m s)
        ≡ add_points
            (if not c.live_enabled || text_eq c.live_url []
              then []
              else routed (codes "live") (m ∷ []))
            (record (see s) { live = s.live + length (routed (codes "live") (m ∷ [])) })
  unfolding single_live routed see
  see-single_live m s = elim (Bool-cases (contains m.output (codes "live"))) [
    | inl named ↦
        rw named (ap (λ (v : Seen). record v { live = v.live + 1 }) (see-forward_live (m ∷ []) s))
    | inr other ↦
        rw (other, plus_zero s.live)
          (nothing_forwarded (not c.live_enabled || text_eq c.live_url []) s)
  ]

  see-single_data :
      (m : DataIn) (s : Switch)
      → see (single_data print_time c (some m) s).1 ≡ after (m ∷ []) (see s)
  unfolding single_data after see
  see-single_data m s =
      let counted = record s { total = s.total + 1 } in
      see-single_live m (single_influx print_time c m counted)
      ∙ ap
          (λ (v : Seen).
            add_points
              (if not c.live_enabled || text_eq c.live_url []
                then []
                else routed (codes "live") (m ∷ []))
              (record v { live = v.live + length (routed (codes "live") (m ∷ [])) }))
          (see-single_influx m counted)

  routed-cons :
      (to : Text) (m : DataIn) (ms : List DataIn)
      → routed to (m ∷ ms) ≡ routed to (m ∷ []) ++ routed to ms
  unfolding routed
  routed-cons to m ms = elim (Bool-cases (contains m.output to)) [
    | inl named ↦ rw named refl
    | inr other ↦ rw other refl
  ]

  lines-append :
      (ms ns : List DataIn)
      → lines print_time (ms ++ ns) ≡ lines print_time ms ++ lines print_time ns
  unfolding lines
  lines-append [] ns = refl
  lines-append (m ∷ ms) ns =
      rw (lines-append ms ns)
        (sym (append_assoc (line print_time m) (lines print_time ms) (lines print_time ns)))

  after-nil : (v : Seen) → v ≡ after [] v
  unfolding after routed
  after-nil v =
      Seen-eq (omega arith) (omega arith) (omega arith)
        (unfold lines in off-nil c.influx_enabled v.body)
        (off-nil (not c.live_enabled || text_eq c.live_url []) v.points)

  after-cons :
      (m : DataIn) (ms : List DataIn) (v : Seen) → after ms (after (m ∷ []) v) ≡ after (m ∷ ms) v
  unfolding after
  after-cons m ms v =
      let inf = routed-cons (codes "influxdb") m ms in
      let liv = routed-cons (codes "live") m ms in
      Seen-eq (omega arith) (count-append v.influx _ _ inf) (count-append v.live _ _ liv)
        (on-append c.influx_enabled v.body _ _ (
          ap (lines print_time) inf
          ∙ lines-append (routed (codes "influxdb") (m ∷ [])) (routed (codes "influxdb") ms)))
        (off-append (not c.live_enabled || text_eq c.live_url []) v.points _ _ liv)

  see-singles : (ms : List DataIn) (s : Switch) → see (singles ms s) ≡ after ms (see s)
  unfolding singles
  see-singles [] s = after-nil (see s)
  see-singles (m ∷ ms) s =
      see-singles ms (single_data print_time c (some m) s).1
      ∙ ap (after ms) (see-single_data m s)
      ∙ after-cons m ms (see s)

  -- A batch and the same points one at a time come to the same: the counters, the bytes that InfluxDB is given
  -- and the points that the live view is given; and these are those of the points whose `Output` names the
  -- destination, in their order.
  pub batch-singles :
      (ms : List DataIn) (s : Switch)
      → (see (batch_data print_time c (some ms) s).1 ≡ see (singles ms s))
        × (see (batch_data print_time c (some ms) s).1 ≡ after ms (see s))
  batch-singles ms s = (see-batch_data ms s ∙ sym (see-singles ms s), see-batch_data ms s)
