-- ===== src/Switch.antt =====
-- core-switch: what the readers send goes to InfluxDB or to the live view, and repeated alerts are held back
-- (core-switch/http/http.go, core-switch/influx/influx.go, core-switch/schema/schema.go). The JSON decoder,
-- the HTTP client and the formatting of a time are parameters. A live forward runs in a goroutine of its own
-- in the source; here it is recorded when it is started.
pub mod LineProtocol
pub mod Routing
pub mod Alerts
mod Tests
use qube_enterprise_home.Prelude.{
  ℕ, suc, ◌+◌, ◌-◌, ◌*◌, ◌/◌, Bool, true, false, not, ◌||◌, Option, none, some, List, [], ◌∷◌, ◌++◌,
  ltb, ◌==◌, if◌then◌else◌, length,
}
use qube_enterprise_home.Prelude.Int.{ℤ}
use qube_enterprise_home.Prelude.Text.{Text, codes, text_eq, contains, replace_all}

-- `schema.DataIn`
pub record DataIn : Type 0 where
  pub table : Text
  pub equipment : Text
  pub reading : Text
  pub output : Text
  pub sender : Text
  pub tags : Text
  pub time : ℤ
  pub value : Text

-- `schema.Alert`
pub record Alert : Type 0 where
  pub sender : Text
  pub message : Text
  pub alert_type : Text
  pub mode : ℤ

-- `escapeLP`
unfoldable pub escape_lp : Text → Bool → Text
escape_lp s is_tag =
    let t = replace_all b' ' (b'\\' ∷ b' ' ∷ []) (replace_all b',' (b'\\' ∷ b',' ∷ []) s) in
    if is_tag then replace_all b'=' (b'\\' ∷ b'=' ∷ []) t else t

-- What is configured: `InfluxCfg`, `LiveCfg`, `AlertCfg`; the interval is in seconds.
pub record Config : Type 0 where
  pub influx_enabled : Bool
  pub live_enabled : Bool
  pub live_url : Text
  pub ignore_interval : ℕ

-- What goes out: a write to InfluxDB, points to the live view, an alert.
pub data Effect : Type 0 where
  influx_write : Text → Effect
  live_forward : List DataIn → Effect
  alert_forward : Alert → Effect

-- `Last`, the three counters, and what went out. A time is in nanoseconds.
pub record Switch : Type 0 where
  pub last : List (Text × ℕ)
  pub total : ℕ
  pub influx : ℕ
  pub live : ℕ
  pub sent : List Effect

unfoldable pub emit : Effect → Switch → Switch
emit e s = record s { sent = s.sent ++ (e ∷ []) }

-- `forwardLive`
unfoldable pub forward_live : Config → List DataIn → Switch → Switch
forward_live c ms s =
    if not c.live_enabled || text_eq c.live_url [] then s else emit (live_forward ms) s

-- The points whose `Output` names a destination.
unfoldable pub routed : Text → List DataIn → List DataIn
routed to [] = []
routed to (m ∷ ms) = let rest = routed to ms in if contains m.output to then m ∷ rest else rest

unfoldable pub count_points : List DataIn → Switch → Switch
count_points ms s = record s {
  total = s.total + length ms;
  influx = s.influx + length (routed (codes "influxdb") ms);
  live = s.live + length (routed (codes "live") ms);
}

forward_routed : Config → List DataIn → Switch → Switch
forward_routed c [] s = s
forward_routed c (m ∷ ms) s = forward_live c (m ∷ ms) s

single_live : Config → DataIn → Switch → Switch
single_live c m s =
    if contains m.output (codes "live")
    then (let w = forward_live c (m ∷ []) s in record w { live = w.live + 1 })
    else s

-- A body that is empty is not posted.
post_body : Text → Switch → Switch
post_body [] s = s
post_body (b ∷ body) s = emit (influx_write (b ∷ body)) s

-- `print_time` is `%d`.
module _ (print_time : ℤ → Text) where
  -- A point in line protocol.
  unfoldable pub line : DataIn → Text
  line m =
      escape_lp m.table false
      ++ (codes ",device="
          ++ (escape_lp m.equipment true
              ++ (codes ",reading="
                  ++ (escape_lp m.reading true
                      ++ ((if text_eq m.tags [] then [] else (b',' ∷ m.tags))
                          ++ (codes " value="
                              ++ (m.value ++ (b' ' ∷ (print_time m.time ++ (b'\n' ∷ []))))))))))

  unfoldable pub lines : List DataIn → Text
  lines [] = []
  lines (m ∷ ms) = line m ++ lines ms

  -- `BatchWrite`, whose error is only logged: the body that it posts.
  unfoldable pub batch_write : Config → List DataIn → Switch → Switch
  unfolding post_body
  batch_write c ms s = if c.influx_enabled then post_body (lines ms) s else s

  write_routed : Config → List DataIn → Switch → Switch
  write_routed c [] s = s
  write_routed c (m ∷ ms) s = batch_write c (m ∷ ms) s

  -- `batchData`, with the status it answers; `none` is a body that does not decode.
  unfoldable pub batch_data : Config → Option (List DataIn) → Switch → ℕ × Switch
  unfolding write_routed forward_routed
  batch_data c none s = (400, s)
  batch_data c (some readings) s = (
    200,
    forward_routed c (routed (codes "live") readings)
        (write_routed c (routed (codes "influxdb") readings) (count_points readings s)),
  )

  single_influx : Config → DataIn → Switch → Switch
  single_influx c m s =
      if contains m.output (codes "influxdb")
      then (let w = batch_write c (m ∷ []) s in record w { influx = w.influx + 1 })
      else s

  -- `singleData`
  unfoldable pub single_data : Config → Option DataIn → Switch → ℕ × Switch
  unfolding single_influx single_live
  single_data c none s = (400, s)
  single_data c (some m) s =
      (200, single_live c m (single_influx c m (record s { total = s.total + 1 })))

unfoldable pub find_last : Text → List (Text × ℕ) → Option ℕ
find_last k [] = none
find_last k ((j, t) ∷ m) = if text_eq j k then some t else find_last k m

unfoldable pub put_last : Text → ℕ → List (Text × ℕ) → List (Text × ℕ)
put_last k t [] = (k, t) ∷ []
put_last k t ((j, u) ∷ m) = if text_eq j k then (k, t) ∷ m else (j, u) ∷ put_last k t m

abbrev pub alert_key : Alert → Text
alert_key a = a.sender ++ (b':' ∷ a.message)

-- `now.Sub(prev).Seconds() < float64(alertCfg.IgnoreInterval)`, in whole nanoseconds.
unfoldable pub repeats : Config → Option ℕ → ℕ → Bool
repeats c none now = false
repeats c (some prev) now = ltb (now - prev) (c.ignore_interval * 1000000000)

forward_alert : Config → Alert → Switch → Switch
forward_alert c a s =
    if not c.live_enabled || text_eq c.live_url [] then s else emit (alert_forward a) s

-- `alertRx` at a time.
unfoldable pub alert_rx : Config → ℕ → Option Alert → Switch → ℕ × Switch
unfolding forward_alert
alert_rx c now none s = (400, s)
alert_rx c now (some a) s =
    if repeats c (find_last (alert_key a) s.last) now
    then (200, s)
    else (200, forward_alert c a (record s { last = put_last (alert_key a) now s.last }))
