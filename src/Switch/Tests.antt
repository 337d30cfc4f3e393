-- ===== src/Switch/Tests.antt =====
-- Points and alerts that are sent, for core-switch.
use qube_enterprise_home.Prelude.{◌≡◌, refl, true, some, [], ◌∷◌}
use qube_enterprise_home.Prelude.Int.{ℤ, pos}
use qube_enterprise_home.Prelude.Text.{Text, codes}
use qube_enterprise_home.Switch.{DataIn, Alert, Config, Switch, batch_data, line}
use qube_enterprise_home.Switch.Routing.{see, singles, after, batch-singles}
use qube_enterprise_home.Switch.LineProtocol.{read_series, is_plain, read_series-line}

abbrev print_time : ℤ → Text
print_time t = codes "1"

abbrev point : Text → Text → DataIn
point equipment output = record {
  table = codes "Measurements";
  equipment = equipment;
  reading = codes "temp";
  output = output;
  sender = codes "modbus-reader";
  tags = [];
  time = pos 1;
  value = codes "21";
}

abbrev config : Config
config = record {
  influx_enabled = true;
  live_enabled = true;
  live_url = codes "http://agent";
  ignore_interval = 60;
}

abbrev idle : Switch
idle = record { last = []; total = 0; influx = 0; live = 0; sent = [] }

batch-singles_example :
    (see
        (batch_data print_time config
          (some (point (codes "PM 1") (codes "influxdb") ∷ point [] (codes "live") ∷ []))
          idle).1
      ≡ see (
          singles print_time config
            (point (codes "PM 1") (codes "influxdb") ∷ point [] (codes "live") ∷ [])
            idle))
    × (see
          (batch_data print_time config
            (some (point (codes "PM 1") (codes "influxdb") ∷ point [] (codes "live") ∷ []))
            idle).1
        ≡ after print_time config
            (point (codes "PM 1") (codes "influxdb") ∷ point [] (codes "live") ∷ [])
            (see idle))
batch-singles_example =
    batch-singles print_time config
      (point (codes "PM 1") (codes "influxdb") ∷ point [] (codes "live") ∷ []) idle

read_series-line_example :
    read_series (line print_time (point (codes "PM 1,a=b") []))
    ≡ some (codes "Measurements", codes "PM 1,a=b", codes "temp")
unfolding is_plain
read_series-line_example = read_series-line print_time (point (codes "PM 1,a=b") []) refl refl refl

abbrev alert : Text → Text → Alert
alert sender message = record {
  sender = sender;
  message = message;
  alert_type = codes "Connectivity";
  mode = pos 1;
}
