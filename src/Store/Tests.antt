-- ===== src/Store/Tests.antt =====
-- The order of the sensors of a reader.
use qube_enterprise_home.Prelude.{◌≡◌, refl, [], ◌∷◌, map}
use qube_enterprise_home.Prelude.Text.{codes}
use qube_enterprise_home.Store.{Sensor, sensor_row, text_ltb, order_by_name}

abbrev pump : Sensor
pump = record { id = 11; name = codes "Pump"; body = [] }

abbrev fan : Sensor
fan = record { id = 12; name = codes "Fan"; body = [] }

test-order :
    order_by_name (map (sensor_row 1) (pump ∷ fan ∷ [])) ≡ sensor_row 1 fan ∷ sensor_row 1 pump ∷ []
unfolding order_by_name text_ltb
test-order = refl
