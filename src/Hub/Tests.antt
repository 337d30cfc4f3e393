-- ===== src/Hub/Tests.antt =====
-- Connections of Qubes and browsers.
use qube_enterprise_home.Prelude.{
  ℕ, ◌+◌, ◌≡◌, refl, inl, inr, true, false, none, some, [], ◌∷◌, arith, ◌==◌, Bool-cases,
}
use mathlib.Core.Option.{some-injective}
use qube_enterprise_home.Hub.{
  WsClient, WsHub, find, register, send_to, is_connected, pump_ends, new_ws_client,
}
use qube_enterprise_home.Hub.Reconnect.{IsUp, pump_ends-unregisters}
use qube_enterprise_home.Hub.Delivery.{IsDelivered, IsLinked, send_to-IsDelivered}
use qube_enterprise_home.Hub.Dashboard.{
  DashboardClient, relay_to_subscribers, relayed, waiting, AllFit, relay-reaches,
}

abbrev first : WsClient ℕ
first = record { qube = 7; org = 1; queue = []; closed = false }

abbrev empty : WsHub ℕ
empty = record { clients = []; store = [] }

abbrev hub : WsHub ℕ
hub = record { clients = (7, 100) ∷ []; store = (100, first) ∷ [] }

test-new : new_ws_client 7 1 ≡ first
unfolding new_ws_client
test-new = refl

pump_ends-unregisters_example :
    IsUp 101 first (register 101 first (register 100 first empty))
    × (is_connected 7 (pump_ends first (register 101 first (register 100 first empty))) ≡ false)
    × (find 101 (pump_ends first (register 101 first (register 100 first empty))).store
        ≡ some first)
pump_ends-unregisters_example = pump_ends-unregisters first first 100 101 empty refl

none-ne-some {ℓ} : {A : Type ℓ} {a : A} → none ≡ some a → ⊥
none-ne-some h = cc

hub-IsLinked : IsLinked hub
unfolding IsLinked find
hub-IsLinked qube conn h = elim (Bool-cases (7 == qube)) [
  | inl same ↦ let conn_eq = some-injective 100 conn (rw same at h) in rw (← conn_eq) refl
  | inr other ↦ absurd (none-ne-some (rw other at h))
]

send_to-IsDelivered_example :
    ((send_to 7 5 hub).0 ≡ true → IsDelivered 7 5 hub (send_to 7 5 hub).1)
    × ((send_to 7 5 hub).0 ≡ false → is_connected 7 (send_to 7 5 hub).1 ≡ false)
send_to-IsDelivered_example = send_to-IsDelivered 7 5 hub hub-IsLinked

abbrev browser : DashboardClient ℕ
browser = record { org = 1; qubes = 7 ∷ []; queue = []; closed = false }

relay-reaches_example :
    ((id : ℕ)
      → find id (relay_to_subscribers 1 7 5 ((20, browser) ∷ [])).1
        ≡ relayed 1 7 5 (find id ((20, browser) ∷ [])))
    × (waiting (relay_to_subscribers 1 7 5 ((20, browser) ∷ [])).1
        ≡ waiting ((20, browser) ∷ []) + (relay_to_subscribers 1 7 5 ((20, browser) ∷ [])).0)
    × AllFit (relay_to_subscribers 1 7 5 ((20, browser) ∷ [])).1
relay-reaches_example = relay-reaches 1 7 5 ((20, browser) ∷ []) (omega arith, tt)
