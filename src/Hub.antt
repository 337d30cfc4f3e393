-- ===== src/Hub.antt =====
-- The WebSocket hubs of the cloud (cloud/internal/api/wshub.go, and the end of `wsReadPump` in
-- cloud/internal/api/websocket.go). A connection is its number, which stands for the address of its
-- `WSClient`; the hub's map goes from Qubes to connections, and the clients themselves are a store. The callbacks
-- `OnConnect` and `OnDisconnect`, which set a flag in the database from goroutines of their own, are left out;
-- each operation is one step, as the locks make all but `SendTo`, which releases the lock of the hub before it sends
-- and before it unregisters: what others do in between is left out.
pub mod Delivery
pub mod Reconnect
pub mod Dashboard
mod Tests
use qube_enterprise_home.Prelude.{
  ℕ, suc, ◌+◌, Bool, true, false, not, ◌&&◌, ◌||◌, Option, none, some, List, [], ◌∷◌, ◌++◌, ltb,
  ◌==◌, if◌then◌else◌, length,
}

-- The room of a `send` channel.
abbrev pub send_room : ℕ
send_room = 64

-- `WSClient`, with the messages that wait in its channel; `M` is the type of the messages.
pub record WsClient (M : Type 0) : Type 0 where
  pub qube : ℕ
  pub org : ℕ
  pub queue : List M
  pub closed : Bool

-- `WSHub`: the connections by Qube, and the store of clients by connection.
pub record WsHub (M : Type 0) : Type 0 where
  pub clients : List (ℕ × ℕ)
  pub store : List (ℕ × WsClient M)

unfoldable pub find {ℓ} : {A : Type ℓ} → ℕ → List (ℕ × A) → Option A
find k [] = none
find k ((j, v) ∷ m) = if j == k then some v else find k m

unfoldable pub put {ℓ} : {A : Type ℓ} → ℕ → A → List (ℕ × A) → List (ℕ × A)
put k v [] = (k, v) ∷ []
put k v ((j, w) ∷ m) = if j == k then (k, v) ∷ m else (j, w) ∷ put k v m

unfoldable pub remove {ℓ} : {A : Type ℓ} → ℕ → List (ℕ × A) → List (ℕ × A)
remove k [] = []
remove k ((j, w) ∷ m) = let rest = remove k m in if j == k then rest else (j, w) ∷ rest

abbrev pub has {ℓ} : {A : Type ℓ} → Option A → Bool
has none = false
has (some a) = true

module _ {M : Type 0} where
  -- `NewWSClient`
  unfoldable pub new_ws_client : ℕ → ℕ → WsClient M
  new_ws_client qube org = record { qube = qube; org = org; queue = []; closed = false }

  update_client : (WsClient M → WsClient M) → ℕ → Option (WsClient M) → WsHub M → WsHub M
  update_client f conn none h = h
  update_client f conn (some c) h = record h { store = put conn (f c) h.store }

  -- `WSClient.Close`
  unfoldable pub close : ℕ → WsHub M → WsHub M
  unfolding update_client
  close conn h = update_client (λ c. record c { closed = true }) conn (find conn h.store) h

  close_old : Option ℕ → WsHub M → WsHub M
  close_old none h = h
  close_old (some conn) h = close conn h

  -- `WSHub.Register` of a new client.
  unfoldable pub register : ℕ → WsClient M → WsHub M → WsHub M
  unfolding close_old
  register conn client h =
      let closed = close_old (find client.qube h.clients) h in
      record closed {
        clients = put client.qube conn closed.clients;
        store = put conn client closed.store;
      }

  -- `WSHub.Unregister`
  unfoldable pub unregister : ℕ → WsHub M → WsHub M
  unregister qube h = record h { clients = remove qube h.clients }

  -- `WSHub.IsConnected`
  unfoldable pub is_connected : ℕ → WsHub M → Bool
  is_connected qube h = has (find qube h.clients)

  has_room : WsClient M → Bool
  has_room c = ltb (length c.queue) send_room

  send_client : ℕ → M → ℕ → Option (WsClient M) → WsHub M → Bool × WsHub M
  unfolding has_room
  send_client qube msg conn none h = (false, h)
  send_client qube msg conn (some c) h =
      if has_room c
      then (
        true,
        record h { store = put conn (record c { queue = c.queue ++ (msg ∷ []) }) h.store },
      )
      else (false, close conn (unregister qube h))

  send_found : ℕ → M → Option ℕ → WsHub M → Bool × WsHub M
  unfolding send_client
  send_found qube msg none h = (false, h)
  send_found qube msg (some conn) h = send_client qube msg conn (find conn h.store) h

  -- `WSHub.SendTo`, with no other operation in between.
  unfoldable pub send_to : ℕ → M → WsHub M → Bool × WsHub M
  unfolding send_found
  send_to qube msg h = send_found qube msg (find qube h.clients) h

  broadcast_client : M → ℕ → Option (WsClient M) → WsHub M → WsHub M
  unfolding has_room
  broadcast_client msg conn none h = h
  broadcast_client msg conn (some c) h =
      if has_room c
      then record h { store = put conn (record c { queue = c.queue ++ (msg ∷ []) }) h.store }
      else h

  broadcast_from : M → List (ℕ × ℕ) → WsHub M → WsHub M
  unfolding broadcast_client
  broadcast_from msg [] h = h
  broadcast_from msg ((qube, conn) ∷ rest) h =
      broadcast_from msg rest (broadcast_client msg conn (find conn h.store) h)

  -- `WSHub.Broadcast`
  unfoldable pub broadcast : M → WsHub M → WsHub M
  unfolding broadcast_from
  broadcast msg h = broadcast_from msg h.clients h

  -- The end of `wsReadPump`, for a client whose connection is lost: what it does to the hub.
  unfoldable pub pump_ends : WsClient M → WsHub M → WsHub M
  pump_ends client h = unregister client.qube h
