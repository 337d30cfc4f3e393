-- ===== src/Hub/Delivery.antt =====
-- What `SendTo` of cloud/internal/api/wshub.go delivers.
use qube_enterprise_home.Prelude.{
  ℕ, ◌<◌, ◌≡◌, refl, sym, inl, inr, true, false, Option, none, some, [], ◌∷◌, ◌++◌, arith,
  Bool-cases, length, ltb,
}
use qube_enterprise_home.Hub.{
  WsClient, WsHub, send_room, find, has, has_room, close, update_client, unregister, is_connected,
  send_to, send_found, send_client,
}
use qube_enterprise_home.Hub.Reconnect.{find-put, find-remove, same-eq}

false-ne-true : false ≡ true → ⊥
false-ne-true h = cc

module _ {M : Type 0} where
  -- A message is behind those that wait for a Qube's client, whose channel had room for it.
  unfoldable pub IsDelivered : ℕ → M → WsHub M → WsHub M → Type 0
  IsDelivered qube msg h h' =
      (conn : ℕ) × (client : WsClient M) × (find qube h.clients ≡ some conn)
      × (find conn h.store ≡ some client)
      × (length client.queue < send_room)
      × (find conn h'.store ≡ some (record client { queue = client.queue ++ (msg ∷ []) }))
      × (h'.clients ≡ h.clients)

  clients-update_client :
      (conn : ℕ) (f : WsClient M → WsClient M) (o : Option (WsClient M)) (h : WsHub M)
      → (update_client f conn o h).clients ≡ h.clients
  unfolding update_client
  clients-update_client conn f none h = refl
  clients-update_client conn f (some c) h = refl

  clients-close : (conn : ℕ) (h : WsHub M) → (close conn h).clients ≡ h.clients
  unfolding close
  clients-close conn h =
      clients-update_client conn (λ c. record c { closed = true }) (find conn h.store) h

  send_client-cases :
      (qube conn : ℕ) (msg : M) (h : WsHub M) (o : Option (WsClient M))
      → find qube h.clients ≡ some conn
      → find conn h.store ≡ o
      → ((send_client qube msg conn o h).0 ≡ true
          → IsDelivered qube msg h (send_client qube msg conn o h).1)
        × ((send_client qube msg conn o h).0 ≡ false
            → has o ≡ true
            → is_connected qube (send_client qube msg conn o h).1 ≡ false)
  unfolding send_client has_room IsDelivered
  send_client-cases qube conn msg h none e f =
      (λ x. absurd (false-ne-true x), λ x y. absurd (false-ne-true y))
  send_client-cases qube conn msg h (some c) e f =
      elim (Bool-cases (ltb (length c.queue) send_room)) [
        | inl room ↦ rw room (
          λ x. (
            conn,
            c,
            e,
            f,
            ground arith,
            rw
                (
                  find-put conn conn (record c { queue = c.queue ++ (msg ∷ []) }) h.store,
                  same-eq conn,
                )
                refl,
            refl,
          ),
          λ x y. absurd (false-ne-true (sym x)),
        )
        | inr full ↦ rw full (
          λ x. absurd (false-ne-true x),
          λ x y.
              unfold is_connected unregister in
              rw (clients-close conn (unregister qube h), find-remove qube h.clients) refl,
        )
      ]

  -- Every registered connection has a client.
  unfoldable pub IsLinked : WsHub M → Type 0
  IsLinked h = (qube conn : ℕ) → find qube h.clients ≡ some conn → has (find conn h.store) ≡ true

  send_found-cases :
      (qube : ℕ) (msg : M) (h : WsHub M) (o : Option ℕ)
      → IsLinked h
      → find qube h.clients ≡ o
      → ((send_found qube msg o h).0 ≡ true → IsDelivered qube msg h (send_found qube msg o h).1)
        × ((send_found qube msg o h).0 ≡ false
            → is_connected qube (send_found qube msg o h).1 ≡ false)
  unfolding send_found IsLinked
  send_found-cases qube msg h none l e =
      (λ x. absurd (false-ne-true x), λ x. (unfold is_connected in rw e refl))
  send_found-cases qube msg h (some conn) l e =
      let (yields, fails) = send_client-cases qube conn msg h (find conn h.store) e refl in
      (yields, λ x. fails x (l qube conn e))

  -- When `SendTo` says true, the Qube's client had room, the message is the last in its channel, and
  -- the registrations are as before; when it says false, the Qube is not registered behind it. This is for a hub in
  -- which every registered connection has a client.
  pub send_to-IsDelivered :
      (qube : ℕ) (msg : M) (h : WsHub M)
      → IsLinked h
      → ((send_to qube msg h).0 ≡ true → IsDelivered qube msg h (send_to qube msg h).1)
        × ((send_to qube msg h).0 ≡ false → is_connected qube (send_to qube msg h).1 ≡ false)
  unfolding send_to
  send_to-IsDelivered qube msg h l = send_found-cases qube msg h (find qube h.clients) l refl
