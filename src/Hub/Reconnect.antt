-- ===== src/Hub/Reconnect.antt =====
-- A Qube that connects again while its old connection is still open (cloud/internal/api/wshub.go and
-- websocket.go).
use qube_enterprise_home.Prelude.{
  ℕ, ◌≡◌, refl, sym, inl, inr, true, false, none, some, List, [], ◌∷◌, arith, ◌==◌, if◌then◌else◌,
  Bool-cases,
}
use qube_enterprise_home.Hub.{
  WsClient, WsHub, find, put, remove, close_old, register, unregister, is_connected, pump_ends,
}

pub find-put {ℓ} :
    {A : Type ℓ} (k j : ℕ) (v : A) (m : List (ℕ × A))
    → find j (put k v m) ≡ (if k == j then some v else find j m)
unfolding find put
find-put k j v [] = refl
find-put k j v ((i, w) ∷ m) = ground (arith, find-put k j v m)

pub find-remove {ℓ} : {A : Type ℓ} (k : ℕ) (m : List (ℕ × A)) → find k (remove k m) ≡ none
unfolding find remove
find-remove k [] = refl
find-remove k ((i, w) ∷ m) = elim (Bool-cases (i == k)) [
  | inl hit ↦ rw hit (find-remove k m)
  | inr miss ↦ rw (miss, miss) (find-remove k m)
]

pub same-eq : (k : ℕ) → (k == k) ≡ true
same-eq k = ground arith

module _ {M : Type 0} where
  -- A client is registered and open.
  unfoldable pub IsUp : ℕ → WsClient M → WsHub M → Type 0
  IsUp conn client h = (find client.qube h.clients ≡ some conn) × (find conn h.store ≡ some client)

  pub register-IsUp :
      (conn : ℕ) (client : WsClient M) (h : WsHub M) → IsUp conn client (register conn client h)
  unfolding IsUp register
  register-IsUp conn client h =
      let closed = close_old (find client.qube h.clients) h in
      (
        rw (find-put client.qube client.qube conn closed.clients, same-eq client.qube) refl,
        rw (find-put conn conn client closed.store, same-eq conn) refl,
      )

  unregister-gone : (k j : ℕ) (h : WsHub M) → k ≡ j → is_connected k (unregister j h) ≡ false
  unfolding is_connected unregister
  unregister-gone k j h e = rw (← e, find-remove k h.clients) refl

  -- A Qube that connects again while its old connection is open is registered with the new connection; but when
  -- the old one's reader ends, the Qube counts as not connected, although the new client is in the store as it was
  -- made, open.
  pub pump_ends-unregisters :
      (old new : WsClient M) (conn conn' : ℕ) (h : WsHub M)
      → old.qube ≡ new.qube
      → IsUp conn' new (register conn' new (register conn old h))
        × (is_connected new.qube (pump_ends old (register conn' new (register conn old h))) ≡ false)
        × (find conn' (pump_ends old (register conn' new (register conn old h))).store ≡ some new)
  unfolding pump_ends unregister
  pump_ends-unregisters old new conn conn' h e =
      let after = register conn' new (register conn old h) in
      let up = register-IsUp conn' new (register conn old h) in
      (up, unregister-gone new.qube old.qube after (sym e), unfold IsUp in up.1)
