-- ===== src/Hub/Dashboard.antt =====
-- `DashboardHub` of cloud/internal/api/wshub.go: the browsers that watch Qubes. The clients are listed by their
-- connection ids in the order in which the map is read.
use qube_enterprise_home.Prelude.{
  ℕ, suc, ◌+◌, ◌≤◌, ◌≡◌, refl, ◌∙◌, ap, inl, inr, Bool, true, false, ◌&&◌, ◌||◌, Option, none, some,
  List, [], ◌∷◌, ◌++◌, arith, ◌==◌, if◌then◌else◌, Bool-cases, length, ltb, length-append,
}
use qube_enterprise_home.Hub.{send_room, find, put, remove}
use qube_enterprise_home.Hub.Reconnect.{find-put, same-eq}
use mathlib.Core.Option.{some-injective}

-- `DashboardClient`
pub record DashboardClient (M : Type 0) : Type 0 where
  pub org : ℕ
  pub qubes : List ℕ
  pub queue : List M
  pub closed : Bool

abbrev pub Clients : Type 0 → Type 0
Clients M = List (ℕ × DashboardClient M)

unfoldable pub watches : ℕ → List ℕ → Bool
watches q [] = false
watches q (x ∷ xs) = x == q || watches q xs

unfoldable pub without : ℕ → List ℕ → List ℕ
without q [] = []
without q (x ∷ xs) = let rest = without q xs in if x == q then rest else x ∷ rest

watches-without : (q : ℕ) (qs : List ℕ) → watches q (without q qs) ≡ false
unfolding watches without
watches-without q [] = refl
watches-without q (x ∷ xs) = ground (arith, watches-without q xs)

stays-same {ℓ} : {A : Type ℓ} (b d : Bool) (x y : A) → (if (b && false) && d then x else y) ≡ y
stays-same true d x y = refl
stays-same false d x y = refl

module _ {M : Type 0} where
  -- `Register`, `Unregister`, `Subscribe` and `Unsubscribe`
  unfoldable pub register_dashboard : ℕ → DashboardClient M → Clients M → Clients M
  register_dashboard id client cs = put id client cs

  unfoldable pub unregister_dashboard : ℕ → Clients M → Clients M
  unregister_dashboard id cs = remove id cs

  change :
      ℕ
      → (DashboardClient M → DashboardClient M)
      → Option (DashboardClient M)
      → Clients M
      → Clients M
  change id f none cs = cs
  change id f (some c) cs = put id (f c) cs

  unfoldable pub subscribe : ℕ → ℕ → Clients M → Clients M
  unfolding change
  subscribe id qube cs =
      change id (λ c. record c { qubes = if watches qube c.qubes then c.qubes else qube ∷ c.qubes })
        (find id cs) cs

  unfoldable pub unsubscribe : ℕ → ℕ → Clients M → Clients M
  unfolding change
  unsubscribe id qube cs =
      change id (λ c. record c { qubes = without qube c.qubes }) (find id cs) cs

  -- A target of a relayed message.
  unfoldable pub is_target : ℕ → ℕ → DashboardClient M → Bool
  is_target org qube c = c.org == org && watches qube c.qubes

  takes : ℕ → ℕ → DashboardClient M → Bool
  takes org qube c = is_target org qube c && ltb (length c.queue) send_room

  -- `RelayToSubscribers`, with the number of the clients that it reached.
  unfoldable pub relay_to_subscribers : ℕ → ℕ → M → Clients M → ℕ × Clients M
  unfolding takes
  relay_to_subscribers org qube msg [] = (0, [])
  relay_to_subscribers org qube msg ((id, c) ∷ cs) =
      let rest = relay_to_subscribers org qube msg cs in
      if takes org qube c
      then (suc rest.0, (id, record c { queue = c.queue ++ (msg ∷ []) }) ∷ rest.1)
      else (rest.0, (id, c) ∷ rest.1)

  -- All that waits in the channels.
  unfoldable pub waiting : Clients M → ℕ
  waiting [] = 0
  waiting ((id, c) ∷ cs) = length c.queue + waiting cs

  abbrev pub AllFit : Clients M → Type 0
  AllFit [] = Unit
  AllFit ((id, c) ∷ cs) = (length c.queue ≤ send_room) × AllFit cs

  -- What a relay leaves of a client.
  abbrev pub relayed : ℕ → ℕ → M → Option (DashboardClient M) → Option (DashboardClient M)
  relayed org qube msg none = none
  relayed org qube msg (some c) = some (
      if (c.org == org && watches qube c.qubes) && ltb (length c.queue) send_room
      then record c { queue = c.queue ++ (msg ∷ []) }
      else c)

  find-relay :
      (org qube id : ℕ) (msg : M) (cs : Clients M)
      → find id (relay_to_subscribers org qube msg cs).1 ≡ relayed org qube msg (find id cs)
  unfolding relay_to_subscribers find takes is_target
  find-relay org qube id msg [] = refl
  find-relay org qube id msg ((j, c) ∷ cs) = elim (Bool-cases (takes org qube c)) [
    | inl goes ↦ rw goes (elim (Bool-cases (j == id)) [
      | inl hit ↦ rw (hit, goes) refl
      | inr miss ↦ rw miss (find-relay org qube id msg cs)
    ])
    | inr stays ↦ rw stays (elim (Bool-cases (j == id)) [
      | inl hit ↦ rw (hit, stays) refl
      | inr miss ↦ rw miss (find-relay org qube id msg cs)
    ])
  ]

  waiting-relay :
      (org qube : ℕ) (msg : M) (cs : Clients M)
      → waiting (relay_to_subscribers org qube msg cs).1
        ≡ waiting cs + (relay_to_subscribers org qube msg cs).0
  unfolding relay_to_subscribers waiting
  waiting-relay org qube msg [] = refl
  waiting-relay org qube msg ((id, c) ∷ cs) = elim (Bool-cases (takes org qube c)) [
    | inl goes ↦
        rw goes (omega (arith, waiting-relay org qube msg cs, length-append c.queue (msg ∷ [])))
    | inr stays ↦ rw stays (omega (arith, waiting-relay org qube msg cs))
  ]

  AllFit-relay :
      (org qube : ℕ) (msg : M) (cs : Clients M)
      → AllFit cs
      → AllFit (relay_to_subscribers org qube msg cs).1
  unfolding relay_to_subscribers takes
  AllFit-relay org qube msg [] h = tt
  AllFit-relay org qube msg ((id, c) ∷ cs) h = elim (Bool-cases (takes org qube c)) [
    | inl goes ↦
        rw goes (ground (arith, length-append c.queue (msg ∷ [])), AllFit-relay org qube msg cs h.1)
    | inr stays ↦ rw stays (h.0, AllFit-relay org qube msg cs h.1)
  ]

  -- A relayed message reaches the clients of the Qube's organisation that watch the Qube and whose channel has
  -- room, each of them once and at the end, and no other client; the number returned is how many messages more are
  -- waiting, and no channel that fits its room outgrows it.
  pub relay-reaches :
      (org qube : ℕ) (msg : M) (cs : Clients M)
      → AllFit cs
      → ((id : ℕ)
          → find id (relay_to_subscribers org qube msg cs).1 ≡ relayed org qube msg (find id cs))
        × (waiting (relay_to_subscribers org qube msg cs).1
            ≡ waiting cs + (relay_to_subscribers org qube msg cs).0)
        × AllFit (relay_to_subscribers org qube msg cs).1
  relay-reaches org qube msg cs h = (
    λ id. find-relay org qube id msg cs,
    waiting-relay org qube msg cs,
    AllFit-relay org qube msg cs h,
  )

  find-change :
      (id : ℕ) (f : DashboardClient M → DashboardClient M) (o : Option (DashboardClient M))
      (cs : Clients M) (c : DashboardClient M)
      → o ≡ some c
      → find id (change id f o cs) ≡ some (f c)
  unfolding change
  find-change id f none cs c e = cc
  find-change id f (some d) cs c e =
      rw (find-put id id (f d) cs, same-eq id) (ap (λ x. some (f x)) (some-injective d c e))

  -- A client that has cancelled its subscription to a Qube keeps what it had when a message of the Qube is
  -- relayed, whatever organisation the message is relayed for.
  unsubscribe-relay :
      (org qube id : ℕ) (msg : M) (cs : Clients M) (c : DashboardClient M)
      → find id cs ≡ some c
      → find id (relay_to_subscribers org qube msg (unsubscribe id qube cs)).1
        ≡ some (record c { qubes = without qube c.qubes })
  unfolding unsubscribe is_target
  unsubscribe-relay org qube id msg cs c e =
      find-relay org qube id msg (unsubscribe id qube cs)
      ∙ rw
          (
            find-change id (λ d. record d { qubes = without qube d.qubes }) (find id cs) cs c e,
            watches-without qube c.qubes,
          )
          (ap some (stays-same (c.org == org) _ _ _))
