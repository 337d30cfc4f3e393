-- ===== src/Relay/Udp.antt =====
-- The UDP relay of influxdb-relay/relay/udp.go: `udpBackend.post`, which cuts a payload at line ends to
-- packets that fit the MTU, and `UDP.post`. The socket is a parameter: whether its nth write works.
-- An MTU is taken to be no negative number.
pub mod Packets
use qube_enterprise_home.Prelude.{
  ℕ, zero, suc, String, Bool, Option, none, some, List, [], ◌∷◌, ltb, ◌==◌, if◌then◌else◌, length,
  take, drop,
}
use qube_enterprise_home.Relay.Response.{Bytes}
use qube_enterprise_home.Relay.Http.{lines}

abbrev pub default_mtu : ℕ
default_mtu = 1024

-- `bytes.LastIndexByte(_, '\n')`; `none` is a negative index.
unfoldable pub last_newline : Bytes → Option ℕ
last_newline [] = none
last_newline (c ∷ cs) = elim (last_newline cs) [
  | some i ↦ some (suc i)
  | none ↦ if c == b'\n' then some 0 else none
]

-- `errPacketTooLarge`, and an error of the socket.
pub data PostError : Type 0 where
  packet_too_large : PostError
  write_failed : PostError

-- The packets that went out, the bytes that did not, and the error.
pub record Sent : Type 0 where
  pub packets : List Bytes
  pub rest : Bytes
  pub error : Option PostError

stop : Bytes → PostError → Option Sent
stop data' e = some (record { packets = []; rest = data'; error = some e })

and_before : Bytes → Option Sent → Option Sent
and_before packet none = none
and_before packet (some s) = some (record s { packets = packet ∷ s.packets })

send_last : Bool → Bytes → Option Sent
unfolding stop
send_last works data' =
    if works
    then some (record { packets = data' ∷ []; rest = []; error = none })
    else stop data' write_failed

-- The loop of `udpBackend.post`, on fuel; `none` is fuel run out. `n` counts the writes to the socket.
unfoldable pub post_from : ℕ → ℕ → (ℕ → Bool) → ℕ → Bytes → Option Sent
unfolding send_last and_before stop
post_from zero mtu works n data' = none
post_from (suc fuel) mtu works n data' =
    let next = λ (idx : ℕ). post_from fuel mtu works (suc n) (drop (suc idx) data') in
    if ltb mtu (length data')
    then elim (last_newline (take mtu data')) [
      | none ↦ stop data' packet_too_large
      | some idx ↦
          if works n then and_before (take (suc idx) data') (next idx) else stop data' write_failed
    ]
    else send_last (works n) data'

-- `udpBackend.post`: every round but the last takes a byte at least.
unfoldable pub post_packets : ℕ → (ℕ → Bool) → Bytes → Option Sent
post_packets mtu works data' = post_from (suc (length data')) mtu works 0 data'

-- A backend: its MTU, and the outcomes of the writes to its address.
pub record UdpBackend : Type 0 where
  pub mtu : ℕ
  pub works : ℕ → Bool

post_all : List UdpBackend → Bytes → List (Option Sent)
post_all [] out = []
post_all (b ∷ bs) out = post_packets b.mtu b.works out ∷ post_all bs out

post_points {ℓ} :
    {Point : Type ℓ}
    → (Point → String → Bytes)
    → String
    → List UdpBackend
    → Option (List Point)
    → List (Option Sent)
unfolding post_all
post_points print precision backends none = []
post_points print precision backends (some points) =
    post_all backends (lines print precision points)

-- `UDP.post`: a packet that does not parse goes to no backend; an error of one backend stops no other.
unfoldable pub post_udp {ℓ} :
    {Point : Type ℓ}
    → (Bytes → String → Option (List Point))
    → (Point → String → Bytes)
    → String
    → List UdpBackend
    → Bytes
    → List (Option Sent)
unfolding post_points
post_udp parse print precision backends packet =
    post_points print precision backends (parse packet precision)
