-- ===== src/Relay/Udp/Packets.antt =====
-- The packets of `udpBackend.post` (influxdb-relay/relay/udp.go).
use qube_enterprise_home.Prelude.{
  ℕ, zero, suc, ◌≤◌, ◌<◌, ◌≡◌, refl, ap, ◌∙◌, ◌⊎◌, inl, inr, Bool, true, false, Option, none, some,
  List, [], ◌∷◌, ◌++◌, arith, ltb, ◌==◌, length, take, drop, length-take, length-drop,
  take-append-drop, Bool-cases, Option-cases,
}
use mathlib.Core.Option.{some-injective}
use mathlib.Core.List.{append-nil, append_assoc}
use qube_enterprise_home.Relay.Response.{Bytes}
use qube_enterprise_home.Relay.Udp.{
  last_newline, Sent, PostError, packet_too_large, write_failed, post_from, post_packets,
  and_before, stop, send_last,
}

-- Whether some bytes end a line.
unfoldable pub ends_line : Bytes → Bool
ends_line [] = false
ends_line (c ∷ []) = c == b'\n'
ends_line (c ∷ d ∷ cs) = ends_line (d ∷ cs)

last_newline-lt : (xs : Bytes) (i : ℕ) → last_newline xs ≡ some i → i < length xs
unfolding last_newline
last_newline-lt [] i h = cc
last_newline-lt (c ∷ cs) i h = elim (Option-cases (last_newline cs)) [
  | inl e ↦ ground (arith, e)
  | inr (j, e) ↦ ground (arith, e, last_newline-lt cs j e)
]

ends_line-cons : (c : ℕ) (xs : Bytes) → ends_line xs ≡ true → ends_line (c ∷ xs) ≡ true
unfolding ends_line
ends_line-cons c [] h = cc
ends_line-cons c (x ∷ xs) h = h

last_newline-cons :
    (c : ℕ) (cs : Bytes) (i : ℕ)
    → last_newline (c ∷ cs) ≡ some i
    → ((i ≡ 0) × (c ≡ b'\n')) ⊎ ((j : ℕ) × (i ≡ suc j) × (last_newline cs ≡ some j))
unfolding last_newline
last_newline-cons c cs i h = ground arith

cut_ends_line :
    (m : ℕ) (xs : Bytes) (i : ℕ)
    → last_newline (take m xs) ≡ some i
    → ends_line (take (suc i) xs) ≡ true
cut_ends_line zero xs i h = unfold last_newline in cc
cut_ends_line (suc m) [] i h = unfold last_newline in cc
cut_ends_line (suc m) (c ∷ cs) i h = elim (last_newline-cons c (take m cs) i h) [
  | inl (e, n) ↦ rw (e, n) (unfold ends_line in refl)
  | inr (j, e, l) ↦ rw e (ends_line-cons c (take (suc j) cs) (cut_ends_line m cs j l))
]

unfoldable pub joined : List Bytes → Bytes
joined [] = []
joined (p ∷ ps) = p ++ joined ps

abbrev pub AllFit : ℕ → List Bytes → Type 0
AllFit mtu [] = Unit
AllFit mtu (p ∷ ps) = (length p ≤ mtu) × AllFit mtu ps

-- Every packet but the last ends a line.
abbrev pub AreLines : List Bytes → Type 0
AreLines [] = Unit
AreLines (p ∷ []) = Unit
AreLines (p ∷ q ∷ ps) = (ends_line p ≡ true) × AreLines (q ∷ ps)

-- What a call with these bytes may come to.
pub record IsCut (mtu : ℕ) (bytes : Bytes) (s : Sent) : Type 0 where
  pub whole : joined s.packets ++ s.rest ≡ bytes
  pub fit : AllFit mtu s.packets
  pub at_lines : AreLines s.packets
  pub complete : s.error ≡ none → s.rest ≡ []
  pub too_long :
      s.error ≡ some packet_too_large
      → (mtu < length s.rest) × (last_newline (take mtu s.rest) ≡ none)

module _ (mtu : ℕ) (works : ℕ → Bool) where
  stop-IsCut :
      (bytes : Bytes) (e : PostError)
      → (e ≡ packet_too_large → (mtu < length bytes) × (last_newline (take mtu bytes) ≡ none))
      → (s : Sent) × (stop bytes e ≡ some s) × IsCut mtu bytes s
  unfolding stop joined
  stop-IsCut bytes e h = (
    record { packets = []; rest = bytes; error = some e },
    refl,
    record {
      whole = refl;
      fit = tt;
      at_lines = tt;
      complete = λ n. cc;
      too_long = λ t. h (some-injective _ _ t);
    },
  )

  send_last-IsCut :
      (w : Bool) (bytes : Bytes)
      → length bytes ≤ mtu
      → (s : Sent) × (send_last w bytes ≡ some s) × IsCut mtu bytes s
  unfolding send_last joined
  send_last-IsCut true bytes h = (
    record { packets = bytes ∷ []; rest = []; error = none },
    refl,
    record {
      whole = simp append-nil;
      fit = (h, tt);
      at_lines = tt;
      complete = λ n. refl;
      too_long = λ t. cc;
    },
  )
  send_last-IsCut false bytes h = stop-IsCut bytes write_failed (λ e. cc)

  lines-cons : (p : Bytes) (ps : List Bytes) → ends_line p ≡ true → AreLines ps → AreLines (p ∷ ps)
  lines-cons p [] e h = tt
  lines-cons p (q ∷ ps) e h = (e, h)

  and_before-IsCut :
      (bytes : Bytes) (idx : ℕ) (o : Option Sent)
      → last_newline (take mtu bytes) ≡ some idx
      → (s : Sent) × (o ≡ some s) × IsCut mtu (drop (suc idx) bytes) s
      → (s : Sent) × (and_before (take (suc idx) bytes) o ≡ some s) × IsCut mtu bytes s
  unfolding and_before joined
  and_before-IsCut bytes idx o cut (s, e, c) = (
    record s { packets = take (suc idx) bytes ∷ s.packets },
    rw e,
    record {
      whole =
          append_assoc _ (joined s.packets) s.rest
          ∙ (ap (λ xs. take (suc idx) bytes ++ xs) c.whole ∙ take-append-drop (suc idx) bytes);
      fit = (
        omega (
          arith,
          last_newline-lt (take mtu bytes) idx cut,
          length-take mtu bytes,
          length-take (suc idx) bytes,
        ),
        c.fit,
      );
      at_lines =
          lines-cons (take (suc idx) bytes) s.packets (cut_ends_line mtu bytes idx cut) c.at_lines;
      complete = c.complete;
      too_long = c.too_long;
    },
  )

  post_from-IsCut :
      (fuel n : ℕ) (bytes : Bytes)
      → length bytes < fuel
      → (s : Sent) × (post_from fuel mtu works n bytes ≡ some s) × IsCut mtu bytes s
  unfolding post_from
  post_from-IsCut zero n bytes h = elim h [ ]
  post_from-IsCut (suc fuel) n bytes h = elim (Bool-cases (ltb mtu (length bytes))) [
    | inr fits ↦ rw fits (send_last-IsCut (works n) bytes (ground arith))
    | inl long ↦ elim (Option-cases (last_newline (take mtu bytes))) [
      | inl no_line ↦
          rw (long, no_line) (stop-IsCut bytes packet_too_large (λ e. (ground arith, no_line)))
      | inr (idx, cut) ↦ elim (Bool-cases (works n)) [
        | inr broken ↦ rw (long, cut, broken) (stop-IsCut bytes write_failed (λ e. cc))
        | inl good ↦
            rw (long, cut, good)
              (and_before-IsCut bytes idx _ cut (
                post_from-IsCut fuel (suc n) (drop (suc idx) bytes) (
                  omega (
                    arith,
                    length-drop (suc idx) bytes,
                    last_newline-lt (take mtu bytes) idx cut,
                    length-take mtu bytes,
                  ))))
      ]
    ]
  ]

  -- Whatever the socket does, `post` ends. The packets sent and the rest are together the payload, no packet
  -- is longer than the MTU, each but the last ends at a line end, nothing is left if there is no error, and
  -- the error "too large" comes only where the next line does not fit.
  pub post_packets-IsCut :
      (bytes : Bytes) → (s : Sent) × (post_packets mtu works bytes ≡ some s) × IsCut mtu bytes s
  unfolding post_packets
  post_packets-IsCut bytes = post_from-IsCut (suc (length bytes)) 0 bytes (omega arith)
