-- ===== src/Transfer/Batches.antt =====
-- The batches of a cycle (the posting loop of enterprise-influx-to-sql/transfer/transfer.go, `Run`).
use qube_enterprise_home.Prelude.{
  ◌≢◌, map, ℕ, zero, suc, ◌+◌, ◌≤◌, ◌<◌, ◌≡◌, refl, sym, ap, ◌∙◌, Bool, true, false, Option, some,
  List, [], ◌∷◌, ◌++◌, arith, length, take, drop, length-take, length-drop, length-append,
  take-append-drop,
}
use mathlib.Core.Path.{subst}
use mathlib.Core.List.{append_assoc, append-nil}
use qube_enterprise_home.Prelude.Text.{Text}
use qube_enterprise_home.Transfer.{
  Sending, count_batch, send_from, send_all, after_send, done, SensorMap, RawRecord, Reading,
  map_tables, tables_or_default, run,
}

module _ {R : Type 0} where
  unfoldable pub joined : List (List R) → List R
  joined [] = []
  joined (b ∷ bs) = b ++ joined bs

  joined-snoc : (bs : List (List R)) (b : List R) → joined (bs ++ (b ∷ [])) ≡ joined bs ++ b
  unfolding joined
  joined-snoc [] b = append-nil b
  joined-snoc (x ∷ bs) b = rw (joined-snoc bs b) (sym (append_assoc x (joined bs) b))

  abbrev pub AllWithin : ℕ → List (List R) → Type 0
  AllWithin size [] = Unit
  AllWithin size (b ∷ bs) = (0 < length b) × (length b ≤ size) × AllWithin size bs

  AllWithin-snoc :
      (size : ℕ) (bs : List (List R)) (b : List R)
      → AllWithin size bs
      → (0 < length b)
      → (length b ≤ size)
      → AllWithin size (bs ++ (b ∷ []))
  AllWithin-snoc size [] b h k l = (k, l, tt)
  AllWithin-snoc size (x ∷ bs) b h k l = (h.0, h.1, AllWithin-snoc size bs b h.2 k l)

-- What the loop keeps, over the readings handled so far.
pub record IsSending {R : Type 0} (size : ℕ) (handled : List R) (s : Sending R) : Type 0 where
  pub whole : joined s.batches ≡ handled
  pub within : AllWithin size s.batches
  pub counted : s.sent + s.failed ≡ length handled

module _ {R : Type 0} (size : ℕ) (posts : List R → Bool) where
  count_batch-IsSending :
      (works : Bool) (batch handled : List R) (s : Sending R)
      → 0 < length batch
      → length batch ≤ size
      → IsSending size handled s
      → IsSending size (handled ++ batch) (count_batch works batch s)
  count_batch-IsSending true batch handled s k l h = record {
    whole = joined-snoc s.batches batch ∙ ap (λ xs. xs ++ batch) h.whole;
    within = AllWithin-snoc size s.batches batch h.within k l;
    counted = omega (arith, h.counted, length-append handled batch);
  }
  count_batch-IsSending false batch handled s k l h = record {
    whole = joined-snoc s.batches batch ∙ ap (λ xs. xs ++ batch) h.whole;
    within = AllWithin-snoc size s.batches batch h.within k l;
    counted = omega (arith, h.counted, length-append handled batch);
  }

  send_from-IsSending :
      (fuel : ℕ) (readings handled : List R) (s : Sending R)
      → 0 < size
      → length readings < fuel
      → IsSending size handled s
      → (s' : Sending R) × (send_from fuel size posts readings s ≡ some s')
        × IsSending size (handled ++ readings) s'
  unfolding send_from
  send_from-IsSending zero readings handled s p h k = elim h [ ]
  send_from-IsSending (suc fuel) [] handled s p h k = (s, refl, rw append-nil k)
  send_from-IsSending (suc fuel) (r ∷ rs) handled s p h k =
      let batch = take size (r ∷ rs) in
      let rest = drop size (r ∷ rs) in
      let (s', e, sending) =
        send_from-IsSending fuel rest (handled ++ batch) (count_batch (posts batch) batch s) p
          (omega (arith, length-drop size (r ∷ rs)))
          (count_batch-IsSending (posts batch) batch handled s
            (omega (arith, length-take size (r ∷ rs))) (omega (arith, length-take size (r ∷ rs)))
            k) in
      (
        s',
        e,
        subst (λ xs. IsSending size xs s')
            (append_assoc handled batch rest
              ∙ ap (λ xs. handled ++ xs) (take-append-drop size (r ∷ rs)))
            sending,
      )

send_all-IsSending :
    {R : Type 0} (size : ℕ) (posts : List R → Bool) (readings : List R)
    → 0 < size
    → readings ≢ []
    → (s : Sending R) × (send_all size posts readings ≡ done s) × IsSending size readings s
unfolding send_all after_send joined
send_all-IsSending size posts [] p h = absurd (h refl)
send_all-IsSending size posts (r ∷ rs) p h =
    let (s, e, k) =
      send_from-IsSending size posts (suc (length (r ∷ rs))) (r ∷ rs) []
        (record { batches = []; sent = 0; failed = 0 }) p (omega arith)
        (record { whole = refl; within = tt; counted = omega arith }) in
    (s, rw e, k)

-- A cycle that has a sensor map and readings ends, whatever posts fail: its batches, none empty and none
-- above the size, are together the readings mapped, in their order, and the counts of readings sent and of
-- readings failed add up to all of them.
pub run-IsSending :
    {Time Value : Type 0} (size : ℕ) (m : SensorMap) (tables : List Text)
    (query : Text → Option (List (RawRecord Time Value))) (posts : List (Reading Time Value) → Bool)
    → 0 < size
    → m ≢ []
    → map_tables m (map query (tables_or_default tables)) ≢ []
    → (s : Sending (Reading Time Value)) × (run size (some m) tables query posts ≡ done s)
      × IsSending size (map_tables m (map query (tables_or_default tables))) s
unfolding run
run-IsSending size [] tables query posts p h k = absurd (h refl)
run-IsSending size (entry ∷ m) tables query posts p h k =
    send_all-IsSending size posts (map_tables (entry ∷ m) (map query (tables_or_default tables))) p
      k
