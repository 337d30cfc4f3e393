-- ===== src/Ingest/Bounds.antt =====
-- What the answer to a batch counts, and what becomes of the batches of a transfer (cloud/internal/tpapi/telemetry.go,
-- enterprise-influx-to-sql/transfer/transfer.go).
use qube_enterprise_home.Prelude.{
  ℕ, suc, ◌+◌, ◌≤◌, ◌<◌, ◌≡◌, refl, ap, ◌∙◌, inl, inr, Bool, true, false, Option, none, some, List,
  [], ◌∷◌, ltb, length, map, length-map, ◌≢◌, arith, Bool-cases,
}
use qube_enterprise_home.Prelude.Text.{Text}
use qube_enterprise_home.Transfer
use qube_enterprise_home.Transfer.{
  SensorMap, RawRecord, Sending, done, batch_size, map_tables, tables_or_default, run,
}
use qube_enterprise_home.Transfer.Batches.{AllWithin, run-IsSending}
use qube_enterprise_home.Ingest.{
  Reading, Row, Counts, queue, count_row, count_results, none_yet, ingest,
}

count_row-adds :
    (works : Bool) (c : Counts)
    → let d = count_row works c in
      (d.inserted + d.failed ≡ suc (c.inserted + c.failed)) × (d.total ≡ c.total)
unfolding count_row
count_row-adds true c = (omega arith, refl)
count_row-adds false c = (omega arith, refl)

-- Every row of a batch is counted once; the total stays.
count_results-adds :
    {B : Type 0} (works : ℕ → Bool) (i : ℕ) (rs : List (Reading B)) (c : Counts)
    → let d = count_results works i rs c in
      (d.inserted + d.failed ≡ c.inserted + c.failed + length rs) × (d.total ≡ c.total)
unfolding count_results
count_results-adds works i [] c = (omega arith, refl)
count_results-adds works i (r ∷ rs) c =
    let (one, same) = count_row-adds (works i) c in
    let (sum, total) = count_results-adds works (suc i) rs (count_row (works i) c) in
    (omega (arith, one, sum), total ∙ same)

length-queue :
    {B : Type 0} (now qube : ℕ) (rs : List (Reading B)) → length (queue now qube rs) ≡ length rs
unfolding queue
length-queue now qube [] = refl
length-queue now qube (r ∷ rs) = ap suc (length-queue now qube rs)

-- An accepted batch: the answer counts each reading once, as inserted or as failed, and each is in the batch sent.
abbrev pub IsCounted : {B : Type 0} → List (Reading B) → ℕ × Option Counts × List (Row B) → Type 0
IsCounted rs (status, none, sent) = ⊥
IsCounted rs (status, some c, sent) =
    (status ≡ 200)
    × (c.inserted + c.failed ≡ c.total)
    × (c.total ≡ length rs)
    × (length sent ≡ length rs)

none_over : 5000 < 0 → ⊥
none_over h = omega arith

not_both : {n : ℕ} → ltb 5000 n ≡ true → n ≤ 5000 → ⊥
not_both h k = ground arith

not_fits : {n : ℕ} → ltb 5000 n ≡ false → 5000 < n → ⊥
not_fits h k = ground arith

-- The handler takes a batch, and counts it, exactly if it has at most 5000 readings; of a larger one it sends
-- nothing to the database and answers 400.
pub ingest-bounded :
    {B : Type 0} (works : List (Row B) → ℕ → Bool) (now qube : ℕ) (rs : List (Reading B))
    → (length rs ≤ 5000 → IsCounted rs (ingest works now qube rs))
      × (5000 < length rs → ingest works now qube rs ≡ (400, none, []))
unfolding ingest
ingest-bounded works now qube [] = (λ h. (refl, refl, refl, refl), λ h. absurd (none_over h))
ingest-bounded works now qube (r ∷ rs) = elim (Bool-cases (ltb 5000 (length (r ∷ rs)))) [
  | inl over ↦ rw over (λ h. absurd (not_both over h), λ h. refl)
  | inr fits ↦ rw fits (
      let (sum, total) =
        count_results-adds (works (queue now qube (r ∷ rs))) 0 (r ∷ rs)
          (none_yet (length (r ∷ rs))) in
      (
        λ h. (refl, omega (arith, sum, total), total, length-queue now qube (r ∷ rs)),
        λ h. absurd (not_fits fits h),
      ))
]

-- Each batch is taken whole.
abbrev pub AllCounted :
    {R B : Type 0} → (R → Reading B) → (List (Row B) → ℕ → Bool) → ℕ → ℕ → List (List R) → Type 0
AllCounted encode works now qube [] = Unit
AllCounted encode works now qube (b ∷ bs) =
    IsCounted (map encode b) (ingest works now qube (map encode b))
    × AllCounted encode works now qube bs

AllWithin-AllCounted :
    {R B : Type 0} (encode : R → Reading B) (works : List (Row B) → ℕ → Bool) (now qube size : ℕ)
    (bs : List (List R))
    → size ≤ 5000
    → AllWithin size bs
    → AllCounted encode works now qube bs
AllWithin-AllCounted encode works now qube size [] h k = tt
AllWithin-AllCounted encode works now qube size (b ∷ bs) h (some_in, within, rest) = (
  (ingest-bounded works now qube (map encode b)).0 (omega (arith, length-map b encode)),
  AllWithin-AllCounted encode works now qube size bs h rest,
)

-- The batch size of a transfer is one that the cloud takes: whatever the Qube's tables hold, unless no sensor is mapped
-- or nothing is to be sent, a transfer posts batches that the cloud takes each, and every reading of them is counted
-- once, as inserted or as failed.
pub run-AllCounted :
    {Time Value B : Type 0} (m : SensorMap) (tables : List Text)
    (query : Text → Option (List (RawRecord Time Value)))
    (posts : List (Transfer.Reading Time Value) → Bool)
    (encode : Transfer.Reading Time Value → Reading B) (works : List (Row B) → ℕ → Bool)
    (now qube : ℕ)
    → m ≢ []
    → map_tables m (map query (tables_or_default tables)) ≢ []
    → (s : Sending (Transfer.Reading Time Value)) × (run batch_size (some m) tables query posts
        ≡ done s)
      × AllCounted encode works now qube s.batches
run-AllCounted m tables query posts encode works now qube h k =
    let (s, e, sending) = run-IsSending batch_size m tables query posts (omega arith) h k in
    (
      s,
      e,
      AllWithin-AllCounted encode works now qube batch_size s.batches (omega arith) sending.within,
    )
