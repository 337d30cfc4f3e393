-- ===== src/Modbus/Groups.antt =====
-- The maps that `Init` of modbus-reader/modbus/modbus.go builds.
use qube_enterprise_home.Prelude.{
  ℕ, sym, ◌∙◌, ◌↔◌, not, ◌&&◌, ◌≤◌, ◌<◌, ◌≡◌, refl, ◌⊎◌, inl, inr, Bool, true, List, [], ◌∷◌, ◌++◌,
  arith, ◌==◌, if◌then◌else◌, Bool-cases,
}
use mathlib.Core.Path.{subst}
use mathlib.Core.List.{append_assoc, append-nil}
use qube_enterprise_home.Prelude.Text.{Text, text_eq, text_eq_iff}
use qube_enterprise_home.Modbus.{Reading}

-- `readGroup`, with the register type under which `mapRegTypeGrp` lists it. `mapKeyGrp` and that map share
-- their groups, so one list of groups in the order of their making stands for both.
pub record ReadGroup (Scale : Type 0) : Type 0 where
  pub key : Text
  pub reg_type : Text
  pub readings : List (Reading Scale)

module _ {Scale : Type 0} where
  abbrev pub key_of : Reading Scale → Text
  key_of rec = rec.equipment ++ (b':' ∷ rec.reg_type)

  -- The group of a reading takes it, or a new group at the end.
  unfoldable pub add_reading : Reading Scale → List (ReadGroup Scale) → List (ReadGroup Scale)
  add_reading rec [] =
      record { key = key_of rec; reg_type = rec.reg_type; readings = rec ∷ [] } ∷ []
  add_reading rec (g ∷ gs) =
      if text_eq g.key (key_of rec)
      then record g { readings = g.readings ++ (rec ∷ []) } ∷ gs
      else g ∷ add_reading rec gs

  unfoldable pub group_readings :
      List (Reading Scale) → List (ReadGroup Scale) → List (ReadGroup Scale)
  group_readings [] gs = gs
  group_readings (rec ∷ recs) gs = group_readings recs (add_reading rec gs)

  -- `mapRegTypeAddr` at a register type, before the duplicates go.
  unfoldable pub addrs_of : Text → List (Reading Scale) → List ℕ
  addrs_of rtype [] = []
  addrs_of rtype (rec ∷ recs) =
      let rest = addrs_of rtype recs in if text_eq rec.reg_type rtype then rec.addr ∷ rest else rest

-- The loop over `j`, with `addrs[i]` for the last address kept.
unfoldable pub dedup_from : ℕ → List ℕ → List ℕ
dedup_from last [] = []
dedup_from last (a ∷ xs) =
    let same = dedup_from last xs in
    let other = a ∷ dedup_from a xs in if last == a then same else other

unfoldable pub dedup : List ℕ → List ℕ
unfolding dedup_from
dedup [] = []
dedup (a ∷ xs) = a ∷ dedup_from a xs

abbrev pub IsMember : ℕ → List ℕ → Type 0
IsMember a [] = ⊥
IsMember a (x ∷ xs) = (a ≡ x) ⊎ IsMember a xs

-- No address is below the one before it.
abbrev pub AreSorted : ℕ → List ℕ → Type 0
AreSorted low [] = Unit
AreSorted low (a ∷ xs) = (low ≤ a) × AreSorted a xs

-- Each address is above the one before it.
abbrev pub AreIncreasing : ℕ → List ℕ → Type 0
AreIncreasing low [] = Unit
AreIncreasing low (a ∷ xs) = (low < a) × AreIncreasing a xs

dedup_from-increasing :
    (last : ℕ) (xs : List ℕ) → AreSorted last xs → AreIncreasing last (dedup_from last xs)
unfolding dedup_from
dedup_from-increasing last [] h = tt
dedup_from-increasing last (a ∷ xs) h = elim (Bool-cases (last == a)) [
  | inl e ↦ let eq : last ≡ a = ground arith in rw e (dedup_from-increasing last xs (rw eq h.1))
  | inr e ↦ rw e (ground arith, dedup_from-increasing a xs h.1)
]

dedup_from-IsMember :
    (a last : ℕ) (xs : List ℕ) → IsMember a xs → (a ≡ last) ⊎ IsMember a (dedup_from last xs)
unfolding dedup_from
dedup_from-IsMember a last [] m = elim m [ ]
dedup_from-IsMember a last (x ∷ xs) m = elim (Bool-cases (last == x)) [
  | inl e ↦ rw e (ground (arith, dedup_from-IsMember a last xs))
  | inr e ↦ rw e (ground (arith, dedup_from-IsMember a x xs))
]

IsMember-dedup_from : (a last : ℕ) (xs : List ℕ) → IsMember a (dedup_from last xs) → IsMember a xs
unfolding dedup_from
IsMember-dedup_from a last [] m = m
IsMember-dedup_from a last (x ∷ xs) m = elim (Bool-cases (last == x)) [
  | inl e ↦ inr (IsMember-dedup_from a last xs (rw e at m))
  | inr e ↦ ground (arith, IsMember-dedup_from a x xs)
]

-- From addresses in order, `dedup` makes a strictly increasing list with the same addresses.
dedup-increasing :
    (first : ℕ) (xs : List ℕ)
    → AreSorted first xs
    → (rest : List ℕ) × (dedup (first ∷ xs) ≡ first ∷ rest)
      × AreIncreasing first rest
      × ((a : ℕ) → IsMember a (first ∷ xs) ↔ IsMember a (dedup (first ∷ xs)))
unfolding dedup
dedup-increasing first xs h = (
  dedup_from first xs,
  refl,
  dedup_from-increasing first xs h,
  λ a. (
    λ m. ground (arith, dedup_from-IsMember a first xs),
    λ m. ground (arith, IsMember-dedup_from a first xs),
  ),
)

module _ {Scale : Type 0} where
  -- The readings of the groups with a key, and those of a list.
  unfoldable pub in_groups : Text → List (ReadGroup Scale) → List (Reading Scale)
  in_groups k [] = []
  in_groups k (g ∷ gs) = (if text_eq g.key k then g.readings else []) ++ in_groups k gs

  unfoldable pub with_key : Text → List (Reading Scale) → List (Reading Scale)
  with_key k [] = []
  with_key k (rec ∷ recs) = (if text_eq (key_of rec) k then rec ∷ [] else []) ++ with_key k recs

  no_group : Text → List (ReadGroup Scale) → Bool
  no_group k [] = true
  no_group k (g ∷ gs) = not (text_eq g.key k) && no_group k gs

  -- One group for each key.
  abbrev HaveOwnKeys : List (ReadGroup Scale) → Type 0
  HaveOwnKeys [] = Unit
  HaveOwnKeys (g ∷ gs) = (no_group g.key gs ≡ true) × HaveOwnKeys gs

  in_groups-nil :
      (k : Text) (gs : List (ReadGroup Scale)) → no_group k gs ≡ true → in_groups k gs ≡ []
  unfolding no_group in_groups
  in_groups-nil k [] h = refl
  in_groups-nil k (g ∷ gs) h = ground (arith, in_groups-nil k gs)

  no_group-add_reading :
      (k : Text) (rec : Reading Scale) (gs : List (ReadGroup Scale))
      → no_group k (add_reading rec gs) ≡ (no_group k gs && not (text_eq (key_of rec) k))
  unfolding no_group add_reading
  no_group-add_reading k rec [] = ground arith
  no_group-add_reading k rec (g ∷ gs) = ground (
    arith,
    no_group-add_reading k rec gs,
    text_eq_iff g.key (key_of rec),
    text_eq_iff g.key k,
    text_eq_iff (key_of rec) k,
  )

  add_reading-HaveOwnKeys :
      (rec : Reading Scale) (gs : List (ReadGroup Scale))
      → HaveOwnKeys gs
      → HaveOwnKeys (add_reading rec gs)
  unfolding add_reading
  add_reading-HaveOwnKeys rec [] h = unfold no_group in (refl, tt)
  add_reading-HaveOwnKeys rec (g ∷ gs) h = elim (Bool-cases (text_eq g.key (key_of rec))) [
    | inl e ↦ rw e h
    | inr e ↦ rw e (
      rw (no_group-add_reading g.key rec gs)
          (ground (arith, text_eq_iff (key_of rec) g.key, text_eq_iff g.key (key_of rec))),
      add_reading-HaveOwnKeys rec gs h.1,
    )
  ]

  join-group :
      (new old k : Text) (readings : List (Reading Scale)) (rec : Reading Scale)
      (gs : List (ReadGroup Scale))
      → old ≡ new
      → no_group old gs ≡ true
      → (if text_eq old k then readings ++ (rec ∷ []) else []) ++ in_groups k gs
        ≡ ((if text_eq old k then readings else []) ++ in_groups k gs)
          ++ (if text_eq new k then rec ∷ [] else [])
  join-group new old k readings rec gs e h = elim (Bool-cases (text_eq old k)) [
    | inl same ↦
        let nothing : in_groups k gs ≡ [] =
          in_groups-nil k gs (subst (λ x. no_group x gs ≡ true) ((text_eq_iff old k).0 same) h) in
        rw (← e, same, nothing) (simp append-nil)
    | inr other ↦ rw (← e, other) (sym (append-nil (in_groups k gs)))
  ]

  in_groups-add_reading :
      (k : Text) (rec : Reading Scale) (gs : List (ReadGroup Scale))
      → HaveOwnKeys gs
      → in_groups k (add_reading rec gs)
        ≡ in_groups k gs ++ (if text_eq (key_of rec) k then rec ∷ [] else [])
  unfolding in_groups add_reading
  in_groups-add_reading k rec [] h = append-nil _
  in_groups-add_reading k rec (g ∷ gs) h = elim (Bool-cases (text_eq g.key (key_of rec))) [
    | inl e ↦ rw e (
        join-group (key_of rec) g.key k g.readings rec gs ((text_eq_iff g.key (key_of rec)).0 e)
          h.0)
    | inr e ↦ rw e (
        rw (in_groups-add_reading k rec gs h.1)
          (sym (append_assoc (if text_eq g.key k then g.readings else []) (in_groups k gs) _)))
  ]

  group_readings-from :
      (k : Text) (recs : List (Reading Scale)) (gs : List (ReadGroup Scale))
      → HaveOwnKeys gs
      → in_groups k (group_readings recs gs) ≡ in_groups k gs ++ with_key k recs
  unfolding group_readings with_key
  group_readings-from k [] gs h = sym (append-nil _)
  group_readings-from k (rec ∷ recs) gs h =
      group_readings-from k recs (add_reading rec gs) (add_reading-HaveOwnKeys rec gs h)
      ∙ (rw (in_groups-add_reading k rec gs h) (
          append_assoc (in_groups k gs) (if text_eq (key_of rec) k then rec ∷ [] else [])
            (with_key k recs)))

  -- For each equipment and register type, the groups hold exactly its readings, in their order.
  in_groups-group_readings :
      (k : Text) (recs : List (Reading Scale))
      → in_groups k (group_readings recs []) ≡ with_key k recs
  unfolding in_groups
  in_groups-group_readings k recs = group_readings-from k recs [] tt
