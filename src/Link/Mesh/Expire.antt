-- ===== src/Link/Mesh/Expire.antt =====
-- What `expire` of crates/tpt-t-link/src/mesh.rs drops, and what it hides.
use tpt_teleop.Prelude.{
  ℕ, zero, suc, ◌+◌, ◌-◌, ◌%◌, ◌<◌, ◌≤◌, ◌≡◌, inl, inr, refl, ◌∙◌, ap, arith, true, Option, none,
  some, List, [], ◌∷◌, All, length, get_or, ltb, Bool-cases,
}
use tpt_teleop.Link.Mesh.Table.{
  NeighborEntry, NeighborTable, probe_start, slot_at, find_from, find, expire_slots, expire,
}

-- The number of entries in the slots.
unfoldable pub live : List (Option NeighborEntry) → ℕ
live [] = 0
live (none ∷ ss) = live ss
live (some e ∷ ss) = suc (live ss)

-- An entry that is there has been heard within the time to live.
abbrev pub IsRecent : ℕ → ℕ → Option NeighborEntry → Type 0
IsRecent now ttl none = Unit
IsRecent now ttl (some e) = now - e.last_seen_ns ≤ ttl

expire_slots_lem :
    (now ttl : ℕ) (ss : List (Option NeighborEntry))
    → let (ss', removed) = expire_slots now ttl ss in
      All (IsRecent now ttl) ss' × (live ss' + removed ≡ live ss) × (length ss' ≡ length ss)
unfolding expire_slots live
expire_slots_lem now ttl [] = (tt, omega arith, refl)
expire_slots_lem now ttl (none ∷ ss) =
    let (recent, count, len) = expire_slots_lem now ttl ss in ((tt, recent), count, ap suc len)
expire_slots_lem now ttl (some e ∷ ss) =
    let (recent, count, len) = expire_slots_lem now ttl ss in
    elim (Bool-cases (ltb ttl (now - e.last_seen_ns))) [
      | inl old ↦ rw old ((tt, recent), omega (arith, count), ap suc len)
      | inr new ↦ rw new ((ground (arith, new), recent), omega (arith, count), ap suc len)
    ]

-- In a table whose `len` counts its entries, `expire` leaves only entries that were heard within the
-- time to live, returns how many it dropped, and `len` counts the ones left.
pub expire_lem :
    (now ttl : ℕ) (t : NeighborTable)
    → t.len ≡ live t.slots
    → let (removed, t') = expire now ttl t in
      All (IsRecent now ttl) t'.slots × (t'.len ≡ live t'.slots) × (t'.len + removed ≡ t.len)
unfolding expire
expire_lem now ttl t e =
    let (recent, count, _) = expire_slots_lem now ttl t.slots in
    (recent, omega (arith, count, e), omega (arith, count, e))

expired_at :
    (now ttl i : ℕ) (ss : List (Option NeighborEntry)) (e : NeighborEntry)
    → get_or ss i none ≡ some e
    → ttl < now - e.last_seen_ns
    → get_or (expire_slots now ttl ss).0 i none ≡ none
unfolding expire_slots
expired_at now ttl i [] e h old = refl
expired_at now ttl zero (none ∷ ss) e h old = refl
expired_at now ttl zero (some x ∷ ss) e h old =
    let same : now - x.last_seen_ns ≡ now - e.last_seen_ns =
      ap (λ o. elim o [ some z ↦ now - z.last_seen_ns | none ↦ 0 ]) h in
    let late : ltb ttl (now - x.last_seen_ns) ≡ true = ground (arith, same, old) in rw late refl
expired_at now ttl (suc i) (none ∷ ss) e h old = expired_at now ttl i ss e h old
expired_at now ttl (suc i) (some x ∷ ss) e h old =
    elim (Bool-cases (ltb ttl (now - x.last_seen_ns))) [
      | inl late ↦ rw late (expired_at now ttl i ss e h old)
      | inr new ↦ rw new (expired_at now ttl i ss e h old)
    ]

stops_at :
    (n idx unit_id : ℕ) (t : NeighborTable)
    → slot_at t idx ≡ none
    → find_from n idx unit_id t ≡ none
unfolding find_from
stops_at zero idx unit_id t e = refl
stops_at (suc n) idx unit_id t e = rw (e, find_from) refl

-- Once `expire` has dropped the entry in the slot where the probes for a unit start, the unit is not
-- found, whatever slot further on still holds it.
pub expire_hides :
    (now ttl unit_id : ℕ) (t : NeighborTable) (e : NeighborEntry)
    → slot_at t (probe_start unit_id % length t.slots) ≡ some e
    → ttl < now - e.last_seen_ns
    → find unit_id (expire now ttl t).1 ≡ none
unfolding expire find
expire_hides now ttl unit_id t e h old =
    let (_, _, len) = expire_slots_lem now ttl t.slots in
    let hole = expired_at now ttl (probe_start unit_id % length t.slots) t.slots e h old in
    stops_at (length (expire now ttl t).1.slots)
      (probe_start unit_id % length (expire now ttl t).1.slots) unit_id (expire now ttl t).1
      (ap (λ l. slot_at (expire now ttl t).1 (probe_start unit_id % l)) len ∙ hole)
