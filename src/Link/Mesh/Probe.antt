-- ===== src/Link/Mesh/Probe.antt =====
-- What `observe` stores, `find` finds: the probe chains of crates/tpt-t-link/src/mesh.rs.
use tpt_teleop.Prelude.{
  ℕ, zero, suc, ◌+◌, ◌%◌, ◌<◌, ◌≡◌, ◌≢◌, ◌⊎◌, inl, inr, refl, sym, ◌∙◌, ap, subst, arith, true,
  false, Option, none, some, length, length-set, get_or, get_or-set, set, ltb, ◌==◌, Bool-cases,
  Option-cases,
}
use native.Mathlib.Nat.{mod-lt}
use tpt_teleop.Link.Mesh.Table.{
  NeighborEntry, MeshConfig, NeighborTable, probe_start, refresh, slot_at, observe_from, abs_diff,
  observe, find_from, find,
}

set_keeps :
    (t : NeighborTable) (idx j : ℕ) (v : Option NeighborEntry) (y : NeighborEntry)
    → idx < length t.slots
    → slot_at t j ≡ some y
    → idx ≢ j
    → get_or (set t.slots idx v) j none ≡ some y
set_keeps t idx j v y h e apart = get_or-set t.slots idx j v none h ∙ ground (arith, e, apart)

free_apart :
    (t : NeighborTable) (idx j : ℕ) (y : NeighborEntry)
    → idx ≡ j
    → slot_at t idx ≡ none
    → slot_at t j ≢ some y
free_apart t idx j y i free e =
    absurd (ground (arith, free, subst (λ k. slot_at t k ≡ some y) (sym i) e))

own_apart :
    (unit_id : ℕ) (t : NeighborTable) (idx j : ℕ) (x y : NeighborEntry)
    → idx ≡ j
    → slot_at t idx ≡ some x
    → (x.unit_id == unit_id) ≡ true
    → slot_at t j ≡ some y
    → (y.unit_id == unit_id) ≢ false
own_apart unit_id t idx j x y i e own f other =
    let same : some x ≡ some y = sym e ∙ subst (λ k. slot_at t k ≡ some y) (sym i) f in
    let id = ap (λ o. (elim o [ some z ↦ z.unit_id == unit_id | none ↦ true ])) same in
    absurd (ground (arith, own, other, id))

module _ (unit_id addr seq now : ℕ) where
  abbrev fresh : NeighborEntry
  fresh = record {
    unit_id = unit_id;
    addr = addr;
    last_seen_ns = now;
    last_seq = seq;
    last_flap_ns = now;
  }

  refresh_lem :
      (cfg : MeshConfig) (e : NeighborEntry)
      → let (_, e') = refresh cfg addr seq now e in
        (e'.unit_id ≡ e.unit_id) × (e'.last_seen_ns ≡ now)
  unfolding refresh
  refresh_lem cfg e = ground arith

  -- One round of the loop.
  at_free :
      (n idx : ℕ) (t : NeighborTable)
      → slot_at t idx ≡ none
      → observe_from (suc n) idx unit_id addr seq now t
        ≡ (true, record t { slots = set t.slots idx (some fresh); len = t.len + 1 })
  unfolding observe_from
  at_free n idx t e = rw (e, observe_from) refl

  at_own :
      (n idx : ℕ) (t : NeighborTable) (x : NeighborEntry)
      → slot_at t idx ≡ some x
      → (x.unit_id == unit_id) ≡ true
      → observe_from (suc n) idx unit_id addr seq now t ≡ (
        (refresh t.cfg addr seq now x).0,
        record t { slots = set t.slots idx (some (refresh t.cfg addr seq now x).1) },
      )
  unfolding observe_from
  at_own n idx t x e own = rw (e, own, observe_from) refl

  at_other :
      (n idx : ℕ) (t : NeighborTable) (x : NeighborEntry)
      → slot_at t idx ≡ some x
      → (x.unit_id == unit_id) ≡ false
      → observe_from (suc n) idx unit_id addr seq now t
        ≡ observe_from n ((idx + 1) % length t.slots) unit_id addr seq now t
  unfolding observe_from
  at_other n idx t x e other = rw (e, other, observe_from) refl

  stored_at :
      (t : NeighborTable) (idx : ℕ) (v : Option NeighborEntry)
      → idx < length t.slots
      → get_or (set t.slots idx v) idx none ≡ v
  stored_at t idx v h = get_or-set t.slots idx idx v none h ∙ ground arith

  -- One round of the search.
  found :
      (n idx : ℕ) (t : NeighborTable) (x : NeighborEntry)
      → slot_at t idx ≡ some x
      → (x.unit_id == unit_id) ≡ true
      → find_from (suc n) idx unit_id t ≡ some x
  unfolding find_from
  found n idx t x e own = rw (e, own, find_from) refl

  passed :
      (n idx : ℕ) (t : NeighborTable) (x : NeighborEntry)
      → slot_at t idx ≡ some x
      → (x.unit_id == unit_id) ≡ false
      → find_from (suc n) idx unit_id t ≡ find_from n ((idx + 1) % length t.slots) unit_id t
  unfolding find_from
  passed n idx t x e other = rw (e, other, find_from) refl

  -- The loop keeps the number of slots and the entries of all other units.
  pub observe_keeps :
      (n idx : ℕ) (t : NeighborTable)
      → idx < length t.slots
      → let (_, t') = observe_from n idx unit_id addr seq now t in
        (length t'.slots ≡ length t.slots)
        × ((j : ℕ) (y : NeighborEntry)
            → slot_at t j ≡ some y
            → (y.unit_id == unit_id) ≡ false
            → slot_at t' j ≡ some y)
  unfolding observe_from
  observe_keeps zero idx t h = (refl, λ j y e other. e)
  observe_keeps (suc n) idx t h = elim (Option-cases (slot_at t idx)) [
    | inl free ↦ rw (at_free n idx t free) (
      length-set t.slots idx (some fresh),
      λ j y e other. set_keeps t idx j (some fresh) y h e (λ i. free_apart t idx j y i free e),
    )
    | inr (x, e) ↦ elim (Bool-cases (x.unit_id == unit_id)) [
      | inl own ↦ rw (at_own n idx t x e own) (
        length-set t.slots idx _,
        λ j y f other.
            set_keeps t idx j _ y h f (λ i. own_apart unit_id t idx j x y i e own f other),
      )
      | inr other ↦
          rw (at_other n idx t x e other)
            (observe_keeps n ((idx + 1) % length t.slots) t (mod-lt (idx + 1) (omega (arith, h))))
    ]
  ]

  -- Unless the chain is full, what the loop has stored is what the search finds.
  find_observed :
      (n idx : ℕ) (t : NeighborTable)
      → idx < length t.slots
      → let (result, t') = observe_from n idx unit_id addr seq now t in
        (result ≡ false) × (t' ≡ t)
        ⊎ (e : NeighborEntry) × (find_from n idx unit_id t' ≡ some e)
          × (e.unit_id ≡ unit_id)
          × (e.last_seen_ns ≡ now)
  unfolding observe_from
  find_observed zero idx t h = inl (refl, refl)
  find_observed (suc n) idx t h = elim (Option-cases (slot_at t idx)) [
    | inl free ↦ rw (at_free n idx t free) (
        inr
          (fresh, found n idx _ fresh (stored_at t idx (some fresh) h) (ground arith), refl, refl))
    | inr (x, e) ↦ elim (Bool-cases (x.unit_id == unit_id)) [
      | inl own ↦
          let x' = (refresh t.cfg addr seq now x).1 in
          let (same, seen) = refresh_lem t.cfg x in
          let id : x'.unit_id ≡ unit_id = ground (arith, same, own) in
          rw (at_own n idx t x e own) (
            inr (x', found n idx _ x' (stored_at t idx (some x') h) (ground (arith, id)), id, seen))
      | inr other ↦
          let next = (idx + 1) % length t.slots in
          let in_range = mod-lt (idx + 1) (omega (arith, h)) in
          let (len, keeps) = observe_keeps n next t in_range in
          rw (at_other n idx t x e other) (elim (find_observed n next t in_range) [
            | inl full ↦ inl full
            | inr (y, f, id, seen) ↦ inr (
              y,
              passed n idx _ x (keeps idx x e other) other
                  ∙ ap
                      (λ l.
                        find_from n ((idx + 1) % l) unit_id
                          (observe_from n next unit_id addr seq now t).1)
                      len
                  ∙ f,
              id,
              seen,
            )
          ])
    ]
  ]

-- After a beacon, in a table with a slot at least: either nothing has changed and the answer is no,
-- the beacon being too far from the clock or the table full, or the unit is found, seen now. The
-- entry of another unit stays in its slot.
pub find-observe :
    (unit_id addr seq beacon now : ℕ) (t : NeighborTable)
    → 0 < length t.slots
    → let (result, t') = observe unit_id addr seq beacon now t in
      ((result ≡ false) × (t' ≡ t)
        ⊎ (e : NeighborEntry) × (find unit_id t' ≡ some e)
          × (e.unit_id ≡ unit_id)
          × (e.last_seen_ns ≡ now))
      × ((j : ℕ) (y : NeighborEntry)
          → slot_at t j ≡ some y
          → (y.unit_id == unit_id) ≡ false
          → slot_at t' j ≡ some y)
unfolding observe find
find-observe unit_id addr seq beacon now t h =
    elim (Bool-cases (ltb t.cfg.max_clock_skew_ns (abs_diff beacon now))) [
      | inl skewed ↦ rw skewed (inl (refl, refl), λ j y e other. e)
      | inr near ↦
          let cap = length t.slots in
          let start = probe_start unit_id % cap in
          let in_range = mod-lt (probe_start unit_id) h in
          let (len, keeps) = observe_keeps unit_id addr seq now cap start t in_range in
          rw near (
            elim (find_observed unit_id addr seq now cap start t in_range) [
              | inl full ↦ inl full
              | inr (e, f, id, seen) ↦ inr (
                e,
                ap
                      (λ l.
                        find_from l (probe_start unit_id % l) unit_id
                          (observe_from cap start unit_id addr seq now t).1)
                      len
                    ∙ f,
                id,
                seen,
              )
            ],
            keeps,
          )
    ]
