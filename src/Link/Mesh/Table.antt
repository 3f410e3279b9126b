-- ===== src/Link/Mesh/Table.antt =====
-- `NeighborTable` of crates/tpt-t-link/src/mesh.rs. An address stands as the number that it is.
use tpt_teleop.Prelude.{
  ℕ, zero, suc, ◌+◌, ◌-◌, ◌*◌, ◌/◌, ◌%◌, ◌^◌, max, Bool, true, false, Option, none, some, List, [],
  ◌∷◌, length, replicate, get_or, set, ltb, leb, ◌==◌, ◌&&◌, not, if◌then◌else◌,
}
use tpt_teleop.Prelude.Words.{u64_mod, wrapping_sub_32}
use tpt_teleop.Link.Reliable.Ack.{half_range}

pub record NeighborEntry : Type 0 where
  pub unit_id : ℕ
  pub addr : ℕ
  pub last_seen_ns : ℕ
  pub last_seq : ℕ
  pub last_flap_ns : ℕ

pub record MeshConfig : Type 0 where
  pub max_clock_skew_ns : ℕ
  pub flap_cooldown_ns : ℕ

unfoldable pub default_config : MeshConfig
default_config = record { max_clock_skew_ns = 30000000000; flap_cooldown_ns = 2000000000 }

pub record NeighborTable : Type 0 where
  pub slots : List (Option NeighborEntry)
  pub len : ℕ
  pub cfg : MeshConfig

unfoldable pub with_config : ℕ → MeshConfig → NeighborTable
with_config capacity cfg = record { slots = replicate (max capacity 1) none; len = 0; cfg = cfg }

-- `wrapping_mul`, then the 17 bits from bit 47 on.
unfoldable pub probe_start : ℕ → ℕ
probe_start unit_id = unit_id * 11400714819323198485 % u64_mod / 2 ^ 47

-- `seq.wrapping_sub(last) as i32 > 0`
unfoldable pub advanced : ℕ → ℕ → Bool
advanced seq last = ltb 0 (wrapping_sub_32 seq last) && leb (wrapping_sub_32 seq last) half_range

-- What a beacon makes of the entry of its unit: what `observe` returns, and the entry.
unfoldable pub refresh : MeshConfig → ℕ → ℕ → ℕ → NeighborEntry → Bool × NeighborEntry
unfolding advanced
refresh cfg addr seq now_ns e =
    if not (e.addr == addr)
    then if ltb (now_ns - e.last_flap_ns) cfg.flap_cooldown_ns
      then (false, record e { last_seen_ns = now_ns })
      else (
        true,
        record e {
          addr = addr;
          last_flap_ns = now_ns;
          last_seen_ns = now_ns;
          last_seq = if advanced seq e.last_seq then seq else e.last_seq;
        },
      )
    else if advanced seq e.last_seq
    then (true, record e { last_seq = seq; last_seen_ns = now_ns })
    else (false, record e { last_seen_ns = now_ns })

abbrev pub slot_at : NeighborTable → ℕ → Option NeighborEntry
slot_at t idx = get_or t.slots idx none

-- The loop of `observe`, `n` rounds of it from the slot `idx` on.
unfoldable pub observe_from : ℕ → ℕ → ℕ → ℕ → ℕ → ℕ → NeighborTable → Bool × NeighborTable
unfolding refresh
observe_from zero idx unit_id addr seq now_ns t = (false, t)
observe_from (suc n) idx unit_id addr seq now_ns t =
    let rest = observe_from n ((idx + 1) % length t.slots) unit_id addr seq now_ns t in
    elim (slot_at t idx) [
      | none ↦
          let e : NeighborEntry = record {
            unit_id = unit_id;
            addr = addr;
            last_seen_ns = now_ns;
            last_seq = seq;
            last_flap_ns = now_ns;
          } in
          (true, record t { slots = set t.slots idx (some e); len = t.len + 1 })
      | some e ↦
          let (r, e') = refresh t.cfg addr seq now_ns e in
          if e.unit_id == unit_id then (r, record t { slots = set t.slots idx (some e') }) else rest
    ]

-- `beacon_ts_ns.abs_diff(now_ns)`
abbrev pub abs_diff : ℕ → ℕ → ℕ
abs_diff a b = (a - b) + (b - a)

unfoldable pub observe : ℕ → ℕ → ℕ → ℕ → ℕ → NeighborTable → Bool × NeighborTable
unfolding observe_from probe_start
observe unit_id addr seq beacon_ts_ns now_ns t =
    let cap = length t.slots in
    if ltb t.cfg.max_clock_skew_ns (abs_diff beacon_ts_ns now_ns)
    then (false, t)
    else observe_from cap (probe_start unit_id % cap) unit_id addr seq now_ns t

unfoldable pub find_from : ℕ → ℕ → ℕ → NeighborTable → Option NeighborEntry
find_from zero idx unit_id t = none
find_from (suc n) idx unit_id t =
    let rest = find_from n ((idx + 1) % length t.slots) unit_id t in
    elim (slot_at t idx) [ none ↦ none | some e ↦ if e.unit_id == unit_id then some e else rest ]

unfoldable pub find : ℕ → NeighborTable → Option NeighborEntry
unfolding find_from probe_start
find unit_id t = let cap = length t.slots in find_from cap (probe_start unit_id % cap) unit_id t

-- The loop of `expire`: the slots after it, and how many were dropped.
unfoldable pub expire_slots : ℕ → ℕ → List (Option NeighborEntry) → List (Option NeighborEntry) × ℕ
expire_slots now_ns ttl_ns [] = ([], 0)
expire_slots now_ns ttl_ns (none ∷ ss) =
    let (ss', removed) = expire_slots now_ns ttl_ns ss in (none ∷ ss', removed)
expire_slots now_ns ttl_ns (some e ∷ ss) =
    let (ss', removed) = expire_slots now_ns ttl_ns ss in
    if ltb ttl_ns (now_ns - e.last_seen_ns)
    then (none ∷ ss', suc removed)
    else (some e ∷ ss', removed)

unfoldable pub expire : ℕ → ℕ → NeighborTable → ℕ × NeighborTable
unfolding expire_slots
expire now_ns ttl_ns t =
    let (slots, removed) = expire_slots now_ns ttl_ns t.slots in
    (removed, record t { slots = slots; len = t.len - removed })
