-- ===== src/Link/Mesh/Tests.antt =====
-- Runs of the neighbor table of crates/tpt-t-link/src/mesh.rs on small inputs.
use tpt_teleop.Prelude.{ℕ, ◌+◌, ◌≡◌, refl, none, some, [], ◌∷◌}
use tpt_teleop.Link.Mesh.Table.{
  NeighborEntry, NeighborTable, probe_start, slot_at, find_from, find, expire_slots, expire,
}
use tpt_teleop.Link.Mesh.Expire.{live}

abbrev entry : ℕ → ℕ → NeighborEntry
entry unit_id seen = record {
  unit_id = unit_id;
  addr = 100 + unit_id;
  last_seen_ns = seen;
  last_seq = 1;
  last_flap_ns = 0;
}

-- The probes for the units 3 and 7 both start at slot 0.
abbrev table : NeighborTable
table = record {
  slots = some (entry 3 10) ∷ some (entry 7 900) ∷ none ∷ none ∷ [];
  len = 2;
  cfg = record { max_clock_skew_ns = 30000000000; flap_cooldown_ns = 2000000000 };
}

count : 2 ≡ live table.slots
unfolding live
count = refl

-- The unit 7 was heard 100 ns ago, and is found.
seven_found : find 7 table ≡ some (entry 7 900)
unfolding find find_from probe_start
seven_found = refl

-- Its entry is still there after `expire`, but it is no longer found.
seven_kept : slot_at (expire 1000 500 table).1 1 ≡ some (entry 7 900)
unfolding expire expire_slots
seven_kept = refl
