-- ===== src/Link/Backpressure/Levels.antt =====
-- What the congestion level and the other readings promise.
use tpt_teleop.Prelude.{ℕ, ◌+◌, ◌-◌, ◌*◌, ◌/◌, ◌<◌, ◌≤◌, ◌≡◌, ◌≢◌, refl, ◌∙◌, arith, List, [], ◌∷◌}
use tpt_teleop.Prelude.Words.{u64_mod}
use tpt_teleop.Link.Backpressure.Signal.{
  normal, bitrate_fraction_bp, Backpressure, gained, bucket, credit, refill, spend, admit,
  note_drop, set_capacity_bps, note_rtt_ns, set_queue_depth, note_send_blocked, score, congestion,
  suggested_bitrate_bps,
}

-- The bitrate to aim at is never above the capacity, and is a quarter of it at least.
pub suggested_bitrate_bound :
    (bp : Backpressure)
    → bp.capacity_bps * 10000 < u64_mod
    → (suggested_bitrate_bps bp ≤ bp.capacity_bps)
      × (bp.capacity_bps / 4 ≤ suggested_bitrate_bps bp)
unfolding suggested_bitrate_bps congestion bitrate_fraction_bp
suggested_bitrate_bound bp small = ground arith

-- What a program does with the signal, but for reporting a blocked send.
pub data Quiet : Type 0 where
  refills : ℕ → Quiet
  admits : ℕ → ℕ → Quiet
  rtt : ℕ → Quiet
  depth : ℕ → Quiet
  capacity : ℕ → Quiet

unfoldable pub after : List Quiet → Backpressure → Backpressure
after [] bp = bp
after (refills now ∷ ops) bp = after ops (refill now bp)
after (admits bytes now ∷ ops) bp = after ops (admit bytes now bp).1
after (rtt sample ∷ ops) bp = after ops (note_rtt_ns sample bp)
after (depth n ∷ ops) bp = after ops (set_queue_depth n bp)
after (capacity bps ∷ ops) bp = after ops (set_capacity_bps bps bp)

refill_keeps : (now : ℕ) (bp : Backpressure) → (refill now bp).blocked_window ≡ bp.blocked_window
unfolding refill credit
refill_keeps now bp = ground arith

spend_keeps :
    (bytes : ℕ) (bp : Backpressure) → (spend bytes bp).1.blocked_window ≡ bp.blocked_window
unfolding spend note_drop
spend_keeps bytes bp = ground arith

quiet_keeps :
    (ops : List Quiet) (bp : Backpressure) → (after ops bp).blocked_window ≡ bp.blocked_window
unfolding after admit note_rtt_ns set_queue_depth set_capacity_bps
quiet_keeps [] bp = refl
quiet_keeps (refills now ∷ ops) bp = quiet_keeps ops _ ∙ refill_keeps now bp
quiet_keeps (admits bytes now ∷ ops) bp =
    quiet_keeps ops _ ∙ spend_keeps bytes (refill now bp) ∙ refill_keeps now bp
quiet_keeps (rtt sample ∷ ops) bp = quiet_keeps ops _ ∙ refl
quiet_keeps (depth n ∷ ops) bp = quiet_keeps ops _ ∙ refl
quiet_keeps (capacity bps ∷ ops) bp = quiet_keeps ops _ ∙ refl

note_send_blocked_counts :
    (now : ℕ) (bp : Backpressure)
    → bp.blocked_window < u64_mod - 1
    → 0 < (note_send_blocked now bp).blocked_window
unfolding note_send_blocked
note_send_blocked_counts now bp room = ground arith

blocked_not_normal : (bp : Backpressure) → 0 < bp.blocked_window → congestion bp ≢ normal
unfolding congestion score
blocked_not_normal bp pos e = ground arith

-- Once a send has been blocked the level never returns to normal by the passing of time: whatever
-- follows, but for another blocked send, and however late, it stays above normal.
pub congestion_lingers :
    (ops : List Quiet) (now : ℕ) (bp : Backpressure)
    → bp.blocked_window < u64_mod - 1
    → congestion (after ops (note_send_blocked now bp)) ≢ normal
congestion_lingers ops now bp room = blocked_not_normal _ (
    omega (arith, quiet_keeps ops (note_send_blocked now bp), note_send_blocked_counts now bp room))

bucket_lt : (bp : Backpressure) → bucket bp < u64_mod
unfolding bucket
bucket_lt bp = omega arith

same_capacity :
    (last now : ℕ) (a b : Backpressure)
    → a.capacity_bps ≡ b.capacity_bps
    → (gained last now a ≡ gained last now b) × (bucket a ≡ bucket b)
unfolding gained bucket
same_capacity last now a b e = rw e (refl, refl)

credit_adds :
    (last now : ℕ) (bp : Backpressure)
    → last < now
    → bp.tokens + gained last now bp ≤ bucket bp
    → ((credit last now bp).tokens ≡ bp.tokens + gained last now bp)
      × ((credit last now bp).capacity_bps ≡ bp.capacity_bps)
unfolding credit
credit_adds last now bp later room = ground (arith, bucket_lt bp)

-- Two threads that have both loaded the time of the last refill both credit the time since then:
-- the bucket gains it twice, as long as it has room.
pub refill_races :
    (now : ℕ) (bp : Backpressure)
    → bp.last_refill_ns < now
    → bp.tokens + 2 * gained bp.last_refill_ns now bp ≤ bucket bp
    → (credit bp.last_refill_ns now (credit bp.last_refill_ns now bp)).tokens
      ≡ bp.tokens + 2 * gained bp.last_refill_ns now bp
refill_races now bp later room =
    let twice = credit bp.last_refill_ns now bp in
    let (first, bps) = credit_adds bp.last_refill_ns now bp later (omega (arith, room)) in
    let (g, b) = same_capacity bp.last_refill_ns now twice bp bps in
    let (second, _) =
      credit_adds bp.last_refill_ns now twice later (omega (arith, room, first, g, b)) in
    omega (arith, first, second, g)
