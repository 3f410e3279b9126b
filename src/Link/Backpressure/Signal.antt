-- ===== src/Link/Backpressure/Signal.antt =====
-- `Congestion` and `Backpressure` of crates/tpt-t-link/src/backpressure.rs. Each operation runs on its
-- own; the two parts of `refill` are apart, so that two threads' calls can be put between each other.
use tpt_teleop.Prelude.{
  ℕ, ◌+◌, ◌-◌, ◌*◌, ◌/◌, ◌%◌, min, max, Bool, true, false, Option, none, some, ltb, leb, ◌==◌, ◌||◌,
  if◌then◌else◌,
}
use tpt_teleop.Prelude.Words.{u64_mod, wrapping_add_64, saturate_64}

abbrev pub token_scale : ℕ
token_scale = 65536

pub data Congestion : Type 0 where
  normal elevated high critical : Congestion

unfoldable pub bitrate_fraction_bp : Congestion → ℕ
bitrate_fraction_bp normal = 10000
bitrate_fraction_bp elevated = 7000
bitrate_fraction_bp high = 4500
bitrate_fraction_bp critical = 2500

unfoldable pub as_u8 : Congestion → ℕ
as_u8 normal = 0
as_u8 elevated = 1
as_u8 high = 2
as_u8 critical = 3

unfoldable pub from_u8 : ℕ → Option Congestion
from_u8 v =
    if v == 0
    then some normal
    else if v == 1
    then some elevated
    else if v == 2
    then some high
    else if v == 3
    then some critical
    else none

pub record Backpressure : Type 0 where
  pub capacity_bps : ℕ
  pub tokens : ℕ
  pub last_refill_ns : ℕ
  pub queue_depth : ℕ
  pub peak_queue_depth : ℕ
  pub blocked_sends : ℕ
  pub blocked_window : ℕ
  pub window_start_ns : ℕ
  pub dropped_frames : ℕ
  pub rtt_ewma_ns : ℕ

unfoldable pub new : ℕ → Backpressure
new capacity_bps = record {
  capacity_bps = max capacity_bps 1;
  tokens = 0;
  last_refill_ns = 0;
  queue_depth = 0;
  peak_queue_depth = 0;
  blocked_sends = 0;
  blocked_window = 0;
  window_start_ns = 0;
  dropped_frames = 0;
  rtt_ewma_ns = 0;
}

unfoldable pub set_capacity_bps : ℕ → Backpressure → Backpressure
set_capacity_bps bps bp = record bp { capacity_bps = max bps 1 }

unfoldable pub note_rtt_ns : ℕ → Backpressure → Backpressure
note_rtt_ns sample_ns bp =
    let old = bp.rtt_ewma_ns in
    record bp {
      rtt_ewma_ns = if old == 0 then sample_ns else wrapping_add_64 (old - old / 4) (sample_ns / 4);
    }

unfoldable pub set_queue_depth : ℕ → Backpressure → Backpressure
set_queue_depth depth bp = record bp {
  queue_depth = depth;
  peak_queue_depth = max bp.peak_queue_depth depth;
}

unfoldable pub note_send_blocked : ℕ → Backpressure → Backpressure
note_send_blocked now_ns bp =
    let start = bp.window_start_ns in
    let sends = wrapping_add_64 bp.blocked_sends 1 in
    if start == 0 || ltb 100000000 (now_ns - start)
    then record bp { blocked_window = 1; window_start_ns = max now_ns 1; blocked_sends = sends }
    else record bp { blocked_window = wrapping_add_64 bp.blocked_window 1; blocked_sends = sends }

unfoldable pub note_drop : Backpressure → Backpressure
note_drop bp = record bp { dropped_frames = wrapping_add_64 bp.dropped_frames 1 }

-- What the time since `last` adds, in tokens.
unfoldable pub gained : ℕ → ℕ → Backpressure → ℕ
gained last now_ns bp =
    saturate_64 (saturate_64 (bp.capacity_bps * (now_ns - last)) / 8000000000 * token_scale)

-- The most that the bucket holds.
unfoldable pub bucket : Backpressure → ℕ
bucket bp = max (bp.capacity_bps / 8 * token_scale % u64_mod) token_scale

-- The part of `refill` after `last` has been loaded: the exchange of the time, whose outcome is not
-- looked at, and the tokens.
unfoldable pub credit : ℕ → ℕ → Backpressure → Backpressure
unfolding gained bucket
credit last now_ns bp = if leb now_ns last then bp else record bp {
  last_refill_ns = if bp.last_refill_ns == last then now_ns else bp.last_refill_ns;
  tokens =
      if ltb 0 (gained last now_ns bp)
      then min (wrapping_add_64 bp.tokens (gained last now_ns bp)) (bucket bp)
      else bp.tokens;
}

unfoldable pub refill : ℕ → Backpressure → Backpressure
unfolding credit
refill now_ns bp = credit bp.last_refill_ns now_ns bp

-- The part of `admit` after the refill.
unfoldable pub spend : ℕ → Backpressure → Bool × Backpressure
unfolding note_drop
spend bytes bp =
    let want = saturate_64 (bytes * token_scale) in
    if leb want bp.tokens
    then (true, record bp { tokens = bp.tokens - want })
    else (false, note_drop bp)

unfoldable pub admit : ℕ → ℕ → Backpressure → Bool × Backpressure
unfolding refill spend
admit bytes now_ns bp = spend bytes (refill now_ns bp)

unfoldable pub available_bytes : Backpressure → ℕ
available_bytes bp = bp.tokens / token_scale

unfoldable pub score : Backpressure → ℕ
score bp = saturate_64 (saturate_64 (bp.queue_depth * 2) + min bp.blocked_window 64)

unfoldable pub congestion : Backpressure → Congestion
unfolding score
congestion bp =
    if score bp == 0
    then normal
    else if leb (score bp) 7
    then elevated
    else if leb (score bp) 39
    then high
    else critical

unfoldable pub suggested_bitrate_bps : Backpressure → ℕ
unfolding congestion bitrate_fraction_bp
suggested_bitrate_bps bp = bp.capacity_bps * bitrate_fraction_bp (congestion bp) % u64_mod / 10000
