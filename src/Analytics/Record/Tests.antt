-- ===== src/Analytics/Record/Tests.antt =====
-- The recorder of crates/tpt-t-analytics/src/record.rs on concrete records.
use tpt_teleop.Prelude.{ℕ, ◌≡◌, ◌≢◌, refl, arith, max, replicate, List, [], ◌∷◌, ◌++◌}
use tpt_teleop.Prelude.PowTwo.{log2_ceil, log2_ceil_from, next_power_of_two}
use tpt_teleop.Ring.Refine.{Holds}
use tpt_teleop.Ring.Spsc.{with_capacity, drain, pop, len, push}
use tpt_teleop.Analytics.Record.{
  try_record, record_entry, new, stored, drain_once, control, imu, end, FdrEntry, kind_of,
  parse_entries,
}
use tpt_teleop.Analytics.Record.Parse.{IsEntry}
use tpt_teleop.Analytics.Record.Recorder.{
  finished, step, drain_step, check_step, open_recorder, Step, records, stops, drains, checks, run,
}
use tpt_teleop.Analytics.Record.Lossless.{stored_in, run_lossless}
use tpt_teleop.Analytics.Record.Stopping.{stored_before_check_is_lost}

abbrev three_bytes : List ℕ
three_bytes = 1 ∷ 2 ∷ 3 ∷ []

abbrev entry : FdrEntry
entry = record {
  timestamp_ns = 42;
  payload_len = 3;
  kind = 0;
  pad = 0;
  reserved = 0;
  payload_array = three_bytes ++ replicate 509 0;
}

entry-IsEntry : IsEntry entry
unfolding kind_of
entry-IsEntry = record {
  timestamp_ns = omega arith;
  payload_len = omega arith;
  kind = omega arith;
  pad = omega arith;
  reserved = omega arith;
  payload_array = refl;
  going = refl;
}

abbrev steps : List Step
steps =
    records control three_bytes 42
    ∷ drains
    ∷ records imu (9 ∷ []) 43
    ∷ checks
    ∷ stops
    ∷ drains
    ∷ checks
    ∷ drains
    ∷ checks
    ∷ []

control_goes_on : control ≢ end
control_goes_on e = absurd (ground (arith, e))

imu_goes_on : imu ≢ end
imu_goes_on e = absurd (ground (arith, e))

run_lossless_example :
    let r = run steps (open_recorder 4) in
    (q : List FdrEntry) × Holds (log2_ceil (max 4 1)) r.writer.ring q
    × (parse_entries (r.writer.file.disk ++ r.writer.file.staging) ++ q
        ≡ stored_in steps (open_recorder 4))
    × (r.phase ≡ finished
        → parse_entries r.writer.file.disk ++ q ≡ stored_in steps (open_recorder 4))
run_lossless_example = run_lossless 4 steps (omega arith) (
  (control_goes_on, omega arith),
  (tt, ((imu_goes_on, omega arith), (tt, (tt, (tt, (tt, (tt, (tt, tt)))))))),
)

-- One record reaches the file; the next comes too late.
abbrev before : List Step
before = records control three_bytes 42 ∷ drains ∷ checks ∷ []

stored_before_check_is_lost_example :
    let r = run before (open_recorder 4) in
    ((try_record imu (9 ∷ []) 43 (step drains r).writer.ring).0 ≡ stored)
    × (parse_entries
          (run (drains ∷ records imu (9 ∷ []) 43 ∷ stops ∷ checks ∷ drains ∷ []) r).writer.file.disk
        ≡ stored_in before (open_recorder 4))
unfolding run step drain_step check_step drain_once open_recorder with_capacity drain pop len push
    try_record record_entry new next_power_of_two log2_ceil log2_ceil_from
stored_before_check_is_lost_example =
    stored_before_check_is_lost 4 before imu (9 ∷ []) 43 (drains ∷ []) (omega arith)
      ((control_goes_on, omega arith), (tt, (tt, tt))) refl refl (omega arith)
