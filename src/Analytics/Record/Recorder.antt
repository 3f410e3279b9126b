-- ===== src/Analytics/Record/Recorder.antt =====
-- Runs of the recorder of crates/tpt-t-analytics/src/record.rs: the control loop's calls between the
-- steps of the storage thread, in any order.
use tpt_teleop.Prelude.{ℕ, Bool, true, false, List, [], ◌∷◌, ◌==◌, ◌&&◌, if◌then◌else◌}
use tpt_teleop.Ring.Spsc.{Spsc, Pushed, accepted, refused, push, len}
use tpt_teleop.Ring.Spsc as Spsc
use tpt_teleop.Analytics.DirectIo.{open_file}
use tpt_teleop.Analytics.Record.{RecordKind, FdrWriter, try_record, drain_once, finish}

-- Where the storage thread is in `run`: before a drain, between the drain and the load of `stop`, or
-- at its end.
pub data Phase : Type 0 where
  draining : Phase
  checking : ℕ → Phase
  finished : Phase

pub record Recorder : Type 0 where
  pub writer : FdrWriter
  pub stop : Bool
  pub phase : Phase

-- `Recorder::open`
unfoldable pub open_recorder : ℕ → Recorder
open_recorder ring_capacity = record {
  writer = record { ring = Spsc.with_capacity ring_capacity; file = open_file };
  stop = false;
  phase = draining;
}

-- A call of the control loop, or a step of the storage thread.
pub data Step : Type 0 where
  records : RecordKind → List ℕ → ℕ → Step
  stops : Step
  drains : Step
  checks : Step

unfoldable pub drain_step : Phase → Recorder → Recorder
drain_step draining r =
    let (n, w) = drain_once r.writer in record r { writer = w; phase = checking n }
drain_step (checking n) r = r
drain_step finished r = r

unfoldable pub check_step : Phase → Recorder → Recorder
check_step draining r = r
check_step (checking n) r =
    if n == 0 && r.stop
    then record r { writer = finish r.writer; phase = finished }
    else record r { phase = draining }
check_step finished r = r

unfoldable pub step : Step → Recorder → Recorder
unfolding drain_step check_step
step (records kind bytes ts) r = record r {
  writer = record r.writer { ring = (try_record kind bytes ts r.writer.ring).1 };
}
step stops r = record r { stop = true }
step drains r = drain_step r.phase r
step checks r = check_step r.phase r

unfoldable pub run : List Step → Recorder → Recorder
unfolding step
run [] r = r
run (s ∷ ss) r = run ss (step s r)
