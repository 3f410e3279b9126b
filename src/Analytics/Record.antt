-- ===== src/Analytics/Record.antt =====
-- crates/tpt-t-analytics/src/record.rs: the records of the flight-data recorder, the sink that the
-- control loop pushes into, the writer of the storage thread and the reader of its file.
use tpt_teleop.Prelude.{
  ℕ, zero, suc, ◌+◌, ◌-◌, Bool, true, false, Option, none, some, List, [], ◌∷◌, ◌++◌, length, take,
  drop, replicate, ltb, ◌==◌, if◌then◌else◌,
}
use tpt_teleop.Prelude.Bytes.{to_le_bytes, field}
use tpt_teleop.Core.Ser.{ControlCommand, command_bytes}
use tpt_teleop.Ring.Spsc.{Spsc, Pushed, accepted, refused, push, is_full, len}
use tpt_teleop.Ring.Spsc as Spsc
use tpt_teleop.Analytics.DirectIo.{DirectFile, open_file, write, flush}
pub mod Parse
pub mod Recorder
pub mod Lossless
pub mod Stopping
mod Tests

abbrev pub max_payload : ℕ
max_payload = 512

pub data RecordKind : Type 0 where
  control imu gps telemetry end : RecordKind

unfoldable pub as_u8 : RecordKind → ℕ
as_u8 control = 0
as_u8 imu = 1
as_u8 gps = 2
as_u8 telemetry = 3
as_u8 end = 255

unfoldable pub from_u8 : ℕ → Option RecordKind
from_u8 v =
    if v == 0
    then some control
    else if v == 1
    then some imu
    else if v == 2
    then some gps
    else if v == 3
    then some telemetry
    else if v == 255
    then some end
    else none

pub record FdrEntry : Type 0 where
  pub timestamp_ns : ℕ
  pub payload_len : ℕ
  pub kind : ℕ
  pub pad : ℕ
  pub reserved : ℕ
  pub payload_array : List ℕ

-- The size of an entry's image.
abbrev pub entry_size : ℕ
entry_size = 16 + max_payload

-- `FdrEntry::new`; `none` is `PayloadTooLarge`.
unfoldable pub new : RecordKind → List ℕ → ℕ → Option FdrEntry
unfolding as_u8
new kind payload timestamp_ns =
    if ltb max_payload (length payload)
    then none
    else some (record {
      timestamp_ns = timestamp_ns;
      payload_len = length payload;
      kind = as_u8 kind;
      pad = 0;
      reserved = 0;
      payload_array = payload ++ replicate (max_payload - length payload) 0;
    })

-- `FdrEntry::kind` and `FdrEntry::payload`
unfoldable pub kind_of : FdrEntry → Option RecordKind
unfolding from_u8
kind_of e = from_u8 e.kind

unfoldable pub payload : FdrEntry → List ℕ
payload e = take e.payload_len e.payload_array

-- `bytes_of` of an entry on a little-endian machine.
unfoldable pub entry_bytes : FdrEntry → List ℕ
unfolding to_le_bytes
entry_bytes e =
    to_le_bytes 8 e.timestamp_ns
    ++ to_le_bytes 2 e.payload_len
    ++ to_le_bytes 1 e.kind
    ++ to_le_bytes 1 e.pad
    ++ to_le_bytes 4 e.reserved
    ++ e.payload_array

-- `from_bytes_aligned` of an entry, from that many bytes.
unfoldable pub from_bytes : List ℕ → FdrEntry
unfolding field
from_bytes bytes = record {
  timestamp_ns = field 0 8 bytes;
  payload_len = field 8 2 bytes;
  kind = field 10 1 bytes;
  pad = field 11 1 bytes;
  reserved = field 12 4 bytes;
  payload_array = take max_payload (drop 16 bytes);
}

abbrev pub is_end : Option RecordKind → Bool
is_end (some end) = true
is_end (some control) = false
is_end (some imu) = false
is_end (some gps) = false
is_end (some telemetry) = false
is_end none = false

-- `n` rounds of the loop of `parse_entries`, over what is left of the data.
unfoldable pub parse_rounds : ℕ → List ℕ → List FdrEntry
parse_rounds zero bytes = []
parse_rounds (suc n) bytes =
    let e = from_bytes (take entry_size bytes) in
    let rest = parse_rounds n (drop entry_size bytes) in
    if ltb (length bytes) entry_size then [] else if is_end (kind_of e) then [] else e ∷ rest

-- Each round takes an entry's bytes, so there are no more of them than bytes.
unfoldable pub parse_entries : List ℕ → List FdrEntry
unfolding parse_rounds
parse_entries bytes = parse_rounds (suc (length bytes)) bytes

-- The result of `try_record`.
pub data Recorded : Type 0 where
  stored : Recorded
  full : Recorded
  too_large : Recorded

abbrev pub recorded : Pushed FdrEntry → Recorded
recorded accepted = stored
recorded (refused e) = full

unfoldable pub record_entry : Option FdrEntry → Spsc FdrEntry → Recorded × Spsc FdrEntry
record_entry none ring = (too_large, ring)
record_entry (some e) ring = let (r, ring') = push ring e in (recorded r, ring')

-- `FdrSink::try_record` and its use for a command.
unfoldable pub try_record : RecordKind → List ℕ → ℕ → Spsc FdrEntry → Recorded × Spsc FdrEntry
unfolding record_entry
try_record kind bytes timestamp_ns ring = record_entry (new kind bytes timestamp_ns) ring

unfoldable pub try_control : ControlCommand → Spsc FdrEntry → Recorded × Spsc FdrEntry
unfolding try_record
try_control c ring = try_record control (command_bytes c) c.timestamp_ns ring

pub record FdrWriter : Type 0 where
  pub ring : Spsc FdrEntry
  pub file : DirectFile

-- The entries that were popped, written one after another.
unfoldable pub write_entries : List FdrEntry → DirectFile → DirectFile
write_entries [] f = f
write_entries (e ∷ es) f = write_entries es (write (entry_bytes e) f)

-- `drain_once`: how many were written, and the writer. The loop of pops is that of `drain`, with a
-- round for each entry and one more.
unfoldable pub drain_once : FdrWriter → ℕ × FdrWriter
unfolding write_entries
drain_once w =
    let (es, ring, done) = Spsc.drain (suc (len w.ring)) w.ring in
    (length es, record { ring = ring; file = write_entries es w.file })

-- The end of `run`: the end marker, and the flush.
unfoldable pub finish : FdrWriter → FdrWriter
finish w = elim (new end [] 0) [
  | none ↦ w
  | some e ↦ record w { file = flush (write (entry_bytes e) w.file) }
]
