-- ===== src/Link/Mux/Sample.antt =====
-- A serializer in rkyv's place, and an idle multiplexer, for the tests of crates/tpt-t-link/src.
use tpt_teleop.Prelude.{ℕ, ◌≡◌, sym, ap, Option, none, some, List, [], ◌∷◌}
use tpt_teleop.Core.Ser.{ControlCommand, TelemetryPacket}
use tpt_teleop.Link.Backpressure.Signal as Signal
use tpt_teleop.Link.Mux.{Rkyv}
use tpt_teleop.Link.Mux.RoundTrip.{IsFaithful}
use tpt_teleop.Link.Mux.Stats.{UdpMux, LinkStats}

-- A serializer that writes the fields one after another.
abbrev pub command_fields : ControlCommand → List ℕ
command_fields c =
    c.magic ∷ c.version ∷ c.reserved ∷ c.seq ∷ c.timestamp_ns ∷ c.mode ∷ c.flags ∷ c.axis_count
    ∷ c.pad0 ∷ c.crc ∷ c.axes

abbrev pub read_command : List ℕ → Option ControlCommand
read_command
      (magic ∷ version ∷ reserved ∷ seq ∷ ts ∷ mode ∷ flags ∷ axis_count ∷ pad0 ∷ sum ∷ axes) =
    some (record {
      magic = magic;
      version = version;
      reserved = reserved;
      seq = seq;
      timestamp_ns = ts;
      mode = mode;
      flags = flags;
      axis_count = axis_count;
      pad0 = pad0;
      axes = axes;
      crc = sum;
    })
read_command _ = none

abbrev pub packet_fields : TelemetryPacket → List ℕ
packet_fields p = p.magic ∷ p.kind ∷ p.reserved ∷ p.seq ∷ p.timestamp_ns ∷ p.values

abbrev pub read_packet : List ℕ → Option TelemetryPacket
read_packet (magic ∷ kind ∷ reserved ∷ seq ∷ ts ∷ values) = some (record {
  magic = magic;
  kind = kind;
  reserved = reserved;
  seq = seq;
  timestamp_ns = ts;
  values = values;
})
read_packet _ = none

abbrev pub by_fields : Rkyv
by_fields = record {
  serialize_command = λ c. some (command_fields c);
  access_command = read_command;
  serialize_packet = λ p. some (packet_fields p);
  access_packet = read_packet;
}

taken_from : (xs ys : List ℕ) → some xs ≡ some ys → xs ≡ ys
taken_from xs ys e = ap (λ o. elim o [ none ↦ xs | some zs ↦ zs ]) e

pub by_fields-IsFaithful : IsFaithful by_fields
by_fields-IsFaithful = record {
  commands = λ c bytes e. ap read_command (sym (taken_from (command_fields c) bytes e));
  packets = λ p bytes e. ap read_packet (sym (taken_from (packet_fields p) bytes e));
}

abbrev pub fresh_stats : LinkStats
fresh_stats = record {
  tx_frames = 0;
  tx_payload_bytes = 0;
  tx_errors = 0;
  rx_frames = 0;
  rx_malformed = 0;
  rx_crc_errors = 0;
  rx_rejected = 0;
}

abbrev pub idle_mux : UdpMux
idle_mux = record {
  socket = record { answers = []; log = [] };
  stats = fresh_stats;
  backpressure = Signal.new 1000;
}
