-- ===== src/Link/Mux.antt =====
-- crates/tpt-t-link/src/mux.rs: the frames of the one UDP port, written and taken apart. `out` stands
-- as the bytes that a writer leaves in it, up to the length that it returns; the socket and rkyv are
-- parameters. `Write` has the writers and `Stats` the counters and the calls of the socket.
use tpt_teleop.Prelude.{
  ℕ, zero, suc, ◌+◌, ◌-◌, ◌/◌, ◌%◌, Bool, true, false, Option, none, some, List, [], ◌∷◌, ◌++◌,
  length, take, drop, get_or, ltb, ◌==◌, ◌&&◌, not, if◌then◌else◌,
}
use tpt_teleop.Prelude.Bytes.{field, to_le_bytes, from_le_bytes}
use tpt_teleop.Core.Ser.{
  frame_magic, protocol_version, WireFrame, header_bytes, ControlCommand, TelemetryPacket,
}
use tpt_teleop.Link.Crc.{crc32, command_crc}
use tpt_teleop.Link.Mesh.Beacon.{MeshBeacon, decode}
use tpt_teleop.Link.Reliable.Ack.{AckFrame}
use tpt_teleop.Link.Reliable.Codec as AckCodec
pub mod Write
pub mod Stats
pub mod RoundTrip
pub mod Intact
pub mod Sample
mod Tests

abbrev pub max_datagram : ℕ
max_datagram = 1500

abbrev pub header_len : ℕ
header_len = 16

abbrev pub trailer_len : ℕ
trailer_len = 4

abbrev pub max_payload : ℕ
max_payload = max_datagram - header_len - trailer_len

pub data Channel : Type 0 where
  control telemetry media ice mesh secure : Channel

unfoldable pub as_u8 : Channel → ℕ
as_u8 control = 1
as_u8 telemetry = 2
as_u8 media = 3
as_u8 ice = 4
as_u8 mesh = 5
as_u8 secure = 6

unfoldable pub from_u8 : ℕ → Option Channel
from_u8 v =
    if v == 1
    then some control
    else if v == 2
    then some telemetry
    else if v == 3
    then some media
    else if v == 4
    then some ice
    else if v == 5
    then some mesh
    else if v == 6
    then some secure
    else none

-- The tests of the bits `ACK` and `RELIABLE` of the flags.
abbrev pub ack_flag : ℕ
ack_flag = 1

abbrev pub has_ack : ℕ → Bool
has_ack flags = flags % 2 == 1

abbrev pub has_reliable : ℕ → Bool
has_reliable flags = flags / 2 % 2 == 1

-- rkyv: what `serialize_into` leaves in the scratch buffer and what `access_root` reads.
pub record Rkyv : Type 0 where
  pub serialize_command : ControlCommand → Option (List ℕ)
  pub access_command : List ℕ → Option ControlCommand
  pub serialize_packet : TelemetryPacket → Option (List ℕ)
  pub access_packet : List ℕ → Option TelemetryPacket

-- A frame that was taken apart, without the address that it came from: every variant carries that
-- unchanged.
pub data Inbound : Type 0 where
  command : ControlCommand → Bool → Inbound
  packet : TelemetryPacket → Inbound
  passthrough : List ℕ → Inbound
  beacon : MeshBeacon → Inbound
  ack : AckFrame → Inbound
  sealed : List ℕ → ℕ → Inbound

pub data FrameError : Type 0 where
  malformed crc payload : FrameError

pub data Demuxed : Type 0 where
  ok : Inbound → Demuxed
  err : FrameError → Demuxed

unfoldable pub or_payload {ℓ} : {A : Type ℓ} → (A → Inbound) → Option A → Demuxed
or_payload wrap none = err payload
or_payload wrap (some a) = ok (wrap a)

-- The check of a command's own tag.
unfoldable pub tagged : ℕ → Option ControlCommand → Demuxed
tagged flags none = err payload
tagged flags (some cmd) =
    if command_crc cmd == cmd.crc then ok (command cmd (has_reliable flags)) else err crc

-- The arms of the match on the channel.
unfoldable pub open_payload : Rkyv → Option Channel → ℕ → List ℕ → Demuxed
unfolding or_payload tagged
open_payload rkyv (some control) flags bytes =
    if has_ack flags
    then or_payload ack (AckCodec.decode bytes)
    else tagged flags (rkyv.access_command bytes)
open_payload rkyv (some telemetry) flags bytes = or_payload packet (rkyv.access_packet bytes)
open_payload rkyv (some media) flags bytes = err payload
open_payload rkyv (some ice) flags bytes = ok (passthrough bytes)
open_payload rkyv (some mesh) flags bytes = or_payload beacon (decode bytes)
open_payload rkyv (some secure) flags bytes = ok (sealed bytes flags)
open_payload rkyv none flags bytes = err payload

-- The header that the first eight bytes hold; the buffer is aligned, so that the cast succeeds.
unfoldable pub header_of : List ℕ → WireFrame
unfolding field
header_of buf = record {
  magic = field 0 4 buf;
  version = field 4 2 buf;
  payload_len = field 6 2 buf;
}

-- `n` bytes were received into the buffer.
unfoldable pub demux : Rkyv → List ℕ → ℕ → Demuxed
unfolding from_u8
demux rkyv buf n =
    let hdr = header_of buf in
    let end = header_len + hdr.payload_len in
    let total = end + trailer_len in
    if ltb n (header_len + trailer_len)
    then err malformed
    else if not (hdr.magic == frame_magic && hdr.version == protocol_version)
    then err malformed
    else if not (total == n)
    then err malformed
    else if not (crc32 (take end buf) == from_le_bytes (take trailer_len (drop end buf)))
    then err crc
    else open_payload rkyv (from_u8 (get_or buf 8 0)) (get_or buf 9 0)
        (take hdr.payload_len (drop header_len buf))
