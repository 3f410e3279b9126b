-- ===== src/Core/Ser.antt =====
-- crates/tpt-t-core/src/ser: the plain data that the links carry. A 32-bit float is the word of its
-- bits; an image is that of a little-endian machine.
use tpt_teleop.Prelude.{ℕ, List, [], ◌∷◌, ◌++◌, replicate, Option}
use tpt_teleop.Prelude.Bytes.{to_le_bytes}
use tpt_teleop.Core.Mode.{Mode, as_u8, from_u8}

abbrev pub frame_magic : ℕ
frame_magic = 1414550577

abbrev pub protocol_version : ℕ
protocol_version = 1

pub record WireFrame : Type 0 where
  pub magic : ℕ
  pub version : ℕ
  pub payload_len : ℕ

-- `bytes_of` of a header; `to_le_bytes 2` keeps the length's low 16 bits, as `n as u16` does.
unfoldable pub header_bytes : WireFrame → List ℕ
unfolding to_le_bytes
header_bytes h = to_le_bytes 4 h.magic ++ to_le_bytes 2 h.version ++ to_le_bytes 2 h.payload_len

abbrev pub magic_command : ℕ
magic_command = 1129137153

pub record ControlCommand : Type 0 where
  pub magic : ℕ
  pub version : ℕ
  pub reserved : ℕ
  pub seq : ℕ
  pub timestamp_ns : ℕ
  pub mode : ℕ
  pub flags : ℕ
  pub axis_count : ℕ
  pub pad0 : ℕ
  pub axes : List ℕ
  pub crc : ℕ

-- `ControlCommand::zeroed`
unfoldable pub zeroed : Mode → ControlCommand
zeroed mode = record {
  magic = magic_command;
  version = 1;
  reserved = 0;
  seq = 0;
  timestamp_ns = 0;
  mode = as_u8 mode;
  flags = 0;
  axis_count = 6;
  pad0 = 0;
  axes = replicate 6 0;
  crc = 0;
}

-- `ControlCommand::mode` and `ControlCommand::set_mode`
unfoldable pub mode_of : ControlCommand → Option Mode
mode_of c = from_u8 c.mode

unfoldable pub set_mode : Mode → ControlCommand → ControlCommand
set_mode mode c = record c { mode = as_u8 mode }

-- The image of an array of words.
unfoldable pub words_bytes : List ℕ → List ℕ
unfolding to_le_bytes
words_bytes [] = []
words_bytes (w ∷ ws) = to_le_bytes 4 w ++ words_bytes ws

-- `bytes_of` of a command.
unfoldable pub command_bytes : ControlCommand → List ℕ
unfolding to_le_bytes words_bytes
command_bytes c =
    to_le_bytes 4 c.magic
    ++ to_le_bytes 2 c.version
    ++ to_le_bytes 2 c.reserved
    ++ to_le_bytes 8 c.seq
    ++ to_le_bytes 8 c.timestamp_ns
    ++ c.mode ∷ c.flags ∷ c.axis_count ∷ c.pad0 ∷ []
    ++ words_bytes c.axes
    ++ to_le_bytes 4 c.crc

pub record TelemetryPacket : Type 0 where
  pub magic : ℕ
  pub kind : ℕ
  pub reserved : ℕ
  pub seq : ℕ
  pub timestamp_ns : ℕ
  pub values : List ℕ
