-- ===== src/Link/Mux/Write.antt =====
-- The writers of crates/tpt-t-link/src/mux.rs.
use tpt_teleop.Prelude.{
  ℕ, Option, none, some, List, ◌∷◌, ◌++◌, length, replicate, ltb, if◌then◌else◌,
}
use tpt_teleop.Prelude.Bytes.{to_le_bytes}
use tpt_teleop.Core.Ser.{
  frame_magic, protocol_version, header_bytes, ControlCommand, TelemetryPacket,
}
use tpt_teleop.Link.Crc.{crc32, command_crc}
use tpt_teleop.Link.Mesh.Beacon.{MeshBeacon, encode}
use tpt_teleop.Link.Reliable.Ack.{AckFrame}
use tpt_teleop.Link.Reliable.Codec as AckCodec
use tpt_teleop.Link.Mux.{
  Rkyv, Channel, as_u8, control, telemetry, ice, mesh, secure, ack_flag, max_payload,
}

-- The header of 16 bytes.
unfoldable pub write_header : Channel → ℕ → ℕ → List ℕ
unfolding header_bytes as_u8 to_le_bytes
write_header channel frame_flags payload_len =
    header_bytes
      (record { magic = frame_magic; version = protocol_version; payload_len = payload_len })
    ++ as_u8 channel ∷ frame_flags ∷ replicate 6 0

-- The bytes up to the end, and the trailer.
unfoldable pub finish_frame : List ℕ → List ℕ
unfolding to_le_bytes
finish_frame body = body ++ to_le_bytes 4 (crc32 body)

-- What every writer leaves: header, payload and trailer.
unfoldable pub framed : Channel → ℕ → List ℕ → List ℕ
framed channel frame_flags payload =
    finish_frame (write_header channel frame_flags (length payload) ++ payload)

-- The writers of an archived payload: the error is that of the serializer or of a payload too long.
unfoldable pub frame_archived : Channel → ℕ → Option (List ℕ) → Option (List ℕ)
frame_archived channel frame_flags none = none
frame_archived channel frame_flags (some payload) =
    if ltb max_payload (length payload) then none else some (framed channel frame_flags payload)

-- `stamped` in `write_control_frame`
unfoldable pub stamped : ControlCommand → ControlCommand
stamped cmd = record cmd { crc = command_crc cmd }

unfoldable pub write_control_frame : Rkyv → ControlCommand → ℕ → Option (List ℕ)
unfolding frame_archived
write_control_frame rkyv cmd frame_flags =
    frame_archived control frame_flags (rkyv.serialize_command (stamped cmd))

unfoldable pub write_telemetry_frame : Rkyv → TelemetryPacket → Option (List ℕ)
unfolding frame_archived
write_telemetry_frame rkyv pkt = frame_archived telemetry 0 (rkyv.serialize_packet pkt)

unfoldable pub write_mesh_frame : MeshBeacon → Option (List ℕ)
write_mesh_frame b = some (framed mesh 0 (encode b))

unfoldable pub write_ack_frame : AckFrame → Option (List ℕ)
write_ack_frame a = some (framed control ack_flag (AckCodec.encode a))

unfoldable pub write_ice_frame : List ℕ → Option (List ℕ)
write_ice_frame bytes = if ltb max_payload (length bytes) then none else some (framed ice 0 bytes)

unfoldable pub write_secure_frame : List ℕ → ℕ → Option (List ℕ)
write_secure_frame bytes frame_flags =
    if ltb max_payload (length bytes) then none else some (framed secure frame_flags bytes)

-- A call of one of the writers.
pub data Outbound : Type 0 where
  command_frame : ControlCommand → ℕ → Outbound
  telemetry_frame : TelemetryPacket → Outbound
  mesh_frame : MeshBeacon → Outbound
  ack_frame : AckFrame → Outbound
  ice_frame : List ℕ → Outbound
  secure_frame : List ℕ → ℕ → Outbound

unfoldable pub write : Rkyv → Outbound → Option (List ℕ)
write rkyv (command_frame cmd frame_flags) = write_control_frame rkyv cmd frame_flags
write rkyv (telemetry_frame pkt) = write_telemetry_frame rkyv pkt
write rkyv (mesh_frame b) = write_mesh_frame b
write rkyv (ack_frame a) = write_ack_frame a
write rkyv (ice_frame bytes) = write_ice_frame bytes
write rkyv (secure_frame bytes frame_flags) = write_secure_frame bytes frame_flags
