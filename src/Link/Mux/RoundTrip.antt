-- ===== src/Link/Mux/RoundTrip.antt =====
-- What the writers of crates/tpt-t-link/src/mux.rs put on the wire, `demux` takes apart again.
use tpt_teleop.Prelude.{
  ℕ, ◌+◌, ◌^◌, ◌<◌, ◌≤◌, ◌≡◌, refl, sym, ◌∙◌, ap, subst, arith, inl, inr, Bool, Bool-cases, true,
  false, Option, none, some, List, ◌++◌, append_assoc, length, length-append, take, drop, get_or,
  ltb, ◌==◌, if◌then◌else◌,
}
use tpt_teleop.Prelude.Bytes.{
  field, to_le_bytes, from_le_bytes, from_le_bytes-to_le_bytes, length-to_le_bytes, take-append,
  drop-append,
}
use tpt_teleop.Core.Ser.{
  frame_magic, protocol_version, header_bytes, ControlCommand, TelemetryPacket,
}
use tpt_teleop.Link.Crc.{crc32, command_crc}
use tpt_teleop.Link.Mesh.Beacon.{encode}
use tpt_teleop.Link.Mesh.Codec.{IsBeacon, decode-encode, length-encode}
use tpt_teleop.Link.Reliable.Codec as AckCodec
use tpt_teleop.Link.Mux.{
  Rkyv, Channel, as_u8, from_u8, control, telemetry, media, ice, mesh, secure, has_ack, ack_flag,
  has_reliable, max_payload, Inbound, command, packet, passthrough, beacon, ack, sealed, ok, err,
  crc, header_of, open_payload, or_payload, tagged, demux,
}
use tpt_teleop.Link.Mux.Write.{
  write_header, finish_frame, framed, frame_archived, stamped, write_control_frame,
  write_telemetry_frame, write_mesh_frame, write_ack_frame, write_ice_frame, write_secure_frame,
  Outbound, command_frame, telemetry_frame, mesh_frame, ack_frame, ice_frame, secure_frame, write,
}

from_u8-as_u8 : (c : Channel) → from_u8 (as_u8 c) ≡ some c
unfolding from_u8 as_u8
from_u8-as_u8 control = refl
from_u8-as_u8 telemetry = refl
from_u8-as_u8 media = refl
from_u8-as_u8 ice = refl
from_u8-as_u8 mesh = refl
from_u8-as_u8 secure = refl

crc32_lt : (bytes : List ℕ) → crc32 bytes < 256 ^ 4
unfolding crc32
crc32_lt bytes = omega arith

-- A datagram of the right shape: `sum` is what its trailer holds.
module _ (c : Channel) (flags : ℕ) (payload : List ℕ) (short : length payload ≤ max_payload)
    (sum : ℕ) (word : sum < 256 ^ 4) (stale : List ℕ) where
  abbrev body : List ℕ
  body = write_header c flags (length payload) ++ payload

  abbrev buffer : List ℕ
  buffer = body ++ (to_le_bytes 4 sum ++ stale)

  length-write_header : (n : ℕ) → length (write_header c flags n) ≡ 16
  unfolding write_header header_bytes to_le_bytes
  length-write_header n = refl

  length-body : length body ≡ 16 + length payload
  length-body = omega (
    arith,
    length-append (write_header c flags (length payload)) payload,
    length-write_header (length payload),
  )

  header_lem :
      header_of buffer
      ≡ record { magic = frame_magic; version = protocol_version; payload_len = length payload }
  unfolding header_of write_header header_bytes to_le_bytes field
  header_lem = λ i. record {
    magic = frame_magic;
    version = protocol_version;
    payload_len = from_le_bytes-to_le_bytes 2 (length payload) (omega (arith, short)) i;
  }

  body_lem : take (16 + length payload) buffer ≡ body
  body_lem = take-append (16 + length payload) body (to_le_bytes 4 sum ++ stale) length-body

  trailer_lem : from_le_bytes (take 4 (drop (16 + length payload) buffer)) ≡ sum
  trailer_lem =
      let skip : 16 + length payload ≡ 16 + length payload + 0 = omega arith in
      ap (λ n. from_le_bytes (take 4 (drop n buffer))) skip
      ∙ ap (λ l. from_le_bytes (take 4 l))
          (drop-append (16 + length payload) 0 body (to_le_bytes 4 sum ++ stale) length-body)
      ∙ ap from_le_bytes (take-append 4 (to_le_bytes 4 sum) stale (length-to_le_bytes 4 sum))
      ∙ from_le_bytes-to_le_bytes 4 sum word

  payload_lem : take (length payload) (drop 16 buffer) ≡ payload
  unfolding write_header header_bytes to_le_bytes
  payload_lem = take-append (length payload) payload _ refl

  channel_lem : get_or buffer 8 0 ≡ as_u8 c
  unfolding write_header header_bytes to_le_bytes
  channel_lem = refl

  flags_lem : get_or buffer 9 0 ≡ flags
  unfolding write_header header_bytes to_le_bytes
  flags_lem = refl

  -- A datagram with a header that a writer makes, its payload and any trailer is taken apart by its
  -- channel when the trailer is the CRC of what is before it, and is a CRC error when not; what the
  -- buffer holds after the datagram does not matter.
  pub demux-write_header :
      (rkyv : Rkyv)
      → demux rkyv
          (write_header c flags (length payload) ++ payload ++ (to_le_bytes 4 sum ++ stale))
          (16 + length payload + 4)
        ≡ (if crc32 (write_header c flags (length payload) ++ payload) == sum
            then open_payload rkyv (some c) flags payload
            else err crc)
  unfolding demux
  demux-write_header rkyv =
      let enough : ltb (16 + length payload + 4) 20 ≡ false = ground arith in
      let total : (16 + length payload + 4 == 16 + length payload + 4) ≡ true = ground arith in
      rw
        (
          header_lem,
          enough,
          total,
          body_lem,
          trailer_lem,
          channel_lem,
          flags_lem,
          from_u8-as_u8 c,
          payload_lem,
        )
        (elim (Bool-cases (crc32 body == sum)) [
          | inl same ↦ rw same refl
          | inr other ↦ rw other refl
        ])

demux-framed :
    (c : Channel) (flags : ℕ) (payload stale : List ℕ) (rkyv : Rkyv)
    → length payload ≤ max_payload
    → demux rkyv (framed c flags payload ++ stale) (length (framed c flags payload))
      ≡ open_payload rkyv (some c) flags payload
unfolding framed finish_frame
demux-framed c flags payload stale rkyv short =
    let head = write_header c flags (length payload) in
    let sum = crc32 (head ++ payload) in
    let split : (head ++ payload) ++ to_le_bytes 4 sum ++ stale
        ≡ head ++ payload ++ (to_le_bytes 4 sum ++ stale) =
      append_assoc (head ++ payload) (to_le_bytes 4 sum) stale in
    let long : length ((head ++ payload) ++ to_le_bytes 4 sum) ≡ 16 + length payload + 4 = omega (
      arith,
      length-append (head ++ payload) (to_le_bytes 4 sum),
      length-body c flags payload short sum (crc32_lt (head ++ payload)) stale,
      length-to_le_bytes 4 sum,
    ) in
    let same : (sum == sum) ≡ true = ground arith in
    rw
      (
        split,
        long,
        demux-write_header c flags payload short sum (crc32_lt (head ++ payload)) stale rkyv,
        same,
      )
      refl

-- What is known of rkyv: it reads back what it serialized.
pub record IsFaithful (rkyv : Rkyv) : Type 0 where
  pub commands :
      (c : ControlCommand) (bytes : List ℕ)
      → rkyv.serialize_command c ≡ some bytes
      → rkyv.access_command bytes ≡ some c
  pub packets :
      (p : TelemetryPacket) (bytes : List ℕ)
      → rkyv.serialize_packet p ≡ some bytes
      → rkyv.access_packet bytes ≡ some p

-- What a caller owes: commands without the flag of an acknowledgement, beacons of this protocol and
-- fields that are words of their widths.
unfoldable pub CanSend : Outbound → Type 0
CanSend (command_frame cmd flags) = has_ack flags ≡ false
CanSend (telemetry_frame pkt) = Unit
CanSend (mesh_frame b) = IsBeacon b
CanSend (ack_frame a) = AckCodec.IsWord a
CanSend (ice_frame bytes) = Unit
CanSend (secure_frame bytes flags) = Unit

-- What the peer is to see.
unfoldable pub received : Outbound → Inbound
received (command_frame cmd flags) = command (stamped cmd) (has_reliable flags)
received (telemetry_frame pkt) = packet pkt
received (mesh_frame b) = beacon b
received (ack_frame a) = ack a
received (ice_frame bytes) = passthrough bytes
received (secure_frame bytes flags) = sealed bytes flags

-- The channel, the flags and the payload of a frame.
unfoldable pub contents : Rkyv → Outbound → Channel × ℕ × Option (List ℕ)
contents rkyv (command_frame cmd flags) = (control, flags, rkyv.serialize_command (stamped cmd))
contents rkyv (telemetry_frame pkt) = (telemetry, 0, rkyv.serialize_packet pkt)
contents rkyv (mesh_frame b) = (mesh, 0, some (encode b))
contents rkyv (ack_frame a) = (control, ack_flag, some (AckCodec.encode a))
contents rkyv (ice_frame bytes) = (ice, 0, some bytes)
contents rkyv (secure_frame bytes flags) = (secure, flags, some bytes)

write_lem :
    (rkyv : Rkyv) (o : Outbound)
    → write rkyv o ≡ (let (c, flags, payload) = contents rkyv o in frame_archived c flags payload)
unfolding write write_control_frame write_telemetry_frame write_mesh_frame write_ack_frame
    write_ice_frame write_secure_frame contents frame_archived AckCodec.encode
write_lem rkyv (command_frame cmd flags) = refl
write_lem rkyv (telemetry_frame pkt) = refl
write_lem rkyv (mesh_frame b) = rw (length-encode b) refl
write_lem rkyv (ack_frame a) = refl
write_lem rkyv (ice_frame bytes) = refl
write_lem rkyv (secure_frame bytes flags) = refl

some_equal : (xs ys : List ℕ) → some xs ≡ some ys → xs ≡ ys
some_equal xs ys e = ap (λ o. elim o [ none ↦ xs | some zs ↦ zs ]) e

passed :
    (long : Bool) (xs ys : List ℕ)
    → (if long then none else some xs) ≡ some ys
    → (long ≡ false) × (xs ≡ ys)
passed true xs ys e = absurd (ground (arith, e))
passed false xs ys e = (refl, some_equal xs ys e)

frame_archived-some :
    (c : Channel) (flags : ℕ) (o : Option (List ℕ)) (bytes : List ℕ)
    → frame_archived c flags o ≡ some bytes
    → (payload : List ℕ) × (o ≡ some payload)
      × (length payload ≤ max_payload)
      × (framed c flags payload ≡ bytes)
unfolding frame_archived
frame_archived-some c flags none bytes e = absurd (ground (arith, e))
frame_archived-some c flags (some payload) bytes e =
    let (short, same) =
      passed (ltb max_payload (length payload)) (framed c flags payload) bytes e in
    (payload, refl, ground (arith, short), same)

-- The tag that the sender stamps is the one that the receiver computes.
tagged-stamped :
    (cmd : ControlCommand) (flags : ℕ)
    → tagged flags (some (stamped cmd)) ≡ ok (command (stamped cmd) (has_reliable flags))
unfolding tagged stamped command_crc
tagged-stamped cmd flags =
    let same : (command_crc cmd == command_crc cmd) ≡ true = ground arith in rw same refl

-- The receiver's arm for the channel makes of the payload what the sender meant.
opens :
    (rkyv : Rkyv) (o : Outbound) (payload : List ℕ)
    → IsFaithful rkyv
    → CanSend o
    → (contents rkyv o).2 ≡ some payload
    → open_payload rkyv (some (contents rkyv o).0) (contents rkyv o).1 payload ≡ ok (received o)
unfolding CanSend received contents open_payload or_payload
opens rkyv (command_frame cmd flags) payload f h e =
    rw (h, f.commands (stamped cmd) payload e) (tagged-stamped cmd flags)
opens rkyv (telemetry_frame pkt) payload f h e = rw (f.packets pkt payload e) refl
opens rkyv (mesh_frame b) payload f h e =
    rw (sym (some_equal (encode b) payload e), decode-encode b h) refl
opens rkyv (ack_frame a) payload f h e =
    rw (sym (some_equal (AckCodec.encode a) payload e), AckCodec.decode-encode a h) refl
opens rkyv (ice_frame bytes) payload f h e =
    ap (λ b. ok (passthrough b)) (sym (some_equal bytes payload e))
opens rkyv (secure_frame bytes flags) payload f h e =
    ap (λ b. ok (sealed b flags)) (sym (some_equal bytes payload e))

-- What a writer wrote, received into a buffer with anything after it, is taken apart into what was
-- sent, a command with its tag; rkyv has to read back what it serialized, and the caller owes
-- `CanSend`.
pub demux-write :
    (rkyv : Rkyv) (o : Outbound) (bytes stale : List ℕ)
    → IsFaithful rkyv
    → CanSend o
    → write rkyv o ≡ some bytes
    → demux rkyv (bytes ++ stale) (length bytes) ≡ ok (received o)
demux-write rkyv o bytes stale f h e =
    let (c, flags, content) = contents rkyv o in
    let (payload, there, short, same) =
      frame_archived-some c flags content bytes (sym (write_lem rkyv o) ∙ e) in
    subst (λ b. demux rkyv (b ++ stale) (length b) ≡ ok (received o)) same
      (demux-framed c flags payload stale rkyv short ∙ opens rkyv o payload f h there)
