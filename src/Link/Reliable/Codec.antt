-- ===== src/Link/Reliable/Codec.antt =====
-- `AckFrame` of crates/tpt-t-link/src/reliable.rs as the 16 bytes of its image on a little-endian
-- machine.
use tpt_teleop.Prelude.{
  ℕ, Option, none, some, List, ◌++◌, length, ltb, if◌then◌else◌, ◌≡◌, ◌<◌, ◌^◌,
}
use tpt_teleop.Prelude.Bytes.{field, to_le_bytes, from_le_bytes-to_le_bytes}
use tpt_teleop.Link.Reliable.Ack.{AckFrame}

-- `encode_into`, the bytes that it writes.
unfoldable pub encode : AckFrame → List ℕ
unfolding to_le_bytes
encode ack =
    to_le_bytes 4 ack.base_seq ++ to_le_bytes 4 ack.bitmap ++ to_le_bytes 8 ack.rtt_sample_ns

unfoldable pub decode : List ℕ → Option AckFrame
unfolding field
decode bytes =
    let ack : AckFrame = record {
      base_seq = field 0 4 bytes;
      bitmap = field 4 4 bytes;
      rtt_sample_ns = field 8 8 bytes;
    } in
    if ltb (length bytes) 16 then none else some ack

-- The fields are words of their widths.
pub record IsWord (ack : AckFrame) : Type 0 where
  pub base_seq : ack.base_seq < 256 ^ 4
  pub bitmap : ack.bitmap < 256 ^ 4
  pub rtt_sample_ns : ack.rtt_sample_ns < 256 ^ 8

pub decode-encode : (ack : AckFrame) → IsWord ack → decode (encode ack) ≡ some ack
unfolding decode encode to_le_bytes field
decode-encode ack w = λ i. some (record {
  base_seq = from_le_bytes-to_le_bytes 4 ack.base_seq w.base_seq i;
  bitmap = from_le_bytes-to_le_bytes 4 ack.bitmap w.bitmap i;
  rtt_sample_ns = from_le_bytes-to_le_bytes 8 ack.rtt_sample_ns w.rtt_sample_ns i;
})
