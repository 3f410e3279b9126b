-- ===== src/Link/Mesh/Codec.antt =====
-- A beacon of crates/tpt-t-link/src/mesh.rs read back from its bytes.
use tpt_teleop.Prelude.{
  ℕ, none, some, List, length, ltb, ◌==◌, ◌&&◌, if◌then◌else◌, ◌∙◌, arith, ◌≡◌, ◌<◌, ◌^◌, refl,
}
use tpt_teleop.Prelude.Bytes.{field, to_le_bytes, from_le_bytes-to_le_bytes}
use tpt_teleop.Link.Mesh.Beacon.{MeshBeacon, mesh_magic, beacon_len, encode, decode, read}

-- A beacon of this protocol, its fields words of their widths.
pub record IsBeacon (b : MeshBeacon) : Type 0 where
  pub magic : b.magic ≡ mesh_magic
  pub version : b.version ≡ 1
  pub flags : b.flags < 256
  pub pad0 : b.pad0 < 256
  pub unit_id : b.unit_id < 256 ^ 8
  pub seq : b.seq < 256 ^ 4
  pub pad1 : b.pad1 < 256 ^ 4
  pub ts_ns : b.ts_ns < 256 ^ 8
  pub listen_port : b.listen_port < 256 ^ 2
  pub pad2 : b.pad2 < 256 ^ 2
  pub pad3 : b.pad3 < 256 ^ 4

read-encode : (b : MeshBeacon) → IsBeacon b → read (encode b) ≡ b
unfolding read encode to_le_bytes field
read-encode b w = λ i. record {
  magic = from_le_bytes-to_le_bytes 4 b.magic (omega (arith, w.magic)) i;
  version = from_le_bytes-to_le_bytes 2 b.version (omega (arith, w.version)) i;
  flags = from_le_bytes-to_le_bytes 1 b.flags (omega (arith, w.flags)) i;
  pad0 = from_le_bytes-to_le_bytes 1 b.pad0 (omega (arith, w.pad0)) i;
  unit_id = from_le_bytes-to_le_bytes 8 b.unit_id w.unit_id i;
  seq = from_le_bytes-to_le_bytes 4 b.seq w.seq i;
  pad1 = from_le_bytes-to_le_bytes 4 b.pad1 w.pad1 i;
  ts_ns = from_le_bytes-to_le_bytes 8 b.ts_ns w.ts_ns i;
  listen_port = from_le_bytes-to_le_bytes 2 b.listen_port w.listen_port i;
  pad2 = from_le_bytes-to_le_bytes 2 b.pad2 w.pad2 i;
  pad3 = from_le_bytes-to_le_bytes 4 b.pad3 w.pad3 i;
}

decode-read :
    (bytes : List ℕ)
    → decode bytes ≡ (
        if ltb (length bytes) beacon_len
        then none
        else if (read bytes).magic == mesh_magic && (read bytes).version == 1
        then some (read bytes)
        else none)
unfolding decode
decode-read bytes = refl

pub length-encode : (b : MeshBeacon) → length (encode b) ≡ beacon_len
unfolding encode to_le_bytes
length-encode b = refl

pub decode-encode : (b : MeshBeacon) → IsBeacon b → decode (encode b) ≡ some b
decode-encode b w =
    decode-read (encode b) ∙ rw (length-encode b, read-encode b w, w.magic, w.version) refl
