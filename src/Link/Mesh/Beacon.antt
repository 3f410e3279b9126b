-- ===== src/Link/Mesh/Beacon.antt =====
-- `MeshBeacon` of crates/tpt-t-link/src/mesh.rs, as the 40 bytes of its image on a little-endian
-- machine.
use tpt_teleop.Prelude.{
  ℕ, Option, none, some, List, ◌++◌, length, ltb, ◌==◌, ◌&&◌, if◌then◌else◌, ◌≡◌, refl,
}
use tpt_teleop.Prelude.Bytes.{to_le_bytes, from_le_bytes, field}

abbrev pub mesh_magic : ℕ
mesh_magic = 1297303553

pub record MeshBeacon : Type 0 where
  pub magic : ℕ
  pub version : ℕ
  pub flags : ℕ
  pub pad0 : ℕ
  pub unit_id : ℕ
  pub seq : ℕ
  pub pad1 : ℕ
  pub ts_ns : ℕ
  pub listen_port : ℕ
  pub pad2 : ℕ
  pub pad3 : ℕ

abbrev pub beacon_len : ℕ
beacon_len = 40

unfoldable pub new : ℕ → ℕ → ℕ → ℕ → MeshBeacon
new unit_id seq ts_ns listen_port = record {
  magic = mesh_magic;
  version = 1;
  flags = 0;
  pad0 = 0;
  unit_id = unit_id;
  seq = seq;
  pad1 = 0;
  ts_ns = ts_ns;
  listen_port = listen_port;
  pad2 = 0;
  pad3 = 0;
}

-- The bytes of the image, field after field.
unfoldable pub encode : MeshBeacon → List ℕ
unfolding to_le_bytes
encode b =
    to_le_bytes 4 b.magic
    ++ to_le_bytes 2 b.version
    ++ to_le_bytes 1 b.flags
    ++ to_le_bytes 1 b.pad0
    ++ to_le_bytes 8 b.unit_id
    ++ to_le_bytes 4 b.seq
    ++ to_le_bytes 4 b.pad1
    ++ to_le_bytes 8 b.ts_ns
    ++ to_le_bytes 2 b.listen_port
    ++ to_le_bytes 2 b.pad2
    ++ to_le_bytes 4 b.pad3

-- The fields that `decode` reads, before its checks.
unfoldable pub read : List ℕ → MeshBeacon
unfolding field
read bytes = record {
  magic = field 0 4 bytes;
  version = field 4 2 bytes;
  flags = field 6 1 bytes;
  pad0 = field 7 1 bytes;
  unit_id = field 8 8 bytes;
  seq = field 16 4 bytes;
  pad1 = field 20 4 bytes;
  ts_ns = field 24 8 bytes;
  listen_port = field 32 2 bytes;
  pad2 = field 34 2 bytes;
  pad3 = field 36 4 bytes;
}

unfoldable pub decode : List ℕ → Option MeshBeacon
decode bytes =
    let beacon = read bytes in
    if ltb (length bytes) beacon_len
    then none
    else if beacon.magic == mesh_magic && beacon.version == 1
    then some beacon
    else none

-- One beacon through its bytes.
beacon_read_back : decode (encode (new 77 9 123456789 7001)) ≡ some (new 77 9 123456789 7001)
unfolding decode read encode new field to_le_bytes from_le_bytes
beacon_read_back = refl
