-- ===== src/Hal/Mavlink.antt =====
-- crates/tpt-t-hal/src/mavlink.rs: the frames of MAVLink 1 and 2, and the parser of a stream of bytes.
use tpt_teleop.Prelude.{
  ℕ, zero, suc, ◌+◌, ◌-◌, ◌*◌, ◌/◌, ◌%◌, bit_xor, Bool, true, false, Option, none, some, List, [],
  ◌∷◌, ◌++◌, length, take, drop, replicate, get_or, set, ltb, leb, ◌==◌, ◌&&◌, ◌||◌, not,
  if◌then◌else◌,
}
use tpt_teleop.Prelude.Bytes.{from_le_bytes}
pub mod Stream
pub mod Clean
pub mod Layout
mod Tests

abbrev pub mavlink_1_magic : ℕ
mavlink_1_magic = 254

abbrev pub mavlink_2_magic : ℕ
mavlink_2_magic = 253

abbrev pub signature_len : ℕ
signature_len = 13

abbrev pub max_payload : ℕ
max_payload = 255

-- Each message's id, length and extra byte.
abbrev pub dialect : List (ℕ × ℕ × ℕ)
dialect = (0, 9, 50) ∷ (30, 28, 39) ∷ (33, 28, 104) ∷ (1, 31, 124) ∷ (24, 12, 167) ∷ []

unfoldable pub dialect_in : List (ℕ × ℕ × ℕ) → ℕ → Option (ℕ × ℕ)
dialect_in [] msgid = none
dialect_in ((id, len, extra) ∷ rest) msgid =
    let later = dialect_in rest msgid in if id == msgid then some (len, extra) else later

unfoldable pub dialect_for : ℕ → Option (ℕ × ℕ)
unfolding dialect_in
dialect_for msgid = dialect_in dialect msgid

-- `n` rounds of the loop over the bits of a byte.
unfoldable pub crc_bits : ℕ → ℕ → ℕ
crc_bits zero crc = crc
crc_bits (suc n) crc = crc_bits n (if crc % 2 == 0 then crc / 2 else bit_xor (crc / 2) 33800)

unfoldable pub crc_from : List ℕ → ℕ → ℕ
unfolding crc_bits
crc_from [] crc = crc
crc_from (b ∷ bs) crc = crc_from bs (crc_bits 8 (bit_xor crc b))

unfoldable pub mav_crc16 : List ℕ → ℕ
unfolding crc_from
mav_crc16 bytes = crc_from bytes 65535

pub data MavError : Type 0 where
  magic truncated crc : MavError

pub record MavFrame : Type 0 where
  pub version : ℕ
  pub seq : ℕ
  pub sysid : ℕ
  pub compid : ℕ
  pub msgid : ℕ
  pub payload_len : ℕ
  pub payload_array : List ℕ
  pub checksum : ℕ
  pub signed : ℕ

-- `MavFrame::payload`
unfoldable pub payload : MavFrame → List ℕ
payload f = take f.payload_len f.payload_array

pub data Parsed : Type 0 where
  ok : MavFrame → Parsed
  err : MavError → Parsed

unfoldable pub frame_len : ℕ → ℕ → Bool → ℕ
frame_len version payload_len signed =
    let header_total = if version == 1 then 6 else 11 in
    let sig = if version == 2 && signed then signature_len else 0 in
    header_total + payload_len + 2 + sig

-- A byte; every read of the source is in range.
abbrev pub at_byte : List ℕ → ℕ → ℕ
at_byte buf i = get_or buf i 0

-- The version that a first byte stands for, 0 where it is no magic.
abbrev pub version_of : ℕ → ℕ
version_of b = if b == mavlink_1_magic then 1 else if b == mavlink_2_magic then 2 else 0

-- `version == 2 && buf[2] & 0x01 != 0`
abbrev pub is_signed : ℕ → List ℕ → Bool
is_signed version buf = version == 2 && not (at_byte buf 2 % 2 == 0)

abbrev pub header_after : ℕ → ℕ
header_after version = if version == 1 then 5 else 10

abbrev pub msgid_of : ℕ → List ℕ → ℕ
msgid_of version buf =
    if version == 1
    then at_byte buf 5
    else at_byte buf 7 + 256 * at_byte buf 8 + 65536 * at_byte buf 9

-- Whether the checksum is one that the dialect refutes.
unfoldable pub refuted : ℕ → ℕ → List ℕ → ℕ → Bool
refuted msgid payload_len checked sum = elim (dialect_for msgid) [
  | none ↦ false
  | some (expected_len, extra) ↦
      expected_len == payload_len && not (bit_xor (mav_crc16 checked) extra == sum)
]

-- The frame in the first `total` bytes.
unfoldable pub frame_of : ℕ → List ℕ → MavFrame
frame_of version buf =
    let payload_len = at_byte buf 1 in
    let crc_pos = 1 + header_after version + payload_len in
    record {
      version = version;
      seq = if version == 1 then at_byte buf 2 else at_byte buf 4;
      sysid = if version == 1 then at_byte buf 3 else at_byte buf 5;
      compid = if version == 1 then at_byte buf 4 else at_byte buf 6;
      msgid = msgid_of version buf;
      payload_len = payload_len;
      payload_array =
          take payload_len (drop (1 + header_after version) buf)
          ++ replicate (max_payload - payload_len) 0;
      checksum = at_byte buf crc_pos + 256 * at_byte buf (suc crc_pos);
      signed = if is_signed version buf then 1 else 0;
    }

unfoldable pub parse_frame : List ℕ → Parsed
parse_frame buf =
    let version = version_of (at_byte buf 0) in
    let payload_len = at_byte buf 1 in
    let crc_pos = 1 + header_after version + payload_len in
    let frame = frame_of version buf in
    if length buf == 0
    then err magic
    else if version == 0
    then err magic
    else if ltb (length buf) (if version == 1 then 2 else 3)
    then err truncated
    else if ltb max_payload payload_len
    then err truncated
    else if ltb (length buf) (frame_len version payload_len (is_signed version buf))
    then err truncated
    else if refuted frame.msgid payload_len (drop 1 (take crc_pos buf)) frame.checksum
    then err crc
    else ok frame

pub record MavParser : Type 0 where
  pub buf : List ℕ
  pub len : ℕ

abbrev pub buffer_len : ℕ
buffer_len = max_payload + 32

unfoldable pub new : MavParser
new = record { buf = replicate buffer_len 0; len = 0 }

abbrev pub is_magic : ℕ → Bool
is_magic byte = byte == mavlink_1_magic || byte == mavlink_2_magic

-- `parse_frame(..).ok()`
abbrev pub accepted : Parsed → Option MavFrame
accepted (ok f) = some f
accepted (err e) = none

-- A frame that was parsed, and the parser after it.
unfoldable pub finish : Option MavFrame → MavParser → Option MavFrame × MavParser
finish none p = (none, p)
finish (some f) p = (some f, record p { len = 0 })

-- The part of `feed` after a byte has been stored.
unfoldable pub complete : MavParser → Option MavFrame × MavParser
complete p =
    let version = if at_byte p.buf 0 == mavlink_1_magic then 1 else 2 in
    let total = frame_len version (at_byte p.buf 1) (is_signed version p.buf) in
    if leb 2 p.len && leb total p.len
    then finish (accepted (parse_frame (take total p.buf))) p
    else (none, p)

unfoldable pub feed : ℕ → MavParser → Option MavFrame × MavParser
feed byte p =
    let started : MavParser = record { buf = set p.buf 0 byte; len = 1 } in
    if p.len == 0
    then (none, if is_magic byte then started else p)
    else if ltb 1 p.len && is_magic byte
    then (none, started)
    else if leb (length p.buf) p.len
    then (none, record p { len = 0 })
    else complete (record { buf = set p.buf p.len byte; len = suc p.len })
