-- ===== src/Hal/Mavlink/Layout.antt =====
-- The layout of a MAVLink 1 frame, and what `parse_frame` of crates/tpt-t-hal/src/mavlink.rs makes
-- of it.
use tpt_teleop.Prelude.{
  ℕ, zero, suc, ◌+◌, ◌*◌, ◌-◌, ◌/◌, ◌%◌, ◌<◌, ◌≤◌, ◌≡◌, refl, ◌∙◌, ap, arith, false, List, [], ◌∷◌,
  ◌++◌, length, length-append, take, drop, replicate, get_or, ltb, ◌==◌, if◌then◌else◌,
}
use tpt_teleop.Prelude.Bytes.{take-append}
use tpt_teleop.Hal.Mavlink.{
  MavFrame, ok, err, crc, frame_len, frame_of, parse_frame, refuted, at_byte, max_payload,
}

-- What a MAVLink 1 frame holds, next to its checksum.
pub record Message : Type 0 where
  pub seq : ℕ
  pub sysid : ℕ
  pub compid : ℕ
  pub msgid : ℕ
  pub body : List ℕ

-- The bytes that the checksum covers, and the whole frame.
abbrev pub checked : Message → List ℕ
checked m = length m.body ∷ m.seq ∷ m.sysid ∷ m.compid ∷ m.msgid ∷ m.body

abbrev pub wire_1 : Message → ℕ → List ℕ
wire_1 m sum = (254 ∷ checked m) ++ sum % 256 ∷ sum / 256 ∷ []

abbrev pub frame_1 : Message → ℕ → MavFrame
frame_1 m sum = record {
  version = 1;
  seq = m.seq;
  sysid = m.sysid;
  compid = m.compid;
  msgid = m.msgid;
  payload_len = length m.body;
  payload_array = m.body ++ replicate (max_payload - length m.body) 0;
  checksum = sum;
  signed = 0;
}

get_or-append {ℓ} :
    {A : Type ℓ} (xs ys : List A) (n i : ℕ) (d : A)
    → length xs ≡ n
    → get_or (xs ++ ys) (n + i) d ≡ get_or ys i d
get_or-append [] ys zero i d e = ap (λ j. get_or ys j d) (omega arith)
get_or-append [] ys (suc n) i d e = absurd (omega (arith, e))
get_or-append (x ∷ xs) ys zero i d e = absurd (omega (arith, e))
get_or-append (x ∷ xs) ys (suc n) i d e =
    let step : suc n + i ≡ suc (n + i) = omega arith in
    ap (λ j. get_or (x ∷ (xs ++ ys)) j d) step ∙ get_or-append xs ys n i d (omega (arith, e))

-- A buffer of the first version that is long enough.
parse_complete :
    (buf : List ℕ)
    → at_byte buf 0 ≡ 254
    → at_byte buf 1 ≤ max_payload
    → at_byte buf 1 + 8 ≤ length buf
    → parse_frame buf ≡ (
        if refuted
          (frame_of 1 buf).msgid
          (at_byte buf 1)
          (drop 1 (take (1 + 5 + at_byte buf 1) buf))
          (frame_of 1 buf).checksum
        then err crc
        else ok (frame_of 1 buf))
unfolding parse_frame frame_len
parse_complete buf first short long =
    let some_there : (length buf == 0) ≡ false = ground (arith, long) in
    let two : ltb (length buf) 2 ≡ false = ground (arith, long) in
    let fits : ltb max_payload (at_byte buf 1) ≡ false = ground (arith, short) in
    let whole : ltb (length buf) (6 + at_byte buf 1 + 2 + 0) ≡ false = ground (arith, long) in
    rw (first, some_there, two, fits, whole) refl

module _ (m : Message) (sum : ℕ) (short : length m.body ≤ max_payload) (word : sum < 65536) where
  abbrev trailer : List ℕ
  trailer = sum % 256 ∷ sum / 256 ∷ []

  length_lem : length (wire_1 m sum) ≡ length m.body + 8
  length_lem = omega (arith, length-append m.body (sum % 256 ∷ sum / 256 ∷ []))

  checksum_lem :
      at_byte (wire_1 m sum) (1 + 5 + length m.body)
        + 256 * at_byte (wire_1 m sum) (suc (1 + 5 + length m.body))
      ≡ sum
  checksum_lem =
      let n = 1 + 5 + length m.body in
      let front = 254 ∷ checked m in
      let long : length front ≡ n = omega arith in
      let low : at_byte (wire_1 m sum) n ≡ sum % 256 =
        let i : n ≡ n + 0 = omega arith in
        ap (at_byte (wire_1 m sum)) i ∙ get_or-append front trailer n 0 0 long in
      let high : at_byte (wire_1 m sum) (suc n) ≡ sum / 256 =
        let i : suc n ≡ n + 1 = omega arith in
        ap (at_byte (wire_1 m sum)) i ∙ get_or-append front trailer n 1 0 long in
      omega (arith, low, high)

  body_lem : take (length m.body) (drop 6 (wire_1 m sum)) ≡ m.body
  body_lem = take-append (length m.body) m.body _ refl

  checked_lem : drop 1 (take (1 + 5 + length m.body) (wire_1 m sum)) ≡ checked m
  checked_lem =
      ap (drop 1) (take-append (1 + 5 + length m.body) (254 ∷ checked m) trailer (omega arith))

  frame_lem : frame_of 1 (wire_1 m sum) ≡ frame_1 m sum
  unfolding frame_of
  frame_lem = λ i. record {
    version = 1;
    seq = m.seq;
    sysid = m.sysid;
    compid = m.compid;
    msgid = m.msgid;
    payload_len = length m.body;
    payload_array = body_lem i ++ replicate (max_payload - length m.body) 0;
    checksum = checksum_lem i;
    signed = 0;
  }

  -- The bytes of a MAVLink 1 message of at most 255 bytes, with any checksum, parse to the message,
  -- but where the dialect knows the message with this length and its checksum is another: then the
  -- answer is a checksum error.
  pub parse_frame-wire_1 :
      parse_frame (wire_1 m sum)
      ≡ (if refuted m.msgid (length m.body) (checked m) sum then err crc else ok (frame_1 m sum))
  parse_frame-wire_1 = parse_complete (wire_1 m sum) refl short (omega (arith, length_lem)) ∙ λ i.
      if refuted (frame_lem i).msgid (length m.body) (checked_lem i) (frame_lem i).checksum
      then err crc
      else ok (frame_lem i)
