-- ===== src/Hal/Mavlink/Tests.antt =====
-- The MAVLink parser on concrete bytes.
use tpt_teleop.Prelude.{
  ℕ, ◌<◌, ◌-◌, ◌≡◌, refl, arith, true, false, List, [], ◌∷◌, All, length, length-replicate, drop,
  zero, suc, ◌∙◌, ap,
}
use tpt_teleop.Hal.Mavlink.{
  ok, parse_frame, refuted, dialect_for, dialect_in, mav_crc16, crc_from, crc_bits, frame_len, new,
  feed, complete, finish, is_magic, at_byte, buffer_len,
}
use tpt_teleop.Hal.Mavlink.Stream.{feed_all, feed_frames, IsFrame, nil, cons, concat}
use tpt_teleop.Hal.Mavlink.Clean.{HasPlainPayload, feed_all-HasPlainPayload}
use tpt_teleop.Hal.Mavlink.Layout.{Message, checked, wire_1, frame_1, parse_frame-wire_1}

-- A heartbeat with the sequence number 7.
abbrev heartbeat : Message
heartbeat = record {
  seq = 7;
  sysid = 1;
  compid = 1;
  msgid = 0;
  body = 1 ∷ 0 ∷ 0 ∷ 0 ∷ 1 ∷ 8 ∷ 128 ∷ 3 ∷ 3 ∷ [];
}

abbrev heartbeat_sum : ℕ
heartbeat_sum = 47319

abbrev heartbeat_bytes : List ℕ
heartbeat_bytes = wire_1 heartbeat heartbeat_sum

heartbeat_passes : refuted 0 9 (checked heartbeat) heartbeat_sum ≡ false
unfolding refuted dialect_for dialect_in mav_crc16 crc_from crc_bits
heartbeat_passes = refl

-- Another checksum is refuted, but not when the length is none that the dialect knows.
other_sum : refuted 0 9 (checked heartbeat) 1 ≡ true
unfolding refuted dialect_for dialect_in mav_crc16 crc_from crc_bits
other_sum = refl

other_length : refuted 0 8 (0 ∷ []) 1 ≡ false
unfolding refuted dialect_for dialect_in
other_length = refl

heartbeat_parses : parse_frame heartbeat_bytes ≡ ok (frame_1 heartbeat heartbeat_sum)
heartbeat_parses =
    parse_frame-wire_1 heartbeat heartbeat_sum (omega arith) (omega arith)
    ∙ rw heartbeat_passes refl

plain_at :
    (xs : List ℕ)
    → All (λ b. is_magic b ≡ false) xs
    → (i : ℕ) → i < length xs
    → is_magic (at_byte xs i) ≡ false
plain_at [] h i before = absurd (omega (arith, before))
plain_at (x ∷ xs) (p, h) zero before = p
plain_at (x ∷ xs) (p, h) (suc i) before = plain_at xs h i (omega (arith, before))

heartbeat_tail_plain : All (λ b. is_magic b ≡ false) (drop 2 heartbeat_bytes)
heartbeat_tail_plain = (
  refl,
  (
    refl,
    (
      refl,
      (
        refl,
        (refl, (refl, (refl, (refl, (refl, (refl, (refl, (refl, (refl, (refl, (refl, tt))))))))))),
      ),
    ),
  ),
)

heartbeat-IsFrame : IsFrame heartbeat_bytes
unfolding frame_len
heartbeat-IsFrame = record {
  starts = refl;
  whole = refl;
  byte = omega arith;
  plain = λ i after before.
      let back : i ≡ suc (suc (i - 2)) = omega (arith, after) in
      ap (λ j. is_magic (at_byte heartbeat_bytes j)) back
      ∙ plain_at (drop 2 heartbeat_bytes) heartbeat_tail_plain (i - 2)
          (omega (arith, after, before));
}

feed_frames_example :
    (feed_all (concat (heartbeat_bytes ∷ heartbeat_bytes ∷ [])) new).0
    ≡ frame_1 heartbeat heartbeat_sum ∷ frame_1 heartbeat heartbeat_sum ∷ []
unfolding new
feed_frames_example =
    feed_frames (heartbeat_bytes ∷ heartbeat_bytes ∷ []) _ new
      (cons heartbeat-IsFrame heartbeat_parses (cons heartbeat-IsFrame heartbeat_parses nil)) refl
      (length-replicate {A = ℕ} buffer_len 0)

feed_all-HasPlainPayload_example : All HasPlainPayload (feed_all heartbeat_bytes new).0
feed_all-HasPlainPayload_example = feed_all-HasPlainPayload heartbeat_bytes

-- The same bytes with the first magic in the payload: accepted by `parse_frame`, never yielded.
abbrev magic_inside : Message
magic_inside = record { seq = 7; sysid = 1; compid = 1; msgid = 99; body = 1 ∷ 254 ∷ [] }

magic_inside_parses : parse_frame (wire_1 magic_inside 0) ≡ ok (frame_1 magic_inside 0)
unfolding refuted dialect_for dialect_in
magic_inside_parses = parse_frame-wire_1 magic_inside 0 (omega arith) (omega arith)

magic_inside_lost : (feed_all (wire_1 magic_inside 0) new).0 ≡ []
unfolding feed_all new feed complete finish frame_len
magic_inside_lost = refl
