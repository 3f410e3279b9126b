-- ===== src/Link/Mux/Tests.antt =====
-- The frames of crates/tpt-t-link/src/mux.rs on concrete data.
use tpt_teleop.Prelude.{
  ℕ, ◌+◌, ◌≡◌, refl, arith, some, List, [], ◌∷◌, ◌++◌, length, ◌==◌, if◌then◌else◌,
}
use tpt_teleop.Prelude.Bytes.{to_le_bytes}
use tpt_teleop.Link.Crc.{crc32}
use tpt_teleop.Link.Mux.{
  ice, media, passthrough, ok, err, malformed, crc, payload, open_payload, demux,
}
use tpt_teleop.Link.Mux.Write.{ice_frame, framed, write, write_ice_frame, write_header}
use tpt_teleop.Link.Mux.RoundTrip.{CanSend, received, demux-write, demux-write_header}
use tpt_teleop.Link.Mux.Intact.{demux_alone}
use tpt_teleop.Link.Mux.Sample.{by_fields, by_fields-IsFaithful}

abbrev two_bytes : List ℕ
two_bytes = 7 ∷ 9 ∷ []

-- An ICE frame in a buffer that holds the end of an earlier one.
demux-write_example :
    demux by_fields (framed ice 0 two_bytes ++ 1 ∷ 2 ∷ 3 ∷ []) (length (framed ice 0 two_bytes))
    ≡ ok (passthrough two_bytes)
unfolding CanSend received write write_ice_frame
demux-write_example =
    demux-write by_fields (ice_frame two_bytes) (framed ice 0 two_bytes) (1 ∷ 2 ∷ 3 ∷ [])
      by_fields-IsFaithful tt refl

demux-write_header_example :
    demux by_fields (write_header ice 0 2 ++ two_bytes ++ (to_le_bytes 4 5 ++ 8 ∷ [])) (16 + 2 + 4)
    ≡ (if crc32 (write_header ice 0 2 ++ two_bytes) == 5
        then open_payload by_fields (some ice) 0 two_bytes
        else err crc)
demux-write_header_example =
    demux-write_header ice 0 two_bytes (omega arith) 5 (omega arith) (8 ∷ []) by_fields

demux_alone_example :
    demux by_fields (two_bytes ++ framed ice 0 two_bytes) 2 ≡ demux by_fields two_bytes 2
demux_alone_example = demux_alone by_fields two_bytes (framed ice 0 two_bytes)

-- Media frames are rejected, and a short datagram is malformed.
media_rejected : open_payload by_fields (some media) 0 two_bytes ≡ err payload
unfolding open_payload
media_rejected = refl

short_malformed : demux by_fields two_bytes 2 ≡ err malformed
unfolding demux
short_malformed = refl
