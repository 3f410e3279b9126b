-- ===== src/Link/Mux/Intact.antt =====
-- What `demux` of crates/tpt-t-link/src/mux.rs reads: the datagram, and nothing after it.
use tpt_teleop.Prelude.{
  ℕ, zero, suc, ◌+◌, ◌-◌, ◌<◌, ◌≤◌, ◌≡◌, refl, sym, ap, arith, inl, inr, Bool, Bool-cases, true,
  false, List, [], ◌∷◌, ◌++◌, length, take, drop, get_or, ltb, ◌==◌, ◌&&◌, not, if◌then◌else◌,
}
use tpt_teleop.Prelude.Bytes.{field, from_le_bytes}
use tpt_teleop.Core.Ser.{frame_magic, protocol_version}
use tpt_teleop.Link.Crc.{crc32}
use tpt_teleop.Link.Mux.{
  Rkyv, FrameError, header_len, trailer_len, Inbound, Demuxed, ok, err, malformed, crc, header_of,
  demux,
}

slice-append {ℓ} :
    {A : Type ℓ} (start n : ℕ) (xs ys : List A)
    → start + n ≤ length xs
    → take n (drop start (xs ++ ys)) ≡ take n (drop start xs)
slice-append zero zero xs ys h = refl
slice-append zero (suc n) [] ys h = absurd (omega (arith, h))
slice-append zero (suc n) (x ∷ xs) ys h =
    ap (λ l. x ∷ l) (slice-append zero n xs ys (omega (arith, h)))
slice-append (suc start) n [] ys h = absurd (omega (arith, h))
slice-append (suc start) n (x ∷ xs) ys h = slice-append start n xs ys (omega (arith, h))

get_or-inside {ℓ} :
    {A : Type ℓ} (xs ys : List A) (i : ℕ) (d : A)
    → i < length xs
    → get_or (xs ++ ys) i d ≡ get_or xs i d
get_or-inside [] ys i d h = absurd (omega (arith, h))
get_or-inside (x ∷ xs) ys zero d h = refl
get_or-inside (x ∷ xs) ys (suc i) d h = get_or-inside xs ys i d (omega (arith, h))

header_lem :
    (bytes stale : List ℕ) → 20 ≤ length bytes → header_of (bytes ++ stale) ≡ header_of bytes
unfolding header_of field
header_lem bytes stale long = λ i. record {
  magic = from_le_bytes (slice-append 0 4 bytes stale (omega (arith, long)) i);
  version = from_le_bytes (slice-append 4 2 bytes stale (omega (arith, long)) i);
  payload_len = from_le_bytes (slice-append 6 2 bytes stale (omega (arith, long)) i);
}

-- What the receive buffer holds after the datagram, of an earlier and longer one, is never read:
-- every datagram, well formed or not, is taken apart as it is alone.
pub demux_alone :
    (rkyv : Rkyv) (bytes stale : List ℕ)
    → demux rkyv (bytes ++ stale) (length bytes) ≡ demux rkyv bytes (length bytes)
unfolding demux
demux_alone rkyv bytes stale = elim (Bool-cases (ltb (length bytes) 20)) [
  | inl short ↦ rw short refl
  | inr long ↦
      let hdr = header_of bytes in
      let same = header_lem bytes stale (ground (arith, long)) in
      elim (Bool-cases (header_len + hdr.payload_len + trailer_len == length bytes)) [
        | inl whole ↦
            rw
              (
                long,
                same,
                slice-append 0 (header_len + hdr.payload_len) bytes stale (ground (arith, whole)),
                slice-append (header_len + hdr.payload_len) 4 bytes stale (ground (arith, whole)),
                slice-append 16 hdr.payload_len bytes stale (ground (arith, whole)),
                get_or-inside bytes stale 8 0 (ground (arith, long)),
                get_or-inside bytes stale 9 0 (ground (arith, long)),
              )
              refl
        | inr other ↦ rw (long, same, other) refl
      ]
]

passed :
    (c : Bool) (x : FrameError) (r : Demuxed) (i : Inbound)
    → (if c then err x else r) ≡ ok i
    → (c ≡ false) × (r ≡ ok i)
passed true x r i e = absurd (ground (arith, e))
passed false x r i e = (refl, e)

-- An accepted datagram has the protocol's magic and version, is as long as its header declares, and
-- ends with the CRC of all that is before its last four bytes.
pub demux_ok :
    (rkyv : Rkyv) (bytes : List ℕ) (n : ℕ) (i : Inbound)
    → demux rkyv bytes n ≡ ok i
    → ((header_of bytes).magic ≡ frame_magic)
      × ((header_of bytes).version ≡ protocol_version)
      × ((header_of bytes).payload_len + 20 ≡ n)
      × (crc32 (take (n - 4) bytes) ≡ from_le_bytes (take 4 (drop (n - 4) bytes)))
unfolding demux
demux_ok rkyv bytes n i e =
    let hdr = header_of bytes in
    let end = header_len + hdr.payload_len in
    let (_, e1) = passed (ltb n 20) malformed _ i e in
    let (known, e2) =
      passed (not (hdr.magic == frame_magic && hdr.version == protocol_version)) malformed _ i e1 in
    let (whole, e3) = passed (not (end + trailer_len == n)) malformed _ i e2 in
    let (intact, _) =
      passed (not (crc32 (take end bytes) == from_le_bytes (take trailer_len (drop end bytes)))) crc
        _ i e3 in
    let last : end ≡ n - 4 = ground (arith, whole) in
    (
      ground (arith, known),
      ground (arith, known),
      ground (arith, whole),
      rw (sym last) (ground (arith, intact)),
    )
