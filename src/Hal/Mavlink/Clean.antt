-- ===== src/Hal/Mavlink/Clean.antt =====
-- What the parser of crates/tpt-t-hal/src/mavlink.rs never yields: it starts over at a magic, wherever
-- in a frame it stands.
use tpt_teleop.Prelude.{
  ℕ, zero, suc, ◌+◌, ◌<◌, ◌≤◌, ◌≡◌, inl, inr, refl, sym, ◌∙◌, ap, subst, arith, Bool, true, false,
  Option, none, some, List, [], ◌∷◌, All, length, length-set, length-replicate, length-take,
  length-drop, take, drop, get_or, get_or-set, set, ltb, leb, ◌==◌, ◌&&◌, if◌then◌else◌, Bool-cases,
}
use tpt_teleop.Prelude.Bytes.{take-append}
use tpt_teleop.Hal.Mavlink.{
  MavError, MavFrame, Parsed, ok, err, crc, truncated, magic, frame_len, at_byte, is_signed,
  version_of, header_after, refuted, frame_of, max_payload, parse_frame, payload, MavParser, new,
  buffer_len, is_magic, accepted, finish, complete, feed,
}
use tpt_teleop.Hal.Mavlink.Stream.{
  feed_all, emit, complete_parses, complete_waits, is_complete, total_of, stored,
}

-- No byte that was captured after the length is a magic.
record IsClean (p : MavParser) : Type 0 where
  pub room : length p.buf ≡ buffer_len
  pub plain : (i : ℕ) → 2 ≤ i → i < p.len → is_magic (at_byte p.buf i) ≡ false

abbrev pub IsPlain : ℕ → Type 0
IsPlain b = is_magic b ≡ false

-- A payload with no magic in it.
abbrev pub HasPlainPayload : MavFrame → Type 0
HasPlainPayload f = All IsPlain (payload f)

get_or-take : (n i : ℕ) (xs : List ℕ) → i < n → get_or (take n xs) i 0 ≡ get_or xs i 0
get_or-take zero i xs h = absurd (omega (arith, h))
get_or-take (suc n) i [] h = refl
get_or-take (suc n) zero (x ∷ xs) h = refl
get_or-take (suc n) (suc i) (x ∷ xs) h = get_or-take n i xs (omega (arith, h))

All-slice :
    (start n : ℕ) (xs : List ℕ)
    → ((i : ℕ) → start ≤ i → i < start + n → IsPlain (at_byte xs i))
    → start + n ≤ length xs
    → All IsPlain (take n (drop start xs))
All-slice zero zero xs h long = tt
All-slice zero (suc n) [] h long = absurd (omega (arith, long))
All-slice zero (suc n) (x ∷ xs) h long = (
  h 0 (omega arith) (omega arith),
  All-slice zero n xs (λ i a b. h (suc i) (omega arith) (omega (arith, b))) (omega (arith, long)),
)
All-slice (suc start) n [] h long = absurd (omega (arith, long))
All-slice (suc start) n (x ∷ xs) h long =
    All-slice start n xs (λ i a b. h (suc i) (omega (arith, a)) (omega (arith, b)))
      (omega (arith, long))

-- A guard that returned no error.
passed :
    (c : Bool) (x : MavError) (r : Parsed) (f : MavFrame)
    → (if c then err x else r) ≡ ok f
    → (c ≡ false) × (r ≡ ok f)
passed true x r f e = absurd (ground (arith, e))
passed false x r f e = (refl, e)

ok_injective : (f g : MavFrame) → ok f ≡ ok g → f ≡ g
ok_injective f g e = ap (λ r. elim r [ ok h ↦ h | err x ↦ f ]) e

frame_room :
    (version n len : ℕ) (signed : Bool)
    → (version == 0) ≡ false
    → ltb n (frame_len version len signed) ≡ false
    → header_after version + len + 3 ≤ n
unfolding frame_len
frame_room version n len signed known whole = ground (arith, known, whole)

header_after_bound : (version : ℕ) → 5 ≤ header_after version
header_after_bound version = ground arith

-- What an accepted buffer is.
parse_ok :
    (b : List ℕ) (f : MavFrame)
    → parse_frame b ≡ ok f
    → (f ≡ frame_of (version_of (at_byte b 0)) b)
      × (at_byte b 1 ≤ max_payload)
      × (header_after (version_of (at_byte b 0)) + at_byte b 1 + 3 ≤ length b)
unfolding parse_frame
parse_ok b f e =
    let version = version_of (at_byte b 0) in
    let (_, e1) = passed (length b == 0) magic _ f e in
    let (known, e2) = passed (version == 0) magic _ f e1 in
    let (_, e3) = passed (ltb (length b) (if version == 1 then 2 else 3)) truncated _ f e2 in
    let (short, e4) = passed (ltb max_payload (at_byte b 1)) truncated _ f e3 in
    let (whole, e5) =
      passed (ltb (length b) (frame_len version (at_byte b 1) (is_signed version b))) truncated _ f
        e4 in
    let (_, e6) =
      passed
        (refuted (frame_of version b).msgid (at_byte b 1)
          (drop 1 (take (1 + header_after version + at_byte b 1) b)) (frame_of version b).checksum)
        crc _ f e5 in
    (
      sym (ok_injective (frame_of version b) f e6),
      ground (arith, short),
      frame_room version (length b) (at_byte b 1) (is_signed version b) known whole,
    )

payload_lem :
    (b : List ℕ) (version : ℕ)
    → at_byte b 1 ≤ max_payload
    → header_after version + at_byte b 1 + 3 ≤ length b
    → payload (frame_of version b) ≡ take (at_byte b 1) (drop (1 + header_after version) b)
unfolding payload frame_of
payload_lem b version short long =
    take-append (at_byte b 1) (take (at_byte b 1) (drop (1 + header_after version) b)) _ (
      omega (
        arith,
        length-take (at_byte b 1) (drop (1 + header_after version) b),
        length-drop (1 + header_after version) b,
        long,
      ))

-- A step that keeps the parser clean and yields no payload with a magic.
abbrev Keeps : Option MavFrame × MavParser → Type 0
Keeps r = IsClean r.1 × ((f : MavFrame) → r.0 ≡ some f → HasPlainPayload f)

-- The payload of an accepted prefix lies after the length.
payload-IsPlain :
    (total : ℕ) (p : MavParser) (f : MavFrame)
    → IsClean p
    → total ≤ p.len
    → parse_frame (take total p.buf) ≡ ok f
    → HasPlainPayload f
payload-IsPlain total p f c within e =
    let b = take total p.buf in
    let version = version_of (at_byte b 0) in
    let (same, short, long) = parse_ok b f e in
    let few = length-take total p.buf in
    let plain : (i : ℕ)
        → 1 + header_after version ≤ i
        → i < 1 + header_after version + at_byte b 1
        → IsPlain (at_byte b i) =
      λ i after before.
        let inside : i < total = omega (arith, few, before, long) in
        ap is_magic (get_or-take total i p.buf inside)
        ∙ c.plain i (omega (arith, after, header_after_bound version))
            (omega (arith, inside, within)) in
    subst HasPlainPayload (sym same) (
      subst (All IsPlain) (sym (payload_lem b version short long))
        (All-slice (1 + header_after version) (at_byte b 1) b plain (omega (arith, long))))

accepted-some : (r : Parsed) (f : MavFrame) → accepted r ≡ some f → r ≡ ok f
accepted-some (ok g) f e = ap (λ o. elim o [ some h ↦ ok h | none ↦ ok g ]) e
accepted-some (err x) f e = absurd (ground (arith, e))

finish-IsClean :
    (o : Option MavFrame) (p : MavParser)
    → IsClean p
    → ((f : MavFrame) → o ≡ some f → HasPlainPayload f)
    → Keeps (finish o p)
unfolding finish
finish-IsClean none p c h = (c, h)
finish-IsClean (some g) p c h =
    (record { room = c.room; plain = λ i a b. absurd (omega (arith, b)) }, h)

complete-IsClean : (p : MavParser) → IsClean p → Keeps (complete p)
complete-IsClean p c = elim (Bool-cases (is_complete p)) [
  | inl full ↦ subst Keeps (sym (complete_parses p full)) (
      finish-IsClean _ p c (λ f e.
        payload-IsPlain (total_of p.buf) p f c (ground (arith, full)) (accepted-some _ f e)))
  | inr waits ↦ subst Keeps (sym (complete_waits p waits)) (c, λ f e. absurd (ground (arith, e)))
]

quiet : (p : MavParser) → IsClean p → Keeps (none, p)
quiet p c = (c, λ f e. absurd (ground (arith, e)))

-- At a length of at most 2 there is nothing to be clean of.
short-IsClean : (p : MavParser) → length p.buf ≡ buffer_len → p.len ≤ 2 → IsClean p
short-IsClean p room short = record {
  room = room;
  plain = λ i a b. absurd (omega (arith, a, b, short));
}

stored-IsClean :
    (x : ℕ) (p : MavParser)
    → IsClean p
    → (ltb 1 p.len && is_magic x) ≡ false
    → leb (length p.buf) p.len ≡ false
    → IsClean (stored x p)
unfolding stored
stored-IsClean x p c calm fits = record {
  room = length-set p.buf p.len x ∙ c.room;
  plain = λ i after before.
      ap is_magic (get_or-set p.buf p.len i x 0 (ground (arith, fits)))
      ∙ elim (Bool-cases (p.len == i)) [
        | inl last ↦ rw last (ground (arith, calm, last, after))
        | inr other ↦ rw other (c.plain i after (ground (arith, other, before)))
      ];
}

feed-IsClean : (x : ℕ) (p : MavParser) → IsClean p → Keeps (feed x p)
unfolding feed stored
feed-IsClean x p c =
    let started : MavParser = record { buf = set p.buf 0 x; len = 1 } in
    let restart : Keeps (none, started) =
      quiet started (short-IsClean started (length-set p.buf 0 x ∙ c.room) (omega arith)) in
    let idle : MavParser = record p { len = 0 } in
    elim (Bool-cases (p.len == 0)) [
      | inl first ↦ elim (Bool-cases (is_magic x)) [
        | inl m ↦ rw (first, m) restart
        | inr m ↦ rw (first, m) (quiet p c)
      ]
      | inr later ↦ elim (Bool-cases (ltb 1 p.len && is_magic x)) [
        | inl m ↦ rw (later, m) restart
        | inr m ↦ elim (Bool-cases (leb (length p.buf) p.len)) [
          | inl full ↦ rw (later, m, full) (quiet idle (short-IsClean idle c.room (omega arith)))
          | inr fits ↦
              rw (later, m, fits) (complete-IsClean (stored x p) (stored-IsClean x p c m fits))
        ]
      ]
    ]

emit-All :
    (P : MavFrame → Type 0) (o : Option MavFrame) (fs : List MavFrame)
    → ((f : MavFrame) → o ≡ some f → P f)
    → All P fs
    → All P (emit o fs)
emit-All P none fs h hs = hs
emit-All P (some f) fs h hs = (h f refl, hs)

feed_all-IsClean : (xs : List ℕ) (p : MavParser) → IsClean p → All HasPlainPayload (feed_all xs p).0
unfolding feed_all
feed_all-IsClean [] p c = tt
feed_all-IsClean (x ∷ xs) p c =
    let (c', h) = feed-IsClean x p c in
    emit-All HasPlainPayload (feed x p).0 (feed_all xs (feed x p).1).0 h
      (feed_all-IsClean xs (feed x p).1 c')

-- Whatever bytes a new parser is fed, no frame that it yields has a magic in its payload.
pub feed_all-HasPlainPayload : (xs : List ℕ) → All HasPlainPayload (feed_all xs new).0
unfolding new
feed_all-HasPlainPayload xs =
    feed_all-IsClean xs new
      (short-IsClean new (length-replicate {A = ℕ} buffer_len 0) (omega arith))
