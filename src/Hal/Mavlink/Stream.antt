-- ===== src/Hal/Mavlink/Stream.antt =====
-- The parser of crates/tpt-t-hal/src/mavlink.rs over a whole frame, byte by byte.
use tpt_teleop.Prelude.{
  ℕ, zero, suc, ◌+◌, ◌-◌, ◌<◌, ◌≤◌, ◌≡◌, ◌⊎◌, inl, inr, refl, ◌∙◌, ap, subst, arith, Bool, true,
  false, Option, none, some, List, [], ◌∷◌, ◌++◌, length, length-set, take, drop, get_or,
  get_or-set, set, leb, ◌==◌, ◌&&◌, if◌then◌else◌, Bool-cases,
}
use tpt_teleop.Hal.Mavlink.{
  MavFrame, ok, frame_len, at_byte, is_signed, parse_frame, MavParser, buffer_len, is_magic,
  accepted, finish, complete, feed, mavlink_1_magic,
}

-- A frame that was yielded, before the ones after it.
abbrev pub emit : Option MavFrame → List MavFrame → List MavFrame
emit none fs = fs
emit (some f) fs = f ∷ fs

-- The frames that feeding these bytes yields, in order, and the parser after them.
unfoldable pub feed_all : List ℕ → MavParser → List MavFrame × MavParser
feed_all [] p = ([], p)
feed_all (x ∷ xs) p = let (o, p') = feed x p in let (fs, p'') = feed_all xs p' in (emit o fs, p'')

-- The parser's reading of the version, and the length that a frame's own header gives it.
abbrev pub stream_version : List ℕ → ℕ
stream_version b = if at_byte b 0 == mavlink_1_magic then 1 else 2

abbrev pub total_of : List ℕ → ℕ
total_of b = frame_len (stream_version b) (at_byte b 1) (is_signed (stream_version b) b)

-- Bytes that start with a magic, are as many as their header says, and hold no magic after the
-- length.
pub record IsFrame (b : List ℕ) : Type 0 where
  pub starts : is_magic (at_byte b 0) ≡ true
  pub whole : length b ≡ total_of b
  pub byte : at_byte b 1 < 256
  pub plain : (i : ℕ) → 2 ≤ i → i < length b → is_magic (at_byte b i) ≡ false

-- The parser has captured the first `n` bytes of `b`.
record IsCapturing (b : List ℕ) (n : ℕ) (p : MavParser) : Type 0 where
  pub len : p.len ≡ n
  pub room : length p.buf ≡ buffer_len
  pub captured : (i : ℕ) → i < n → at_byte p.buf i ≡ at_byte b i

frame_len_bound :
    (version n : ℕ) (signed : Bool)
    → (8 ≤ frame_len version n signed) × (n < 256 → frame_len version n signed < buffer_len)
unfolding frame_len
frame_len_bound version n signed = ground arith

unfoldable pub stored : ℕ → MavParser → MavParser
stored x p = record { buf = set p.buf p.len x; len = suc p.len }

feed_stores :
    (x : ℕ) (p : MavParser)
    → 1 ≤ p.len
    → p.len < length p.buf
    → (p.len ≡ 1) ⊎ (is_magic x ≡ false)
    → feed x p ≡ complete (stored x p)
unfolding feed stored
feed_stores x p started room (inl two) = ground (arith, two)
feed_stores x p started room (inr plain) = ground (arith, plain)

abbrev pub is_complete : MavParser → Bool
is_complete p = leb 2 p.len && leb (total_of p.buf) p.len

pub complete_waits : (p : MavParser) → is_complete p ≡ false → complete p ≡ (none, p)
unfolding complete
complete_waits p e = rw e refl

pub complete_parses :
    (p : MavParser)
    → is_complete p ≡ true
    → complete p ≡ finish (accepted (parse_frame (take (total_of p.buf) p.buf))) p
unfolding complete
complete_parses p e = rw e refl

take_same :
    (n : ℕ) (xs ys : List ℕ)
    → length ys ≡ n
    → n ≤ length xs
    → ((i : ℕ) → i < n → at_byte xs i ≡ at_byte ys i)
    → take n xs ≡ ys
take_same zero xs [] e h same = refl
take_same zero xs (y ∷ ys) e h same = absurd (omega (arith, e))
take_same (suc n) xs [] e h same = absurd (omega (arith, e))
take_same (suc n) [] (y ∷ ys) e h same = absurd (omega (arith, h))
take_same (suc n) (x ∷ xs) (y ∷ ys) e h same =
    ap (λ z. z ∷ take n xs) (same 0 (omega arith))
    ∙ ap (λ l. y ∷ l)
        (take_same n xs ys (omega (arith, e)) (omega (arith, h))
          (λ i b. same (suc i) (omega (arith, b))))

drop_next : (n : ℕ) (xs : List ℕ) → n < length xs → drop n xs ≡ at_byte xs n ∷ drop (suc n) xs
drop_next zero [] h = absurd (omega (arith, h))
drop_next zero (x ∷ xs) h = refl
drop_next (suc n) [] h = absurd (omega (arith, h))
drop_next (suc n) (x ∷ xs) h = drop_next n xs (omega (arith, h))

drop_all : (n : ℕ) (xs : List ℕ) → length xs ≤ n → drop n xs ≡ []
drop_all zero [] h = refl
drop_all zero (x ∷ xs) h = absurd (omega (arith, h))
drop_all (suc n) [] h = refl
drop_all (suc n) (x ∷ xs) h = drop_all n xs (omega (arith, h))

feed_starts :
    (x : ℕ) (p : MavParser)
    → p.len ≡ 0
    → is_magic x ≡ true
    → feed x p ≡ (none, record { buf = set p.buf 0 x; len = 1 })
unfolding feed
feed_starts x p idle m = ground (arith, idle, m)

module _ (b : List ℕ) (f : IsFrame b) where
  stored-IsCapturing :
      (n : ℕ) (p : MavParser)
      → IsCapturing b n p
      → n < length b
      → IsCapturing b (suc n) (stored (at_byte b n) p)
  unfolding stored
  stored-IsCapturing n p c h =
      let bound =
        (frame_len_bound (stream_version b) (at_byte b 1) (is_signed (stream_version b) b)).1
          f.byte in
      record {
        len = ap suc c.len;
        room = length-set p.buf p.len (at_byte b n) ∙ c.room;
        captured = λ i before.
            get_or-set p.buf p.len i (at_byte b n) 0
              (omega (arith, c.len, c.room, bound, h, f.whole))
            ∙ elim (Bool-cases (p.len == i)) [
              | inl last ↦ let i : n ≡ i = ground (arith, last, c.len) in rw last (ap (at_byte b) i)
              | inr other ↦ rw other (c.captured i (ground (arith, other, before, c.len)))
            ];
      }

  -- Once the third byte is there, the buffer gives the frame's length.
  total_captured : (n : ℕ) (p : MavParser) → IsCapturing b n p → 3 ≤ n → total_of p.buf ≡ total_of b
  total_captured n p c h =
      rw
        (
          c.captured 0 (omega (arith, h)),
          c.captured 1 (omega (arith, h)),
          c.captured 2 (omega (arith, h)),
        )
        refl

  -- Before the last byte nothing is yielded.
  complete_early :
      (n : ℕ) (p : MavParser) → IsCapturing b n p → n < total_of b → complete p ≡ (none, p)
  complete_early n p c h = complete_waits p (elim (Bool-cases (leb 3 n)) [
    | inl later ↦
        let t = total_captured n p c (ground (arith, later)) in ground (arith, t, h, c.len)
    | inr soon ↦
        let (eight, _) =
          frame_len_bound (stream_version p.buf) (at_byte p.buf 1)
            (is_signed (stream_version p.buf) p.buf) in
        ground (arith, eight, soon, c.len)
  ])

  captured_whole :
      (n : ℕ) (p : MavParser)
      → IsCapturing b n p
      → n ≡ length b
      → (total_of p.buf ≡ total_of b) × (take (total_of p.buf) p.buf ≡ b)
  captured_whole n p c h =
      let (eight, bound) =
        frame_len_bound (stream_version b) (at_byte b 1) (is_signed (stream_version b) b) in
      let t = total_captured n p c (omega (arith, h, f.whole, eight)) in
      (
        t,
        rw t (
            take_same (total_of b) p.buf b (omega (arith, f.whole))
              (omega (arith, c.room, bound f.byte))
              (λ i before. c.captured i (omega (arith, h, f.whole, before)))),
      )

  -- One byte of the frame more.
  next_capture : (n : ℕ) → MavParser → MavParser
  next_capture n p = stored (at_byte b n) p

  feed_round :
      (n : ℕ) (p : MavParser)
      → IsCapturing b n p
      → 1 ≤ n
      → n < length b
      → feed_all (drop n b) p ≡ (
          let (o, p') = complete (next_capture n p) in
          let (fs, p'') = feed_all (drop (suc n) b) p' in (emit o fs, p''))
  unfolding feed_all next_capture
  feed_round n p c started h =
      let bound =
        (frame_len_bound (stream_version b) (at_byte b 1) (is_signed (stream_version b) b)).1
          f.byte in
      let plain : (p.len ≡ 1) ⊎ (is_magic (at_byte b n) ≡ false) = elim (Bool-cases (leb 2 n)) [
        | inl later ↦ inr (f.plain n (ground (arith, later)) h)
        | inr first ↦ inl (ground (arith, first, c.len, started))
      ] in
      let step =
        feed_stores (at_byte b n) p (omega (arith, c.len, started))
          (omega (arith, c.len, c.room, bound, h, f.whole)) plain in
      rw (drop_next n b h)
        (ap (λ r. let (fs, p'') = feed_all (drop (suc n) b) r.1 in (emit r.0 fs, p'')) step)

  feed_last :
      (n : ℕ) (p : MavParser)
      → IsCapturing b n p
      → 1 ≤ n
      → suc n ≡ length b
      → feed_all (drop n b) p ≡ (
        emit (accepted (parse_frame b)) [],
        (finish (accepted (parse_frame b)) (next_capture n p)).1,
      )
  unfolding feed_all next_capture finish
  feed_last n p c started h =
      let q = next_capture n p in
      let c' = stored-IsCapturing n p c (omega (arith, h)) in
      let (t, same) = captured_whole (suc n) q c' h in
      let (eight, _) =
        frame_len_bound (stream_version b) (at_byte b 1) (is_signed (stream_version b) b) in
      let ready : is_complete q ≡ true = ground (arith, t, eight, c'.len, h, f.whole) in
      let parses : complete q ≡ finish (accepted (parse_frame b)) q =
        complete_parses q ready ∙ ap (λ l. finish (accepted (parse_frame l)) q) same in
      let empty : drop (suc n) b ≡ [] = drop_all (suc n) b (omega (arith, h)) in
      feed_round n p c started (omega (arith, h))
      ∙ rw (parses, empty)
          (elim (accepted (parse_frame b))
            as (λ o.
              ◌≡◌ {A = List MavFrame × MavParser} (emit (finish o q).0 [], (finish o q).1)
                (emit o [], (finish o q).1)) [ none ↦ refl | some x ↦ refl ])

  -- What is left of the frame is fed, `k` bytes and the last one.
  feed_rest :
      (k n : ℕ) (p : MavParser)
      → IsCapturing b n p
      → 1 ≤ n
      → n + suc k ≡ length b
      → (q : MavParser) × IsCapturing b (length b) q
        × (feed_all (drop n b) p
            ≡ (emit (accepted (parse_frame b)) [], (finish (accepted (parse_frame b)) q).1))
  unfolding next_capture
  feed_rest zero n p c started h =
      let e : suc n ≡ length b = omega (arith, h) in
      (
        next_capture n p,
        subst (λ m. IsCapturing b m (next_capture n p)) e
            (stored-IsCapturing n p c (omega (arith, h))),
        feed_last n p c started e,
      )
  feed_rest (suc k) n p c started h =
      let c' = stored-IsCapturing n p c (omega (arith, h)) in
      let (q, cq, e) = feed_rest k (suc n) (next_capture n p) c' (omega arith) (omega (arith, h)) in
      let waits = complete_early (suc n) (next_capture n p) c' (omega (arith, h, f.whole)) in
      (q, cq, feed_round n p c started (omega (arith, h)) ∙ rw (waits, e) refl)

  feed_first :
      (p : MavParser)
      → p.len ≡ 0
      → length p.buf ≡ buffer_len
      → (q : MavParser) × IsCapturing b 1 q × (feed_all b p ≡ feed_all (drop 1 b) q)
  unfolding feed_all
  feed_first p idle room =
      let (eight, _) =
        frame_len_bound (stream_version b) (at_byte b 1) (is_signed (stream_version b) b) in
      let q : MavParser = record { buf = set p.buf 0 (at_byte b 0); len = 1 } in
      let first : get_or (set p.buf 0 (at_byte b 0)) 0 0 ≡ at_byte b 0 =
        get_or-set p.buf 0 0 (at_byte b 0) 0 (omega (arith, room)) in
      (
        q,
        record {
          len = refl;
          room = length-set p.buf 0 (at_byte b 0) ∙ room;
          captured = λ i h. let z : i ≡ 0 = omega (arith, h) in rw z first;
        },
        ap (λ l. feed_all l p) (drop_next 0 b (omega (arith, f.whole, eight)))
            ∙ rw (feed_starts (at_byte b 0) p idle f.starts) refl,
      )

-- An idle parser that is fed the bytes of a frame yields what `parse_frame` makes of them, with the
-- last byte, and nothing before; when that is a frame the parser is idle again.
feed_frame :
    (b : List ℕ) (p : MavParser)
    → IsFrame b
    → p.len ≡ 0
    → length p.buf ≡ buffer_len
    → (q : MavParser) × (length q.buf ≡ buffer_len)
      × (feed_all b p
          ≡ (emit (accepted (parse_frame b)) [], (finish (accepted (parse_frame b)) q).1))
feed_frame b p f idle room =
    let (q, c, e) = feed_first b f p idle room in
    let (eight, _) =
      frame_len_bound (stream_version b) (at_byte b 1) (is_signed (stream_version b) b) in
    let (r, c', e') =
      feed_rest b f (length b - 2) 1 q c (omega arith) (omega (arith, f.whole, eight)) in
    (r, c'.room, e ∙ e')

emit-append : (o : Option MavFrame) (fs gs : List MavFrame) → emit o (fs ++ gs) ≡ emit o fs ++ gs
emit-append none fs gs = refl
emit-append (some m) fs gs = refl

feed_all-append :
    (xs ys : List ℕ) (p : MavParser)
    → feed_all (xs ++ ys) p
      ≡ (let (fs, p') = feed_all xs p in let (gs, p'') = feed_all ys p' in (fs ++ gs, p''))
unfolding feed_all
feed_all-append [] ys p = refl
feed_all-append (x ∷ xs) ys p =
    rw (feed_all-append xs ys (feed x p).1)
      (ap (λ l. (l, (feed_all ys (feed_all xs (feed x p).1).1).1)) (emit-append (feed x p).0 _ _))

-- Each of these is the bytes of a frame that `parse_frame` accepts.
pub data AreFrames : List (List ℕ) → List MavFrame → Type 0 where
  nil : AreFrames [] []
  cons :
      {b : List ℕ} {m : MavFrame} {bs : List (List ℕ)} {ms : List MavFrame}
      → IsFrame b
      → parse_frame b ≡ ok m
      → AreFrames bs ms
      → AreFrames (b ∷ bs) (m ∷ ms)

unfoldable pub concat : List (List ℕ) → List ℕ
concat [] = []
concat (b ∷ bs) = b ++ concat bs

-- An idle parser that is fed frames one after another yields them all, in order, when no byte of
-- theirs after the length is a magic.
pub feed_frames :
    (bs : List (List ℕ)) (ms : List MavFrame) (p : MavParser)
    → AreFrames bs ms
    → p.len ≡ 0
    → length p.buf ≡ buffer_len
    → (feed_all (concat bs) p).0 ≡ ms
unfolding feed_all concat finish
feed_frames _ _ p nil idle room = refl
feed_frames _ _ p (cons {b} {m} {bs} {ms} f e more) idle room =
    let (q, room', run) = feed_frame b p f idle room in
    rw (feed_all-append b (concat bs) p, run, e)
      (ap (λ l. m ∷ l) (feed_frames bs ms (record q { len = 0 }) more refl room'))
