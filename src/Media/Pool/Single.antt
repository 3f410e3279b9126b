-- ===== src/Media/Pool/Single.antt =====
-- What one frame after another finds in the pool of crates/tpt-t-media/src/pool.rs: a block borrows
-- the pool until it is dropped.
use tpt_teleop.Prelude.{
  ℕ, zero, suc, ◌-◌, ◌*◌, ◌%◌, ◌≤◌, ◌<◌, ◌≡◌, refl, ap, ◌∙◌, arith, Option, none, some, List, [],
  ◌∷◌, ◌++◌, All, lt→ltb, length, set, replicate, length-append, length-set, length-replicate,
  take-append_full,
}
use tpt_teleop.Prelude.Words.{u32_mod, u64_mod}
use tpt_teleop.Media.Pool.{
  FramePool, stacked, new, available, capacity, alloc, deref, write_byte, release,
}

-- The writes of a frame, each a place and a byte.
abbrev pub Frame : Type 0
Frame = List (ℕ × ℕ)

unfoldable pub write_each : ℕ → Frame → FramePool → Option FramePool
write_each idx [] p = some p
write_each idx ((j, v) ∷ ws) p = elim (write_byte idx j v p) [
  | none ↦ none
  | some p' ↦ write_each idx ws p'
]

-- A block is allocated, written, read and dropped.
unfoldable pub capture : Frame → FramePool → Option (List ℕ × FramePool)
unfolding write_each
capture ws p = elim (alloc p) [
  | none ↦ none
  | some (idx, p1) ↦ elim (write_each idx ws p1) [
    | none ↦ none
    | some p2 ↦ elim (deref idx p2) [ none ↦ none | some bytes ↦ some (bytes, release idx p2) ]
  ]
]

unfoldable pub captures : List Frame → FramePool → Option (List (List ℕ) × FramePool)
unfolding capture
captures [] p = some ([], p)
captures (ws ∷ frames) p = elim (capture ws p) [
  | none ↦ none
  | some (bytes, p') ↦ elim (captures frames p') [
    | none ↦ none
    | some (rest, q) ↦ some (bytes ∷ rest, q)
  ]
]

-- The same frames in one buffer, and what each leaves there.
abbrev pub fill : Frame → List ℕ → List ℕ
fill [] buf = buf
fill ((j, v) ∷ ws) buf = fill ws (set buf j v)

abbrev pub fill_each : List Frame → List ℕ → List (List ℕ)
fill_each [] buf = []
fill_each (ws ∷ frames) buf = fill ws buf ∷ fill_each frames (fill ws buf)

abbrev pub Fits : ℕ → List Frame → Type 0
Fits n frames = All (All (λ w. w.0 < n)) frames

length-fill : (ws : Frame) (buf : List ℕ) → length (fill ws buf) ≡ length buf
length-fill [] buf = refl
length-fill ((j, v) ∷ ws) buf = omega (arith, length-fill ws (set buf j v), length-set buf j v)

set-append :
    (buf rest : List ℕ) (j v : ℕ) → j < length buf → set (buf ++ rest) j v ≡ set buf j v ++ rest
set-append [] rest j v h = absurd (omega arith)
set-append (b ∷ buf) rest zero v h = refl
set-append (b ∷ buf) rest (suc j) v h = ap (λ t. b ∷ t) (set-append buf rest j v (omega arith))

module _ (n : ℕ) (rest free : List ℕ) (in_use : ℕ) where
  -- The pool whose first block holds `buf`.
  abbrev holding : List ℕ → FramePool
  holding buf = record { slab = buf ++ rest; block_len = n; free = free; in_use = in_use }

  write_byte_lem :
      (buf : List ℕ) (j v : ℕ)
      → length buf ≡ n
      → j < n
      → write_byte 0 j v (holding buf) ≡ some (holding (set buf j v))
  unfolding write_byte
  write_byte_lem buf j v h fit =
      ground (arith, length-append buf rest, set-append buf rest j v (omega arith))

  write_each_lem :
      (ws : Frame) (buf : List ℕ)
      → length buf ≡ n
      → All (λ w. w.0 < n) ws
      → write_each 0 ws (holding buf) ≡ some (holding (fill ws buf))
  unfolding write_each
  write_each_lem [] buf h fit = refl
  write_each_lem ((j, v) ∷ ws) buf h (here, fit) =
      rw (write_each, write_byte_lem buf j v h here)
        (write_each_lem ws (set buf j v) (omega (arith, length-set buf j v)) fit)

  deref_lem : (buf : List ℕ) → length buf ≡ n → deref 0 (holding buf) ≡ some buf
  unfolding deref
  deref_lem buf h = ground (arith, length-append buf rest, take-append_full n buf rest h)

captured :
    (n : ℕ) (rest free : List ℕ) (ws : Frame) (buf : List ℕ)
    → length buf ≡ n
    → All (λ w. w.0 < n) ws
    → capture ws (holding n rest (0 ∷ free) 0 buf)
      ≡ some (fill ws buf, holding n rest (0 ∷ free) 0 (fill ws buf))
unfolding capture alloc release
captured n rest free ws buf h fit =
    rw
      (
        capture,
        write_each_lem n rest free 1 ws buf h fit,
        deref_lem n rest free 1 (fill ws buf) (omega (arith, length-fill ws buf)),
      )
      refl

-- What `frames` find and leave in a pool whose first block holds `buf`.
captures_lem :
    (n : ℕ) (rest free : List ℕ) (frames : List Frame) (buf : List ℕ)
    → length buf ≡ n
    → Fits n frames
    → (last : List ℕ) × (length last ≡ n)
      × (captures frames (holding n rest (0 ∷ free) 0 buf)
          ≡ some (fill_each frames buf, holding n rest (0 ∷ free) 0 last))
unfolding captures
captures_lem n rest free [] buf h fit = (buf, h, refl)
captures_lem n rest free (ws ∷ frames) buf h (here, fit) =
    let (last, size, all) =
      captures_lem n rest free frames (fill ws buf) (omega (arith, length-fill ws buf)) fit in
    (last, size, rw (captures, captured n rest free ws buf h here, all) refl)

replicate_split : (n m a : ℕ) → n ≤ m → replicate m a ≡ replicate n a ++ replicate (m - n) a
replicate_split zero m a h = ap (λ i. replicate i a) (omega arith)
replicate_split (suc n) zero a h = absurd (omega arith)
replicate_split (suc n) (suc m) a h =
    ap (λ t. a ∷ t)
      (replicate_split n m a (omega arith) ∙ ap (λ i. replicate n a ++ replicate i a) (omega arith))

length-stacked : (i n : ℕ) → length (stacked i n) ≡ n
unfolding stacked
length-stacked i zero = refl
length-stacked i (suc n) = ap suc (length-stacked (suc i) n)

new_lem :
    (n b : ℕ)
    → 0 < n
    → suc b < u32_mod
    → n * suc b < u64_mod
    → new n (suc b)
      ≡ some (holding n (replicate (n * suc b - n) 0) (0 ∷ stacked 1 b) 0 (replicate n 0))
unfolding new stacked
new_lem n b pos few small =
    let bytes : n * suc b % u64_mod ≡ n * suc b = omega (arith, small) in
    let count : suc b % u32_mod ≡ suc b = omega (arith, few) in
    let split = replicate_split n (n * suc b) 0 (omega arith) in
    rw (new, lt→ltb 0 n pos, lt→ltb 0 (suc b) (omega arith), bytes, count, split) refl

-- A block borrows the pool until it is dropped, so that a pool that was made for `blocks` blocks
-- serves as one buffer of `block_len` bytes, at first zero: no frame is refused, whatever number
-- comes, each finds in its block what the frames before it left there, all the blocks are free
-- again afterwards, and the bytes behind the first block stay zero.
pub captures-new :
    (block_len blocks : ℕ) (frames : List Frame)
    → 0 < block_len
    → 0 < blocks
    → blocks < u32_mod
    → block_len * blocks < u64_mod
    → Fits block_len frames
    → (p : FramePool) × (p' : FramePool) × (last : List ℕ) × (new block_len blocks ≡ some p)
      × (captures frames p ≡ some (fill_each frames (replicate block_len 0), p'))
      × (available p' ≡ blocks)
      × (capacity p' ≡ blocks)
      × (length last ≡ block_len)
      × (p'.slab ≡ last ++ replicate (block_len * blocks - block_len) 0)
unfolding available capacity
captures-new n zero frames pos some_block few small fit = absurd (omega arith)
captures-new n (suc b) frames pos some_block few small fit =
    let rest = replicate (n * suc b - n) 0 in
    let free = stacked 1 b in
    let (last, size, all) =
      captures_lem n rest free frames (replicate n 0) (length-replicate n 0) fit in
    (
      holding n rest (0 ∷ free) 0 (replicate n 0),
      holding n rest (0 ∷ free) 0 last,
      last,
      new_lem n b pos few small,
      all,
      ap suc (length-stacked 1 b),
      omega (arith, length-stacked 1 b),
      size,
      refl,
    )
