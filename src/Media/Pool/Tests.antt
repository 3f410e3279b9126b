-- ===== src/Media/Pool/Tests.antt =====
-- Runs of the pool of crates/tpt-t-media/src/pool.rs on small inputs.
use tpt_teleop.Prelude.{
  ℕ, ◌-◌, ◌*◌, ◌≡◌, refl, arith, none, some, List, [], ◌∷◌, ◌++◌, length, replicate,
}
use tpt_teleop.Media.Pool.{
  PixFmt, gray_y8, rgb888, nv12, FramePool, min_buffer_len, bytes_per_pixel, new_meta, stride_of,
  as_u32, pixfmt, new, capacity, available, write_byte,
}
use tpt_teleop.Media.Pool.Single.{Frame, captures, fill_each, captures-new}

rgb_buffer : min_buffer_len rgb888 100 50 ≡ 15000
unfolding min_buffer_len bytes_per_pixel
rgb_buffer = refl

gray_buffer : min_buffer_len gray_y8 100 50 ≡ 5000
unfolding min_buffer_len bytes_per_pixel
gray_buffer = refl

nv12_buffer : min_buffer_len nv12 100 50 ≡ 7500
unfolding min_buffer_len bytes_per_pixel
nv12_buffer = refl

rgb_stride : (new_meta 1 2 100 50 rgb888).stride ≡ 300
unfolding new_meta stride_of bytes_per_pixel
rgb_stride = refl

pixfmt-new_meta : (f : PixFmt) → pixfmt (new_meta 1 2 100 50 f) ≡ f
unfolding pixfmt new_meta as_u32
pixfmt-new_meta gray_y8 = refl
pixfmt-new_meta rgb888 = refl
pixfmt-new_meta nv12 = refl

-- Two frames in blocks of three bytes.
abbrev two_frames : List Frame
two_frames = ((0, 7) ∷ (2, 8) ∷ []) ∷ ((1, 9) ∷ []) ∷ []

captures-new_example :
    (p : FramePool) × (p' : FramePool) × (last : List ℕ) × (new 3 4 ≡ some p)
    × (captures two_frames p ≡ some (fill_each two_frames (replicate 3 0), p'))
    × (available p' ≡ 4)
    × (capacity p' ≡ 4)
    × (length last ≡ 3)
    × (p'.slab ≡ last ++ replicate (3 * 4 - 3) 0)
captures-new_example =
    captures-new 3 4 two_frames (omega arith) (omega arith) (omega arith) (omega arith)
      ((omega arith, (omega arith, tt)), ((omega arith, tt), tt))

seen : fill_each two_frames (replicate 3 0) ≡ (7 ∷ 0 ∷ 8 ∷ []) ∷ (7 ∷ 9 ∷ 8 ∷ []) ∷ []
seen = refl

no_blocks : new 3 0 ≡ none
unfolding new
no_blocks = refl

out_of_block :
    write_byte 0 3 1 (record { slab = 0 ∷ 0 ∷ 0 ∷ []; block_len = 3; free = []; in_use = 1 }) ≡ none
unfolding write_byte
out_of_block = refl
