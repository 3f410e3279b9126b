-- ===== src/Media/Pool.antt =====
-- crates/tpt-t-media/src/pool.rs: the pool of frame buffers. A slice or an index out of bounds panics
-- in the source, and is `none` here; a product of machine words wraps.
use tpt_teleop.Prelude.{
  ℕ, zero, suc, ◌+◌, ◌-◌, ◌*◌, ◌/◌, ◌%◌, Bool, true, false, ◌||◌, Option, none, some, List, [], ◌∷◌,
  length, take, drop, set, replicate, leb, ltb, ◌==◌, if◌then◌else◌,
}
use tpt_teleop.Prelude.Words.{u32_mod, u64_mod}
pub mod Single
mod Tests

pub data PixFmt : Type 0 where
  gray_y8 : PixFmt
  rgb888 : PixFmt
  nv12 : PixFmt

-- `format as u32`
unfoldable pub as_u32 : PixFmt → ℕ
as_u32 gray_y8 = 0
as_u32 rgb888 = 1
as_u32 nv12 = 2

unfoldable pub bytes_per_pixel : PixFmt → ℕ
bytes_per_pixel gray_y8 = 1
bytes_per_pixel rgb888 = 3
bytes_per_pixel nv12 = 2

unfoldable pub min_buffer_len : PixFmt → ℕ → ℕ → ℕ
unfolding bytes_per_pixel
min_buffer_len nv12 w h = w * h % u64_mod * 3 % u64_mod / 2
min_buffer_len gray_y8 w h = bytes_per_pixel gray_y8 * w % u64_mod * h % u64_mod
min_buffer_len rgb888 w h = bytes_per_pixel rgb888 * w % u64_mod * h % u64_mod

pub record FrameMeta : Type 0 where
  pub seq : ℕ
  pub timestamp_ns : ℕ
  pub width : ℕ
  pub height : ℕ
  pub stride : ℕ
  pub format : ℕ

-- The stride of `FrameMeta::new`.
unfoldable pub stride_of : PixFmt → ℕ → ℕ
unfolding bytes_per_pixel
stride_of nv12 width = width
stride_of gray_y8 width = bytes_per_pixel gray_y8 * width % u32_mod
stride_of rgb888 width = bytes_per_pixel rgb888 * width % u32_mod

unfoldable pub new_meta : ℕ → ℕ → ℕ → ℕ → PixFmt → FrameMeta
unfolding stride_of as_u32
new_meta seq timestamp_ns width height format = record {
  seq = seq;
  timestamp_ns = timestamp_ns;
  width = width;
  height = height;
  stride = stride_of format width;
  format = as_u32 format;
}

unfoldable pub pixfmt : FrameMeta → PixFmt
pixfmt m = if m.format == 0 then gray_y8 else if m.format == 1 then rgb888 else nv12

-- `free` is the stack of the free blocks, its top first.
pub record FramePool : Type 0 where
  pub slab : List ℕ
  pub block_len : ℕ
  pub free : List ℕ
  pub in_use : ℕ

-- The blocks `i`, `i + 1` and so on, `n` of them, the lowest on top.
unfoldable pub stacked : ℕ → ℕ → List ℕ
stacked i zero = []
stacked i (suc n) = i ∷ stacked (suc i) n

-- `none` is the assertion that failed.
unfoldable pub new : ℕ → ℕ → Option FramePool
unfolding stacked
new block_len blocks =
    if ltb 0 block_len
    then if ltb 0 blocks
      then some (record {
        slab = replicate (block_len * blocks % u64_mod) 0;
        block_len = block_len;
        free = stacked 0 (blocks % u32_mod);
        in_use = 0;
      })
      else none
    else none

unfoldable pub capacity : FramePool → ℕ
capacity p = length p.free + p.in_use

unfoldable pub available : FramePool → ℕ
available p = length p.free

-- The index of the block that is handed out.
unfoldable pub alloc : FramePool → Option (ℕ × FramePool)
alloc p = elim p.free [
  | [] ↦ none
  | idx ∷ free ↦ some (idx, record p { free = free; in_use = p.in_use + 1 })
]

-- The bytes of a block.
unfoldable pub deref : ℕ → FramePool → Option (List ℕ)
deref idx p =
    let s = idx * p.block_len in
    if leb (s + p.block_len) (length p.slab) then some (take p.block_len (drop s p.slab)) else none

-- `block[j] = v`
unfoldable pub write_byte : ℕ → ℕ → ℕ → FramePool → Option FramePool
write_byte idx j v p =
    let s = idx * p.block_len in
    if leb (s + p.block_len) (length p.slab)
    then if ltb j p.block_len then some (record p { slab = set p.slab (s + j) v }) else none
    else none

-- The drop of a block.
unfoldable pub release : ℕ → FramePool → FramePool
release idx p = record p { in_use = p.in_use - 1; free = idx ∷ p.free }
