-- ===== src/Analytics/DirectIo.antt =====
-- `DirectFile` of crates/tpt-t-analytics/src/direct_io.rs: bytes staged and written in whole sectors.
-- A write of the backend succeeds; `disk` is what it was given, in order.
use tpt_teleop.Prelude.{
  ℕ, zero, suc, ◌+◌, ◌-◌, ◌%◌, ◌<◌, ◌≤◌, ◌≡◌, refl, sym, ◌∙◌, ap, arith, Bool-cases, leb→le, inl,
  inr, min, List, [], ◌∷◌, ◌++◌, append_assoc, append-nil, length, length-append, length-take,
  length-drop, take-append-drop, length-replicate, take, drop, replicate, true, leb, ◌==◌,
  if◌then◌else◌,
}
use tpt_teleop.Prelude.Words.{u64_mod, wrapping_add_64}

abbrev pub sector_size : ℕ
sector_size = 4096

-- The capacity of the staging buffer.
abbrev pub staging_cap : ℕ
staging_cap = 65536

pub record DirectFile : Type 0 where
  pub disk : List ℕ
  pub staging : List ℕ
  pub written : ℕ

-- A new, empty file.
abbrev pub open_file : DirectFile
open_file = record { disk = []; staging = []; written = 0 }

-- One sector of the inner loop of `write`.
abbrev pub write_sector : DirectFile → DirectFile
write_sector f = record {
  disk = f.disk ++ take sector_size f.staging;
  staging = drop sector_size f.staging;
  written = wrapping_add_64 f.written sector_size;
}

-- `n` rounds of the inner loop of `write`.
unfoldable pub spill : ℕ → DirectFile → DirectFile
spill zero f = f
spill (suc n) f =
    let rest = spill n (write_sector f) in if leb sector_size (length f.staging) then rest else f

-- One round of the outer loop of `write`: what is left of the data, and the file. A sector leaves
-- the buffer in each inner round, so that there are never more of these than it has bytes.
unfoldable pub write_round : List ℕ → DirectFile → List ℕ × DirectFile
unfolding spill
write_round bytes f =
    let taken = min (staging_cap - length f.staging) (length bytes) in
    let staged = f.staging ++ take taken bytes in
    (drop taken bytes, spill (suc (length staged)) (record f { staging = staged }))

unfoldable pub write_rounds : ℕ → List ℕ → DirectFile → DirectFile
write_rounds zero bytes f = f
write_rounds (suc n) [] f = f
write_rounds (suc n) (b ∷ bs) f =
    let (bytes, f') = write_round (b ∷ bs) f in write_rounds n bytes f'

-- A round takes a byte at least.
unfoldable pub write : List ℕ → DirectFile → DirectFile
unfolding write_rounds
write bytes f = write_rounds (suc (length bytes)) bytes f

unfoldable pub flush : DirectFile → DirectFile
flush f = if length f.staging == 0 then f else record {
  disk = f.disk ++ (f.staging ++ replicate (sector_size - length f.staging) 0);
  staging = [];
  written = wrapping_add_64 f.written sector_size;
}

-- Whole sectors are on the disk, less than one is staged, and `written` counts the first.
pub record IsStaged (f : DirectFile) : Type 0 where
  pub sectors : length f.disk % sector_size ≡ 0
  pub short : length f.staging < sector_size
  pub count : f.written ≡ length f.disk % u64_mod

-- All the bytes that the file was given.
abbrev pub given : DirectFile → List ℕ
given f = f.disk ++ f.staging

write_sector-given : (f : DirectFile) → given (write_sector f) ≡ given f
write_sector-given f =
    append_assoc f.disk (take sector_size f.staging) (drop sector_size f.staging)
    ∙ ap (λ l. f.disk ++ l) (take-append-drop sector_size f.staging)

-- What holds of the file but for the length of what is staged.
record IsWhole (f : DirectFile) : Type 0 where
  pub sectors : length f.disk % sector_size ≡ 0
  pub count : f.written ≡ length f.disk % u64_mod

length-write_sector :
    (f : DirectFile)
    → sector_size ≤ length f.staging
    → (length (write_sector f).disk ≡ length f.disk + sector_size)
      × (length (write_sector f).staging + sector_size ≡ length f.staging)
length-write_sector f full = (
  omega (
    arith,
    full,
    length-append f.disk (take sector_size f.staging),
    length-take sector_size f.staging,
  ),
  omega (arith, full, length-drop sector_size f.staging),
)

write_sector-IsWhole :
    (f : DirectFile) → sector_size ≤ length f.staging → IsWhole f → IsWhole (write_sector f)
write_sector-IsWhole f full w =
    let (longer, _) = length-write_sector f full in
    record { sectors = omega (arith, longer, w.sectors); count = omega (arith, longer, w.count) }

spill_lem :
    (n : ℕ) (f : DirectFile)
    → IsWhole f
    → length f.staging < n
    → (given (spill n f) ≡ given f) × IsStaged (spill n f)
unfolding spill
spill_lem zero f w h = absurd (omega (arith, h))
spill_lem (suc n) f w h = elim (Bool-cases (leb sector_size (length f.staging))) [
  | inl full ↦
      let enough : sector_size ≤ length f.staging = leb→le _ _ full in
      let (_, left) = length-write_sector f enough in
      let (same, staged) =
        spill_lem n (write_sector f) (write_sector-IsWhole f enough w) (omega (arith, left, h)) in
      rw (full, spill) (same ∙ write_sector-given f, staged)
  | inr short ↦
      rw short
        (refl, record { sectors = w.sectors; short = ground (arith, short); count = w.count })
]

write_round_lem :
    (bytes : List ℕ) (f : DirectFile)
    → IsStaged f
    → (given (write_round bytes f).1 ++ (write_round bytes f).0 ≡ given f ++ bytes)
      × IsStaged (write_round bytes f).1
      × (0 < length bytes → length (write_round bytes f).0 < length bytes)
unfolding write_round
write_round_lem bytes f s =
    let taken = min (staging_cap - length f.staging) (length bytes) in
    let staged = f.staging ++ take taken bytes in
    let g : DirectFile = record f { staging = staged } in
    let (spilled, after) =
      spill_lem (suc (length staged)) g (record { sectors = s.sectors; count = s.count })
        (omega arith) in
    (
      ap (λ l. l ++ drop taken bytes)
            (spilled ∙ sym (append_assoc f.disk f.staging (take taken bytes)))
          ∙ append_assoc (given f) (take taken bytes) (drop taken bytes)
          ∙ ap (λ l. given f ++ l) (take-append-drop taken bytes),
      after,
      λ pos. omega (arith, length-drop taken bytes, pos, s.short),
    )

write_rounds_lem :
    (n : ℕ) (bytes : List ℕ) (f : DirectFile)
    → IsStaged f
    → length bytes < n
    → (given (write_rounds n bytes f) ≡ given f ++ bytes) × IsStaged (write_rounds n bytes f)
unfolding write_rounds
write_rounds_lem zero bytes f s h = absurd (omega (arith, h))
write_rounds_lem (suc n) [] f s h = (sym (append-nil (given f)), s)
write_rounds_lem (suc n) (b ∷ bs) f s h =
    let (same, staged, fewer) = write_round_lem (b ∷ bs) f s in
    let (left, f') = write_round (b ∷ bs) f in
    let (all, kept) = write_rounds_lem n left f' staged (omega (arith, fewer (omega arith), h)) in
    (all ∙ same, kept)

-- What is written is appended to what the file was given before; whole sectors go to the disk at
-- once and less than one stays staged.
pub write_lem :
    (bytes : List ℕ) (f : DirectFile)
    → IsStaged f
    → (given (write bytes f) ≡ given f ++ bytes) × IsStaged (write bytes f)
unfolding write
write_lem bytes f s = write_rounds_lem (suc (length bytes)) bytes f s (omega arith)

empty_lem : (xs : List ℕ) → (length xs == 0) ≡ true → xs ≡ []
empty_lem [] e = refl
empty_lem (x ∷ xs) e = absurd (ground (arith, e))

-- After a flush all that the file was given is on the disk, padded with zeros to whole sectors, which
-- `written` counts.
pub flush_lem :
    (f : DirectFile)
    → IsStaged f
    → (pad : ℕ) × (pad < sector_size)
      × ((flush f).disk ≡ given f ++ replicate pad 0)
      × ((flush f).staging ≡ [])
      × IsStaged (flush f)
unfolding flush
flush_lem f s = elim (Bool-cases (length f.staging == 0)) [
  | inl clean ↦
      let none_staged : f.staging ≡ [] = empty_lem f.staging clean in
      rw (clean, flush)
        (
          0,
          omega arith,
          sym (append-nil f.disk)
              ∙ ap (λ l. f.disk ++ l) (sym none_staged)
              ∙ sym (append-nil (given f)),
          none_staged,
          s,
        )
  | inr part ↦
      let pad = sector_size - length f.staging in
      let zeros : List ℕ = replicate pad 0 in
      let longer = length-append f.disk (f.staging ++ zeros) in
      let sector = length-append f.staging zeros in
      let padded = length-replicate {A = ℕ} pad 0 in
      let one : length (f.disk ++ (f.staging ++ zeros)) ≡ length f.disk + sector_size =
        omega (arith, longer, sector, padded, s.short) in
      rw (part, flush)
        (
          pad,
          ground (arith, part),
          sym (append_assoc f.disk f.staging zeros),
          refl,
          record {
            sectors = omega (arith, one, s.sectors);
            short = omega arith;
            count = omega (arith, one, s.count);
          },
        )
]
