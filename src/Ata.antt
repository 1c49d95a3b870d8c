-- ===== src/Ata.antt =====
-- The byte access of src/ata.c to the disk. The drive is hardware: `disk` is its contents, byte by
-- byte, and `wait_data` and `wait_flush` are what `ata_wait` returns for a sector before its data go
-- over and after the cache flush of a write; the port commands between are not modelled.
-- Each loop runs on fuel, one round for a byte at least.
pub mod Bytes
mod Tests
use muos.Common.{
  ℕ, zero, suc, ◌+◌, ◌-◌, ◌*◌, ◌/◌, ◌%◌, ◌^◌, Bool, true, false, not, ◌⊎◌, inl, inr, List, [], ◌∷◌,
  ◌++◌, ltb, leb, ◌==◌, if◌then◌else◌, length, take, drop, u32,
}
use muos.Common.Int.{ℤ, pos, negsuc}
use muos.Common.Mem.{Mem, blit, slice}

abbrev pub sector_size : ℕ
sector_size = 512

-- The driver's `present` and `sectors`, and the drive.
pub record Ata : Type 0 where
  pub present : Bool
  pub sectors : ℕ
  pub disk : Mem
  pub wait_data : ℕ → ℤ
  pub wait_flush : ℕ → ℤ

abbrev pub is_zero : ℤ → Bool
is_zero (pos n) = n == 0
is_zero (negsuc n) = false

-- The sector's bytes, or the error code.
pub ata_read_sector : ℕ → Ata → ℤ ⊎ List ℕ
ata_read_sector lba d =
    if leb d.sectors lba
    then inl (negsuc 21)
    else if is_zero (d.wait_data lba)
    then inr (slice d.disk (lba * sector_size) sector_size)
    else inl (d.wait_data lba)

pub ata_write_sector : ℕ → List ℕ → Ata → Ata × ℤ
ata_write_sector lba bytes d =
    if leb d.sectors lba
    then (d, negsuc 21)
    else if is_zero (d.wait_data lba)
    then (record d { disk = blit d.disk (lba * sector_size) bytes }, d.wait_flush lba)
    else (d, d.wait_data lba)

-- `n` of a round: what is left of the sector, at most what is left to do.
abbrev pub chunk : ℕ → ℕ → ℕ
chunk at left =
    if ltb left (sector_size - at % sector_size) then left else sector_size - at % sector_size

-- The loop of `ata_read_bytes` from the byte `at` on, `left` bytes: what it has put into the buffer,
-- and 0 or the error code.
pub read_loop : ℕ → ℕ → ℕ → Ata → List ℕ × ℤ
read_loop zero at left d = ([], pos 0)
read_loop (suc f) at left d =
    let n = chunk at left in
    let (bytes, rc) = read_loop f (at + n) (left - n) d in
    if left == 0 then ([], pos 0) else elim (ata_read_sector (at / sector_size) d) [
      | inl e ↦ ([], e)
      | inr sec ↦ (take n (drop (at % sector_size) sec) ++ bytes, rc)
    ]

-- The two range checks: the second product is one of `uint32_t`.
abbrev pub out_of_range : ℕ → ℕ → Ata → Bool
out_of_range offset count d =
    if ltb (2 ^ 32 - 1 - offset) count
    then true
    else ltb (u32 (d.sectors * sector_size)) (offset + count)

pub ata_read_bytes : ℕ → ℕ → Ata → List ℕ × ℤ
ata_read_bytes offset count d =
    if not d.present
    then ([], negsuc 18)
    else if count == 0
    then ([], pos 0)
    else if out_of_range offset count d
    then ([], negsuc 21)
    else let (bytes, rc) = read_loop count offset count d in
      if is_zero rc then (bytes, pos count) else (bytes, rc)

-- The sector that a round writes: the old one with `bytes` from `off` on, unless it is written whole.
abbrev pub patch : ℕ → List ℕ → List ℕ → List ℕ
patch off bytes sec = take off sec ++ (bytes ++ drop (off + length bytes) sec)

-- The loop of `ata_write_bytes`: `src` is what is left of the buffer. Returns 0 or the error code.
pub write_loop : ℕ → ℕ → List ℕ → Ata → Ata × ℤ
write_loop zero at src d = (d, pos 0)
write_loop (suc f) at src d =
    let n = chunk at (length src) in
    let old = if n == sector_size then inr [] else ata_read_sector (at / sector_size) d in
    if length src == 0 then (d, pos 0) else elim old [
      | inl rc ↦ (d, rc)
      | inr sec ↦
          let (d', rc) =
            ata_write_sector (at / sector_size) (patch (at % sector_size) (take n src) sec) d in
          let rest = write_loop f (at + n) (drop n src) d' in if is_zero rc then rest else (d', rc)
    ]

pub ata_write_bytes : ℕ → List ℕ → Ata → Ata × ℤ
ata_write_bytes offset src d =
    if not d.present
    then (d, negsuc 18)
    else if length src == 0
    then (d, pos 0)
    else if out_of_range offset (length src) d
    then (d, negsuc 21)
    else let (d', rc) = write_loop (length src) offset src d in
      if is_zero rc then (d', pos (length src)) else (d', rc)
