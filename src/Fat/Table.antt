-- ===== src/Fat/Table.antt =====
-- The allocation table on the disk: an entry that is written is read again, and no other changes.
use muos.Common.{
  ℕ, zero, suc, ◌+◌, ◌-◌, ◌*◌, ◌/◌, ◌%◌, ◌^◌, ◌≤◌, ◌<◌, ◌≡◌, ◌⊎◌, inl, inr, refl, ap, ◌∙◌, sym,
  true, some, List, length, take, drop, ◌==◌, if◌then◌else◌, not_ltb, ==_refl, Bool-cases,
  length-append, length-take, length-drop, ◌++◌, u32, arith,
}
use muos.Common.Mem.{
  Mem, blit, slice, slice_ap, slice-blit_self, slice-blit_out, take-slice, drop-slice, length-slice,
}
use muos.Common.Words.{le, le_value, length-le, le_value-le}
use muos.Ata.{Ata, sector_size, patch}
use muos.Ata.Bytes.{IsGood, ata_read_bytes-slice, ata_write_bytes-blit, blit-patch, after-IsGood}
use muos.Fat.{Vol, rd, wr, entry_sector, entry_offset, fat_next, set_copies, set_fat}

-- All copies of the table are on a good disk.
pub record IsTable (v : Vol) (d : Ata) : Type 0 where
  pub disk : IsGood d
  pub copies : 0 < v.nfats
  pub fits : v.fat_start + v.nfats * v.fsz ≤ d.sectors

-- The cluster has an entry in the table.
abbrev pub HasEntry : Vol → ℕ → Type 0
HasEntry v cluster = cluster < v.fsz * 128

-- Where the entry of a cluster is on the disk, in the copy `f`.
abbrev pub entry_at : Vol → ℕ → ℕ → ℕ
entry_at v f cluster = (v.fat_start + f * v.fsz) * sector_size + cluster * 4

pub rd-slice :
    (d : Ata) (at n : ℕ)
    → IsGood d
    → at + n ≤ d.sectors * sector_size
    → rd at n d ≡ some (slice d.disk at n)
unfolding rd
rd-slice d at n g h =
    rw
      (
        rd,
        ata_read_bytes-slice d g at n h,
        not_ltb (2 ^ 32 - 1) at (omega (arith, g.small)),
        not_ltb (2 ^ 32 - 1 - at) n (omega (arith, g.small)),
        ==_refl n,
      )
      refl

pub wr-blit :
    (d : Ata) (at : ℕ) (bytes : List ℕ)
    → IsGood d
    → at + length bytes ≤ d.sectors * sector_size
    → wr at bytes d ≡ (record d { disk = blit d.disk at bytes }, true)
unfolding wr
wr-blit d at bytes g h =
    rw
      (
        wr,
        ata_write_bytes-blit d g at bytes h,
        not_ltb (2 ^ 32 - 1) at (omega (arith, g.small)),
        not_ltb (2 ^ 32 - 1 - at) (length bytes) (omega (arith, g.small)),
        ==_refl (length bytes),
      )
      refl

copy_mono : (f n fsz : ℕ) → f < n → f * fsz + fsz ≤ n * fsz
copy_mono f n fsz h = grind arith

-- The products of the code do not wrap.
unwrapped :
    (start x fsz sectors cluster : ℕ)
    → cluster < fsz * 128
    → start + x + fsz ≤ sectors
    → sectors < 2 ^ 23
    → (u32 (start + x + u32 (cluster * 4) / 512) ≡ start + x + cluster * 4 / 512)
      × (start + x + cluster * 4 / 512 < sectors)
      × (u32 (cluster * 4) ≡ cluster * 4)
unwrapped start x fsz sectors cluster h fits small =
    let whole : u32 (cluster * 4) ≡ cluster * 4 = omega arith in
    (rw whole (omega arith), omega arith, whole)

-- The entry stands in one sector of the disk.
pub record InSector (v : Vol) (f cluster : ℕ) (d : Ata) : Type 0 where
  pub inside : entry_sector v f cluster * sector_size + sector_size ≤ d.sectors * sector_size
  pub address : entry_sector v f cluster * sector_size + entry_offset cluster ≡ entry_at v f cluster
  pub room : entry_offset cluster + 4 ≤ sector_size

in_sector :
    (v : Vol) (f cluster : ℕ) (d : Ata)
    → IsTable v d
    → HasEntry v cluster
    → f < v.nfats
    → InSector v f cluster d
in_sector v f cluster d t h l =
    let mono = copy_mono f v.nfats v.fsz l in
    let (sector, below, whole) =
      unwrapped v.fat_start (f * v.fsz) v.fsz d.sectors cluster h (omega (arith, t.fits))
        (t.disk.small) in
    record {
      inside = rw sector (omega arith);
      address = rw (sector, whole) (omega arith);
      room = rw whole (omega arith);
    }

-- An entry is the word at its place.
pub fat_next-word :
    (v : Vol) (cluster : ℕ) (d : Ata)
    → IsTable v d
    → HasEntry v cluster
    → fat_next v cluster d ≡ le_value (slice d.disk (entry_at v 0 cluster) 4) % 2 ^ 28
unfolding fat_next
fat_next-word v cluster d t h =
    let p = in_sector v 0 cluster d t h t.copies in
    rw (fat_next, rd-slice d (entry_sector v 0 cluster * sector_size) sector_size t.disk p.inside)
      (ap (λ l. le_value l % 2 ^ 28)
        (ap (take 4) (drop-slice d.disk _ (entry_offset cluster) sector_size)
          ∙ take-slice d.disk _ 4 (sector_size - entry_offset cluster) (omega (arith, p.room))
          ∙ slice_ap d.disk _ _ 4 4 p.address refl))

-- The disk with the entry written in `n` copies from the copy `f` on.
abbrev pub with_copies : ℕ → ℕ → Vol → ℕ → ℕ → Mem → Mem
with_copies zero f v cluster value m = m
with_copies (suc n) f v cluster value m =
    with_copies n (f + 1) v cluster value (blit m (entry_at v f cluster) (le 4 value))

length-patch :
    (off : ℕ) (xs sec : List ℕ)
    → off + length xs ≤ length sec
    → length (patch off xs sec) ≡ length sec
length-patch off xs sec h = omega (
  arith,
  length-append (take off sec) (xs ++ drop (off + length xs) sec),
  length-append xs (drop (off + length xs) sec),
  length-take off sec,
  length-drop (off + length xs) sec,
)

-- A sector that is read, patched and written back has the entry.
write_entry :
    (v : Vol) (f cluster value : ℕ) (d : Ata)
    → IsTable v d
    → InSector v f cluster d
    → wr
        (entry_sector v f cluster * sector_size)
        (patch
          (entry_offset cluster)
          (le 4 value)
          (slice d.disk (entry_sector v f cluster * sector_size) sector_size))
        d
      ≡ (record d { disk = blit d.disk (entry_at v f cluster) (le 4 value) }, true)
write_entry v f cluster value d t p =
    let at = entry_sector v f cluster * sector_size in
    let sec = slice d.disk at sector_size in
    let room : entry_offset cluster + length (le 4 value) ≤ sector_size =
      omega (arith, p.room, length-le 4 value) in
    let size : length (patch (entry_offset cluster) (le 4 value) sec) ≡ sector_size =
      length-patch (entry_offset cluster) (le 4 value) sec
        (omega (arith, room, length-slice d.disk at sector_size))
      ∙ length-slice d.disk at sector_size in
    wr-blit d at (patch (entry_offset cluster) (le 4 value) sec) t.disk
      (omega (arith, size, p.inside))
    ∙ ap (λ m. (record d { disk = m }, true))
        (blit-patch d.disk at (entry_offset cluster) (le 4 value) room
          ∙ ap (λ a. blit d.disk a (le 4 value)) p.address)

after-IsTable :
    (v : Vol) (at : ℕ) (xs : List ℕ) (d : Ata)
    → IsTable v d
    → IsTable v (record d { disk = blit d.disk at xs })
after-IsTable v at xs d t = record {
  disk = after-IsGood d at xs t.disk;
  copies = t.copies;
  fits = t.fits;
}

set_copies-disk :
    (n f : ℕ) (v : Vol) (cluster value : ℕ) (d : Ata)
    → IsTable v d
    → HasEntry v cluster
    → f + n ≤ v.nfats
    → set_copies n f v cluster value d
      ≡ (record d { disk = with_copies n f v cluster value d.disk }, true)
unfolding set_copies
set_copies-disk zero f v cluster value d t h l = refl
set_copies-disk (suc n) f v cluster value d t h l =
    let p = in_sector v f cluster d t h (omega arith) in
    rw
      (
        set_copies,
        rd-slice d (entry_sector v f cluster * sector_size) sector_size t.disk p.inside,
        write_entry v f cluster value d t p,
      )
      (set_copies-disk n (f + 1) v cluster value _
        (after-IsTable v (entry_at v f cluster) (le 4 value) d t) h (omega arith))

-- Writes to the later copies do not show in the first.
slice-with_copies :
    (n f : ℕ) (v : Vol) (cluster value other : ℕ) (m : Mem)
    → 0 < f
    → HasEntry v other
    → slice (with_copies n f v cluster value m) (entry_at v 0 other) 4
      ≡ slice m (entry_at v 0 other) 4
slice-with_copies zero f v cluster value other m p h = refl
slice-with_copies (suc n) f v cluster value other m p h =
    slice-with_copies n (f + 1) v cluster value other _ (omega arith) h
    ∙ slice-blit_out m (entry_at v f cluster) (le 4 value) (entry_at v 0 other) 4
        (inl (omega (arith, copy_mono 0 f v.fsz p)))

-- The word of an entry after a write: what was written, or, of another cluster, as before.
word_after : Vol → ℕ → ℕ → ℕ → Mem → List ℕ
word_after v cluster value other m =
    if other == cluster then le 4 value else slice m (entry_at v 0 other) 4

slice-set_fat :
    (n : ℕ) (v : Vol) (cluster value other : ℕ) (m : Mem)
    → HasEntry v other
    → slice (with_copies (suc n) 0 v cluster value m) (entry_at v 0 other) 4
      ≡ word_after v cluster value other m
unfolding word_after
slice-set_fat n v cluster value other m h =
    slice-with_copies n (0 + 1) v cluster value other _ (omega arith) h
    ∙ elim (Bool-cases (other == cluster)) [
      | inl e ↦
          let same : other ≡ cluster = ground arith in
          rw e (
            rw same (
              slice_ap _ _ _ 4 (length (le 4 value)) refl (sym (length-le 4 value))
              ∙ slice-blit_self m (entry_at v 0 cluster) (le 4 value)))
      | inr e ↦ rw e (
          slice-blit_out m (entry_at v 0 cluster) (le 4 value) (entry_at v 0 other) 4 (
            apart other cluster (v.fat_start + 0 * v.fsz) (length (le 4 value)) (length-le 4 value)
              (λ same. ground arith)))
    ]
  where
    apart :
        (a b start n : ℕ)
        → n ≡ 4
        → (a ≡ b → ⊥)
        → (start * 512 + a * 4 + 4 ≤ start * 512 + b * 4)
          ⊎ (start * 512 + b * 4 + n ≤ start * 512 + a * 4)
    apart a b start n e h = ground arith

-- The disk after `set_fat`.
abbrev pub table_after : Vol → ℕ → ℕ → Ata → Ata
table_after v cluster value d = record d { disk = with_copies v.nfats 0 v cluster value d.disk }

with_copies-IsTable :
    (n f : ℕ) (v : Vol) (cluster value : ℕ) (d : Ata)
    → IsTable v d
    → IsTable v (record d { disk = with_copies n f v cluster value d.disk })
with_copies-IsTable zero f v cluster value d t = t
with_copies-IsTable (suc n) f v cluster value d t =
    with_copies-IsTable n (f + 1) v cluster value _
      (after-IsTable v (entry_at v f cluster) (le 4 value) d t)

slice-table_after :
    (v : Vol) (cluster value other : ℕ) (d : Ata)
    → 0 < v.nfats
    → HasEntry v other
    → slice (table_after v cluster value d).disk (entry_at v 0 other) 4
      ≡ word_after v cluster value other d.disk
slice-table_after v cluster value other d p h = go v.nfats p
  where
    go :
        (n : ℕ)
        → 0 < n
        → slice (with_copies n 0 v cluster value d.disk) (entry_at v 0 other) 4
          ≡ word_after v cluster value other d.disk
    go zero q = absurd (omega arith)
    go (suc n) q = slice-set_fat n v cluster value other d.disk h

value_after :
    (v : Vol) (cluster value other : ℕ) (d : Ata)
    → IsTable v d
    → HasEntry v other
    → value < 2 ^ 32
    → le_value (word_after v cluster value other d.disk) % 2 ^ 28
      ≡ (if other == cluster then value % 2 ^ 28 else fat_next v other d)
unfolding word_after
value_after v cluster value other d t h b = elim (Bool-cases (other == cluster)) [
  | inl e ↦ rw e (ap (λ x. x % 2 ^ 28) (le_value-le 4 value b))
  | inr e ↦ rw e (sym (fat_next-word v other d t h))
]

-- Writing the entry of a cluster succeeds on a good disk that holds all copies of the table: the
-- cluster then has the low 28 bits of the value as its entry, and every other cluster of the table
-- the entry it had.
pub set_fat-fat_next :
    (v : Vol) (cluster value other : ℕ) (d : Ata)
    → IsTable v d
    → HasEntry v cluster
    → HasEntry v other
    → value < 2 ^ 32
    → ((set_fat v cluster value d).1 ≡ true)
      × (fat_next v other (set_fat v cluster value d).0
          ≡ (if other == cluster then value % 2 ^ 28 else fat_next v other d))
      × IsTable v (set_fat v cluster value d).0
unfolding set_fat
set_fat-fat_next v cluster value other d t h k b =
    let table = with_copies-IsTable v.nfats 0 v cluster value d t in
    rw (set_fat, set_copies-disk v.nfats 0 v cluster value d t h (omega arith))
      (
        refl,
        fat_next-word v other (table_after v cluster value d) table k
            ∙ ap (λ l. le_value l % 2 ^ 28) (slice-table_after v cluster value other d t.copies k)
            ∙ value_after v cluster value other d t k b,
        table,
      )
