-- ===== src/Fat.antt =====
-- The FAT32 volume of src/fat.c, over the disk of Ata: the boot sector, the allocation table, and the
-- chains of clusters. `base`, `reserved`, `total_sectors` and `label` of the volume, which only
-- messages show, are left out.
pub mod Table
pub mod Alloc
pub mod Chain
mod Tests
use muos.Common.{
  ℕ, zero, suc, ◌+◌, ◌-◌, ◌*◌, ◌/◌, ◌%◌, ◌^◌, Bool, true, false, not, ◌&&◌, ◌||◌, Option, none,
  some, List, [], ◌∷◌, ◌++◌, ltb, leb, ◌==◌, if◌then◌else◌, length, take, drop, get_or, u32,
}
use muos.Common.Int.{ℤ, pos, negsuc}
use muos.Common.Words.{le, le_value}
use muos.Ata.{Ata, sector_size, patch, ata_read_bytes, ata_write_bytes}

-- `fat_vol_t`
pub record Vol : Type 0 where
  pub spc : ℕ
  pub nfats : ℕ
  pub fsz : ℕ
  pub root_cluster : ℕ
  pub fat_start : ℕ
  pub data_start : ℕ
  pub cluster_count : ℕ

-- `vol` and `alloc_hint`, and the disk.
pub record Fat : Type 0 where
  pub vol : Vol
  pub alloc_hint : ℕ
  pub ata : Ata

abbrev pub dirbuf_max : ℕ
dirbuf_max = 16384

-- The end of a chain, and what a table entry keeps.
abbrev pub fat_end : ℕ
fat_end = 0x0FFFFFFF

abbrev pub is_count : ℤ → ℕ → Bool
is_count (pos m) n = m == n
is_count (negsuc m) n = false

abbrev pub past_4gb : ℕ → ℕ → Bool
past_4gb byte_off n = ltb (2 ^ 32 - 1) byte_off || ltb (2 ^ 32 - 1 - byte_off) n

-- `rd`: the bytes, or none for an error.
pub rd : ℕ → ℕ → Ata → Option (List ℕ)
rd byte_off n d =
    let (bytes, rc) = ata_read_bytes byte_off n d in
    if past_4gb byte_off n then none else if is_count rc n then some bytes else none

-- `wr`
pub wr : ℕ → List ℕ → Ata → Ata × Bool
wr byte_off bytes d =
    let (d', rc) = ata_write_bytes byte_off bytes d in
    if past_4gb byte_off (length bytes) then (d, false) else (d', is_count rc (length bytes))

-- The sector of an entry in the copy `f` of the table, and where it is in the sector.
abbrev pub entry_sector : Vol → ℕ → ℕ → ℕ
entry_sector v f cluster = u32 (v.fat_start + f * v.fsz + u32 (cluster * 4) / sector_size)

abbrev pub entry_offset : ℕ → ℕ
entry_offset cluster = u32 (cluster * 4) % sector_size

-- The entry of a cluster; an entry that cannot be read ends a chain.
pub fat_next : Vol → ℕ → Ata → ℕ
fat_next v cluster d = elim (rd (entry_sector v 0 cluster * sector_size) sector_size d) [
  | none ↦ fat_end
  | some b ↦ le_value (take 4 (drop (entry_offset cluster) b)) % 2 ^ 28
]

-- The loop of `set_fat` over the copies of the table, from the copy `f` on.
pub set_copies : ℕ → ℕ → Vol → ℕ → ℕ → Ata → Ata × Bool
set_copies zero f v cluster value d = (d, true)
set_copies (suc n) f v cluster value d =
    elim (rd (entry_sector v f cluster * sector_size) sector_size d) [
      | none ↦ (d, false)
      | some b ↦
          let (d', ok) =
            wr (entry_sector v f cluster * sector_size)
              (patch (entry_offset cluster) (le 4 value) b) d in
          let rest = set_copies n (f + 1) v cluster value d' in if ok then rest else (d', false)
    ]

pub set_fat : Vol → ℕ → ℕ → Ata → Ata × Bool
set_fat v cluster value d = set_copies v.nfats 0 v cluster value d

-- The loop of `alloc_cluster` from the cluster `c` on, `n` clusters: the first that is free.
pub scan_free : ℕ → ℕ → Vol → Ata → Option ℕ
scan_free zero c v d = none
scan_free (suc n) c v d =
    let rest = scan_free n (c + 1) v d in if fat_next v c d == 0 then some c else rest

-- The cluster becomes the end of a chain, and the search goes on after it the next time.
pub take_cluster : ℕ → Fat → Fat × Option ℕ
take_cluster c s =
    let (d, ok) = set_fat s.vol c fat_end s.ata in
    if ok
    then (
      record s { ata = d; alloc_hint = if leb (2 + s.vol.cluster_count) (c + 1) then 2 else c + 1 },
      some c,
    )
    else (record s { ata = d }, none)

-- Two passes: from the hint to the end, and from the first cluster to the hint.
pub alloc_cluster : Fat → Fat × Option ℕ
alloc_cluster s =
    let last = 2 + s.vol.cluster_count in
    elim (scan_free (last - s.alloc_hint) s.alloc_hint s.vol s.ata) [
      | some c ↦ take_cluster c s
      | none ↦ elim (scan_free (s.alloc_hint - 2) 2 s.vol s.ata) [
        | some c ↦ take_cluster c s
        | none ↦ (s, none)
      ]
    ]

-- `c >= 2 && c < 0x0FFFFFF8u`
abbrev pub in_chain : ℕ → Bool
in_chain c = leb 2 c && ltb c 0x0FFFFFF8

-- The loop of `free_chain`, `guard` rounds to go.
pub free_loop : ℕ → Vol → ℕ → Ata → Ata
free_loop zero v c d = d
free_loop (suc guard) v c d =
    let rest = free_loop guard v (fat_next v c d) (set_fat v c 0 d).0 in
    if in_chain c then rest else d

pub free_chain : Vol → ℕ → Ata → Ata
free_chain v first d = free_loop 4096 v first d

-- The first byte of a cluster on the disk.
abbrev pub cluster_at : Vol → ℕ → ℕ
cluster_at v cluster = u32 (v.data_start + (cluster + (2 ^ 32 - 2)) % 2 ^ 32 * v.spc) * sector_size

pub read_cluster : Vol → ℕ → Ata → Option (List ℕ)
read_cluster v cluster d =
    if ltb dirbuf_max (v.spc * sector_size)
    then none
    else rd (cluster_at v cluster) (v.spc * sector_size) d

-- The loop of `fat_read_file`: `want` bytes to go, `guard` rounds. None for an error.
pub read_loop : ℕ → Vol → ℕ → ℕ → Ata → Option (List ℕ)
read_loop zero v c want d = some []
read_loop (suc guard) v c want d =
    let rest = read_loop guard v (fat_next v c d) (want - v.spc * sector_size) d in
    if not (in_chain c) || (want == 0) then some [] else elim (read_cluster v c d) [
      | none ↦ none
      | some b ↦ elim rest [ none ↦ none | some bytes ↦ some (take want b ++ bytes) ]
    ]

-- `fat_read_file` of an entry, `size` bytes from the cluster `first` on, into `cap` bytes.
pub read_entry : Vol → ℕ → ℕ → ℕ → Ata → Option (List ℕ)
read_entry v first size cap d = read_loop 4096 v first (if ltb cap size then cap else size) d

-- Numbers in a sector.
abbrev pub le16 : ℕ → List ℕ → ℕ
le16 at bs = le_value (take 2 (drop at bs))

abbrev pub le32 : ℕ → List ℕ → ℕ
le32 at bs = le_value (take 4 (drop at bs))

abbrev pub is_power : ℕ → Bool
is_power n = (n == 1) || ((n == 2) || ((n == 4) || ((n == 8) || ((n == 16) || (n == 32)))))

-- `total`: the 16-bit number of sectors, or the 32-bit one when that is 0.
abbrev pub total_of : List ℕ → ℕ
total_of bs = if le16 19 bs == 0 then le32 32 bs else le16 19 bs

-- What `try_volume` accepts. The third line is `spc` not 0, at most 32 and a power of two.
abbrev pub is_fat32 : List ℕ → Bool
is_fat32 bs =
    ((get_or bs 0 0 == 0xEB) || (get_or bs 0 0 == 0xE9))
    && ((le16 11 bs == sector_size) && ((le16 22 bs == 0) && (le16 17 bs == 0)))
    && is_power (get_or bs 13 0)
    && (not (le16 14 bs == 0)
        && (not (get_or bs 16 0 == 0)
            && (leb (get_or bs 16 0) 2 && (not (le32 36 bs == 0) && leb 2 (le32 44 bs)))))
    && ltb (u32 (le16 14 bs + get_or bs 16 0 * le32 36 bs)) (total_of bs)

-- The volume of a boot sector at the byte `base`.
abbrev pub volume_of : ℕ → List ℕ → Vol
volume_of base bs =
    let start = u32 (base / sector_size % 2 ^ 32 + le16 14 bs) in
    let tables = get_or bs 16 0 * le32 36 bs in
    record {
      spc = get_or bs 13 0;
      nfats = get_or bs 16 0;
      fsz = le32 36 bs;
      root_cluster = le32 44 bs;
      fat_start = start;
      data_start = u32 (start + tables);
      cluster_count = (total_of bs - u32 (le16 14 bs + tables)) / get_or bs 13 0;
    }

-- `try_volume`: the volume that starts at the byte `base`, if there is one.
pub try_volume : ℕ → Ata → Option Vol
try_volume base d = elim (rd base sector_size d) [
  | none ↦ none
  | some bs ↦ if is_fat32 bs then some (volume_of base bs) else none
]
