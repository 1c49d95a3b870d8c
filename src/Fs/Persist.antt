-- ===== src/Fs/Persist.antt =====
-- Writing through to the disk and mounting: the second half of src/fs.c.
use muos.Common.{
  ℕ, zero, suc, ◌+◌, ◌-◌, ◌*◌, ◌/◌, not, ◌||◌, none, some, List, [], ◌∷◌, ◌++◌, ltb, leb, ◌==◌,
  if◌then◌else◌, get_elem?, replicate, u32,
}
use muos.Common.Mem.{Mem, blit, slice}
use muos.Common.Words.{le}
use muos.Ata.{Ata, ata_write_bytes}
use muos.Fs.{File, Dir, Fs, max_files, max_dirs, max_size}

-- `sizeof(mufs_file_meta_t)` and `sizeof(mufs_dir_meta_t)`
abbrev pub file_meta_size : ℕ
file_meta_size = 100

abbrev pub dir_meta_size : ℕ
dir_meta_size = 80

-- The fields of `mufs_file_meta_t` before the pad.
pub file_meta : File → List ℕ
file_meta f =
    f.name
    ++ (le 4 f.size
        ++ (le 4 f.used
            ++ (le 4 f.deleted
                ++ (le 4 f.atime
                    ++ (le 4 f.mtime
                        ++ (le 4 f.ctime ++ (le 4 f.uid ++ (le 4 f.gid ++ le 2 f.mode))))))))

-- The fields of `mufs_dir_meta_t` before the pad.
pub dir_meta : Dir → List ℕ
dir_meta d = d.name ++ (le 4 d.used ++ (le 4 d.uid ++ (le 4 d.gid ++ le 2 d.mode)))

-- The loops that fill `meta_buf` and `dmeta_buf`, from entry `i` on.
pub fill_meta : ℕ → List File → Mem → Mem
fill_meta i [] m = m
fill_meta i (f ∷ fs) m = fill_meta (i + 1) fs (blit m (i * file_meta_size) (file_meta f))

pub fill_dmeta : ℕ → List Dir → Mem → Mem
fill_dmeta i [] m = m
fill_dmeta i (d ∷ ds) m = fill_dmeta (i + 1) ds (blit m (i * dir_meta_size) (dir_meta d))

abbrev pub sb_at : ℕ
sb_at = 0 * 512

abbrev pub meta_at : ℕ
meta_at = 2 * 512

abbrev pub dir_at : ℕ
dir_at = 6 * 512

abbrev pub journal_at : ℕ
journal_at = 9 * 512

abbrev pub journal_meta_at : ℕ
journal_meta_at = 10 * 512

abbrev pub journal_dir_at : ℕ
journal_dir_at = 13 * 512

abbrev pub journal_magic : ℕ
journal_magic = 0x4D554C4A

-- `slot_lba(i) * 512`
abbrev pub slot_at : ℕ → ℕ
slot_at i = (16 + i * 128) * 512

-- The eight words `jh`.
pub journal_header : ℕ → ℕ → List ℕ
journal_header magic gen = le 4 magic ++ (le 4 gen ++ replicate 24 0)

abbrev pub Write : Type 0
Write = ℕ × List ℕ

-- The writes, one after the other; their results are ignored.
pub write_all : List Write → Ata → Ata
write_all [] d = d
write_all (w ∷ ws) d = write_all ws (ata_write_bytes w.0 w.1 d).0

-- The six writes of `persist_meta`, from the two tables' bytes.
pub commit_writes : ℕ → List ℕ → List ℕ → List Write
commit_writes gen files dirs =
    (journal_meta_at, files)
    ∷ (journal_dir_at, dirs)
    ∷ (journal_at, journal_header journal_magic gen)
    ∷ (meta_at, files)
    ∷ (dir_at, dirs)
    ∷ (journal_at, journal_header 0 gen)
    ∷ []

abbrev pub file_table : Mem → List ℕ
file_table m = slice m 0 (max_files * file_meta_size)

abbrev pub dir_table : Mem → List ℕ
dir_table m = slice m 0 (max_dirs * dir_meta_size)

unfoldable pub persist_meta : Fs → Fs
persist_meta fs =
    let files = fill_meta 0 fs.files fs.meta_buf in
    let dirs = fill_dmeta 0 fs.dirs fs.dmeta_buf in
    if not fs.active then fs else record fs {
      meta_buf = files;
      dmeta_buf = dirs;
      ata = write_all (commit_writes fs.gen (file_table files) (dir_table dirs)) fs.ata;
    }

abbrev pub round_up : ℕ → ℕ
round_up n = u32 (n + 511) / 512 * 512

-- `persist_slot`
unfoldable pub persist_slot : ℕ → Fs → Fs
persist_slot i fs = elim (get_elem? fs.files i) [
  | none ↦ fs
  | some f ↦ if not fs.active || (round_up f.size == 0) then fs else record fs {
    ata = (ata_write_bytes (slot_at i) (slice f.body 0 (round_up f.size)) fs.ata).0;
  }
]

-- Where the sectors that a write of `len` bytes at `offset` touches end.
abbrev pub range_end : ℕ → ℕ → ℕ
range_end offset len =
    let end = round_up (offset + len) in if ltb max_size end then max_size else end

unfoldable pub persist_slot_range : ℕ → ℕ → ℕ → Fs → Fs
persist_slot_range i offset len fs =
    let first = offset / 512 * 512 in
    let end = range_end offset len in
    elim (get_elem? fs.files i) [
      | none ↦ fs
      | some f ↦ if not fs.active || (len == 0) || leb end first then fs else record fs {
        ata = (ata_write_bytes (slot_at i + first) (slice f.body first (end - first)) fs.ata).0;
      }
    ]

-- `mufs_sb_t` is 13 words: the magic number "MUFS", version, geometry and generation, then zeros.
pub superblock : ℕ → List ℕ
superblock gen =
    (b'M' ∷ b'U' ∷ b'F' ∷ b'S' ∷ [])
    ++ (le 4 2 ++ (le 4 128 ++ (le 4 max_files ++ (le 4 max_dirs ++ (le 4 gen ++ replicate 28 0)))))

-- `fs_sync`: the slots are written after the tables.
pub sync_slots : ℕ → ℕ → Fs → Fs
sync_slots zero i fs = fs
sync_slots (suc n) i fs = sync_slots n (i + 1) (persist_slot i fs)

pub fs_sync : Fs → Fs
fs_sync fs =
    let gen = u32 (fs.gen + 1) in
    if not fs.active
    then fs
    else sync_slots max_files 0 (
        persist_meta
          (record fs { gen = gen; ata = (ata_write_bytes sb_at (superblock gen) fs.ata).0 }))
