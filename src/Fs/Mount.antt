-- ===== src/Fs/Mount.antt =====
-- `fs_persist_mount` of src/fs.c. Whether the disk is partitioned is the state of src/part.c and comes
-- as an argument.
use muos.Common.{
  ℕ, ◌+◌, ◌-◌, ◌*◌, Bool, true, false, not, ◌&&◌, ◌||◌, List, [], ◌∷◌, ◌++◌, ltb, ◌==◌,
  if◌then◌else◌, set, take, drop, replicate,
}
use muos.Common.Int.{ℤ, pos, negsuc}
use muos.Common.Mem.{Mem, blit, fill, slice}
use muos.Common.Words.{le, le_value}
use muos.Ata.{Ata, ata_read_bytes, ata_write_bytes}
use muos.Fs.{File, Dir, Fs, max_files, max_dirs, max_name, max_size}
use muos.Fs.Persist.{
  file_meta_size, dir_meta_size, sb_at, meta_at, dir_at, journal_at, journal_meta_at,
  journal_dir_at, journal_magic, slot_at, file_table, dir_table, superblock, persist_meta,
}

-- The call returned `n`.
abbrev pub is_count : ℕ → ℤ → Bool
is_count n (pos k) = k == n
is_count n (negsuc k) = false

-- Word number `i` of a buffer.
abbrev pub word : ℕ → List ℕ → ℕ
word i bytes = le_value (take 4 (drop (i * 4) bytes))

abbrev pub files_bytes : ℕ
files_bytes = max_files * file_meta_size

abbrev pub dirs_bytes : ℕ
dirs_bytes = max_dirs * dir_meta_size

-- The copies of a valid journal go to the tables' places, if both can be read.
pub replay_copies : Fs → Fs
replay_copies fs =
    let (files, rc) = ata_read_bytes journal_meta_at files_bytes fs.ata in
    let meta_buf = blit fs.meta_buf 0 files in
    let (dirs, rc') = ata_read_bytes journal_dir_at dirs_bytes fs.ata in
    let dmeta_buf = blit fs.dmeta_buf 0 dirs in
    if not (is_count files_bytes rc)
    then record fs { meta_buf = meta_buf }
    else if not (is_count dirs_bytes rc')
    then record fs { meta_buf = meta_buf; dmeta_buf = dmeta_buf }
    else record fs {
      meta_buf = meta_buf;
      dmeta_buf = dmeta_buf;
      ata =
          (ata_write_bytes dir_at (dir_table dmeta_buf)
            (ata_write_bytes meta_at (file_table meta_buf) fs.ata).0).0;
    }

-- The journal's part of the mount.
pub replay_journal : Fs → Fs
replay_journal fs =
    let (jh, rc) = ata_read_bytes journal_at 32 fs.ata in
    let fs' = replay_copies fs in
    if is_count 32 rc && (word 0 jh == journal_magic)
    then record fs' { ata = (ata_write_bytes journal_at (le 4 0 ++ drop 4 jh) fs'.ata).0 }
    else fs

-- The magic number, the version and the geometry.
pub superblock_ok : List ℕ → Bool
superblock_ok sb =
    (word 0 sb == le_value (b'M' ∷ b'U' ∷ b'F' ∷ b'S' ∷ []))
    && ((word 1 sb == 2)
        && ((word 2 sb == 128) && ((word 3 sb == max_files) && (word 4 sb == max_dirs))))

abbrev pub field : Mem → ℕ → ℕ → ℕ
field m at n = le_value (slice m at n)

-- Slot `i` from its entry, which stands at `at` in `meta_buf`.
pub load_file : Ata → Mem → ℕ → ℕ → File → File
load_file ata m i at f =
    let size = field m (at + 64) 4 in
    let size' = if ltb max_size size then max_size else size in
    let used = field m (at + 68) 4 in
    record {
      name = set (slice m at max_name) (max_name - 1) 0;
      body =
          if (used == 0) || (size' == 0)
          then f.body
          else blit f.body 0 (ata_read_bytes (slot_at i) size' ata).0;
      size = size';
      used = used;
      deleted = field m (at + 72) 4;
      refs = 0;
      atime = field m (at + 76) 4;
      mtime = field m (at + 80) 4;
      ctime = field m (at + 84) 4;
      uid = field m (at + 88) 4;
      gid = field m (at + 92) 4;
      mode = field m (at + 96) 2;
    }

pub load_files : Ata → Mem → ℕ → List File → List File
load_files ata m i [] = []
load_files ata m i (f ∷ fs) = load_file ata m i (i * file_meta_size) f ∷ load_files ata m (i + 1) fs

pub load_dir : Mem → ℕ → Dir
load_dir m at = record {
  name = set (slice m at max_name) (max_name - 1) 0;
  used = field m (at + 64) 4;
  uid = field m (at + 68) 4;
  gid = field m (at + 72) 4;
  mode = field m (at + 76) 2;
}

pub load_dirs : Mem → ℕ → List Dir → List Dir
load_dirs m i [] = []
load_dirs m i (d ∷ ds) = load_dir m (i * dir_meta_size) ∷ load_dirs m (i + 1) ds

-- The tables of a valid image; the mount stays inactive if one cannot be read.
pub load_image : List ℕ → Fs → Fs
load_image sb fs =
    let (files, rc) = ata_read_bytes meta_at files_bytes fs.ata in
    let meta_buf = blit fs.meta_buf 0 files in
    let (dirs, rc') = ata_read_bytes dir_at dirs_bytes fs.ata in
    let dmeta_buf = blit fs.dmeta_buf 0 dirs in
    if not (is_count files_bytes rc)
    then record fs { meta_buf = meta_buf }
    else if not (is_count dirs_bytes rc')
    then record fs { meta_buf = meta_buf; dmeta_buf = dmeta_buf }
    else record fs {
      meta_buf = meta_buf;
      dmeta_buf = dmeta_buf;
      files = load_files fs.ata meta_buf 0 fs.files;
      dirs = load_dirs dmeta_buf 0 fs.dirs;
      gen = word 5 sb;
      active = true;
    }

-- A slot, a directory after `memset`.
abbrev pub empty_file : File
empty_file = record {
  name = replicate max_name 0;
  body = λ i. 0;
  size = 0;
  used = 0;
  deleted = 0;
  refs = 0;
  atime = 0;
  mtime = 0;
  ctime = 0;
  uid = 0;
  gid = 0;
  mode = 0;
}

abbrev pub empty_dir : Dir
empty_dir = record { name = replicate max_name 0; used = 0; uid = 0; gid = 0; mode = 0 }

-- An empty image.
pub format : Fs → Fs
format fs = persist_meta (record fs {
  files = replicate max_files empty_file;
  dirs = replicate max_dirs empty_dir;
  meta_buf = fill fs.meta_buf 0 0 files_bytes;
  dmeta_buf = fill fs.dmeta_buf 0 0 dirs_bytes;
  gen = 1;
  active = true;
  ata = (ata_write_bytes sb_at (superblock 1) fs.ata).0;
})

pub fs_persist_mount : Bool → Fs → Fs
fs_persist_mount partitioned fs =
    let off = record fs { active = false; gen = 0 } in
    let fs' = replay_journal off in
    let (sb, rc) = ata_read_bytes sb_at 52 fs'.ata in
    if not fs.ata.present
    then off
    else if is_count 52 rc && superblock_ok sb
    then load_image sb fs'
    else if partitioned
    then fs'
    else format fs'
