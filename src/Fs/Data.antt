-- ===== src/Fs/Data.antt =====
-- The calls of src/fs.c on the bytes of a slot. A buffer is the list of its bytes; a read returns what
-- it copies, or none for -1.
pub mod Contents
pub mod Calls
use muos.Common.{
  ℕ, ◌+◌, ◌-◌, Bool, true, false, not, ◌&&◌, ◌||◌, Option, none, some, List, [], ltb, leb, ◌==◌,
  if◌then◌else◌, length, take,
}
use muos.Common.Int.{ℤ, pos, negsuc}
use muos.Common.Mem.{Mem, blit, fill, slice}
use muos.Fs.{File, Fs, max_size, find_slot, put_slot}
use muos.Fs.Persist.{persist_meta, persist_slot, persist_slot_range}

-- `persist_slot(fd)`, and `persist_slot_range`, of a valid `fd`.
abbrev pub save_slot : ℤ → Fs → Fs
save_slot (pos i) fs = persist_slot i (persist_meta fs)
save_slot (negsuc n) fs = fs

abbrev pub save_range : ℤ → ℕ → ℕ → Fs → Fs
save_range (pos i) offset len fs = persist_slot_range i offset len (persist_meta fs)
save_range (negsuc n) offset len fs = fs

-- A slot's new contents, in the table.
abbrev pub with_file : ℤ → File → Fs → Fs
with_file fd f fs = record fs { files = put_slot fd f fs.files }

abbrev pub written : List ℕ → ℕ → File → File
written bytes now f = record f {
  body = blit f.body 0 bytes;
  size = length bytes;
  mtime = now;
  ctime = now;
}

unfoldable pub fs_write : ℤ → List ℕ → ℕ → Fs → Fs × ℤ
fs_write fd bytes now fs = elim (find_slot fd fs.files) [
  | none ↦ (fs, negsuc 0)
  | some f ↦
      let kept = take max_size bytes in
      (save_slot fd (with_file fd (written kept now f) fs), pos (length kept))
]

pub fs_read : ℤ → ℕ → ℕ → Fs → Fs × Option (List ℕ)
fs_read fd maxlen now fs = elim (find_slot fd fs.files) [
  | none ↦ (fs, none)
  | some f ↦
      let n = if ltb maxlen f.size then maxlen else f.size in
      (with_file fd (record f { atime = now }) fs, some (slice f.body 0 n))
]

-- The bytes of the slot, none for `NULL`.
pub fs_fd_data : ℤ → Fs → Option Mem
fs_fd_data fd fs = elim (find_slot fd fs.files) [ none ↦ none | some f ↦ some f.body ]

pub fs_fd_size : ℤ → Fs → ℕ
fs_fd_size fd fs = elim (find_slot fd fs.files) [ none ↦ 0 | some f ↦ f.size ]

pub fs_fd_truncate : ℤ → ℕ → Fs → Fs × ℤ
fs_fd_truncate fd now fs = elim (find_slot fd fs.files) [
  | none ↦ (fs, negsuc 0)
  | some f ↦
      (save_slot fd (with_file fd (record f { size = 0; mtime = now; ctime = now }) fs), pos 0)
]

-- Growing clears the new tail.
abbrev pub resized : ℕ → ℕ → File → File
resized len now f = record f {
  body = if ltb f.size len then fill f.body f.size 0 (len - f.size) else f.body;
  size = len;
  mtime = now;
  ctime = now;
}

unfoldable pub fs_truncate : ℤ → ℕ → ℕ → Fs → Fs × ℤ
fs_truncate fd len now fs = elim (find_slot fd fs.files) [
  | none ↦ (fs, negsuc 0)
  | some f ↦
      if ltb max_size len
      then (fs, negsuc 0)
      else (save_slot fd (with_file fd (resized len now f) fs), pos 0)
]

pub fs_read_at : ℤ → ℕ → ℕ → ℕ → Fs → Fs × Option (List ℕ)
fs_read_at fd offset len now fs = elim (find_slot fd fs.files) [
  | none ↦ (fs, none)
  | some f ↦
      let n = if ltb len (f.size - offset) then len else f.size - offset in
      if leb f.size offset
      then (fs, some [])
      else (with_file fd (record f { atime = now }) fs, some (slice f.body offset n))
]

abbrev pub written_at : ℕ → List ℕ → ℕ → File → File
written_at offset bytes now f =
    let end = offset + length bytes in
    record f {
      body = blit f.body offset bytes;
      size = if ltb f.size end then end else f.size;
      mtime = now;
      ctime = now;
    }

unfoldable pub fs_write_at : ℤ → ℕ → List ℕ → ℕ → Fs → Fs × ℤ
fs_write_at fd offset bytes now fs = elim (find_slot fd fs.files) [
  | none ↦ (fs, negsuc 0)
  | some f ↦
      let kept = take (max_size - offset) bytes in
      if leb max_size offset then (fs, negsuc 0) else (
        save_range fd offset (length kept) (with_file fd (written_at offset kept now f) fs),
        pos (length kept),
      )
]
