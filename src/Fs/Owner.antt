-- ===== src/Fs/Owner.antt =====
-- Owners, modes and times of src/fs.c.
use muos.Common.{ℕ, Bool, true, false, Option, none, some, List, if◌then◌else◌, get_elem?, set}
use muos.Common.Int.{ℤ, pos, negsuc}
use muos.Fs.{Dir, Fs, find_slot, put_slot}
use muos.Fs.Paths.{is_nil, file_slot_of, dir_index}
use muos.Fs.Persist.{persist_meta}

pub fs_fd_atime : ℤ → Fs → ℕ
fs_fd_atime fd fs = elim (find_slot fd fs.files) [ none ↦ 0 | some f ↦ f.atime ]

pub fs_fd_mtime : ℤ → Fs → ℕ
fs_fd_mtime fd fs = elim (find_slot fd fs.files) [ none ↦ 0 | some f ↦ f.mtime ]

pub fs_fd_ctime : ℤ → Fs → ℕ
fs_fd_ctime fd fs = elim (find_slot fd fs.files) [ none ↦ 0 | some f ↦ f.ctime ]

pub fs_set_times : ℤ → ℕ → ℕ → ℕ → Fs → Fs
fs_set_times fd atime mtime now fs = elim (find_slot fd fs.files) [
  | none ↦ fs
  | some f ↦ persist_meta (record fs {
    files = put_slot fd (record f { atime = atime; mtime = mtime; ctime = now }) fs.files;
  })
]

-- `dir_slot_of`: the root has no slot, and a path may name no directory.
pub data DirSlot : Type 0 where
  root : DirSlot
  missing : DirSlot
  entry : ℕ → DirSlot

pub dir_slot_of : List ℕ → Fs → DirSlot
dir_slot_of path fs =
    if is_nil path then root else elim (dir_index path fs) [ none ↦ missing | some i ↦ entry i ]

pub record Perm : Type 0 where
  pub uid : ℕ
  pub gid : ℕ
  pub mode : ℕ
  pub is_dir : Bool

pub fs_perm_slot : ℤ → Fs → Option Perm
fs_perm_slot slot fs = elim (find_slot slot fs.files) [
  | none ↦ none
  | some f ↦ some (record { uid = f.uid; gid = f.gid; mode = f.mode; is_dir = false })
]

pub fs_perm_path : List ℕ → Fs → Option Perm
fs_perm_path path fs = elim (file_slot_of path fs) [
  | some i ↦ elim (get_elem? fs.files i) [
    | none ↦ none
    | some f ↦ some (record { uid = f.uid; gid = f.gid; mode = f.mode; is_dir = false })
  ]
  | none ↦ elim (dir_slot_of path fs) [
    | root ↦ some (record { uid = 0; gid = 0; mode = 493; is_dir = true })
    | missing ↦ none
    | entry i ↦ elim (get_elem? fs.dirs i) [
      | none ↦ none
      | some d ↦ some (record { uid = d.uid; gid = d.gid; mode = d.mode; is_dir = true })
    ]
  ]
]

pub fs_chmod_slot : ℤ → ℕ → ℕ → Fs → Fs × ℤ
fs_chmod_slot slot mode now fs = elim (find_slot slot fs.files) [
  | none ↦ (fs, negsuc 0)
  | some f ↦ (
    persist_meta
        (record fs { files = put_slot slot (record f { mode = mode; ctime = now }) fs.files }),
    pos 0,
  )
]

-- A change of one directory's entry: the root and a missing directory have none.
abbrev pub change_dir : DirSlot → (Dir → Dir) → Fs → Fs × ℤ
change_dir root g fs = (fs, negsuc 0)
change_dir missing g fs = (fs, negsuc 0)
change_dir (entry i) g fs = elim (get_elem? fs.dirs i) [
  | none ↦ (fs, negsuc 0)
  | some d ↦ (persist_meta (record fs { dirs = set fs.dirs i (g d) }), pos 0)
]

pub fs_chmod_path : List ℕ → ℕ → ℕ → Fs → Fs × ℤ
fs_chmod_path path mode now fs = elim (file_slot_of path fs) [
  | some i ↦ fs_chmod_slot (pos i) mode now fs
  | none ↦ change_dir (dir_slot_of path fs) (λ d. record d { mode = mode }) fs
]

pub fs_chown_slot : ℤ → ℕ → ℕ → ℕ → Fs → Fs × ℤ
fs_chown_slot slot uid gid now fs = elim (find_slot slot fs.files) [
  | none ↦ (fs, negsuc 0)
  | some f ↦ (
    persist_meta (record fs {
      files = put_slot slot (record f { uid = uid; gid = gid; ctime = now }) fs.files;
    }),
    pos 0,
  )
]

pub fs_chown_path : List ℕ → ℕ → ℕ → ℕ → Fs → Fs × ℤ
fs_chown_path path uid gid now fs = elim (file_slot_of path fs) [
  | some i ↦ fs_chown_slot (pos i) uid gid now fs
  | none ↦ change_dir (dir_slot_of path fs) (λ d. record d { uid = uid; gid = gid }) fs
]
