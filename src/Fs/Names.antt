-- ===== src/Fs/Names.antt =====
-- The calls of src/fs.c that change names: create, delete, rename, and the directories.
pub mod Distinct
pub mod Kept
pub mod Unique
use muos.Common.{
  ℕ, zero, suc, ◌+◌, ◌-◌, Bool, true, false, not, ◌&&◌, ◌||◌, Option, none, some, List, [], ◌∷◌,
  ◌++◌, ltb, leb, ◌==◌, if◌then◌else◌, length, get_elem?, set, drop, get_or, u32,
}
use muos.Common.Int.{ℤ, pos, negsuc}
use muos.CString.{strncmp, strlen}
use muos.CString.Compare.{cstr}
use muos.Ata.{is_zero}
use muos.Fs.{File, Dir, Fs, max_name, is_live, dir_used, first_index, find_slot, put_slot}
use muos.Fs.Paths.{
  has, is_nil, named, live_named, dir_named, name_array, file_slot_of, file_exists, dir_index,
  dir_exists, split_parent, fs_dir_is_empty,
}
use muos.Fs.Persist.{persist_meta, persist_slot}

-- The first checks of `fs_create` and `fs_mkdir`.
pub may_create : List ℕ → Fs → Bool
may_create path fs = elim (split_parent path) [
  | none ↦ false
  | some p ↦ dir_exists p.0 fs && not (file_exists path fs || dir_exists path fs)
]

-- What `fs_create` puts into a slot; the bytes of the slot's last file stay.
abbrev pub created : List ℕ → ℕ → File → File
created path now f = record f {
  name = name_array path;
  size = 0;
  used = 1;
  deleted = 0;
  refs = 0;
  atime = now;
  mtime = now;
  ctime = now;
  uid = 0;
  gid = 0;
  mode = 420;
}

pub fs_create : List ℕ → ℕ → Fs → Fs × ℤ
fs_create path now fs =
    if not (may_create path fs)
    then (fs, negsuc 0)
    else elim (first_index (λ f. f.used == 0) fs.files) [
      | none ↦ (fs, negsuc 0)
      | some i ↦ elim (get_elem? fs.files i) [
        | none ↦ (fs, negsuc 0)
        | some f ↦ (
          persist_slot i (persist_meta (record fs { files = set fs.files i (created path now f) })),
          pos i,
        )
      ]
    ]

abbrev pub made : List ℕ → Dir
made path = record { name = name_array path; used = 1; uid = 0; gid = 0; mode = 493 }

pub fs_mkdir : List ℕ → Fs → Fs × ℤ
fs_mkdir path fs =
    if not (may_create path fs)
    then (fs, negsuc 0)
    else elim (first_index (λ d. d.used == 0) fs.dirs) [
      | none ↦ (fs, negsuc 0)
      | some i ↦ (persist_meta (record fs { dirs = set fs.dirs i (made path) }), pos 0)
    ]

pub fs_rmdir : List ℕ → Fs → Fs × ℤ
fs_rmdir path fs =
    if is_nil path || not (dir_exists path fs) || not (fs_dir_is_empty path fs)
    then (fs, negsuc 0)
    else elim (dir_index path fs) [
      | none ↦ (fs, negsuc 0)
      | some i ↦ elim (get_elem? fs.dirs i) [
        | none ↦ (fs, negsuc 0)
        | some d ↦ (
          persist_meta
              (record fs { dirs = set fs.dirs i (record d { used = 0; name = set d.name 0 0 }) }),
          pos 0,
        )
      ]
    ]

-- A slot that nothing names and no descriptor holds.
abbrev pub emptied : File → File
emptied f = record f { used = 0; size = 0; deleted = 0; atime = 0; mtime = 0; ctime = 0 }

-- What `fs_delete` makes of a slot.
abbrev pub unlinked : ℕ → File → File
unlinked now f =
    let f' = record f { name = set f.name 0 0; deleted = 1; ctime = now } in
    if f.refs == 0 then emptied f' else f'

pub fs_delete : List ℕ → ℕ → Fs → Fs × ℤ
fs_delete name now fs = elim (file_slot_of name fs) [
  | none ↦ (fs, negsuc 0)
  | some i ↦ elim (get_elem? fs.files i) [
    | none ↦ (fs, negsuc 0)
    | some f ↦ (persist_meta (record fs { files = set fs.files i (unlinked now f) }), pos 0)
  ]
]

pub fs_ref : ℤ → Fs → Fs × ℤ
fs_ref slot fs = elim (find_slot slot fs.files) [
  | none ↦ (fs, negsuc 0)
  | some f ↦
      (record fs { files = put_slot slot (record f { refs = u32 (f.refs + 1) }) fs.files }, pos 0)
]

pub fs_unref : ℤ → Fs → Fs × ℤ
fs_unref slot fs = elim (find_slot slot fs.files) [
  | none ↦ (fs, negsuc 0)
  | some f ↦
      let f' = record f { refs = f.refs - 1 } in
      if (f'.refs == 0) && not (f.deleted == 0)
      then (persist_meta (record fs { files = put_slot slot (emptied f') fs.files }), pos 0)
      else (record fs { files = put_slot slot f' fs.files }, pos 0)
]

abbrev pub is_slot : ℤ → ℕ → Bool
is_slot (pos n) i = n == i
is_slot (negsuc n) i = false

-- Another slot than number `slot` has the name; `i` is the number of the list's first slot.
pub taken_elsewhere : ℤ → List ℕ → ℕ → List File → Bool
taken_elsewhere slot name i [] = false
taken_elsewhere slot name i (f ∷ fs) =
    let rest = taken_elsewhere slot name (i + 1) fs in
    if not (is_slot slot i) && live_named name f then true else rest

pub fs_rename : ℤ → List ℕ → ℕ → Fs → Fs × ℤ
fs_rename slot name now fs = elim (find_slot slot fs.files) [
  | none ↦ (fs, negsuc 0)
  | some f ↦ elim (split_parent name) [
    | none ↦ (fs, negsuc 0)
    | some p ↦
        if not (f.deleted == 0)
        then (fs, negsuc 0)
        else if not (dir_exists p.0 fs) || dir_exists name fs
        then (fs, negsuc 0)
        else if taken_elsewhere slot name 0 fs.files
        then (fs, negsuc 0)
        else (
          persist_meta (record fs {
            files = put_slot slot (record f { name = name_array name; ctime = now }) fs.files;
          }),
          pos 0,
        )
  ]
]

-- The name is the directory `path` or a path below it.
pub name_under : List ℕ → List ℕ → Bool
name_under name path =
    is_zero (strncmp (cstr name) path (strlen path))
    && ((get_or name (strlen path) 0 == b'/') || (get_or name (strlen path) 0 == 0))

-- The name with `new` in place of `old` at its front: what stands behind the NUL stays.
pub moved_name : List ℕ → List ℕ → List ℕ → List ℕ
moved_name old new name =
    let rest = cstr (drop (strlen old) name) in
    new ++ (rest ++ (0 ∷ drop (strlen new + strlen rest + 1) name))

abbrev pub fits : List ℕ → List ℕ → List ℕ → Bool
fits old new name = ltb (strlen new + strlen (cstr (drop (strlen old) name))) max_name

pub move_dirs : List ℕ → List ℕ → List Dir → List Dir
move_dirs old new [] = []
move_dirs old new (d ∷ ds) =
    let rest = move_dirs old new ds in
    if dir_used d && name_under d.name old
    then record d { name = moved_name old new d.name } ∷ rest
    else d ∷ rest

-- `now i` is the clock when slot `i` is renamed.
pub move_files : List ℕ → List ℕ → (ℕ → ℕ) → ℕ → List File → List File
move_files old new now i [] = []
move_files old new now i (f ∷ fs) =
    let rest = move_files old new now (i + 1) fs in
    if is_live f && name_under f.name old
    then record f { name = moved_name old new f.name; ctime = now i } ∷ rest
    else f ∷ rest

-- The checks of `fs_rename_dir` before its first write.
pub may_move : List ℕ → List ℕ → Fs → Bool
may_move old new fs =
    if is_nil old
      || is_nil new
      || not (dir_exists old fs)
      || leb max_name (strlen old)
      || leb max_name (strlen new)
    then false
    else if not (may_create new fs)
    then false
    else if name_under (new ++ (0 ∷ [])) old
    then false
    else if has (
        first_index (λ d. dir_used d && name_under d.name old && not (fits old new d.name)) fs.dirs)
    then false
    else not (
        has (
          first_index (λ f. is_live f && name_under f.name old && not (fits old new f.name))
            fs.files))

pub fs_rename_dir : List ℕ → List ℕ → (ℕ → ℕ) → Fs → Fs × ℤ
fs_rename_dir old new now fs = if not (may_move old new fs) then (fs, negsuc 0) else (
  persist_meta
      (record fs { dirs = move_dirs old new fs.dirs; files = move_files old new now 0 fs.files }),
  pos 0,
)
