-- ===== src/Fs/Paths.antt =====
-- Paths and look-ups by name of src/fs.c: `split_parent`, `file_exists`, `dir_exists` and the
-- listing of a directory.
use muos.Common.{
  ℕ, ◌+◌, ◌-◌, Bool, true, false, not, ◌&&◌, ◌||◌, Option, none, some, List, [], ◌∷◌, ◌++◌, leb,
  ◌==◌, if◌then◌else◌, take, drop, get_or,
}
use muos.Common.Int.{ℤ, pos, negsuc}
use muos.CString.{strcmp, strncmp, strncpy, strlen}
use muos.CString.Compare.{cstr}
use muos.Ata.{is_zero}
use muos.Fs.{File, Dir, Fs, max_name, is_live, dir_used, first_index, count}

abbrev pub has {ℓ} : {A : Type ℓ} → Option A → Bool
has none = false
has (some a) = true

abbrev pub is_nil : List ℕ → Bool
is_nil [] = true
is_nil (c ∷ s) = false

-- `strcmp(name, path) == 0`, on the array `name`.
abbrev pub named : List ℕ → List ℕ → Bool
named name path = is_zero (strcmp (cstr name) path)

abbrev pub live_named : List ℕ → File → Bool
live_named path f = is_live f && named f.name path

abbrev pub dir_named : List ℕ → Dir → Bool
dir_named path d = dir_used d && named d.name path

-- What a slot's name becomes: `strncpy` of 63 characters and the closing NUL.
abbrev pub name_array : List ℕ → List ℕ
name_array path = strncpy path (max_name - 1) ++ (0 ∷ [])

pub has_slash : List ℕ → Bool
has_slash [] = false
has_slash (c ∷ s) = let rest = has_slash s in if c == b'/' then true else rest

-- `fs_open` and `file_slot_of`: the slot of the live file of that name.
unfoldable pub file_slot_of : List ℕ → Fs → Option ℕ
file_slot_of path fs = first_index (live_named path) fs.files

unfoldable pub file_exists : List ℕ → Fs → Bool
file_exists path fs = not (is_nil path) && has (file_slot_of path fs)

-- The entry of a directory that is not the root.
pub dir_index : List ℕ → Fs → Option ℕ
dir_index path fs = first_index (dir_named path) fs.dirs

pub dir_exists : List ℕ → Fs → Bool
dir_exists path fs = is_nil path || has (dir_index path fs)

-- The loop of `split_parent`: where the last slash is, if no slash is the first or last character
-- or is followed by another.
pub last_slash : ℕ → Option ℕ → List ℕ → Option (Option ℕ)
last_slash i slash [] = some slash
last_slash i slash (c ∷ s) =
    let at_slash = last_slash (i + 1) (some i) s in
    let rest = last_slash (i + 1) slash s in
    if not (c == b'/')
    then rest
    else if (i == 0) || is_nil s || (get_or s 0 0 == b'/')
    then none
    else at_slash

-- The parent and the base.
unfoldable pub split_parent : List ℕ → Option (List ℕ × List ℕ)
split_parent path =
    if is_nil path || (get_or path 0 0 == b'/') || leb max_name (strlen path)
    then none
    else elim (last_slash 0 none path) [
      | none ↦ none
      | some slash ↦ elim slash [
        | none ↦ some ([], path)
        | some n ↦ some (take n path, drop (n + 1) path)
      ]
    ]

pub fs_is_file : List ℕ → Fs → Bool
fs_is_file path fs = file_exists path fs

pub fs_is_dir : List ℕ → Fs → Bool
fs_is_dir path fs = dir_exists path fs

pub fs_parent_is_dir : List ℕ → Fs → Bool
fs_parent_is_dir path fs = elim (split_parent path) [ none ↦ false | some p ↦ dir_exists p.0 fs ]

-- Returns -1 where there is none.
pub fs_open : List ℕ → Fs → ℤ
fs_open name fs = elim (file_slot_of name fs) [ none ↦ negsuc 0 | some i ↦ pos i ]

-- `strncmp(name, path, n) == 0 && name[n] == '/'`
abbrev pub below : List ℕ → List ℕ → Bool
below path name =
    is_zero (strncmp (cstr name) path (strlen path)) && (get_or name (strlen path) 0 == b'/')

pub fs_dir_is_empty : List ℕ → Fs → Bool
fs_dir_is_empty path fs =
    if not (dir_exists path fs)
    then false
    else if has (first_index (λ f. is_live f && below path f.name) fs.files)
    then false
    else not (has (first_index (λ d. dir_used d && below path d.name) fs.dirs))

pub child_name : List ℕ → List ℕ → Option (List ℕ)
child_name dir path =
    let rest = drop (strlen dir + 1) path in
    if is_nil dir
    then (if has_slash path then none else some path)
    else if not (is_zero (strncmp path dir (strlen dir)))
        || not (get_or path (strlen dir) 0 == b'/')
    then none
    else if is_nil rest || has_slash rest
    then none
    else some rest

abbrev pub file_child : List ℕ → File → Bool
file_child path f = is_live f && has (child_name path (cstr f.name))

abbrev pub dir_child : List ℕ → Dir → Bool
dir_child path d = dir_used d && has (child_name path (cstr d.name))

-- Returns -1 where there is no such directory.
pub fs_dir_count : List ℕ → Fs → ℤ
fs_dir_count path fs =
    if dir_exists path fs
    then pos (count (dir_child path) fs.dirs + count (file_child path) fs.files)
    else negsuc 0

-- `fs_dirent_t`
pub record Dirent : Type 0 where
  pub name : List ℕ
  pub is_dir : Bool
  pub size : ℕ
  pub slot : ℤ

-- The second loop of `fs_dir_get`, from slot `i` on.
pub get_file : List ℕ → ℕ → ℕ → List File → Option Dirent
get_file path idx i [] = none
get_file path idx i (f ∷ fs) =
    let rest = get_file path idx (i + 1) fs in
    let next = get_file path (idx - 1) (i + 1) fs in
    elim (child_name path (cstr f.name)) [
      | none ↦ rest
      | some name ↦
          if not (is_live f)
          then rest
          else if idx == 0
          then some (record { name = name_array name; is_dir = false; size = f.size; slot = pos i })
          else next
    ]

-- The first loop, which goes on with the second one.
pub get_dir : List ℕ → ℕ → List File → List Dir → Option Dirent
get_dir path idx files [] = get_file path idx 0 files
get_dir path idx files (d ∷ ds) =
    let rest = get_dir path idx files ds in
    let next = get_dir path (idx - 1) files ds in
    elim (child_name path (cstr d.name)) [
      | none ↦ rest
      | some name ↦
          if not (dir_used d)
          then rest
          else if idx == 0
          then some (record { name = name_array name; is_dir = true; size = 0; slot = negsuc 0 })
          else next
    ]

pub fs_dir_get : List ℕ → ℤ → Fs → Option Dirent
fs_dir_get path (negsuc n) fs = none
fs_dir_get path (pos idx) fs =
    if dir_exists path fs then get_dir path idx fs.files fs.dirs else none
