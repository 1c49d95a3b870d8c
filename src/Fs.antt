-- ===== src/Fs.antt =====
-- The file system of src/fs.c: sixteen file slots and sixteen directories, in memory, written through
-- to the disk. A path is a C string; a name is the array of 64 characters that a slot keeps, and the
-- string in it is what `strcmp` sees. `rtc_now` is read from the clock: `now` is what it returns.
-- `Paths` has the look-ups by name, `Persist` the writing through, `Mount` the mount, `Names` the calls
-- that change names, `Data` those on a slot's bytes, `Owner` those on owners, modes and times.
pub mod Paths
pub mod Persist
pub mod Mount
pub mod Names
pub mod Data
pub mod Owner
mod Tests
use muos.Common.{
  ℕ, zero, suc, ◌+◌, ◌-◌, ◌*◌, ◌^◌, Bool, true, false, not, ◌&&◌, ◌||◌, Option, none, some, List,
  [], ◌∷◌, ◌++◌, ltb, leb, ◌==◌, if◌then◌else◌, length, get_elem?, set, take, drop, get_or,
}
use muos.Common.Int.{ℤ, pos, negsuc}
use muos.Common.Mem.{Mem}
use muos.Ata.{Ata}

abbrev pub max_files : ℕ
max_files = 16

abbrev pub max_dirs : ℕ
max_dirs = 16

abbrev pub max_name : ℕ
max_name = 64

abbrev pub max_size : ℕ
max_size = 65536

-- `fs_file_t`
pub record File : Type 0 where
  pub name : List ℕ
  pub body : Mem
  pub size : ℕ
  pub used : ℕ
  pub deleted : ℕ
  pub refs : ℕ
  pub atime : ℕ
  pub mtime : ℕ
  pub ctime : ℕ
  pub uid : ℕ
  pub gid : ℕ
  pub mode : ℕ

-- `fs_dir_t`
pub record Dir : Type 0 where
  pub name : List ℕ
  pub used : ℕ
  pub uid : ℕ
  pub gid : ℕ
  pub mode : ℕ

-- The tables, and what the persistence keeps: the disk, whether it is written to, the generation, and
-- the bytes of `meta_buf` and `dmeta_buf`.
pub record Fs : Type 0 where
  pub files : List File
  pub dirs : List Dir
  pub ata : Ata
  pub active : Bool
  pub gen : ℕ
  pub meta_buf : Mem
  pub dmeta_buf : Mem

-- `fs_init`: what it does not set keeps its value.
abbrev pub reset_file : File → File
reset_file f = record f {
  used = 0;
  size = 0;
  name = set f.name 0 0;
  deleted = 0;
  refs = 0;
  atime = 0;
  mtime = 0;
  ctime = 0;
}

abbrev pub reset_dir : Dir → Dir
reset_dir d = record d { used = 0; name = set d.name 0 0 }

abbrev pub map_list {ℓ κ} : {A : Type ℓ} {B : Type κ} → (A → B) → List A → List B
map_list f [] = []
map_list f (x ∷ xs) = f x ∷ map_list f xs

pub fs_init : Fs → Fs
fs_init fs = record fs { files = map_list reset_file fs.files; dirs = map_list reset_dir fs.dirs }

-- `fd < 0 || fd >= FS_MAX_FILES || !files[fd].used`, for the table of all slots.
pub find_slot : ℤ → List File → Option File
find_slot (negsuc n) fs = none
find_slot (pos i) fs = elim (get_elem? fs i) [
  | none ↦ none
  | some f ↦ if f.used == 0 then none else some f
]

pub put_slot : ℤ → File → List File → List File
put_slot (negsuc n) f fs = fs
put_slot (pos i) f fs = set fs i f

abbrev pub next_index : Option ℕ → Option ℕ
next_index none = none
next_index (some i) = some (suc i)

-- A loop that stops at the first entry that passes the test.
abbrev pub first_index {ℓ} : {A : Type ℓ} → (A → Bool) → List A → Option ℕ
first_index P [] = none
first_index P (x ∷ xs) = let rest = next_index (first_index P xs) in if P x then some 0 else rest

-- A loop that counts the entries that pass the test.
abbrev pub count {ℓ} : {A : Type ℓ} → (A → Bool) → List A → ℕ
count P [] = 0
count P (x ∷ xs) = let rest = count P xs in if P x then suc rest else rest

abbrev pub slot_used : File → Bool
slot_used f = not (f.used == 0)

abbrev pub is_live : File → Bool
is_live f = not (f.used == 0) && (f.deleted == 0)

abbrev pub dir_used : Dir → Bool
dir_used d = not (d.used == 0)

pub fs_count : Fs → ℕ
fs_count fs = count is_live fs.files

pub fs_used_slots : Fs → ℕ
fs_used_slots fs = count slot_used fs.files

-- The loop of `fs_name` and `fs_size`: the live file that `idx` counts to.
pub nth_live : ℕ → List File → Option File
nth_live idx [] = none
nth_live zero (f ∷ fs) = let rest = nth_live zero fs in if is_live f then some f else rest
nth_live (suc idx) (f ∷ fs) =
    let here = nth_live idx fs in
    let rest = nth_live (suc idx) fs in if is_live f then here else rest

-- A negative index is counted to by no file.
pub fs_name : ℤ → Fs → Option (List ℕ)
fs_name (negsuc n) fs = none
fs_name (pos idx) fs = elim (nth_live idx fs.files) [ none ↦ none | some f ↦ some f.name ]

pub fs_size : ℤ → Fs → ℕ
fs_size (negsuc n) fs = 0
fs_size (pos idx) fs = elim (nth_live idx fs.files) [ none ↦ 0 | some f ↦ f.size ]
