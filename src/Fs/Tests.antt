-- ===== src/Fs/Tests.antt =====
-- Runs of the file system of src/fs.c, and the theorems at them.
use muos.Common.{
  ℕ, zero, suc, ap, ◌∙◌, ◌≡◌, refl, true, false, some, [], ◌∷◌, arith, get_elem?, replicate,
}
use muos.Common.Int.{pos}
use muos.Common.Mem.{slice}
use muos.Ata.{Ata}
use muos.Fs.{File, Fs, find_slot}
use muos.Fs.Paths.{live_named}
use muos.Fs.Mount.{empty_file, empty_dir}
use muos.Fs.Names.{fs_create, fs_delete}
use muos.Fs.Names.Distinct.{Distinct}
use muos.Fs.Names.Unique.{here, next, create, delete, Reach-Distinct}
use muos.Fs.Data.{fs_read_at, fs_write_at}
use muos.Fs.Data.Contents.{contents, overwrite, Holds}
use muos.Fs.Data.Calls.{fs_read_at-contents, fs_write_at-Holds, fs_write_at-gap}

abbrev no_disk : Ata
no_disk = record {
  present = false;
  sectors = 0;
  disk = λ i. 0;
  wait_data = λ i. pos 0;
  wait_flush = λ i. pos 0;
}

abbrev blank : Fs
blank = record {
  files = replicate 16 empty_file;
  dirs = replicate 16 empty_dir;
  ata = no_disk;
  active = false;
  gen = 0;
  meta_buf = λ i. 0;
  dmeta_buf = λ i. 0;
}

-- A file of three bytes, 0, 1 and 2, in slot 0; its slot has 3, 4, ... behind them.
abbrev three : File
three = record empty_file { used = 1; size = 3; body = λ i. i }

abbrev with_three : Fs
with_three = record blank { files = three ∷ replicate 15 empty_file }

found_three : find_slot (pos 0) with_three.files ≡ some three
unfolding find_slot
found_three = refl

fs_read_at-contents_example : (fs_read_at (pos 0) 1 9 5 with_three).1 ≡ some (1 ∷ 2 ∷ [])
unfolding contents slice
fs_read_at-contents_example = fs_read_at-contents with_three (pos 0) three found_three 1 9 5

fs_write_at-Holds_example :
    let (fs', n) = fs_write_at (pos 0) 2 (7 ∷ 8 ∷ []) 5 with_three in
    Holds with_three fs' (pos 0) (0 ∷ 1 ∷ 7 ∷ 8 ∷ []) × (n ≡ pos 2)
unfolding overwrite contents slice
fs_write_at-Holds_example =
    fs_write_at-Holds with_three (pos 0) three found_three 2 (7 ∷ 8 ∷ []) 5 (omega arith)
      (omega arith)

-- The stale bytes 3 and 4 show.
fs_write_at-gap_example :
    let (fs', n) = fs_write_at (pos 0) 5 (7 ∷ []) 5 with_three in
    Holds with_three fs' (pos 0) (0 ∷ 1 ∷ 2 ∷ 3 ∷ 4 ∷ 7 ∷ []) × (n ≡ pos 1)
unfolding contents slice
fs_write_at-gap_example =
    fs_write_at-gap with_three (pos 0) three found_three 5 (7 ∷ []) 5 (omega arith) (omega arith)
      (omega arith)

get_elem?-replicate : (n i : ℕ) (v f : File) → get_elem? (replicate n v) i ≡ some f → v ≡ f
get_elem?-replicate zero i v f h = absurd (cc)
get_elem?-replicate (suc n) zero v f h = cc
get_elem?-replicate (suc n) (suc i) v f h = get_elem?-replicate n i v f h

blank-Distinct : Distinct blank.files
blank-Distinct i j f g path cs hi hj lf lg =
    let e = get_elem?-replicate 16 i empty_file f hi in absurd (dead (ap (live_named path) e ∙ lf))
  where
    dead : live_named path empty_file ≡ true → ⊥
    dead h = cc

-- A file is created twice, and deleted.
Reach-Distinct_example :
    let a = (fs_create (b'a' ∷ []) 5 blank).0 in
    let b = (fs_create (b'a' ∷ []) 6 a).0 in Distinct (fs_delete (b'a' ∷ []) 7 b).0.files
Reach-Distinct_example =
    Reach-Distinct
      (next
        (next (next here (create (b'a' ∷ []) 5 (omega arith, tt)))
          (create (b'a' ∷ []) 6 (omega arith, tt)))
        (delete (b'a' ∷ []) 7))
      blank-Distinct
