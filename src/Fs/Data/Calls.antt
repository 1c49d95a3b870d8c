-- ===== src/Fs/Data/Calls.antt =====
-- What a caller sees of the calls on bytes: contents before and after.
use muos.Common.{
  ℕ, ◌-◌, ◌≤◌, ◌<◌, ◌≡◌, refl, ap, ◌∙◌, some, List, ◌++◌, ltb, leb, if◌then◌else◌, length, take,
  drop, replicate, arith, length-take, not_leb, Bool-cases, inl, inr, not_ltb,
}
use muos.Common.Int.{ℤ, pos}
use muos.Common.Mem.{slice_ap, slice}
use muos.Fs.{File, Fs, max_size, find_slot}
use muos.Fs.Data.{
  with_file, written, written_at, resized, fs_write, fs_read_at, fs_write_at, fs_truncate,
}
use muos.Fs.Data.Contents.{
  save_slot-files, save_range-files, contents, overwrite, contents-written, slice-contents,
  contents-written_at, contents-written_behind, contents-resized, Holds, put-Holds,
}

module _ (fs : Fs) (fd : ℤ) (f : File) (found : find_slot fd fs.files ≡ some f) where
  -- `fs_write` on an open slot replaces the file's contents by the first 64 KB of what is written, and
  -- no other slot changes.
  pub fs_write-Holds :
      (bytes : List ℕ) (now : ℕ)
      → let (fs', n) = fs_write fd bytes now fs in
        Holds fs fs' fd (take max_size bytes) × (n ≡ pos (length (take max_size bytes)))
  unfolding fs_write
  fs_write-Holds bytes now =
      let kept = take max_size bytes in
      rw (fs_write, found)
        (
          put-Holds fs _ fd f (written kept now f) kept found refl
              (save_slot-files fd (with_file fd (written kept now f) fs))
              (contents-written f kept now),
          refl,
        )

  -- `fs_read_at` on an open slot returns what the file has from the offset on, at most as much as is
  -- asked for: nothing at or behind its end.
  pub fs_read_at-contents :
      (offset len now : ℕ)
      → (fs_read_at fd offset len now fs).1 ≡ some (take len (drop offset (contents f)))
  unfolding fs_read_at slice
  fs_read_at-contents offset len now =
      rw (fs_read_at, found)
        (elim (Bool-cases (leb f.size offset)) [
          | inl e ↦ rw e (
              ap some (
                slice_ap f.body offset offset 0
                  (if ltb len (f.size - offset) then len else f.size - offset) refl (ground arith)
                ∙ slice-contents f offset len))
          | inr e ↦ rw e (ap some (slice-contents f offset len))
        ])

  -- `fs_write_at` inside an open file, or at its end, replaces the bytes from the offset on by what is
  -- written, as much as fits into 64 KB; the file grows if need be, and no other slot changes.
  pub fs_write_at-Holds :
      (offset : ℕ) (bytes : List ℕ) (now : ℕ)
      → offset ≤ f.size
      → offset < max_size
      → let (fs', n) = fs_write_at fd offset bytes now fs in
        let kept = take (max_size - offset) bytes in
        Holds fs fs' fd (overwrite offset kept (contents f)) × (n ≡ pos (length kept))
  unfolding fs_write_at
  fs_write_at-Holds offset bytes now h k =
      let kept = take (max_size - offset) bytes in
      rw (fs_write_at, found, not_leb max_size offset k)
        (
          put-Holds fs _ fd f (written_at offset kept now f) (overwrite offset kept (contents f))
              found refl
              (save_range-files fd offset (length kept)
                (with_file fd (written_at offset kept now f) fs))
              (contents-written_at f offset kept now h),
          refl,
        )

  -- `fs_write_at` behind the end of an open file: the gap is not cleared, so the file then shows the
  -- bytes that its slot happens to hold there, such as those of a longer file that was cut.
  pub fs_write_at-gap :
      (offset : ℕ) (bytes : List ℕ) (now : ℕ)
      → f.size ≤ offset
      → offset < max_size
      → 0 < length bytes
      → let (fs', n) = fs_write_at fd offset bytes now fs in
        let kept = take (max_size - offset) bytes in
        Holds fs fs' fd (contents f ++ (slice f.body f.size (offset - f.size) ++ kept))
        × (n ≡ pos (length kept))
  unfolding fs_write_at
  fs_write_at-gap offset bytes now h k b =
      let kept = take (max_size - offset) bytes in
      rw (fs_write_at, found, not_leb max_size offset k)
        (
          put-Holds fs _ fd f (written_at offset kept now f)
              (contents f ++ (slice f.body f.size (offset - f.size) ++ kept)) found refl
              (save_range-files fd offset (length kept)
                (with_file fd (written_at offset kept now f) fs))
              (contents-written_behind f offset kept now h
                (omega (arith, length-take (max_size - offset) bytes))),
          refl,
        )

  -- `fs_truncate` cuts an open file to the length, or lengthens it by zeros; longer than 64 KB it
  -- refuses. No other slot changes.
  fs_truncate-Holds :
      (len now : ℕ)
      → len ≤ max_size
      → let (fs', n) = fs_truncate fd len now fs in
        Holds fs fs' fd (take len (contents f ++ replicate (len - f.size) 0)) × (n ≡ pos 0)
  unfolding fs_truncate
  fs_truncate-Holds len now h =
      rw (fs_truncate, found, not_ltb max_size len h)
        (
          put-Holds fs _ fd f (resized len now f) _ found refl
              (save_slot-files fd (with_file fd (resized len now f) fs))
              (contents-resized f len now),
          refl,
        )
