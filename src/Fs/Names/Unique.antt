-- ===== src/Fs/Names/Unique.antt =====
-- The calls that change the file table, as steps, and what holds after any number of them.
use muos.Common.{ℕ, inl, inr, List, ltb, leb, length, Option-cases, Bool-cases, subst⁻¹, take, ◌-◌}
use muos.Common.Int.{ℤ}
use muos.CString.Compare.{IsCString}
use muos.Fs.{Fs, max_size, find_slot}
use muos.Fs.Data.{with_file, written, written_at, resized, fs_write, fs_write_at, fs_truncate}
use muos.Fs.Data.Contents.{save_slot-files, save_range-files}
use muos.Fs.Names.{fs_create, fs_delete, fs_ref, fs_unref, fs_rename}
use muos.Fs.Names.Distinct.{Distinct, fs_create-Distinct}
use muos.Fs.Names.Kept.{
  put-Distinct, fs_delete-Distinct, fs_ref-Distinct, fs_unref-Distinct, fs_rename-Distinct,
}

fs_write-Distinct :
    (fd : ℤ) (bytes : List ℕ) (now : ℕ) (fs : Fs)
    → Distinct fs.files
    → Distinct (fs_write fd bytes now fs).0.files
unfolding fs_write
fs_write-Distinct fd bytes now fs d = elim (Option-cases (find_slot fd fs.files)) [
  | inl e ↦ rw (fs_write, e) d
  | inr (f, e) ↦
      let f' = written (take max_size bytes) now f in
      rw (fs_write, e)
        (subst⁻¹ Distinct (save_slot-files fd (with_file fd f' fs))
          (put-Distinct fd f f' fs.files e (λ path l. l) d))
]

fs_write_at-Distinct :
    (fd : ℤ) (at : ℕ) (bytes : List ℕ) (now : ℕ) (fs : Fs)
    → Distinct fs.files
    → Distinct (fs_write_at fd at bytes now fs).0.files
unfolding fs_write_at
fs_write_at-Distinct fd at bytes now fs d = elim (Option-cases (find_slot fd fs.files)) [
  | inl e ↦ rw (fs_write_at, e) d
  | inr (f, e) ↦ elim (Bool-cases (leb max_size at)) [
    | inl k ↦ rw (fs_write_at, e, k) d
    | inr k ↦
        let kept = take (max_size - at) bytes in
        let f' = written_at at kept now f in
        rw (fs_write_at, e, k)
          (subst⁻¹ Distinct (save_range-files fd at (length kept) (with_file fd f' fs))
            (put-Distinct fd f f' fs.files e (λ path l. l) d))
  ]
]

fs_truncate-Distinct :
    (fd : ℤ) (len now : ℕ) (fs : Fs)
    → Distinct fs.files
    → Distinct (fs_truncate fd len now fs).0.files
unfolding fs_truncate
fs_truncate-Distinct fd len now fs d = elim (Option-cases (find_slot fd fs.files)) [
  | inl e ↦ rw (fs_truncate, e) d
  | inr (f, e) ↦ elim (Bool-cases (ltb max_size len)) [
    | inl k ↦ rw (fs_truncate, e, k) d
    | inr k ↦
        let f' = resized len now f in
        rw (fs_truncate, e, k)
          (subst⁻¹ Distinct (save_slot-files fd (with_file fd f' fs))
            (put-Distinct fd f f' fs.files e (λ path l. l) d))
  ]
]

-- A call on files and their bytes. Those left out keep the table of files, or change only its times,
-- owners and modes; the renaming of a directory is not among them.
pub data Step (fs : Fs) : Fs → Type 0 where
  create : (path : List ℕ) (now : ℕ) → IsCString path → Step fs (fs_create path now fs).0
  delete : (name : List ℕ) (now : ℕ) → Step fs (fs_delete name now fs).0
  hold : (fd : ℤ) → Step fs (fs_ref fd fs).0
  drop_ref : (fd : ℤ) → Step fs (fs_unref fd fs).0
  rename :
      (fd : ℤ) (name : List ℕ) (now : ℕ) → IsCString name → Step fs (fs_rename fd name now fs).0
  write : (fd : ℤ) (bytes : List ℕ) (now : ℕ) → Step fs (fs_write fd bytes now fs).0
  write_at :
      (fd : ℤ) (at : ℕ) (bytes : List ℕ) (now : ℕ) → Step fs (fs_write_at fd at bytes now fs).0
  truncate : (fd : ℤ) (len now : ℕ) → Step fs (fs_truncate fd len now fs).0

pub data Reach (fs : Fs) : Fs → Type 0 where
  here : Reach fs fs
  next : {a b : Fs} → Reach fs a → Step a b → Reach fs b

Step-Distinct : {a b : Fs} → Step a b → Distinct a.files → Distinct b.files
Step-Distinct {a = a} (create path now cs) d = fs_create-Distinct path now a cs d
Step-Distinct {a = a} (delete name now) d = fs_delete-Distinct name now a d
Step-Distinct {a = a} (hold fd) d = fs_ref-Distinct fd a d
Step-Distinct {a = a} (drop_ref fd) d = fs_unref-Distinct fd a d
Step-Distinct {a = a} (rename fd name now cs) d = fs_rename-Distinct fd name now a cs d
Step-Distinct {a = a} (write fd bytes now) d = fs_write-Distinct fd bytes now a d
Step-Distinct {a = a} (write_at fd at bytes now) d = fs_write_at-Distinct fd at bytes now a d
Step-Distinct {a = a} (truncate fd len now) d = fs_truncate-Distinct fd len now a d

-- Where no two live files have the same name, none have after any sequence of creations, deletions,
-- renamings of files, openings, closings, writes and truncations.
pub Reach-Distinct : {a b : Fs} → Reach a b → Distinct a.files → Distinct b.files
Reach-Distinct here d = d
Reach-Distinct (next r s) d = Step-Distinct s (Reach-Distinct r d)
