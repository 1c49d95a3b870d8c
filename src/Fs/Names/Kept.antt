-- ===== src/Fs/Names/Kept.antt =====
-- Each call on names keeps the names of live files distinct.
use muos.Common.{
  ℕ, zero, suc, ◌+◌, ◌-◌, ◌<◌, ◌≡◌, refl, ap, ◌∙◌, inl, inr, true, false, not, ◌&&◌, ◌||◌, some,
  List, [], ◌∷◌, ◌==◌, get_elem?, set, arith, Option-cases, Bool-cases, subst⁻¹,
}
use muos.Common.Int.{ℤ, pos, negsuc}
use muos.CString.{strlen}
use muos.CString.Compare.{IsCString}
use muos.Fs.{File, Fs, max_name, find_slot, put_slot}
use muos.Fs.Paths.{live_named, name_array, file_slot_of, dir_exists, split_parent}
use muos.Fs.Persist.{persist_meta}
use muos.Fs.Data.Contents.{persist_meta-files}
use muos.Fs.Names.{
  is_slot, emptied, unlinked, fs_delete, fs_ref, fs_unref, fs_rename, taken_elsewhere,
}
use muos.Fs.Names.Distinct.{Distinct, Distinct-set, Fresh-kept, Fresh-new, split_parent-short}

-- A slot is put back that keeps its name, or is no longer live.
pub put-Distinct :
    (slot : ℤ) (f f' : File) (files : List File)
    → find_slot slot files ≡ some f
    → ((path : List ℕ) → live_named path f' ≡ true → live_named path f ≡ true)
    → Distinct files
    → Distinct (put_slot slot f' files)
unfolding find_slot put_slot
put-Distinct (negsuc n) f f' files h weaker d = d
put-Distinct (pos i) f f' files h weaker d =
    Distinct-set files i f' d (Fresh-kept files i f f' d (ground arith) weaker)

-- The same after the tables are written through.
saved-Distinct :
    (slot : ℤ) (f f' : File) (fs : Fs)
    → find_slot slot fs.files ≡ some f
    → ((path : List ℕ) → live_named path f' ≡ true → live_named path f ≡ true)
    → Distinct fs.files
    → Distinct (persist_meta (record fs { files = put_slot slot f' fs.files })).files
saved-Distinct slot f f' fs h weaker d =
    subst⁻¹ Distinct (persist_meta-files (record fs { files = put_slot slot f' fs.files }))
      (put-Distinct slot f f' fs.files h weaker d)

pub fs_delete-Distinct :
    (name : List ℕ) (now : ℕ) (fs : Fs)
    → Distinct fs.files
    → Distinct (fs_delete name now fs).0.files
unfolding fs_delete
fs_delete-Distinct name now fs d = elim (Option-cases (file_slot_of name fs)) [
  | inl e ↦ rw (fs_delete, e) d
  | inr (i, e) ↦ elim (Option-cases (get_elem? fs.files i)) [
    | inl h ↦ rw (fs_delete, e, h) d
    | inr (f, h) ↦
        rw (fs_delete, e, h)
          (subst⁻¹ Distinct
            (persist_meta-files (record fs { files = set fs.files i (unlinked now f) }))
            (Distinct-set fs.files i (unlinked now f) d
              (Fresh-kept fs.files i f (unlinked now f) d h (λ path l. absurd (dead path f l)))))
  ]
]
  where
    dead : (path : List ℕ) (f : File) → live_named path (unlinked now f) ≡ true → ⊥
    dead path f l = ground arith

pub fs_ref-Distinct : (slot : ℤ) (fs : Fs) → Distinct fs.files → Distinct (fs_ref slot fs).0.files
unfolding fs_ref
fs_ref-Distinct slot fs d = elim (Option-cases (find_slot slot fs.files)) [
  | inl e ↦ rw (fs_ref, e) d
  | inr (f, e) ↦ rw (fs_ref, e) (put-Distinct slot f _ fs.files e (λ path l. l) d)
]

pub fs_unref-Distinct :
    (slot : ℤ) (fs : Fs) → Distinct fs.files → Distinct (fs_unref slot fs).0.files
unfolding fs_unref
fs_unref-Distinct slot fs d = elim (Option-cases (find_slot slot fs.files)) [
  | inl e ↦ rw (fs_unref, e) d
  | inr (f, e) ↦ elim (Bool-cases ((f.refs - 1 == 0) && not (f.deleted == 0))) [
    | inl k ↦
        rw (fs_unref, e, k)
          (saved-Distinct slot f (emptied (record f { refs = f.refs - 1 })) fs e
            (λ path l. absurd (ground arith)) d)
    | inr k ↦
        rw (fs_unref, e, k)
          (put-Distinct slot f (record f { refs = f.refs - 1 }) fs.files e (λ path l. l) d)
  ]
]

taken_elsewhere-false :
    (slot : ℤ) (name : List ℕ) (i : ℕ) (files : List File) (j : ℕ) (g : File)
    → taken_elsewhere slot name i files ≡ false
    → get_elem? files j ≡ some g
    → live_named name g ≡ true
    → is_slot slot (i + j) ≡ true
unfolding taken_elsewhere
taken_elsewhere-false slot name i [] j g e h l = absurd (cc)
taken_elsewhere-false slot name i (f ∷ fs) zero g e h l =
    let k : is_slot slot i ≡ true = elim (Bool-cases (is_slot slot i)) [
      | inl k ↦ k
      | inr k ↦ absurd (ground arith)
    ] in
    ap (is_slot slot) {y = i} (omega arith) ∙ k
taken_elsewhere-false slot name i (f ∷ fs) (suc j) g e h l =
    ap (is_slot slot) {y = i + 1 + j} (omega arith)
    ∙ taken_elsewhere-false slot name (i + 1) fs j g
        (elim (Bool-cases (taken_elsewhere slot name (i + 1) fs)) [
          | inr k ↦ k
          | inl k ↦ absurd (ground arith)
        ])
        h l

renamed-Distinct :
    (slot : ℤ) (name : List ℕ) (now : ℕ) (f : File) (fs : Fs)
    → IsCString name
    → find_slot slot fs.files ≡ some f
    → strlen name < max_name
    → taken_elsewhere slot name 0 fs.files ≡ false
    → Distinct fs.files
    → Distinct
        (persist_meta (record fs {
          files = put_slot slot (record f { name = name_array name; ctime = now }) fs.files;
        })).files
unfolding find_slot put_slot
renamed-Distinct (negsuc n) name now f fs cs h short t d = absurd (cc)
renamed-Distinct (pos i) name now f fs cs h short t d =
    let f' = record f { name = name_array name; ctime = now } in
    subst⁻¹ Distinct (persist_meta-files (record fs { files = set fs.files i f' })) (
      Distinct-set fs.files i f' d (
        Fresh-new fs.files i f' name cs short refl
          (λ j g ne hj l. ne (same j (taken_elsewhere-false (pos i) name 0 fs.files j g t hj l)))))
  where
    same : (j : ℕ) → is_slot (pos i) (0 + j) ≡ true → j ≡ i
    same j h = ground arith

pub fs_rename-Distinct :
    (slot : ℤ) (name : List ℕ) (now : ℕ) (fs : Fs)
    → IsCString name
    → Distinct fs.files
    → Distinct (fs_rename slot name now fs).0.files
unfolding fs_rename
fs_rename-Distinct slot name now fs cs d = elim (Option-cases (find_slot slot fs.files)) [
  | inl e ↦ rw (fs_rename, e) d
  | inr (f, e) ↦ elim (Option-cases (split_parent name)) [
    | inl k ↦ rw (fs_rename, e, k) d
    | inr (p, k) ↦ elim (Bool-cases (not (f.deleted == 0))) [
      | inl b ↦ rw (fs_rename, e, k, b) d
      | inr b ↦ elim (Bool-cases (not (dir_exists p.0 fs) || dir_exists name fs)) [
        | inl c ↦ rw (fs_rename, e, k, b, c) d
        | inr c ↦ elim (Bool-cases (taken_elsewhere slot name 0 fs.files)) [
          | inl t ↦ rw (fs_rename, e, k, b, c, t) d
          | inr t ↦
              rw (fs_rename, e, k, b, c, t)
                (renamed-Distinct slot name now f fs cs e (split_parent-short name p k).0 t d)
        ]
      ]
    ]
  ]
]
