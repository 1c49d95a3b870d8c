-- ===== src/Fs/Names/Distinct.antt =====
-- No two live files have the same name: every call but the renaming of a directory keeps it so.
use native.Mathlib.Decide.{ℕ_discrete}
use muos.Common.{
  ℕ, zero, suc, ◌-◌, ◌<◌, ◌≡◌, ◌≢◌, refl, sym, ap, ◌∙◌, ◌⊎◌, inl, inr, Bool, true, false, none,
  some, List, [], ◌∷◌, ◌==◌, get_elem?, set, arith, ==_ne, Option-cases, Bool-cases, subst, subst⁻¹,
}
use muos.Common.Int.{ℤ, pos, negsuc}
use muos.CString.{strcmp, strlen}
use muos.CString.Compare.{IsCString, cstr, strcmp_zero, cstr-strncpy, strlen-length}
use muos.Ata.{is_zero}
use muos.Fs.{File, Fs, max_name, first_index}
use muos.Fs.Paths.{is_nil, named, live_named, name_array, file_slot_of, file_exists, split_parent}
use muos.Fs.Persist.{persist_meta}
use muos.Fs.Data.Contents.{persist_meta-files, persist_slot-files}
use muos.Fs.Names.{may_create, created, fs_create}

abbrev pub Distinct : List File → Type 0
Distinct files =
    (i j : ℕ) (f g : File) (path : List ℕ)
    → IsCString path
    → get_elem? files i ≡ some f
    → get_elem? files j ≡ some g
    → live_named path f ≡ true
    → live_named path g ≡ true
    → i ≡ j

get_elem?-set-inv :
    (files : List File) (k i : ℕ) (v f : File)
    → get_elem? (set files k v) i ≡ some f
    → ((i ≡ k) × (f ≡ v)) ⊎ ((i ≢ k) × (get_elem? files i ≡ some f))
get_elem?-set-inv [] k i v f h = absurd (cc)
get_elem?-set-inv (x ∷ xs) zero zero v f h = inl (refl, cc)
get_elem?-set-inv (x ∷ xs) zero (suc i) v f h = inr ((λ e. absurd (omega arith)), h)
get_elem?-set-inv (x ∷ xs) (suc k) zero v f h = inr ((λ e. absurd (omega arith)), h)
get_elem?-set-inv (x ∷ xs) (suc k) (suc i) v f h = elim (get_elem?-set-inv xs k i v f h) [
  | inl p ↦ inl (ap suc p.0, p.1)
  | inr p ↦ inr ((λ e. p.0 (omega arith)), p.1)
]

-- No other slot is live under a name that `v` is live under.
abbrev pub Fresh : List File → ℕ → File → Type 0
Fresh files k v =
    (path : List ℕ)
    → IsCString path
    → live_named path v ≡ true
    → (j : ℕ) (g : File) → j ≢ k
    → get_elem? files j ≡ some g
    → live_named path g ≡ true
    → ⊥

pub Distinct-set :
    (files : List File) (k : ℕ) (v : File)
    → Distinct files
    → Fresh files k v
    → Distinct (set files k v)
Distinct-set files k v d fresh i j f g path cs hi hj lf lg =
    elim (get_elem?-set-inv files k i v f hi) [
      | inl p ↦ elim (get_elem?-set-inv files k j v g hj) [
        | inl q ↦ p.0 ∙ sym q.0
        | inr q ↦ absurd (fresh path cs (sym (ap (live_named path) p.1) ∙ lf) j g q.0 q.1 lg)
      ]
      | inr p ↦ elim (get_elem?-set-inv files k j v g hj) [
        | inl q ↦ absurd (fresh path cs (sym (ap (live_named path) q.1) ∙ lg) i f p.0 p.1 lf)
        | inr q ↦ d i j f g path cs p.1 q.1 lf lg
      ]
    ]

-- A slot that keeps its name, or is no longer live.
pub Fresh-kept :
    (files : List File) (k : ℕ) (old v : File)
    → Distinct files
    → get_elem? files k ≡ some old
    → ((path : List ℕ) → live_named path v ≡ true → live_named path old ≡ true)
    → Fresh files k v
Fresh-kept files k old v d h weaker path cs l j g ne hj lg =
    ne (d j k g old path cs hj h lg (weaker path l))

IsCString-cstr : (s : List ℕ) → IsCString (cstr s)
IsCString-cstr [] = tt
IsCString-cstr (c ∷ s) = elim (ℕ_discrete c 0) [
  | yes z ↦ rw z tt
  | no n ↦ rw (==_ne c 0 n) (omega arith, IsCString-cstr s)
]

is_zero-eq : (z : ℤ) → is_zero z ≡ true → z ≡ pos 0
is_zero-eq (pos n) h = ap pos (ground arith)
is_zero-eq (negsuc n) h = absurd (cc)

-- A slot's name is the path that it is found by.
named-cstr : (name path : List ℕ) → IsCString path → named name path ≡ true → cstr name ≡ path
named-cstr name path cs h =
    (strcmp_zero (cstr name) path (IsCString-cstr name) cs).0
      (is_zero-eq (strcmp (cstr name) path) h)

first_index-cons :
    (P : File → Bool) (x : File) (xs : List File)
    → first_index P (x ∷ xs) ≡ none
    → (P x ≡ false) × (first_index P xs ≡ none)
first_index-cons P x xs e = ground arith

-- What a search that fails has not met.
first_index-none :
    (P : File → Bool) (files : List File) (j : ℕ) (g : File)
    → first_index P files ≡ none
    → get_elem? files j ≡ some g
    → P g ≡ true
    → ⊥
first_index-none P [] j g e h p = cc
first_index-none P (x ∷ xs) zero g e h p = let k = (first_index-cons P x xs e).0 in cc
first_index-none P (x ∷ xs) (suc j) g e h p =
    first_index-none P xs j g (first_index-cons P x xs e).1 h p

-- A name that fits is read back.
cstr-name_array :
    (path : List ℕ) → IsCString path → strlen path < max_name → cstr (name_array path) ≡ path
cstr-name_array path cs h = cstr-strncpy path (max_name - 1) cs (omega (arith, strlen-length path))

live_named-named : (path : List ℕ) (f : File) → live_named path f ≡ true → named f.name path ≡ true
live_named-named path f h = ground arith

-- Where no live file has the path, a slot of that name is fresh.
pub Fresh-new :
    (files : List File) (k : ℕ) (v : File) (path : List ℕ)
    → IsCString path
    → strlen path < max_name
    → v.name ≡ name_array path
    → ((j : ℕ) (g : File) → j ≢ k → get_elem? files j ≡ some g → live_named path g ≡ true → ⊥)
    → Fresh files k v
Fresh-new files k v path cs short n fresh path' cs' l j g ne hj lg =
    let here : path' ≡ path =
      sym (named-cstr v.name path' cs' (live_named-named path' v l))
      ∙ ap cstr n
      ∙ cstr-name_array path cs short in
    fresh j g ne hj (subst (λ p. live_named p g ≡ true) here lg)

pub split_parent-short :
    (path : List ℕ) (p : List ℕ × List ℕ)
    → split_parent path ≡ some p
    → (strlen path < max_name) × (is_nil path ≡ false)
unfolding split_parent
split_parent-short path p h = ground arith

may_create-free :
    (path : List ℕ) (fs : Fs)
    → may_create path fs ≡ true
    → (strlen path < max_name) × (file_slot_of path fs ≡ none)
unfolding may_create file_exists
may_create-free path fs h = elim (Option-cases (split_parent path)) [
  | inl e ↦ absurd (ground arith)
  | inr (p, e) ↦
      let (short, nonempty) = split_parent-short path p e in
      (
        short,
        elim (Option-cases (file_slot_of path fs)) [
          | inl k ↦ k
          | inr (i, k) ↦ absurd (ground arith)
        ],
      )
]

-- `fs_create` changes nothing, or fills one slot.
fs_create-cases :
    (path : List ℕ) (now : ℕ) (fs : Fs)
    → ((fs_create path now fs).0.files ≡ fs.files)
      ⊎ ((i : ℕ) × (f : File) × (get_elem? fs.files i ≡ some f)
          × (may_create path fs ≡ true)
          × ((fs_create path now fs).0.files ≡ set fs.files i (created path now f)))
unfolding fs_create
fs_create-cases path now fs = elim (Bool-cases (may_create path fs)) [
  | inr e ↦ inl (rw e refl)
  | inl e ↦ elim (Option-cases (first_index (λ f. f.used == 0) fs.files)) [
    | inl k ↦ inl (rw (e, k) refl)
    | inr (i, k) ↦ elim (Option-cases (get_elem? fs.files i)) [
      | inl h ↦ inl (rw (e, k, h) refl)
      | inr (f, h) ↦ inr (
        i,
        f,
        h,
        e,
        rw (e, k, h)
            (persist_slot-files i
                (persist_meta (record fs { files = set fs.files i (created path now f) }))
              ∙ persist_meta-files (record fs { files = set fs.files i (created path now f) })),
      )
    ]
  ]
]

pub fs_create-Distinct :
    (path : List ℕ) (now : ℕ) (fs : Fs)
    → IsCString path
    → Distinct fs.files
    → Distinct (fs_create path now fs).0.files
unfolding file_slot_of
fs_create-Distinct path now fs cs d = elim (fs_create-cases path now fs) [
  | inl e ↦ subst⁻¹ Distinct e d
  | inr (i, f, at, may, e) ↦
      let (short, free) = may_create-free path fs may in
      subst⁻¹ Distinct e (
        Distinct-set fs.files i (created path now f) d (
          Fresh-new fs.files i (created path now f) path cs short refl
            (λ j g ne hj l. first_index-none (live_named path) fs.files j g free hj l)))
]
