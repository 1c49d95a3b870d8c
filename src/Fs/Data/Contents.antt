-- ===== src/Fs/Data/Contents.antt =====
-- What the calls on bytes do to a file's contents.
use muos.Common.{
  ℕ, ◌+◌, ◌-◌, ◌≤◌, ◌<◌, ◌≡◌, ◌≢◌, refl, sym, ap, ap₂, ◌∙◌, inl, inr, some, List, ◌++◌, ltb,
  if◌then◌else◌, length, take, drop, get_elem?-set-some, get_elem?-set_ne, replicate, arith,
  Bool-cases, take-all, take-append_left, length-append, length-replicate, not_ltb, ltb→lt,
  ltb-false, lt→ltb,
}
use muos.Common.Int.{ℤ, pos, negsuc}
use muos.Common.Mem.{
  slice-ext, fill_out, slice-fill_self, slice_ap, slice-append, take-slice, drop-slice, blit, fill,
  slice, slice-blit_self, slice-blit_out, length-slice,
}
use muos.Fs.{File, Fs, find_slot, put_slot}
use muos.Fs.Persist.{persist_meta, persist_slot, persist_slot_range}
use muos.Fs.Data.{save_slot, save_range, written, written_at, resized}

pub persist_meta-files : (fs : Fs) → (persist_meta fs).files ≡ fs.files
unfolding persist_meta
persist_meta-files fs = elim (Bool-cases fs.active) [ inl e ↦ simp e refl | inr e ↦ simp e refl ]

pub persist_slot-files : (i : ℕ) (fs : Fs) → (persist_slot i fs).files ≡ fs.files
unfolding persist_slot
persist_slot-files i fs = ground arith

persist_slot_range-files :
    (i offset len : ℕ) (fs : Fs) → (persist_slot_range i offset len fs).files ≡ fs.files
unfolding persist_slot_range
persist_slot_range-files i offset len fs = ground arith

-- Writing through changes no slot.
pub save_slot-files : (fd : ℤ) (fs : Fs) → (save_slot fd fs).files ≡ fs.files
save_slot-files (pos i) fs = persist_slot-files i (persist_meta fs) ∙ persist_meta-files fs
save_slot-files (negsuc n) fs = refl

pub save_range-files :
    (fd : ℤ) (offset len : ℕ) (fs : Fs) → (save_range fd offset len fs).files ≡ fs.files
save_range-files (pos i) offset len fs =
    persist_slot_range-files i offset len (persist_meta fs) ∙ persist_meta-files fs
save_range-files (negsuc n) offset len fs = refl

-- A slot that is put back is found, and the others stay.
pub find_slot-put :
    (fd : ℤ) (f f' : File) (files : List File)
    → find_slot fd files ≡ some f
    → f'.used ≢ 0
    → find_slot fd (put_slot fd f' files) ≡ some f'
unfolding find_slot put_slot
find_slot-put (negsuc n) f f' files h u = absurd (cc)
find_slot-put (pos i) f f' files h u =
    ground (arith, get_elem?-set-some i f' f files (ground arith))

pub find_slot-used :
    (fd : ℤ) (f : File) (files : List File) → find_slot fd files ≡ some f → f.used ≢ 0
unfolding find_slot
find_slot-used (negsuc n) f files h = absurd (cc)
find_slot-used (pos i) f files h = ground arith

pub find_slot-put_other :
    (fd other : ℤ) (f : File) (files : List File)
    → other ≢ fd
    → find_slot other (put_slot fd f files) ≡ find_slot other files
unfolding find_slot put_slot
find_slot-put_other (negsuc n) other f files h = refl
find_slot-put_other (pos i) (negsuc n) f files h = refl
find_slot-put_other (pos i) (pos j) f files h =
    rw (find_slot, get_elem?-set_ne files f (λ e. h (ap pos (sym e)))) refl

-- What readers see of a file.
unfoldable pub contents : File → List ℕ
contents f = slice f.body 0 f.size

-- `xs` in place of what stands from `at` on.
unfoldable pub overwrite : ℕ → List ℕ → List ℕ → List ℕ
overwrite at xs c = take at c ++ (xs ++ drop (at + length xs) c)

pub contents-written_at :
    (f : File) (at : ℕ) (xs : List ℕ) (now : ℕ)
    → at ≤ f.size
    → contents (written_at at xs now f) ≡ overwrite at xs (contents f)
unfolding contents overwrite
contents-written_at f at xs now h =
    let m = blit f.body at xs in
    let size = (written_at at xs now f).size in
    let grown : (at + length xs ≤ size) × (size - (at + length xs) ≡ f.size - (at + length xs)) =
      ground arith in
    slice_ap m 0 0 size (at + (length xs + (size - (at + length xs)))) refl (omega (arith, grown.0))
    ∙ sym (slice-append m 0 at (length xs + (size - (at + length xs))))
    ∙ ap₂ ◌++◌
        (slice-blit_out f.body at xs 0 at (inl (omega arith))
          ∙ sym (take-slice f.body 0 at f.size h))
        (slice_ap m (0 + at) at _ _ (omega arith) refl
          ∙ sym (slice-append m at (length xs) (size - (at + length xs)))
          ∙ ap₂ ◌++◌ (slice-blit_self f.body at xs) (
              slice-blit_out f.body at xs (at + length xs) (size - (at + length xs))
                (inr (omega arith))
              ∙ slice_ap f.body (at + length xs) (0 + (at + length xs)) _ _ (omega arith) grown.1
              ∙ sym (drop-slice f.body 0 (at + length xs) f.size)))

pub contents-written : (f : File) (xs : List ℕ) (now : ℕ) → contents (written xs now f) ≡ xs
unfolding contents
contents-written f xs now = slice-blit_self f.body 0 xs

-- What a read from `at` on copies.
pub slice-contents :
    (f : File) (at len : ℕ)
    → slice f.body at (if ltb len (f.size - at) then len else f.size - at)
      ≡ take len (drop at (contents f))
unfolding contents
slice-contents f at len =
    rw (drop-slice f.body 0 at f.size) (elim (Bool-cases (ltb len (f.size - at))) [
      | inl e ↦ rw e (
          slice_ap f.body at (0 + at) len len (omega arith) refl
          ∙ sym (
              take-slice f.body (0 + at) len (f.size - at)
                (omega (arith, ltb→lt len (f.size - at) e))))
      | inr e ↦ rw e (
          slice_ap f.body at (0 + at) _ _ (omega arith) refl
          ∙ sym (
              take-all len (slice f.body (0 + at) (f.size - at)) (
                omega (
                  arith,
                  length-slice f.body (0 + at) (f.size - at),
                  ltb-false len (f.size - at) e,
                ))))
    ])

-- A write behind the end: the bytes between are those that the slot's body has there.
pub contents-written_behind :
    (f : File) (at : ℕ) (xs : List ℕ) (now : ℕ)
    → f.size ≤ at
    → 0 < length xs
    → contents (written_at at xs now f) ≡ contents f ++ (slice f.body f.size (at - f.size) ++ xs)
unfolding contents
contents-written_behind f at xs now h k =
    let m = blit f.body at xs in
    let grown : (written_at at xs now f).size ≡ f.size + (at - f.size + length xs) = ground arith in
    slice_ap m 0 0 _ (f.size + (at - f.size + length xs)) refl grown
    ∙ sym (slice-append m 0 f.size (at - f.size + length xs))
    ∙ ap₂ ◌++◌ (slice-blit_out f.body at xs 0 f.size (inl (omega arith))) (
        sym (slice-append m (0 + f.size) (at - f.size) (length xs))
        ∙ ap₂ ◌++◌
            (slice_ap m (0 + f.size) f.size _ _ (omega arith) refl
              ∙ slice-blit_out f.body at xs f.size (at - f.size) (inl (omega arith)))
            (slice_ap m (0 + f.size + (at - f.size)) at _ _ (omega arith) refl
              ∙ slice-blit_self f.body at xs))

resized-shrunk :
    (f : File) (len now : ℕ)
    → len ≤ f.size
    → contents (resized len now f) ≡ take len (contents f ++ replicate (len - f.size) 0)
unfolding contents
resized-shrunk f len now h = rw (not_ltb f.size len h) (
    sym (take-slice f.body 0 len f.size h)
    ∙ sym (
        take-append_left len (slice f.body 0 f.size) (replicate (len - f.size) 0)
          (omega (arith, length-slice f.body 0 f.size))))

resized-grown :
    (f : File) (len now : ℕ)
    → f.size < len
    → contents (resized len now f) ≡ take len (contents f ++ replicate (len - f.size) 0)
unfolding contents
resized-grown f len now h =
    let m = fill f.body f.size 0 (len - f.size) in
    let all = contents f ++ replicate (len - f.size) 0 in
    rw (lt→ltb f.size len h) (
      slice_ap m 0 0 len (f.size + (len - f.size)) refl (omega arith)
      ∙ sym (slice-append m 0 f.size (len - f.size))
      ∙ ap₂ ◌++◌
          (slice-ext m f.body 0 f.size
            (λ i p q. fill_out f.body f.size 0 (len - f.size) i (inl (omega arith))))
          (slice_ap m (0 + f.size) f.size _ _ (omega arith) refl
            ∙ slice-fill_self f.body f.size 0 (len - f.size))
      ∙ sym (
          take-all len all (
            omega (
              arith,
              length-append (slice f.body 0 f.size) (replicate (len - f.size) 0),
              length-slice f.body 0 f.size,
              length-replicate {A = ℕ} (len - f.size) 0,
            ))))

pub contents-resized :
    (f : File) (len now : ℕ)
    → contents (resized len now f) ≡ take len (contents f ++ replicate (len - f.size) 0)
contents-resized f len now = elim (Bool-cases (ltb f.size len)) [
  | inl e ↦ resized-grown f len now (ltb→lt f.size len e)
  | inr e ↦ resized-shrunk f len now (ltb-false f.size len e)
]

-- The slot has these contents afterwards and every other one is as before.
pub record Holds (fs fs' : Fs) (fd : ℤ) (c : List ℕ) : Type 0 where
  pub file : File
  pub found : find_slot fd fs'.files ≡ some file
  pub has : contents file ≡ c
  pub others : (other : ℤ) → other ≢ fd → find_slot other fs'.files ≡ find_slot other fs.files

-- A call that puts a slot back and writes it through.
pub put-Holds :
    (fs fs' : Fs) (fd : ℤ) (f f' : File) (c : List ℕ)
    → find_slot fd fs.files ≡ some f
    → f'.used ≡ f.used
    → fs'.files ≡ put_slot fd f' fs.files
    → contents f' ≡ c
    → Holds fs fs' fd c
put-Holds fs fs' fd f f' c h u e k = record {
  file = f';
  found =
      ap (find_slot fd) e
      ∙ find_slot-put fd f f' fs.files h (λ z. find_slot-used fd f fs.files h (sym u ∙ z));
  has = k;
  others = λ other ne. ap (find_slot other) e ∙ find_slot-put_other fd other f' fs.files ne;
}
