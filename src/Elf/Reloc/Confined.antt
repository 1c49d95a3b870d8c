-- ===== src/Elf/Reloc/Confined.antt =====
-- The relocations of a program write nowhere but in its sandbox, and so does all of the loading.
use muos.Common.{
  ℕ, zero, suc, ◌+◌, ◌-◌, ◌*◌, ◌/◌, ◌%◌, ◌^◌, ◌≤◌, ◌<◌, ◌≡◌, ◌⊎◌, inl, inr, refl, true, false, not,
  ◌||◌, Option, none, some, List, length, ltb, ◌==◌, if_all, u32, arith, Bool-cases,
}
use muos.Common.Int.{ℤ}
use muos.Common.Mem.{Mem, blit_out}
use muos.Common.Words.{le, length-le}
use muos.Elf.{Info, range_ok, elf_err_range, elf_err_reloc, elf_map_segments}
use muos.Elf.Reloc.{
  symbol_value, by_symbol, no_dyn, Target, Dyn, store_word, off_target, relocate, rel_loop,
  rel_step, elf_apply_rel_array, apply_plt, apply_tables, dyn_loop, elf_apply_dynamic,
  relocate_program, elf32_load_ex,
}
use muos.Elf.Sandbox.{Inside, Inside-trans, elf_map_segments-Inside}

-- A relocated word lies in the sandbox.
store_word-Inside :
    (t : Target) (at v : ℕ) (m : Mem)
    → 4 ≤ t.limit
    → t.limit < 2 ^ 32
    → off_target t at ≡ false
    → Inside t.base t.limit m (store_word m at v)
unfolding store_word
store_word-Inside t at v m four small h a o =
    blit_out m at (le 4 v) a (apart (in_range t.base t.limit at four small h) o)
  where
    in_range :
        (base limit at : ℕ)
        → 4 ≤ limit
        → limit < 2 ^ 32
        → (ltb at base || ltb (u32 (limit + (2 ^ 32 - 4))) at) ≡ false
        → (base ≤ at) × (at + 4 ≤ limit)
    in_range base limit at p q h = ground arith

    apart :
        (t.base ≤ at) × (at + 4 ≤ t.limit)
        → (a < t.base) ⊎ (t.limit ≤ a)
        → (a < at) ⊎ (at + length (le 4 v) ≤ a)
    apart (p, q) (inl l) = inl (omega arith)
    apart (p, q) (inr l) = inr (omega (arith, length-le 4 v))

-- A sandbox in the memory of 32 bits, with room for a word.
abbrev pub IsBound : Target → Type 0
IsBound t = (4 ≤ t.limit) × (t.limit < 2 ^ 32)

-- The memory of a result, and the old one after an error.
abbrev word_after : Mem → ℤ ⊎ Mem → Mem
word_after m (inl e) = m
word_after m (inr m') = m'

relocate-Inside :
    (t : Target) (type symix at : ℕ) (m : Mem)
    → IsBound t
    → Inside t.base t.limit m (word_after m (relocate t type symix at m))
unfolding relocate
relocate-Inside t type symix at m (four, small) = elim (Bool-cases (off_target t at)) [
  | inl off ↦ simp (relocate, off) (λ a o. refl)
  | inr on ↦
      simp (relocate, on)
        (if_all P (type == 0) (inr m) _ (λ a o. refl)
          (if_all P (type == 8) (inr _) _ (store_word-Inside t at _ m four small on) (
            if_all P ((type == 6) || ((type == 7) || (type == 1))) _ (inl elf_err_reloc)
              (symbol on (symbol_value t symix m)) (λ a o. refl))))
]
  where
    P : ℤ ⊎ Mem → Type 0
    P r = Inside t.base t.limit m (word_after m r)

    symbol : off_target t at ≡ false → (r : ℤ ⊎ ℕ) → P (by_symbol (type == 1) at m r)
    symbol on (inl e) = λ a o. refl
    symbol on (inr v) = store_word-Inside t at _ m four small on

rel_loop-Inside :
    (n i : ℕ) (t : Target) (rel_va : ℕ) (m : Mem)
    → IsBound t
    → Inside t.base t.limit m (rel_loop n i t rel_va m).0
unfolding rel_loop
rel_loop-Inside zero i t rel_va m b = λ a o. refl
rel_loop-Inside (suc n) i t rel_va m b =
    go (rel_step t rel_va i m) (relocate-Inside t _ _ _ m b)
      (λ m'. rel_loop-Inside n (i + 1) t rel_va m' b)
  where
    go :
        (r : ℤ ⊎ Mem)
        → Inside t.base t.limit m (word_after m r)
        → ((m' : Mem) → Inside t.base t.limit m' (rel_loop n (i + 1) t rel_va m').0)
        → Inside t.base t.limit m
            (elim r as (λ x. Mem × Option ℤ) [
              | inl e ↦ (m, some e)
              | inr m' ↦ rel_loop n (i + 1) t rel_va m'
            ]).0
    go (inl e) h ih = h
    go (inr m') h ih = Inside-trans t.base t.limit m m' _ h (ih m')

array-Inside :
    (rel_va relsz : ℕ) (t : Target) (m : Mem)
    → IsBound t
    → Inside t.base t.limit m (elf_apply_rel_array rel_va relsz t m).0
unfolding elf_apply_rel_array
array-Inside rel_va relsz t m b =
    if_all P (relsz == 0) (m, none) _ (λ a o. refl)
      (if_all P (ltb (256 * 1024) relsz) (m, some elf_err_reloc) _ (λ a o. refl)
        (if_all P (not (relsz % 8 == 0)) (m, some elf_err_reloc) _ (λ a o. refl)
          (if_all P (not (range_ok rel_va relsz t.base t.limit)) (m, some elf_err_range) _
            (λ a o. refl) (rel_loop-Inside (relsz / 8) 0 t rel_va m b))))
  where
    P : Mem × Option ℤ → Type 0
    P r = Inside t.base t.limit m r.0

plt-Inside :
    (d : Dyn) (t : Target) (m : Mem) → IsBound t → Inside t.base t.limit m (apply_plt d t m).0
unfolding apply_plt
plt-Inside d t m b =
    if_all P ((d.jmprel == 0) || (d.pltrelsz == 0)) (m, none) _ (λ a o. refl)
      (if_all P (not (d.pltrel == 17)) (m, some elf_err_reloc) _ (λ a o. refl)
        (array-Inside (u32 (d.jmprel + t.bias)) d.pltrelsz t m b))
  where
    P : Mem × Option ℤ → Type 0
    P r = Inside t.base t.limit m r.0

tables-Inside :
    (d : Dyn) (t : Target) (m : Mem) → IsBound t → Inside t.base t.limit m (apply_tables d t m).0
unfolding apply_tables
tables-Inside d t m b =
    if_all P ((d.rel == 0) || (d.relsz == 0)) (apply_plt d t m) _ (plt-Inside d t m b) (
      go (elf_apply_rel_array (u32 (d.rel + t.bias)) d.relsz t m)
        (array-Inside (u32 (d.rel + t.bias)) d.relsz t m b))
  where
    P : Mem × Option ℤ → Type 0
    P r = Inside t.base t.limit m r.0

    go :
        (r : Mem × Option ℤ)
        → P r
        → P (elim r.1 as (λ x. Mem × Option ℤ) [
          | some rc ↦ (r.0, some rc)
          | none ↦ apply_plt d t r.0
        ])
    go (m', some rc) h = h
    go (m', none) h = Inside-trans t.base t.limit m m' _ h (plt-Inside d t m' b)

-- A sandbox for a program.
dynamic-Inside :
    (dyn_va bias base limit : ℕ) (m : Mem)
    → 4 ≤ limit
    → limit < 2 ^ 32
    → Inside base limit m (elf_apply_dynamic dyn_va bias base limit m).0
unfolding elf_apply_dynamic
dynamic-Inside dyn_va bias base limit m p q = elim (Bool-cases (range_ok dyn_va 8 base limit)) [
  | inr off ↦ simp (elf_apply_dynamic, off) (λ a o. refl)
  | inl on ↦ go on (dyn_loop 256 dyn_va base limit no_dyn m) refl
]
  where
    go :
        range_ok dyn_va 8 base limit ≡ true
        → (r : ℤ ⊎ Dyn) → dyn_loop 256 dyn_va base limit no_dyn m ≡ r
        → Inside base limit m (elf_apply_dynamic dyn_va bias base limit m).0
    go on (inl e) h = simp (elf_apply_dynamic, on, h) (λ a o. refl)
    go on (inr d) h = simp (elf_apply_dynamic, on, h) (tables-Inside d _ m (p, q))

-- Whatever the image, and whether it is loaded or refused, no byte outside [base, limit) changes, for a
-- limit of at least 4 and below 2 ^ 32.
pub elf32_load_ex-Inside :
    (image : List ℕ) (base limit : ℕ) (m : Mem)
    → 4 ≤ limit
    → limit < 2 ^ 32
    → Inside base limit m (elf32_load_ex image base limit m).0
unfolding elf32_load_ex relocate_program
elf32_load_ex-Inside image base limit m p q =
    go (elf_map_segments image base limit m) refl (elf_map_segments-Inside image base limit m)
  where
    go :
        (r : Mem × (ℤ ⊎ Info))
        → elf_map_segments image base limit m ≡ r
        → Inside base limit m r.0
        → Inside base limit m (elf32_load_ex image base limit m).0
    go (m', inl e) h k = simp (elf32_load_ex, h) k
    go (m', inr info) h k =
        simp (elf32_load_ex, h)
          (if_all (λ (r : Mem × (ℤ ⊎ Info)). Inside base limit m r.0) (info.dyn_va == 0)
            (m', inr info) _ k
            (Inside-trans base limit m m' _ k
              (dynamic-Inside info.dyn_va info.base base limit m' p q)))
