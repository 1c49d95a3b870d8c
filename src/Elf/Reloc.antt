-- ===== src/Elf/Reloc.antt =====
-- The relocations of src/elf.c, on the image in memory, and the loading as a whole. The count of
-- relocations, which is only shown, is left out.
pub mod Confined
use muos.Common.{
  ℕ, zero, suc, ◌+◌, ◌-◌, ◌*◌, ◌/◌, ◌%◌, ◌^◌, ◌⊎◌, inl, inr, Bool, true, false, not, ◌&&◌, ◌||◌,
  Option, none, some, List, ltb, leb, ◌==◌, if◌then◌else◌, u32,
}
use muos.Common.Int.{ℤ}
use muos.Common.Mem.{Mem, blit, slice}
use muos.Common.Words.{le, le_value}
use muos.Elf.{Info, range_ok, elf_err_range, elf_err_reloc, elf_map_segments}

-- A word of the memory, and a word that is written.
abbrev pub load_word : Mem → ℕ → ℕ
load_word m at = le_value (slice m at 4)

unfoldable pub store_word : Mem → ℕ → ℕ → Mem
store_word m at v = blit m at (le 4 v)

-- `symtab` and `syment`, and the bias and the limits of the program.
pub record Target : Type 0 where
  pub symtab : ℕ
  pub syment : ℕ
  pub bias : ℕ
  pub base : ℕ
  pub limit : ℕ

-- The value of the symbol number `symix`, or an error.
pub symbol_value : Target → ℕ → Mem → ℤ ⊎ ℕ
symbol_value t symix m =
    let sym_va = u32 (t.symtab + symix * t.syment) in
    let shndx = le_value (slice m (sym_va + 14) 2) in
    let value = load_word m (sym_va + 4) in
    if (t.symtab == 0) || ltb t.syment 16
    then inl elf_err_reloc
    else if ltb 0xFFFFF symix
    then inl elf_err_reloc
    else if not (range_ok sym_va 16 t.base t.limit)
    then inl elf_err_reloc
    else if shndx == 0
    then inl elf_err_reloc
    else inr (if shndx == 0xFFF1 then value else u32 (t.bias + value))

-- `where < base || where > limit - 4`
abbrev pub off_target : Target → ℕ → Bool
off_target t where_at = ltb where_at t.base || ltb (u32 (t.limit + (2 ^ 32 - 4))) where_at

-- The relocation by a symbol.
abbrev pub by_symbol : Bool → ℕ → Mem → ℤ ⊎ ℕ → ℤ ⊎ Mem
by_symbol adds where_at m (inl e) = inl e
by_symbol adds where_at m (inr v) =
    inr (store_word m where_at (if adds then u32 (load_word m where_at + v) else v))

-- One relocation, of the type `type`, of the word at `where_at`.
unfoldable pub relocate : Target → ℕ → ℕ → ℕ → Mem → ℤ ⊎ Mem
relocate t type symix where_at m =
    if off_target t where_at
    then inl elf_err_range
    else if type == 0
    then inr m
    else if type == 8
    then inr (store_word m where_at (u32 (load_word m where_at + t.bias)))
    else if (type == 6) || ((type == 7) || (type == 1))
    then by_symbol (type == 1) where_at m (symbol_value t symix m)
    else inl elf_err_reloc

-- The entry number `i` of the table at `rel_va`.
abbrev pub rel_step : Target → ℕ → ℕ → Mem → ℤ ⊎ Mem
rel_step t rel_va i m =
    let info = load_word m (rel_va + i * 8 + 4) in
    relocate t (info % 256) (info / 256) (u32 (load_word m (rel_va + i * 8) + t.bias)) m

-- The loop from the entry `i` on, `n` entries: the memory, and an error if there is one.
pub rel_loop : ℕ → ℕ → Target → ℕ → Mem → Mem × Option ℤ
rel_loop zero i t rel_va m = (m, none)
rel_loop (suc n) i t rel_va m = elim (rel_step t rel_va i m) [
  | inl e ↦ (m, some e)
  | inr m' ↦ rel_loop n (i + 1) t rel_va m'
]

pub elf_apply_rel_array : ℕ → ℕ → Target → Mem → Mem × Option ℤ
elf_apply_rel_array rel_va relsz t m =
    if relsz == 0
    then (m, none)
    else if ltb (256 * 1024) relsz
    then (m, some elf_err_reloc)
    else if not (relsz % 8 == 0)
    then (m, some elf_err_reloc)
    else if not (range_ok rel_va relsz t.base t.limit)
    then (m, some elf_err_range)
    else rel_loop (relsz / 8) 0 t rel_va m

-- What the dynamic table says.
pub record Dyn : Type 0 where
  pub rel : ℕ
  pub relsz : ℕ
  pub jmprel : ℕ
  pub pltrelsz : ℕ
  pub symtab : ℕ
  pub syment : ℕ
  pub pltrel : ℕ

abbrev pub set_dyn : ℕ → ℕ → Dyn → Dyn
set_dyn tag v d =
    if tag == 17
    then record d { rel = v }
    else if tag == 18
    then record d { relsz = v }
    else if tag == 23
    then record d { jmprel = v }
    else if tag == 2
    then record d { pltrelsz = v }
    else if tag == 20
    then record d { pltrel = v }
    else if tag == 6
    then record d { symtab = v }
    else if tag == 11
    then record d { syment = v }
    else d

-- The loop over the table, `n` entries at most from the address `at` on.
pub dyn_loop : ℕ → ℕ → ℕ → ℕ → Dyn → Mem → ℤ ⊎ Dyn
dyn_loop zero at base limit d m = inr d
dyn_loop (suc n) at base limit d m =
    let tag = load_word m at in
    let rest = dyn_loop n (u32 (at + 8)) base limit (set_dyn tag (load_word m (at + 4)) d) m in
    if not (range_ok at 8 base limit) then inl elf_err_reloc else if tag == 0 then inr d else rest

abbrev pub no_dyn : Dyn
no_dyn = record {
  rel = 0;
  relsz = 0;
  jmprel = 0;
  pltrelsz = 0;
  symtab = 0;
  syment = 0;
  pltrel = 17;
}

-- The relocations of the procedure linkage table, the second part of `elf_apply_dynamic`.
pub apply_plt : Dyn → Target → Mem → Mem × Option ℤ
apply_plt d t m =
    if (d.jmprel == 0) || (d.pltrelsz == 0)
    then (m, none)
    else if not (d.pltrel == 17)
    then (m, some elf_err_reloc)
    else elf_apply_rel_array (u32 (d.jmprel + t.bias)) d.pltrelsz t m

-- The two tables, one after the other.
pub apply_tables : Dyn → Target → Mem → Mem × Option ℤ
apply_tables d t m =
    let (m', e) = elf_apply_rel_array (u32 (d.rel + t.bias)) d.relsz t m in
    if (d.rel == 0) || (d.relsz == 0)
    then apply_plt d t m
    else elim e [ some rc ↦ (m', some rc) | none ↦ apply_plt d t m' ]

pub elf_apply_dynamic : ℕ → ℕ → ℕ → ℕ → Mem → Mem × Option ℤ
elf_apply_dynamic dyn_va bias base limit m =
    if not (range_ok dyn_va 8 base limit)
    then (m, some elf_err_reloc)
    else elim (dyn_loop 256 dyn_va base limit no_dyn m) [
      | inl e ↦ (m, some e)
      | inr d ↦
          apply_tables d
            (record {
              symtab = if d.symtab == 0 then 0 else u32 (d.symtab + bias);
              syment = d.syment;
              bias = bias;
              base = base;
              limit = limit;
            })
            m
    ]

-- The relocations of a program that has a dynamic table.
pub relocate_program : Info → ℕ → ℕ → Mem → Mem × (ℤ ⊎ Info)
relocate_program info base limit m =
    let (m', e) = elf_apply_dynamic info.dyn_va info.base base limit m in
    if info.dyn_va == 0 then (m, inr info) else (m', elim e [ some rc ↦ inl rc | none ↦ inr info ])

-- `elf32_load_ex`
pub elf32_load_ex : List ℕ → ℕ → ℕ → Mem → Mem × (ℤ ⊎ Info)
elf32_load_ex image base limit m =
    let (m', r) = elf_map_segments image base limit m in
    elim r [ inl e ↦ (m', inl e) | inr info ↦ relocate_program info base limit m' ]

-- `elf32_load_program`: an image that names an interpreter is left for it.
pub elf32_load_program : List ℕ → ℕ → ℕ → Mem → Mem × (ℤ ⊎ Info)
elf32_load_program image base limit m =
    let (m', r) = elf_map_segments image base limit m in
    elim r [
      | inl e ↦ (m', inl e)
      | inr info ↦ elim (info.interp) [
        | some path ↦ (m', inr info)
        | none ↦ relocate_program info base limit m'
      ]
    ]

-- `elf32_load`: the entry and the end.
pub elf32_load : List ℕ → ℕ → ℕ → Mem → Mem × (ℤ ⊎ (ℕ × ℕ))
elf32_load image base limit m =
    let (m', r) = elf32_load_ex image base limit m in
    (m', elim r [ inl e ↦ inl e | inr info ↦ inr (info.entry, info.image_end) ])
