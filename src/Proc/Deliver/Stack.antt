-- ===== src/Proc/Deliver/Stack.antt =====
-- The registers on the stack of a process, as src/proc.c writes them and reads them back.
use muos.Common.{
  ℕ, zero, suc, ◌+◌, ◌-◌, ◌*◌, ◌%◌, ◌^◌, ◌≤◌, ◌<◌, ◌≡◌, ◌≢◌, inr, refl, ap, ◌∙◌, sym, true, false,
  some, List, [], ◌∷◌, length, get_elem?, get_elem?-bound, get_or, All, take, drop, ==_refl, ==_ne,
  arith,
}
use muos.Common.Mem.{Mem, blit, slice, slice-blit_self, slice-blit_out, take-slice, drop-slice}
use muos.Common.Words.{le, le_value, length-le, le_value-le}
use muos.Common.Bits.{bit_at, bit_set_same, bit_clear_same}
use muos.Proc.{Proc, Registers, Kernel, sig_dfl, sig_ign, sigframe_max}
use muos.Proc.Sched.{user_base, user_sigtramp, update, user_eflags}
use muos.Proc.Deliver.{
  words, frame, write_active, write_frame, frame_base, word_at, restore_frame, return_address,
  first_due,
}

length-words : (vs : List ℕ) → length (words vs) ≡ length vs * 4
unfolding le
length-words [] = refl
length-words (v ∷ vs) = omega (arith, length-words vs)

word-words :
    (vs : List ℕ) (i v : ℕ) → get_elem? vs i ≡ some v → take 4 (drop (i * 4) (words vs)) ≡ le 4 v
unfolding le
word-words [] i v h = absurd (cc)
word-words (w ∷ vs) zero v h = ap (le 4) {x = w} {y = v} (cc)
word-words (w ∷ vs) (suc i) v h =
    ap (λ n. take 4 (drop n (words (w ∷ vs)))) {y = suc (suc (suc (suc (i * 4))))} (omega arith)
    ∙ word-words vs i v h

all-at : (vs : List ℕ) (i v : ℕ) → All (λ v. v < 2 ^ 32) vs → get_elem? vs i ≡ some v → v < 2 ^ 32
all-at [] i v a h = absurd (cc)
all-at (w ∷ vs) zero v (a, rest) h = let same : w ≡ v = ground arith in omega arith
all-at (w ∷ vs) (suc i) v (a, rest) h = all-at vs i v rest h

-- A word of an array of words.
pub word_at-words :
    (m : Mem) (base : ℕ) (vs : List ℕ) (i v : ℕ)
    → slice m base (length (words vs)) ≡ words vs
    → get_elem? vs i ≡ some v
    → v < 2 ^ 32
    → word_at m (base + i * 4) ≡ v
unfolding word_at
word_at-words m base vs i v e h b =
    ap le_value (
      sym (
        take-slice m (base + i * 4) 4 (length (words vs) - i * 4)
          (omega (arith, length-words vs, get_elem?-bound vs i v h)))
      ∙ ap (take 4) (sym (drop-slice m base (i * 4) (length (words vs))))
      ∙ ap (λ l. take 4 (drop (i * 4) l)) e
      ∙ word-words vs i v h)
    ∙ le_value-le 4 v b

-- The flags of a user: interrupts on, the I/O privilege level 0.
pub user_eflags_same :
    (v : ℕ) → bit_at 9 v ≡ true → bit_at 12 v ≡ false → bit_at 13 v ≡ false → user_eflags v ≡ v
unfolding user_eflags
user_eflags_same v h k l =
    rw (bit_set_same 9 v h, bit_clear_same 12 v k, bit_clear_same 13 v l) refl

-- Registers of a program in user mode.
pub record IsUser (r : Registers) : Type 0 where
  pub words : All (λ v. v < 2 ^ 32) (frame r)
  pub code : r.cs ≡ 0x1B
  pub stack : r.ss ≡ 0x23
  pub data_segment : r.ds ≡ 0x23
  pub extra_segment : r.es ≡ 0x23
  pub fs_set : r.fs ≢ 0
  pub fs_fits : r.fs < 2 ^ 16
  pub gs_set : r.gs ≢ 0
  pub gs_fits : r.gs < 2 ^ 16
  pub interrupts : bit_at 9 r.eflags ≡ true
  pub level_low : bit_at 12 r.eflags ≡ false
  pub level_high : bit_at 13 r.eflags ≡ false

pub segments :
    (r : Registers) (es ds cs ss : ℕ)
    → r.es ≡ es
    → r.ds ≡ ds
    → r.cs ≡ cs
    → r.ss ≡ ss
    → record r { es = es; ds = ds; cs = cs; ss = ss } ≡ r
segments r es ds cs ss a b c d = rw (sym a, sym b, sym c, sym d) refl

-- A frame of user registers, read back.
pub restore_frame-frame :
    (m : Mem) (base : ℕ) (r after : Registers)
    → slice m base 48 ≡ words (frame r)
    → IsUser r
    → restore_frame m base after ≡ r
unfolding restore_frame frame le
restore_frame-frame m base r after e u =
    rw
      (
        word 1 r.ebx refl,
        word 2 r.ecx refl,
        word 3 r.edx refl,
        word 4 r.esi refl,
        word 5 r.edi refl,
        word 6 r.ebp refl,
        word 7 r.useresp refl,
        word 8 r.eflags refl,
        word 9 r.fs refl,
        word 10 r.gs refl,
        word 11 r.eip refl,
        first,
        user_eflags_same r.eflags u.interrupts u.level_low u.level_high,
        ==_ne r.fs 0 u.fs_set,
        ==_ne r.gs 0 u.gs_set,
        small r.fs u.fs_fits,
        small r.gs u.gs_fits,
      )
      (segments r 0x23 0x23 0x1B 0x23 u.extra_segment u.data_segment u.code u.stack)
  where
    small : (v : ℕ) → v < 2 ^ 16 → v % 2 ^ 16 ≡ v
    small v h = omega arith

    word : (i v : ℕ) → get_elem? (frame r) i ≡ some v → word_at m (base + i * 4) ≡ v
    word i v h = word_at-words m base (frame r) i v e h (all-at (frame r) i v u.words h)

    first : word_at m base ≡ r.eax
    first = ap (word_at m) {y = base + 0 * 4} (omega arith) ∙ word 0 r.eax refl

pub frame_size : (r : Registers) → length (words (frame r)) ≡ 48
unfolding frame le
frame_size r = refl

memory-write_active :
    (space at : ℕ) (bytes : List ℕ) (k : Kernel)
    → (write_active space at bytes k).memory space ≡ blit (k.memory space) at bytes
unfolding write_active update
memory-write_active space at bytes k = rw (==_refl space) refl

-- The frame stands in memory after the call of a handler.
pub write_frame-frame :
    (p : Proc) (sig base : ℕ) (regs : Registers) (k : Kernel)
    → 8 ≤ base
    → slice ((write_frame p sig base regs k).memory p.space) base 48 ≡ words (frame regs)
write_frame-frame p sig base regs k h =
    rw
      (
        memory-write_active p.space (base - 8) _ _,
        memory-write_active p.space (base - 4) _ _,
        memory-write_active p.space base (words (frame regs)) k,
      )
      (slice-blit_out _ (base - 8) _ base 48
          (inr (omega (arith, length-le 4 (return_address p sig))))
        ∙ slice-blit_out _ (base - 4) _ base 48 (inr (omega (arith, length-le 4 sig)))
        ∙ ap (slice _ base) {y = length (words (frame regs))} (sym (frame_size regs))
        ∙ slice-blit_self (k.memory p.space) base (words (frame regs)))

-- A process in the slot `i` whose first signal that is due has a handler, and whose stack has room.
pub record CallsHandler (i : ℕ) (p : Proc) (regs : Registers) (k : Kernel) : Type 0 where
  pub runs : k.current_proc ≡ some i
  pub at : get_elem? k.procs i ≡ some p
  pub is_program : p.pid ≢ 1
  pub is_due : first_due p 1 31 ≢ 0
  pub not_default : get_or p.sig_handler (first_due p 1 31) 0 ≢ sig_dfl
  pub not_ignored : get_or p.sig_handler (first_due p 1 31) 0 ≢ sig_ign
  pub depth : p.sig_depth < sigframe_max
  pub frames : length p.sig_frame_sp ≡ sigframe_max
  pub from : user_base ≤ frame_base regs
  pub to : frame_base regs < user_sigtramp
