-- ===== src/Pipe.antt =====
-- The pipes of src/pipe.c: eight rings of 4096 bytes with a count of their write ends.
-- `take_bytes` and `put_bytes` are `pipe_read` and `pipe_write` up to their last statement, the call
-- of `proc_notify_pipe`; `Pipe/Wake` has the whole calls, with what the wake-up does to the ring.
pub mod Ring
pub mod Table
pub mod Wake
mod Tests
use muos.Common.{
  ℕ, zero, suc, ◌+◌, ◌-◌, ◌%◌, Bool, true, false, ◌&&◌, Option, none, some, List, [], ◌∷◌, min, ltb,
  leb, ◌==◌, if◌then◌else◌, length, get_elem?, set, take,
}
use muos.Common.Int.{ℤ, pos, negsuc, ◌+ℤ◌, ltb_ℤ}
use muos.Common.Mem.{Mem}

abbrev pub pipe_max : ℕ
pipe_max = 8

abbrev pub buf_size : ℕ
buf_size = 4096

-- `pipe_t`
pub record Pipe : Type 0 where
  pub used : Bool
  pub read_pos : ℕ
  pub write_pos : ℕ
  pub count : ℕ
  pub writers : ℤ
  pub buf : Mem

-- A pipe after `memset`.
abbrev pub zeroed : Pipe
zeroed = record {
  used = false;
  read_pos = 0;
  write_pos = 0;
  count = 0;
  writers = pos 0;
  buf = λ i. 0;
}

abbrev pub Pipes : Type 0
Pipes = List Pipe

pub zeros : ℕ → Pipes
zeros zero = []
zeros (suc n) = zeroed ∷ zeros n

pub pipe_init : Pipes
pipe_init = zeros pipe_max

-- The first unused pipe is zeroed and marked used. Returns its number, or -1.
pub create_from : ℕ → Pipes → Pipes × ℤ
create_from i [] = ([], negsuc 0)
create_from i (p ∷ ps) =
    let (ps', id) = create_from (i + 1) ps in
    if p.used then (p ∷ ps', id) else (record zeroed { used = true } ∷ ps, pos i)

pub pipe_create : Pipes → Pipes × ℤ
unfolding create_from
pipe_create ps = create_from 0 ps

-- The pipe that a number stands for, if it is valid.
pub find_pipe : ℤ → Pipes → Option Pipe
find_pipe (negsuc n) ps = none
find_pipe (pos i) ps = elim (get_elem? ps i) [
  | none ↦ none
  | some p ↦ if p.used then some p else none
]

pub pipe_valid : ℤ → Pipes → Bool
unfolding find_pipe
pipe_valid id ps = elim (find_pipe id ps) [ none ↦ false | some p ↦ true ]

pub pipe_fill : ℤ → Pipes → ℕ
unfolding find_pipe
pipe_fill id ps = elim (find_pipe id ps) [ none ↦ 0 | some p ↦ p.count ]

pub pipe_writers : ℤ → Pipes → ℤ
unfolding find_pipe
pipe_writers id ps = elim (find_pipe id ps) [ none ↦ pos 0 | some p ↦ p.writers ]

pub put_pipe : ℤ → Pipe → Pipes → Pipes
put_pipe (negsuc n) p ps = ps
put_pipe (pos i) p ps = set ps i p

-- `pipe_writer_add` up to its notification: the count of write ends does not fall below 0.
pub add_writers : ℤ → Pipe → Pipe
add_writers delta p =
    let n = p.writers +ℤ delta in record p { writers = if ltb_ℤ n (pos 0) then pos 0 else n }

-- The copy loop of `pipe_read`: `n` bytes from the ring position `at` on.
pub copy_out : Mem → ℕ → ℕ → List ℕ
copy_out buf at zero = []
copy_out buf at (suc n) = buf (at % buf_size) ∷ copy_out buf (at + 1) n

-- The copy loop of `pipe_write`.
pub copy_in : Mem → ℕ → List ℕ → Mem
copy_in buf at [] = buf
copy_in buf at (x ∷ xs) = copy_in (λ i. if i == at % buf_size then x else buf i) (at + 1) xs

-- `pipe_read` on a valid pipe before its call of `proc_notify_pipe`: the pipe, and the bytes that it
-- returns.
pub take_bytes : ℕ → Pipe → Pipe × List ℕ
unfolding copy_out
take_bytes len p =
    let n = if ltb p.count len then p.count else len in
    (
      record p { read_pos = (p.read_pos + n) % buf_size; count = p.count - n },
      copy_out p.buf p.read_pos n,
    )

-- `pipe_write` on a valid pipe before its call of `proc_notify_pipe`: the pipe, and how many bytes it
-- took.
pub put_bytes : List ℕ → Pipe → Pipe × ℕ
unfolding copy_in
put_bytes src p =
    let space = buf_size - p.count in
    let n = if ltb space (length src) then space else length src in
    (
      record p {
        buf = copy_in p.buf p.write_pos (take n src);
        write_pos = (p.write_pos + n) % buf_size;
        count = p.count + n;
      },
      n,
    )
