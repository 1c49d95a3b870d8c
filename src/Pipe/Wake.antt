-- ===== src/Pipe/Wake.antt =====
-- The whole `pipe_read` and `pipe_write`: after the ring, `proc_notify_pipe` completes the read of
-- every process that waits for a pipe, by `proc_read_check` of src/proc.c, which calls `pipe_read`
-- again. The process table is the list of the processes that wait, or waited, in `read` on a pipe,
-- each with its user memory by address; pollers and readers of the console change no pipe and
-- are left out. Calls nest on fuel.
use muos.Common.{
  ℕ, zero, suc, ◌+◌, ◌-◌, ◌*◌, ◌%◌, ◌^◌, Bool, true, false, not, ◌&&◌, ◌||◌, Option, none, some,
  List, [], ◌∷◌, ltb, leb, ◌==◌, if◌then◌else◌, length, get_elem?, set,
}
use muos.Common.Int.{ℤ, pos, negsuc, ltb_ℤ}
use muos.Common.Mem.{Mem, blit}
use muos.Pipe.{Pipe, Pipes, find_pipe, put_pipe, take_bytes, put_bytes}
pub mod Idle
pub mod Woken
pub mod Lost

-- A process in `read(fd, buf, len)` on the read end of the pipe `id`.
pub record Reader : Type 0 where
  pub waiting : Bool
  pub id : ℤ
  pub buf : ℕ
  pub len : ℕ
  pub eax : ℕ
  pub mem : Mem

pub record World : Type 0 where
  pub pipes : Pipes
  pub readers : List Reader

abbrev pub user_base : ℕ
user_base = 0x08048000

abbrev pub user_end : ℕ
user_end = 0x08848000

-- The size of `tmp`.
abbrev pub chunk_size : ℕ
chunk_size = 128

-- `proc_user_ptr` and the copy: nothing is written where the address is not the user's. The code
-- translates the first address only and copies on from there; the pages of the buffer are taken to lie
-- one behind the other in physical memory, as they do in the block of a process that shares no page.
pub deliver : ℕ → List ℕ → Reader → Reader
deliver at bytes r =
    if ltb at user_base || leb user_end at then r else record r { mem = blit r.mem at bytes }

pub deliver_to : ℕ → ℕ → List ℕ → World → World
deliver_to i at bytes w = elim (get_elem? w.readers i) [
  | none ↦ w
  | some r ↦ record w { readers = set w.readers i (deliver at bytes r) }
]

-- The system call's result, and the process is ready again.
pub finish : ℕ → ℕ → World → World
finish i eax w = elim (get_elem? w.readers i) [
  | none ↦ w
  | some r ↦ record w { readers = set w.readers i (record r { eax = eax; waiting = false }) }
]

-- The loop of `proc_read_check`, which moves at most 128 bytes a round. `notify` is the call of
-- `proc_notify_pipe` in `pipe_read`. Returns how many bytes were moved.
pub chunk_loop : (World → World) → ℕ → ℕ → ℤ → ℕ → ℕ → ℕ → World → World × ℕ
chunk_loop notify zero i id buf fill done w = (w, done)
chunk_loop notify (suc f) i id buf fill done w =
    let chunk = if ltb chunk_size (fill - done) then chunk_size else fill - done in
    elim (find_pipe id w.pipes) [
      | none ↦ (w, done)
      | some p ↦
          let (p', bytes) = take_bytes chunk p in
          let w' = notify (record w { pipes = put_pipe id p' w.pipes }) in
          let rest =
            chunk_loop notify f i id buf fill (done + length bytes)
              (deliver_to i (buf + done) bytes w') in
          if not (ltb done fill) then (w, done) else if length bytes == 0 then (w', done) else rest
    ]

-- `proc_read_check` on a process that waits for a pipe.
pub read_check : (World → World) → ℕ → Reader → World → World
read_check notify i r w =
    if (r.buf == 0) || (r.len == 0) then w else elim (find_pipe r.id w.pipes) [
      | none ↦ finish i (2 ^ 32 - 9) w
      | some p ↦
          let fill = if ltb r.len p.count then r.len else p.count in
          let (w', done) = chunk_loop notify fill i r.id r.buf fill 0 w in
          if (p.count == 0) && ltb_ℤ (pos 0) p.writers then w else finish i done w'
    ]

-- `proc_wake_readers`: the processes from number `i` on, `n` of them.
pub wake_from : (World → World) → ℕ → ℕ → World → World
wake_from notify zero i w = w
wake_from notify (suc n) i w = wake_from notify n (i + 1) (elim (get_elem? w.readers i) [
  | none ↦ w
  | some r ↦ if r.waiting then read_check notify i r w else w
])

-- `proc_notify_pipe`.
pub notify_pipe : ℕ → World → World
notify_pipe zero w = w
notify_pipe (suc f) w = wake_from (notify_pipe f) (length w.readers) 0 w

-- `pipe_read`: the bytes, or none for -1.
pub pipe_read : ℕ → ℤ → ℕ → World → World × Option (List ℕ)
pipe_read fuel id len w = elim (find_pipe id w.pipes) [
  | none ↦ (w, none)
  | some p ↦
      let (p', bytes) = take_bytes len p in
      (notify_pipe fuel (record w { pipes = put_pipe id p' w.pipes }), some bytes)
]

-- `pipe_write`: how many bytes were taken, or none for -1.
pub pipe_write : ℕ → ℤ → List ℕ → World → World × Option ℕ
pipe_write fuel id src w = elim (find_pipe id w.pipes) [
  | none ↦ (w, none)
  | some p ↦
      let (p', n) = put_bytes src p in
      (notify_pipe fuel (record w { pipes = put_pipe id p' w.pipes }), some n)
]
