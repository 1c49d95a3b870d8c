-- ===== src/Pipe/Tests.antt =====
-- Runs of the pipes of src/pipe.c, and the theorems at them.
use muos.Common.{
  ℕ, zero, suc, ◌≡◌, refl, true, false, some, List, [], ◌∷◌, arith, length, take, replicate,
}
use muos.Common.Int.{pos, negsuc}
use muos.Pipe.{
  Pipe, zeroed, pipe_create, find_pipe, pipe_fill, put_pipe, add_writers, copy_out, put_bytes,
}
use muos.Pipe.Ring.{contents}
use muos.Pipe.Table.{here, next, writer_add, pipe_create-exhausted}
use muos.Pipe.Wake.{Reader, World, pipe_write}
use muos.Pipe.Wake.Woken.{one, woken}
use muos.Pipe.Wake.Lost.{pipe_write-lost}

-- Two bytes, 7 and 8, the second one past the end of the ring.
abbrev wrapped : Pipe
wrapped = record zeroed {
  used = true;
  read_pos = 4095;
  write_pos = 1;
  count = 2;
  buf = λ i. elim i [ zero ↦ 8 | suc j ↦ 7 ];
}

ring_runs : contents (put_bytes (5 ∷ 6 ∷ []) wrapped).0 ≡ 7 ∷ 8 ∷ 5 ∷ 6 ∷ []
unfolding contents put_bytes copy_out
ring_runs = refl

-- The last write end of a pipe in a full table is closed; `pipe_create` still fails.
pipe_create-exhausted_example :
    let closed = put_pipe (pos 0) (add_writers (negsuc 0) wrapped) (wrapped ∷ []) in
    pipe_create closed ≡ (closed, negsuc 0)
unfolding find_pipe
pipe_create-exhausted_example =
    pipe_create-exhausted {ps = wrapped ∷ []}
      (next here (writer_add (wrapped ∷ []) (pos 0) wrapped (negsuc 0) refl)) (refl, tt)

abbrev open_pipe : Pipe
open_pipe = record zeroed { used = true; writers = pos 1 }

abbrev message : List ℕ
message = replicate 200 1

abbrev reader : Reader
reader = record { waiting = true; id = pos 0; buf = 0x08050000; len = 512; eax = 0; mem = λ i. 0 }

-- 200 bytes are written to a process that waits for up to 512.
pipe_write-lost_example :
    let (w, n) = pipe_write 3 (pos 0) message (one (open_pipe ∷ []) reader) in
    (n ≡ some (length message))
    × (w.readers ≡ woken (take 128 message) reader ∷ [])
    × (pipe_fill (pos 0) w.pipes ≡ 0)
unfolding find_pipe
pipe_write-lost_example =
    pipe_write-lost 2 (open_pipe ∷ []) reader open_pipe message
      (record {
        waiting = refl;
        at_pipe = refl;
        low = omega arith;
        high = omega arith;
        asks = omega arith;
        writer = refl;
        read_in = omega arith;
      })
      (record { read_in = omega arith; fill_in = omega arith; write_at = refl }) refl (omega arith)
      (omega arith) (omega arith) (omega arith)

-- The pipe with two bytes, and a process that does not wait.
abbrev quiet : World
quiet = one (wrapped ∷ []) (record reader { waiting = false })
