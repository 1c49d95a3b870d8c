-- ===== src/Pipe/Wake/Idle.antt =====
-- The whole `pipe_read` and `pipe_write` of src/pipe.c while no process waits in a read of a pipe.
use muos.Common.{◌≡◌, false, some, All}
use muos.Common.Int.{ℤ}
use muos.Pipe.{Pipe, find_pipe, put_pipe}
use muos.Pipe.Wake.{World}

-- No process waits.
abbrev pub IsIdle : World → Type 0
IsIdle w = All (λ r. r.waiting ≡ false) w.readers

-- Nothing but the pipe `id` is changed, which is now `p`.
abbrev pub Changed : ℤ → Pipe → World → World → Type 0
Changed id p w w' =
    (w' ≡ record w { pipes = put_pipe id p w.pipes }) × (find_pipe id w'.pipes ≡ some p)
