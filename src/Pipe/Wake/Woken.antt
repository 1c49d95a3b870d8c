-- ===== src/Pipe/Wake/Woken.antt =====
-- A reader that waits on an empty pipe is woken by what a write of src/pipe.c puts in.
use muos.Common.{
  ℕ, zero, suc, ◌+◌, ◌-◌, ◌≤◌, ◌<◌, ◌≡◌, refl, ◌∙◌, fun_ext, true, false, some, List, [], ◌∷◌,
  arith, min, ltb, ◌==◌, if◌then◌else◌, length, lt→ltb, not_ltb, not_leb, ==_ne,
}
use muos.Common.Int.{ℤ, pos, ltb_ℤ}
use muos.Common.Mem.{Mem, blit}
use muos.Pipe.{Pipe, Pipes, buf_size, find_pipe, put_pipe, copy_out}
use muos.Pipe.Ring.{taken, take_bytes-taken, take_bytes-empty, length-copy_out, clip}
use muos.Pipe.Table.{put-find_self}
use muos.Pipe.Wake.{
  Reader, World, user_base, user_end, chunk_size, deliver, deliver_to, chunk_loop, read_check,
  wake_from, notify_pipe,
}

abbrev pub one : Pipes → Reader → World
one ps r = record { pipes = ps; readers = r ∷ [] }

abbrev pub filled : ℕ → List ℕ → Reader → Reader
filled at bytes r = record r { mem = blit r.mem at bytes }

-- The process after a read that gave it the bytes `bytes`.
abbrev pub woken : List ℕ → Reader → Reader
woken bytes r = record r { mem = blit r.mem r.buf bytes; eax = length bytes; waiting = false }

-- The process waits on the pipe `p`, with a buffer of the user's.
pub record Waits (ps : Pipes) (r : Reader) (p : Pipe) : Type 0 where
  pub waiting : r.waiting ≡ true
  pub at_pipe : find_pipe r.id ps ≡ some p
  pub low : user_base ≤ r.buf
  pub high : r.buf < user_end
  pub asks : 0 < r.len
  pub writer : ltb_ℤ (pos 0) p.writers ≡ true
  pub read_in : p.read_pos < buf_size

pub notify-idle :
    (f : ℕ) (ps : Pipes) (r : Reader) → r.waiting ≡ false → notify_pipe f (one ps r) ≡ one ps r
unfolding notify_pipe wake_from
notify-idle zero ps r h = refl
notify-idle (suc f) ps r h = ground arith

pub notify-check :
    (f : ℕ) (ps : Pipes) (r : Reader)
    → r.waiting ≡ true
    → notify_pipe (suc f) (one ps r) ≡ read_check (notify_pipe f) 0 r (one ps r)
unfolding notify_pipe wake_from
notify-check f ps r h = ground arith

pub notify-empty :
    (f : ℕ) (ps : Pipes) (r : Reader) (p : Pipe)
    → Waits ps r p
    → p.count ≡ 0
    → notify_pipe f (one ps r) ≡ one ps r
unfolding read_check
notify-empty zero ps r p w e = unfold notify_pipe in refl
notify-empty (suc f) ps r p w e =
    notify-check f ps r w.waiting ∙ ground (arith, w.at_pipe, w.writer)

module _ (g : World → World) (id : ℤ) (buf fill : ℕ) where
  pub loop-stop :
      (f done : ℕ) (w : World) → fill ≤ done → chunk_loop g f 0 id buf fill done w ≡ (w, done)
  unfolding chunk_loop
  loop-stop zero done w h = refl
  loop-stop (suc f) done w h = ground arith

  pub loop-empty :
      (f done : ℕ) (w : World) (p : Pipe)
      → done < fill
      → find_pipe id w.pipes ≡ some p
      → p.count ≡ 0
      → p.read_pos < buf_size
      → g w ≡ w
      → chunk_loop g (suc f) 0 id buf fill done w ≡ (w, done)
  unfolding chunk_loop
  loop-empty f done w p h e z k q =
      let n = if ltb chunk_size (fill - done) then chunk_size else fill - done in
      rw (
        e,
        chunk_loop,
        lt→ltb done fill h,
        take_bytes-empty n p z k,
        put-find_self id p w.pipes e,
        q,
      )

  pub loop-step :
      (f done c : ℕ) (w w' : World) (p : Pipe)
      → done < fill
      → find_pipe id w.pipes ≡ some p
      → c ≡ min chunk_size (fill - done)
      → c ≤ p.count
      → g (record w { pipes = put_pipe id (taken c p) w.pipes }) ≡ w'
      → chunk_loop g (suc f) 0 id buf fill done w
        ≡ chunk_loop g f 0 id buf fill
            (done + c)
            (deliver_to 0 (buf + done) (copy_out p.buf p.read_pos c) w')
  unfolding chunk_loop
  loop-step f done c w w' p h e ce k q =
      let n : (if ltb chunk_size (fill - done) then chunk_size else fill - done) ≡ c =
        clip (fill - done) chunk_size ∙ omega arith in
      let some' : (c == 0) ≡ false = ==_ne c 0 (λ z. absurd (omega arith)) in
      rw (
        e,
        chunk_loop,
        lt→ltb done fill h,
        n,
        take_bytes-taken c p k,
        q,
        length-copy_out p.buf p.read_pos c,
        some',
      )

pub deliver-filled :
    (at : ℕ) (bytes : List ℕ) (ps : Pipes) (r : Reader)
    → user_base ≤ at
    → at < user_end
    → deliver_to 0 at bytes (one ps r) ≡ one ps (filled at bytes r)
unfolding deliver_to deliver
deliver-filled at bytes ps r lo hi = rw (not_ltb at user_base lo, not_leb user_end at hi)

-- A longer write to the same place hides a shorter one.
pub blit-blit :
    (m : Mem) (at : ℕ) (xs ys : List ℕ)
    → length xs ≤ length ys
    → blit (blit m at xs) at ys ≡ blit m at ys
unfolding blit
blit-blit m at xs ys h = fun_ext λ i. ground arith
