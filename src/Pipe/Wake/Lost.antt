-- ===== src/Pipe/Wake/Lost.antt =====
-- What a write gives to a process that waits in `read`.
use native.Mathlib.Decide.{dec_le}
use muos.Common.{
  ℕ, zero, suc, ◌+◌, ◌-◌, ◌*◌, ◌≤◌, ◌<◌, ◌≡◌, refl, sym, ap, ◌∙◌, true, false, some, List, [], ◌∷◌,
  arith, min, take, length, not_ltb, ==_ne,
}
use muos.Common.Int.{ℤ, pos, ltb_ℤ}
use muos.Common.Mem.{blit}
use muos.Pipe.{Pipe, Pipes, buf_size, find_pipe, put_pipe, copy_out, put_bytes, pipe_fill}
use muos.Pipe.Ring.{
  IsRing, put_bytes_lem, put_bytes-empty, put_bytes-fields, copy_out-contents, length-contents,
  taken, length-copy_out,
}
use muos.Pipe.Table.{put-put, find-put, find-used}
use muos.Pipe.Wake.{
  Reader, World, chunk_size, finish, chunk_loop, read_check, notify_pipe, pipe_write,
}
use muos.Pipe.Wake.Woken.{
  one, filled, woken, Waits, notify-idle, notify-check, notify-empty, loop-stop, loop-empty,
  loop-step, deliver-filled, blit-blit,
}

-- The process that waits is served by the first 128 bytes.
abbrev pub served : ℕ → Pipe → List ℕ
served n p = copy_out p.buf p.read_pos (min n chunk_size)

check-finish :
    (g : World → World) (ps : Pipes) (r : Reader) (p : Pipe) (w : World) (done : ℕ)
    → Waits ps r p
    → 0 < p.count
    → p.count ≤ r.len
    → chunk_loop g p.count 0 r.id r.buf p.count 0 (one ps r) ≡ (w, done)
    → read_check g 0 r (one ps r) ≡ finish 0 done w
unfolding read_check
check-finish g ps r p w done v some' fits q = rw (
  ==_ne r.buf 0 (λ z. absurd (omega (arith, v.low))),
  ==_ne r.len 0 (λ z. absurd (omega arith)),
  v.at_pipe,
  not_ltb r.len p.count fits,
  ==_ne p.count 0 (λ z. absurd (omega arith)),
  q,
)

taken-Waits :
    {ps : Pipes} {r : Reader} {p : Pipe} (n : ℕ)
    → Waits ps r p
    → Waits (put_pipe r.id (taken n p) ps) r (taken n p)
unfolding taken
taken-Waits {ps} {r} {p} n w = record {
  waiting = w.waiting;
  at_pipe = find-put r.id _ p ps w.at_pipe (find-used r.id p ps w.at_pipe);
  low = w.low;
  high = w.high;
  asks = w.asks;
  writer = w.writer;
  read_in = omega arith;
}

taken_count : (n : ℕ) (p : Pipe) → (taken n p).count ≡ p.count - n
unfolding taken
taken_count n p = refl

taken_used : (n : ℕ) (p : Pipe) → (taken n p).used ≡ p.used
unfolding taken
taken_used n p = refl

taken_read_in : (n : ℕ) (p : Pipe) → (taken n p).read_pos < buf_size
unfolding taken
taken_read_in n p = omega arith

taken-taken : (n c : ℕ) (p : Pipe) → c ≤ n → taken (n - c) (taken c p) ≡ taken n p
unfolding taken
taken-taken n c p h = ground arith

-- The last steps of a check whose loop has copied `bytes`, over what an inner check copied.
finish-filled :
    (ps : Pipes) (r : Reader) (bytes : List ℕ)
    → finish 0 (length bytes) (one ps (filled (r.buf + 0) bytes r)) ≡ one ps (woken bytes r)
unfolding finish
finish-filled ps r bytes =
    ap (λ at. one ps (record r { waiting = false; eax = length bytes; mem = blit r.mem at bytes }))
      (omega arith)

finish-refilled :
    (ps : Pipes) (r : Reader) (inner bytes : List ℕ)
    → length inner ≤ length bytes
    → finish 0 (length bytes) (one ps (filled (r.buf + 0) bytes (woken inner r)))
      ≡ one ps (woken bytes r)
unfolding finish
finish-refilled ps r inner bytes h =
    ap
      (λ at. one ps (record r {
        waiting = false;
        eax = length bytes;
        mem = blit (blit r.mem r.buf inner) at bytes;
      }))
      {y = r.buf} (omega arith)
    ∙ ap (λ m. one ps (record r { waiting = false; eax = length bytes; mem = m }))
        (blit-blit r.mem r.buf inner bytes h)

-- Nothing is left for an inner check.
drain-small :
    (g : World → World) (ps : Pipes) (r : Reader) (p : Pipe)
    → Waits ps r p
    → 0 < p.count
    → p.count ≤ chunk_size
    → g (one (put_pipe r.id (taken p.count p) ps) r) ≡ one (put_pipe r.id (taken p.count p) ps) r
    → chunk_loop g p.count 0 r.id r.buf p.count 0 (one ps r) ≡ (
      one
          (put_pipe r.id (taken p.count p) ps)
          (filled (r.buf + 0) (copy_out p.buf p.read_pos p.count) r),
      p.count,
    )
drain-small g ps r p w some' small q =
    let n = p.count in
    let ps' = put_pipe r.id (taken n p) ps in
    ap (λ k. chunk_loop g k 0 r.id r.buf n 0 (one ps r)) {y = suc (n - 1)} (omega arith)
    ∙ loop-step g r.id r.buf n (n - 1) 0 n (one ps r) (one ps' r) p some' w.at_pipe (omega arith)
        (omega arith) q
    ∙ ap (chunk_loop g (n - 1) 0 r.id r.buf n (0 + n)) (
        deliver-filled (r.buf + 0) (copy_out p.buf p.read_pos n) ps' r (omega (arith, w.low))
          (omega (arith, w.high)))
    ∙ loop-stop g r.id r.buf n (n - 1) (0 + n) _ (omega arith)
    ∙ ap (λ k. (one ps' (filled (r.buf + 0) (copy_out p.buf p.read_pos n) r), k)) (omega arith)

-- An inner check has emptied the pipe and given its bytes to the process, at the same place.
drain-large :
    (g : World → World) (ps : Pipes) (r r' : Reader) (p p' : Pipe)
    → Waits ps r p
    → chunk_size < p.count
    → let ps' = put_pipe r.id p' ps in
      g (one (put_pipe r.id (taken chunk_size p) ps) r) ≡ one ps' r'
      → g (one ps' (filled (r.buf + 0) (copy_out p.buf p.read_pos chunk_size) r'))
        ≡ one ps' (filled (r.buf + 0) (copy_out p.buf p.read_pos chunk_size) r')
      → p'.used ≡ true
      → p'.count ≡ 0
      → p'.read_pos < buf_size
      → chunk_loop g p.count 0 r.id r.buf p.count 0 (one ps r)
        ≡ (one ps' (filled (r.buf + 0) (copy_out p.buf p.read_pos chunk_size) r'), chunk_size)
drain-large g ps r r' p p' w large q idle u z k =
    let n = p.count in
    let ps' = put_pipe r.id p' ps in
    ap (λ k. chunk_loop g k 0 r.id r.buf n 0 (one ps r)) {y = suc (suc (n - 2))} (omega arith)
    ∙ loop-step g r.id r.buf n (suc (n - 2)) 0 chunk_size (one ps r) (one ps' r') p (omega arith)
        w.at_pipe (omega arith) (omega arith) q
    ∙ ap (chunk_loop g (suc (n - 2)) 0 r.id r.buf n chunk_size) (
        deliver-filled (r.buf + 0) (copy_out p.buf p.read_pos chunk_size) ps' r'
          (omega (arith, w.low)) (omega (arith, w.high)))
    ∙ loop-empty g r.id r.buf n (n - 2) chunk_size _ p' large (find-put r.id p' p ps w.at_pipe u) z
        k idle

notify-drain :
    (f : ℕ) (ps : Pipes) (r : Reader) (p : Pipe)
    → Waits ps r p
    → 0 < p.count
    → p.count ≤ r.len
    → p.count ≤ chunk_size * f
    → notify_pipe (suc f) (one ps r)
      ≡ one (put_pipe r.id (taken p.count p) ps) (woken (served p.count p) r)
notify-drain zero ps r p w some' fits fuel = absurd (omega arith)
notify-drain (suc f) ps r p w some' fits fuel = elim (dec_le p.count chunk_size) [
  | yes small ↦
      let bytes = copy_out p.buf p.read_pos p.count in
      notify-check (suc f) ps r w.waiting
      ∙ check-finish (notify_pipe (suc f)) ps r p _ p.count w some' fits (
          drain-small (notify_pipe (suc f)) ps r p w some' small (
            notify-empty (suc f) _ r (taken p.count p) (taken-Waits p.count w)
              (taken_count p.count p ∙ omega arith)))
      ∙ ap (λ k. finish 0 k (one (put_pipe r.id (taken p.count p) ps) (filled (r.buf + 0) bytes r)))
          (sym (length-copy_out p.buf p.read_pos p.count))
      ∙ finish-filled _ r bytes
      ∙ ap (λ k. one (put_pipe r.id (taken p.count p) ps) (woken (copy_out p.buf p.read_pos k) r))
          (omega arith)
  | no large ↦
      let n = p.count in
      let p₁ = taken chunk_size p in
      let ps₁ = put_pipe r.id p₁ ps in
      let left : p₁.count ≡ n - chunk_size = taken_count chunk_size p in
      let inner = served p₁.count p₁ in
      let bytes = copy_out p.buf p.read_pos chunk_size in
      let all : taken p₁.count p₁ ≡ taken n p =
        ap (λ k. taken k p₁) left ∙ taken-taken n chunk_size p (omega arith) in
      let ps' = put_pipe r.id (taken n p) ps in
      let below : notify_pipe (suc f) (one ps₁ r) ≡ one ps' (woken inner r) =
        notify-drain f ps₁ r p₁ (taken-Waits chunk_size w) (omega arith) (omega arith) (omega arith)
        ∙ ap (λ qs. one qs (woken inner r))
            (put-put r.id (taken p₁.count p₁) p₁ ps ∙ ap (λ q. put_pipe r.id q ps) all) in
      notify-check (suc f) ps r w.waiting
      ∙ check-finish (notify_pipe (suc f)) ps r p _ chunk_size w some' fits (
          drain-large (notify_pipe (suc f)) ps r (woken inner r) p (taken n p) w (omega arith) below
            (notify-idle (suc f) ps' _ refl) (taken_used n p ∙ find-used r.id p ps w.at_pipe)
            (taken_count n p ∙ omega arith) (taken_read_in n p))
      ∙ ap (λ k. finish 0 k (one ps' (filled (r.buf + 0) bytes (woken inner r))))
          (sym (length-copy_out p.buf p.read_pos chunk_size))
      ∙ finish-refilled ps' r inner bytes (
          omega (
            arith,
            length-copy_out p₁.buf p₁.read_pos (min p₁.count chunk_size),
            length-copy_out p.buf p.read_pos chunk_size,
          ))
      ∙ ap (λ k. one ps' (woken (copy_out p.buf p.read_pos k) r)) (omega arith)
]

emptied :
    (id : ℤ) (q t : Pipe) (ps : Pipes)
    → find_pipe id ps ≡ some q
    → t.used ≡ true
    → t.count ≡ 0
    → pipe_fill id (put_pipe id t ps) ≡ 0
unfolding pipe_fill
emptied id q t ps h u z = rw (find-put id t q ps h u, pipe_fill) z

-- A process waits in `read` on an empty pipe with room for all that is written. The writer is told
-- that every byte was taken, the pipe is empty afterwards, and the reader has no more than the
-- first 128 bytes: of a longer write the rest is lost.
pub pipe_write-lost :
    (f : ℕ) (ps : Pipes) (r : Reader) (p : Pipe) (src : List ℕ)
    → Waits ps r p
    → IsRing p
    → p.count ≡ 0
    → 0 < length src
    → length src ≤ buf_size
    → length src ≤ r.len
    → length src ≤ chunk_size * f
    → let (w, n) = pipe_write (suc f) r.id src (one ps r) in
      (n ≡ some (length src))
      × (w.readers ≡ woken (take chunk_size src) r ∷ [])
      × (pipe_fill r.id w.pipes ≡ 0)
unfolding pipe_write
pipe_write-lost f ps r p src w ring e some' room fits fuel =
    let q = (put_bytes src p).0 in
    let ps' = put_pipe r.id q ps in
    let written = put_bytes-empty src ring e room in
    let fields = put_bytes-fields src p in
    let count : q.count ≡ length src = sym (length-contents q) ∙ ap length written.1 in
    let used : q.used ≡ true = fields.0 ∙ find-used r.id p ps w.at_pipe in
    let found = find-put r.id q p ps w.at_pipe used in
    let waits : Waits ps' r q = record {
      waiting = w.waiting;
      at_pipe = found;
      low = w.low;
      high = w.high;
      asks = w.asks;
      writer = ap (ltb_ℤ (pos 0)) fields.1 ∙ w.writer;
      read_in = (put_bytes_lem src ring).0.read_in;
    } in
    let drained = notify-drain f ps' r q waits (omega arith) (omega arith) (omega arith) in
    let bytes : served q.count q ≡ take chunk_size src =
      copy_out-contents q chunk_size ∙ ap (take chunk_size) written.1 in
    rw (w.at_pipe, pipe_write, drained)
      (
        ap some written.0,
        ap (λ b. woken b r ∷ []) bytes,
        emptied r.id q (taken q.count q) ps' found (taken_used q.count q ∙ used)
            (taken_count q.count q ∙ omega arith),
      )
