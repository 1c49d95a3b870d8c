-- ===== src/Pipe/Ring.antt =====
-- A pipe's ring is a first-in first-out queue of at most 4096 bytes.
use muos.Common.{
  ltb→lt, ltb-false, ℕ, zero, suc, ◌+◌, ◌-◌, ◌%◌, ◌≤◌, ◌<◌, ◌≡◌, ◌≢◌, refl, sym, ap, ap₂, ◌∙◌, inl,
  inr, List, [], ◌∷◌, ◌++◌, arith, min, ltb, ◌==◌, ==_refl, get_or, if◌then◌else◌, length, take,
  drop, take-all, take-min, length-take, Bool-cases,
}
use muos.Common.Mem.{Mem}
use muos.Pipe.{Pipe, buf_size, copy_out, copy_in, take_bytes, put_bytes}

-- The positions are inside the ring and differ by the count.
pub record IsRing (p : Pipe) : Type 0 where
  pub read_in : p.read_pos < buf_size
  pub fill_in : p.count ≤ buf_size
  pub write_at : p.write_pos ≡ (p.read_pos + p.count) % buf_size

-- The bytes that have been written and not yet read, oldest first.
unfoldable pub contents : Pipe → List ℕ
contents p = copy_out p.buf p.read_pos p.count

pub length-copy_out : (buf : Mem) (at n : ℕ) → length (copy_out buf at n) ≡ n
unfolding copy_out
length-copy_out buf at zero = refl
length-copy_out buf at (suc n) = ap suc (length-copy_out buf (at + 1) n)

-- Only the position modulo the ring's size matters.
copy_out-mod :
    (buf : Mem) (at k n : ℕ) → at % buf_size ≡ k % buf_size → copy_out buf at n ≡ copy_out buf k n
unfolding copy_out
copy_out-mod buf at k zero h = refl
copy_out-mod buf at k (suc n) h =
    ap₂ ◌∷◌ (ap buf h) (copy_out-mod buf (at + 1) (k + 1) n (omega arith))

pub copy_out-take :
    (buf : Mem) (at n k : ℕ) → k ≤ n → take k (copy_out buf at n) ≡ copy_out buf at k
unfolding copy_out
copy_out-take buf at n zero h = refl
copy_out-take buf at zero (suc k) h = absurd (omega arith)
copy_out-take buf at (suc n) (suc k) h =
    ap (λ l. buf (at % buf_size) ∷ l) (copy_out-take buf (at + 1) n k (omega arith))

copy_out-drop :
    (buf : Mem) (at n k : ℕ) → k ≤ n → drop k (copy_out buf at n) ≡ copy_out buf (at + k) (n - k)
unfolding copy_out
copy_out-drop buf at n zero h = ap₂ (copy_out buf) (omega arith) (omega arith)
copy_out-drop buf at zero (suc k) h = absurd (omega arith)
copy_out-drop buf at (suc n) (suc k) h =
    copy_out-drop buf (at + 1) n k (omega arith) ∙ ap₂ (copy_out buf) (omega arith) (omega arith)

copy_out-append :
    (buf : Mem) (at n k : ℕ)
    → copy_out buf at (n + k) ≡ copy_out buf at n ++ copy_out buf (at + n) k
unfolding copy_out
copy_out-append buf at zero k = ap₂ (copy_out buf) (omega arith) (omega arith)
copy_out-append buf at (suc n) k =
    ap (copy_out buf at) {y = suc (n + k)} (omega arith)
    ∙ ap (λ l. buf (at % buf_size) ∷ l)
        (copy_out-append buf (at + 1) n k
          ∙ ap (λ q. copy_out buf (at + 1) n ++ copy_out buf q k) (omega arith))

-- A write that stays `gap` places before a window, going round, does not show in it.
copy_out-write :
    (buf : Mem) (x at q n : ℕ)
    → ((i : ℕ) → i < n → (at + i) % buf_size ≢ q % buf_size)
    → copy_out (λ i. if i == q % buf_size then x else buf i) at n ≡ copy_out buf at n
unfolding copy_out
copy_out-write buf x at q zero h = refl
copy_out-write buf x at q (suc n) h = ap₂ ◌∷◌ (ground (arith, first)) (
    copy_out-write buf x (at + 1) q n
      (λ i lt e. h (suc i) (omega arith) (ap (λ k. k % buf_size) (omega arith) ∙ e)))
  where
    first : at % buf_size ≢ q % buf_size
    first e = h 0 (omega arith) (ap (λ k. k % buf_size) (omega arith) ∙ e)

-- What is copied in at `q` does not show in a window that it does not reach.
copy_in_out :
    (buf : Mem) (q at n : ℕ) (xs : List ℕ)
    → at + n ≤ q
    → q + length xs ≤ at + buf_size
    → copy_out (copy_in buf q xs) at n ≡ copy_out buf at n
unfolding copy_in
copy_in_out buf q at n [] h k = refl
copy_in_out buf q at n (x ∷ xs) h k =
    copy_in_out (λ i. if i == q % buf_size then x else buf i) (q + 1) at n xs (omega arith)
      (omega arith)
    ∙ copy_out-write buf x at q n (λ i lt e. absurd (omega arith))

copy_in_self :
    (buf : Mem) (q : ℕ) (xs : List ℕ)
    → length xs ≤ buf_size
    → copy_out (copy_in buf q xs) q (length xs) ≡ xs
unfolding copy_out copy_in
copy_in_self buf q [] h = refl
copy_in_self buf q (x ∷ xs) h =
    let buf' : Mem = λ i. if i == q % buf_size then x else buf i in
    ap₂ ◌∷◌
      (ap (λ l. get_or l 0 0) (copy_in_out buf' (q + 1) q 1 xs (omega arith) (omega arith))
        ∙ rw (==_refl (q % buf_size)))
      (copy_in_self buf' (q + 1) xs (omega arith))

copy_in-mod :
    (buf : Mem) (at k : ℕ) (xs : List ℕ)
    → at % buf_size ≡ k % buf_size
    → copy_in buf at xs ≡ copy_in buf k xs
unfolding copy_in
copy_in-mod buf at k [] h = refl
copy_in-mod buf at k (x ∷ xs) h =
    ap (λ q. copy_in (λ i. if i == q then x else buf i) (at + 1) xs) h
    ∙ copy_in-mod (λ i. if i == k % buf_size then x else buf i) (at + 1) (k + 1) xs (omega arith)

pub length-contents : (p : Pipe) → length (contents p) ≡ p.count
unfolding contents
length-contents p = length-copy_out p.buf p.read_pos p.count

pub clip : (a b : ℕ) → (if ltb b a then b else a) ≡ min a b
clip a b = elim (Bool-cases (ltb b a)) [
  | inl e ↦ rw e (omega (arith, ltb→lt b a e))
  | inr e ↦ rw e (omega (arith, ltb-false b a e))
]

min-eq : (a b : ℕ) → a ≤ b → min a b ≡ a
min-eq a b h = omega arith

unfoldable pub taken : (n : ℕ) (p : Pipe) → Pipe
taken n p = record p { read_pos = (p.read_pos + n) % buf_size; count = p.count - n }

pub taken-contents : (n : ℕ) (p : Pipe) → n ≤ p.count → contents (taken n p) ≡ drop n (contents p)
unfolding taken contents
taken-contents n p h =
    copy_out-mod p.buf ((p.read_pos + n) % buf_size) (p.read_pos + n) (p.count - n) (omega arith)
    ∙ sym (copy_out-drop p.buf p.read_pos p.count n h)

-- The ring part of `pipe_read` takes the oldest bytes, as many as are asked for and there, and leaves the others in
-- order; the positions stay inside the ring.
pub take_bytes_lem :
    (len : ℕ) {p : Pipe}
    → IsRing p
    → let (p', bytes) = take_bytes len p in
      IsRing p'
      × (bytes ≡ take (min len (length (contents p))) (contents p))
      × (contents p' ≡ drop (min len (length (contents p))) (contents p))
unfolding take_bytes taken
take_bytes_lem len {p} r =
    rw (length-contents p, clip len p.count)
      (
        record { read_in = omega arith; fill_in = omega arith; write_at = omega arith },
        unfold contents in
            sym (copy_out-take p.buf p.read_pos p.count (min len p.count) (omega arith)),
        taken-contents (min len p.count) p (omega arith),
      )

put : (xs : List ℕ) (p : Pipe) → Pipe
put xs p = record p {
  buf = copy_in p.buf p.write_pos xs;
  write_pos = (p.write_pos + length xs) % buf_size;
  count = p.count + length xs;
}

put-contents :
    (xs : List ℕ) {p : Pipe}
    → IsRing p
    → length xs ≤ buf_size - p.count
    → contents (put xs p) ≡ contents p ++ xs
unfolding put contents
put-contents xs {p} r h =
    let end = p.read_pos + p.count in
    let buf' = copy_in p.buf end xs in
    ap (λ b. copy_out b p.read_pos (p.count + length xs))
      (copy_in-mod p.buf p.write_pos end xs (omega arith))
    ∙ copy_out-append buf' p.read_pos p.count (length xs)
    ∙ ap₂ ◌++◌ (copy_in_out p.buf end p.read_pos p.count xs (omega arith) (omega arith))
        (copy_in_self p.buf end xs (omega arith))

-- The ring part of `pipe_write` appends the bytes that fit and returns their number; the positions stay inside the
-- ring.
pub put_bytes_lem :
    (src : List ℕ) {p : Pipe}
    → IsRing p
    → let (p', n) = put_bytes src p in
      IsRing p'
      × (n ≡ min (length src) (buf_size - length (contents p)))
      × (contents p' ≡ contents p ++ take n src)
unfolding put_bytes
put_bytes_lem src {p} r =
    let n = min (length src) (buf_size - p.count) in
    let len : length (take n src) ≡ n = omega (arith, length-take n src) in
    rw (length-contents p, clip (length src) (buf_size - p.count))
      (
        record { read_in = r.read_in; fill_in = omega arith; write_at = omega arith },
        refl,
        ap
              (λ k. contents (record p {
                buf = copy_in p.buf p.write_pos (take n src);
                write_pos = (p.write_pos + k) % buf_size;
                count = p.count + k;
              }))
              (sym len)
            ∙ unfold put in put-contents (take n src) r (omega arith),
      )

-- A read of no more than there is.
pub take_bytes-taken :
    (n : ℕ) (p : Pipe) → n ≤ p.count → take_bytes n p ≡ (taken n p, copy_out p.buf p.read_pos n)
unfolding take_bytes taken
take_bytes-taken n p h = rw (clip n p.count, min-eq n p.count h)

-- A read of an empty ring.
pub take_bytes-empty :
    (n : ℕ) (p : Pipe) → p.count ≡ 0 → p.read_pos < buf_size → take_bytes n p ≡ (p, [])
unfolding take_bytes copy_out
take_bytes-empty n p h k = ground (arith, clip n p.count)

-- A write into an empty ring with room for all of it.
pub put_bytes-empty :
    (src : List ℕ) {p : Pipe}
    → IsRing p
    → p.count ≡ 0
    → length src ≤ buf_size
    → ((put_bytes src p).1 ≡ length src) × (contents (put_bytes src p).0 ≡ src)
put_bytes-empty src {p} r e h =
    let l = put_bytes_lem src r in
    let n : (put_bytes src p).1 ≡ length src = omega (arith, l.1, length-contents p) in
    (n, l.2 ∙ ap₂ ◌++◌ (nothing p e) (take-all _ src (omega arith)))
  where
    nothing : (p : Pipe) → p.count ≡ 0 → contents p ≡ []
    nothing p e = unfold contents copy_out in ap (copy_out p.buf p.read_pos) e

pub copy_out-contents :
    (p : Pipe) (k : ℕ) → copy_out p.buf p.read_pos (min p.count k) ≡ take k (contents p)
unfolding contents
copy_out-contents p k =
    sym (copy_out-take p.buf p.read_pos p.count (min p.count k) (omega arith))
    ∙ ap (λ n. take (min n k) (copy_out p.buf p.read_pos p.count))
        (sym (length-copy_out p.buf p.read_pos p.count))
    ∙ take-min k (copy_out p.buf p.read_pos p.count)

pub put_bytes-fields :
    (src : List ℕ) (p : Pipe)
    → ((put_bytes src p).0.used ≡ p.used) × ((put_bytes src p).0.writers ≡ p.writers)
unfolding put_bytes
put_bytes-fields src p = (refl, refl)
