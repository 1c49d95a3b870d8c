-- ===== src/Pipe/Table.antt =====
-- The table of pipes: which calls give a number out, and what becomes of the other pipes.
use muos.Common.{
  ℕ, zero, suc, ◌+◌, ◌≡◌, ◌≢◌, refl, ap, true, false, some, List, [], ◌∷◌, arith, get_elem?,
  get_elem?-set-some, set, All, Bool-cases, inl, inr, subst⁻¹,
}
use muos.Common.Int.{ℤ, pos, negsuc}
use muos.Pipe.{
  Pipe, Pipes, zeroed, create_from, pipe_create, find_pipe, put_pipe, take_bytes, put_bytes,
  add_writers,
}

pub put-put :
    (id : ℤ) (a b : Pipe) (ps : Pipes) → put_pipe id a (put_pipe id b ps) ≡ put_pipe id a ps
unfolding put_pipe
put-put (negsuc n) a b ps = refl
put-put (pos i) a b ps = go i a b ps
  where
    go : (i : ℕ) (a b : Pipe) (ps : Pipes) → set (set ps i b) i a ≡ set ps i a
    go i a b [] = refl
    go zero a b (p ∷ ps) = refl
    go (suc i) a b (p ∷ ps) = ap (λ l. p ∷ l) (go i a b ps)

pub put-find_self :
    (id : ℤ) (p : Pipe) (ps : Pipes) → find_pipe id ps ≡ some p → put_pipe id p ps ≡ ps
unfolding put_pipe find_pipe
put-find_self (negsuc n) p ps h = refl
put-find_self (pos i) p ps h = go i p ps (ground arith)
  where
    go : (i : ℕ) (p : Pipe) (ps : Pipes) → get_elem? ps i ≡ some p → set ps i p ≡ ps
    go i p [] h = refl
    go zero p (q ∷ ps) h = ap (λ x. x ∷ ps) (cc)
    go (suc i) p (q ∷ ps) h = ap (λ l. q ∷ l) (go i p ps h)

pub find-put :
    (id : ℤ) (p q : Pipe) (ps : Pipes)
    → find_pipe id ps ≡ some q
    → p.used ≡ true
    → find_pipe id (put_pipe id p ps) ≡ some p
unfolding put_pipe find_pipe
find-put (negsuc n) p q ps h u = absurd (cc)
find-put (pos i) p q ps h u = ground (arith, get_elem?-set-some i p q ps (ground arith))

pub find-used : (id : ℤ) (p : Pipe) (ps : Pipes) → find_pipe id ps ≡ some p → p.used ≡ true
unfolding find_pipe
find-used (negsuc n) p ps h = absurd (cc)
find-used (pos i) p ps h = ground arith

-- Number `i` was unused and is now an empty pipe with no writer; the others are as before.
pub record Created (ps : Pipes) (i : ℕ) (ps' : Pipes) : Type 0 where
  pub was_free : (p : Pipe) × (get_elem? ps i ≡ some p) × (p.used ≡ false)
  pub fresh : get_elem? ps' i ≡ some (record zeroed { used = true })
  pub others : (j : ℕ) → j ≢ i → get_elem? ps' j ≡ get_elem? ps j

abbrev pub Creation : Pipes → Pipes × ℤ → Type 0
Creation ps (ps', negsuc n) = (ps' ≡ ps) × All (λ p. p.used ≡ true) ps
Creation ps (ps', pos i) = Created ps i ps'

abbrev CreationFrom : ℕ → Pipes → Pipes × ℤ → Type 0
CreationFrom k ps (ps', negsuc n) = (ps' ≡ ps) × All (λ p. p.used ≡ true) ps
CreationFrom k ps (ps', pos j) = (i : ℕ) × (j ≡ k + i) × Created ps i ps'

Creation-cons :
    (k : ℕ) (p : Pipe) (ps : Pipes) (r : Pipes × ℤ)
    → p.used ≡ true
    → CreationFrom (k + 1) ps r
    → CreationFrom k (p ∷ ps) (p ∷ r.0, r.1)
Creation-cons k p ps (ps', negsuc n) u c = (ap (λ l. p ∷ l) c.0, (u, c.1))
Creation-cons k p ps (ps', pos j) u (i, e, c) =
    (suc i, omega arith, record { was_free = c.was_free; fresh = c.fresh; others = others })
  where
    others : (j : ℕ) → j ≢ suc i → get_elem? (p ∷ ps') j ≡ get_elem? (p ∷ ps) j
    others zero n = refl
    others (suc j) n = c.others j (λ e. n (ap suc e))

create_from-Creation : (k : ℕ) (ps : Pipes) → CreationFrom k ps (create_from k ps)
unfolding create_from
create_from-Creation k [] = (refl, tt)
create_from-Creation k (p ∷ ps) = elim (Bool-cases p.used) [
  | inl u ↦
      simp u (Creation-cons k p ps (create_from (k + 1) ps) u (create_from-Creation (k + 1) ps))
  | inr u ↦
      simp u (0, omega arith, record { was_free = (p, refl, u); fresh = refl; others = others })
]
  where
    others :
        (j : ℕ) → j ≢ 0 → get_elem? (record zeroed { used = true } ∷ ps) j ≡ get_elem? (p ∷ ps) j
    others zero n = absurd (n refl)
    others (suc j) n = refl

Creation-zero : (ps : Pipes) (r : Pipes × ℤ) → CreationFrom 0 ps r → Creation ps r
Creation-zero ps (ps', negsuc n) c = c
Creation-zero ps (ps', pos j) (i, e, c) = subst⁻¹ (λ q. Created ps q ps') (omega arith) c

-- `pipe_create` gives out an unused pipe, empty and with no writer, and leaves all others; or every
-- pipe is in use, and it returns -1 and changes nothing.
pub pipe_create-Creation : (ps : Pipes) → Creation ps (pipe_create ps)
unfolding pipe_create
pipe_create-Creation ps = Creation-zero ps (create_from 0 ps) (create_from-Creation 0 ps)

-- Any call of src/pipe.c after `pipe_init`.
pub data Step : Pipes → Pipes → Type 0 where
  create : (ps : Pipes) → Step ps (pipe_create ps).0
  read :
      (ps : Pipes) (id : ℤ) (p : Pipe) (len : ℕ)
      → find_pipe id ps ≡ some p
      → Step ps (put_pipe id (take_bytes len p).0 ps)
  write :
      (ps : Pipes) (id : ℤ) (p : Pipe) (src : List ℕ)
      → find_pipe id ps ≡ some p
      → Step ps (put_pipe id (put_bytes src p).0 ps)
  writer_add :
      (ps : Pipes) (id : ℤ) (p : Pipe) (delta : ℤ)
      → find_pipe id ps ≡ some p
      → Step ps (put_pipe id (add_writers delta p) ps)

pub data Reach (ps : Pipes) : Pipes → Type 0 where
  here : Reach ps ps
  next : {qs rs : Pipes} → Reach ps qs → Step qs rs → Reach ps rs

abbrev pub AllUsed : Pipes → Type 0
AllUsed ps = All (λ p. p.used ≡ true) ps

create-full : (i : ℕ) (ps : Pipes) → AllUsed ps → create_from i ps ≡ (ps, negsuc 0)
unfolding create_from
create-full i [] h = refl
create-full i (p ∷ ps) h = rw (create-full (i + 1) ps h.1, h.0)

set-AllUsed : (i : ℕ) (p : Pipe) (ps : Pipes) → p.used ≡ true → AllUsed ps → AllUsed (set ps i p)
set-AllUsed i p [] u h = tt
set-AllUsed zero p (q ∷ ps) u h = (u, h.1)
set-AllUsed (suc i) p (q ∷ ps) u h = (h.0, set-AllUsed i p ps u h.1)

put-AllUsed :
    (id : ℤ) (p : Pipe) (ps : Pipes) → p.used ≡ true → AllUsed ps → AllUsed (put_pipe id p ps)
unfolding put_pipe
put-AllUsed (negsuc n) p ps u h = h
put-AllUsed (pos i) p ps u h = set-AllUsed i p ps u h

Step-AllUsed : {ps qs : Pipes} → Step ps qs → AllUsed ps → AllUsed qs
unfolding pipe_create take_bytes put_bytes add_writers
Step-AllUsed (create ps) h = rw (create-full 0 ps h) h
Step-AllUsed (read ps id p len e) h = put-AllUsed id _ ps (find-used id p ps e) h
Step-AllUsed (write ps id p src e) h = put-AllUsed id _ ps (find-used id p ps e) h
Step-AllUsed (writer_add ps id p delta e) h = put-AllUsed id _ ps (find-used id p ps e) h

Reach-AllUsed : {ps qs : Pipes} → Reach ps qs → AllUsed ps → AllUsed qs
Reach-AllUsed here h = h
Reach-AllUsed (next r s) h = Step-AllUsed s (Reach-AllUsed r h)

-- A pipe is never given back: once every pipe is in use, `pipe_create` fails and changes nothing,
-- whatever calls come between, closing the last write end included.
pub pipe_create-exhausted :
    {ps qs : Pipes} → Reach ps qs → AllUsed ps → pipe_create qs ≡ (qs, negsuc 0)
unfolding pipe_create
pipe_create-exhausted r h = create-full 0 _ (Reach-AllUsed r h)
