-- ===== src/Keyboard/Ring.antt =====
-- The ring of characters is a first-in first-out queue of at most 255.
use muos.Common.{
  ℕ, zero, suc, ◌+◌, ◌-◌, ◌%◌, ◌<◌, ◌≡◌, refl, ap, ap₂, ◌∙◌, true, false, inl, inr, Option, none,
  some, List, [], ◌∷◌, ◌++◌, ◌==◌, if◌then◌else◌, arith, Bool-cases, ==_ne, subst⁻¹,
}
use muos.Common.Mem.{Mem}
use muos.Keyboard.{Keyboard, buffer_size, is_full, store_char, keyboard_getchar}

-- The positions are inside the ring.
pub record IsKeyboard (k : Keyboard) : Type 0 where
  pub head_in : k.head < buffer_size
  pub tail_in : k.tail < buffer_size

-- How many characters wait, and which, oldest first.
abbrev pub waiting : Keyboard → ℕ
waiting k = (k.head + buffer_size - k.tail) % buffer_size

unfoldable pub ring : Mem → ℕ → ℕ → List ℕ
ring m at zero = []
ring m at (suc n) = m (at % buffer_size) ∷ ring m (at + 1) n

abbrev pub typed : Keyboard → List ℕ
typed k = ring k.buffer k.tail (waiting k)

==_eq : (a b : ℕ) → a ≡ b → (a == b) ≡ true
==_eq a b h = ground arith

ring_mod : (m : Mem) (a b n : ℕ) → a % buffer_size ≡ b % buffer_size → ring m a n ≡ ring m b n
unfolding ring
ring_mod m a b zero h = refl
ring_mod m a b (suc n) h = ap₂ ◌∷◌ (ap m h) (ring_mod m (a + 1) (b + 1) n (omega arith))

ring_snoc :
    (m : Mem) (at n c h : ℕ)
    → n < buffer_size
    → h ≡ (at + n) % buffer_size
    → ring (λ i. if i == h then c else m i) at (suc n) ≡ ring m at n ++ (c ∷ [])
unfolding ring
ring_snoc m at zero c h lt e = rw (==_eq (at % buffer_size) h (omega arith)) refl
ring_snoc m at (suc n) c h lt e =
    rw (==_ne (at % buffer_size) h (λ z. absurd (omega arith)))
      (ap (λ l. m (at % buffer_size) ∷ l) (ring_snoc m (at + 1) n c h (omega arith) (omega arith)))

abbrev pub Got : Keyboard → Option (Keyboard × ℕ) → Type 0
Got k none = typed k ≡ []
Got k (some (k', c)) = IsKeyboard k' × (typed k ≡ c ∷ typed k')

pub waiting_full : (k : Keyboard) → IsKeyboard k → is_full k ≡ true → waiting k ≡ 255
waiting_full k g e = ground (arith, g.head_in, g.tail_in)

pub waiting_room : (k : Keyboard) → IsKeyboard k → is_full k ≡ false → waiting k < 255
waiting_room k g e = ground (arith, g.head_in, g.tail_in)

waiting-store_char :
    (c : ℕ) (k : Keyboard)
    → IsKeyboard k
    → is_full k ≡ false
    → waiting (store_char c k) ≡ suc (waiting k)
waiting-store_char c k g e = ground (arith, g.head_in, g.tail_in)

pub IsKeyboard-store_char : (c : ℕ) (k : Keyboard) → IsKeyboard k → IsKeyboard (store_char c k)
IsKeyboard-store_char c k g = record { head_in = omega (arith, g.head_in); tail_in = g.tail_in }

pub typed-store_char :
    (c : ℕ) (k : Keyboard)
    → IsKeyboard k
    → is_full k ≡ false
    → typed (store_char c k) ≡ typed k ++ (c ∷ [])
typed-store_char c k g e =
    ap (ring (store_char c k).buffer k.tail) (waiting-store_char c k g e)
    ∙ ring_snoc k.buffer k.tail (waiting k) c k.head (omega (arith, waiting_room k g e))
        (omega (arith, g.head_in, g.tail_in))

-- The oldest character is taken and the others stay in order; where none waits there is none to take.
pub keyboard_getchar-typed : (k : Keyboard) → IsKeyboard k → Got k (keyboard_getchar k)
unfolding keyboard_getchar ring
keyboard_getchar-typed k g = elim (Bool-cases (k.head == k.tail)) [
  | inl e ↦
      subst⁻¹ (Got k) {x = keyboard_getchar k} {y = none} (rw (keyboard_getchar, e) refl) (empty e)
  | inr e ↦
      let k' = record k { tail = (k.tail + 1) % buffer_size } in
      subst⁻¹ (Got k) {x = keyboard_getchar k} {y = some (k', k.buffer k.tail)}
        (rw (keyboard_getchar, e) refl)
        (record { head_in = g.head_in; tail_in = omega (arith, g.tail_in) }, first e)
]
  where
    empty : (k.head == k.tail) ≡ true → typed k ≡ []
    empty e = ap (ring k.buffer k.tail) {y = 0} (ground (arith, g.head_in, g.tail_in))

    shrunk :
        (k.head == k.tail) ≡ false
        → waiting k ≡ suc ((k.head + buffer_size - (k.tail + 1) % buffer_size) % buffer_size)
    shrunk e = ground (arith, g.head_in, g.tail_in)

    first :
        (k.head == k.tail) ≡ false
        → typed k ≡ k.buffer k.tail ∷ typed (record k { tail = (k.tail + 1) % buffer_size })
    first e =
        ap (ring k.buffer k.tail) (shrunk e)
        ∙ ap₂ ◌∷◌ (ap k.buffer {y = k.tail} (omega (arith, g.tail_in)))
            (ring_mod k.buffer (k.tail + 1) ((k.tail + 1) % buffer_size) _ (omega arith))
