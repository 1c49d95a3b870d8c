-- ===== src/Kheap/Alloc.antt =====
-- `kmalloc` is first-fit allocation on the list of blocks.
use native.Mathlib.Nat.{le_refl}
use mathlib.Core.Option
use muos.Common.{
  ℕ, ◌+◌, ◌-◌, ◌%◌, ◌^◌, ◌≤◌, ◌<◌, ◌≡◌, refl, inl, inr, ◌∙◌, true, false, none, some, List, [], ◌∷◌,
  ◌++◌, arith, leb, if◌then◌else◌, Bool-cases, leb→le, u32, ==_ne, ◌↔◌, subst, subst⁻¹,
}
use muos.Kheap.{
  Headers, Kheap, heap_end, header_size, fresh_header, write, align16, needed, take_block, kmalloc,
  find_fit, rounds,
}
use muos.Kheap.Chain.{
  Block, header_of, Chain, span, Chain-span, Chain-split, Chain-append, Chain-write_out, write_self,
  write_other, Apart, Coalesced, Apart-Coalesced, IsHeap, length-lt-rounds,
}
use muos.Kheap.Find.{place, offset, find_fit-place, IsCut, Cut, place-Cut}

abbrev block : ℕ → ℕ → Block
block n u = record { size = n; used = u }

-- What becomes of a block of which `need` bytes are taken.
unfoldable pub carve : ℕ → Block → List Block → List Block
carve need b ys =
    if leb (need + header_size + 16) b.size
    then record { size = need; used = 1 }
      ∷ record { size = b.size - need - header_size; used = 0 }
      ∷ ys
    else record { size = b.size; used = 1 } ∷ ys

carve-split :
    (need : ℕ) (b : Block) (ys : List Block)
    → leb (need + header_size + 16) b.size ≡ true
    → carve need b ys ≡ block need 1 ∷ block (b.size - need - header_size) 0 ∷ ys
unfolding carve
carve-split need b ys e = rw e

carve-whole :
    (need : ℕ) (b : Block) (ys : List Block)
    → leb (need + header_size + 16) b.size ≡ false
    → carve need b ys ≡ block b.size 1 ∷ ys
unfolding carve
carve-whole need b ys e = rw e

-- The size that is looked for is the least positive multiple of 16 that holds the one asked for.
pub needed-some :
    (size need : ℕ)
    → size < 2 ^ 32
    → needed size ≡ some need
    → (size ≤ need) × (need < size + 16 + 1) × (need % 16 ≡ 0) × (16 ≤ need) × (need < 2 ^ 32)
unfolding needed align16
needed-some size need h e = ground arith

whole-Chain :
    (m : Headers) (end p : ℕ) (b : Block) (ys : List Block)
    → Chain m end p (b ∷ ys)
    → Chain (write m p (header_of (block b.size 1))) end p (block b.size 1 ∷ ys)
whole-Chain m end p b ys c = (
  write_self m p _,
  c.1,
  c.2,
  Chain-write_out m end (p + header_size + b.size) p _ ys (inl (omega arith)) c.3,
)

split-Chain :
    (m : Headers) (end need r p : ℕ) (b : Block) (ys : List Block)
    → 16 ≤ need
    → need % 16 ≡ 0
    → 16 ≤ r
    → need + header_size + r ≡ b.size
    → Chain m end p (b ∷ ys)
    → Chain
        (write (write m (p + header_size + need) (fresh_header r)) p (header_of (block need 1)))
        end
        p
        (block need 1 ∷ block r 0 ∷ ys)
split-Chain m end need r p b ys h16 hm hr e c = (
  write_self _ p _,
  h16,
  hm,
  (
    write_other _ p (p + header_size + need) _ (omega arith)
        ∙ write_self m (p + header_size + need) _,
    hr,
    omega arith,
    Chain-write_out _ end (p + header_size + need + header_size + r) p _ ys (inl (omega arith)) (
        Chain-write_out m end (p + header_size + need + header_size + r) (p + header_size + need) _
          ys (inl (omega arith)) (subst (λ q. Chain m end q ys) (omega arith) c.3)),
  ),
)

take_block-split :
    (m : Headers) (need p : ℕ) (b : Block)
    → m p ≡ header_of b
    → need + header_size + 16 < 2 ^ 32
    → b.size < 2 ^ 32
    → leb (need + header_size + 16) b.size ≡ true
    → take_block m need p
      ≡ write
          (write m (p + header_size + need) (fresh_header (b.size - need - header_size)))
          p
          (header_of (block need 1))
unfolding take_block
take_block-split m need p b e hs hb big =
    let sum : u32 (need + header_size + 16) ≡ need + header_size + 16 = omega arith in
    let diff : u32 (b.size + 2 ^ 32 - need - header_size) ≡ b.size - need - header_size =
      omega (arith, leb→le _ _ big) in
    rw (e, sum, big, diff)

take_block-whole :
    (m : Headers) (need p : ℕ) (b : Block)
    → m p ≡ header_of b
    → need + header_size + 16 < 2 ^ 32
    → leb (need + header_size + 16) b.size ≡ false
    → take_block m need p ≡ write m p (header_of (block b.size 1))
unfolding take_block
take_block-whole m need p b e hs small =
    let sum : u32 (need + header_size + 16) ≡ need + header_size + 16 = omega arith in
    rw (e, sum, small)

take_block-Chain :
    (m : Headers) (end need p : ℕ) (b : Block) (ys : List Block)
    → end < 2 ^ 32
    → 16 ≤ p
    → need ≤ b.size
    → 16 ≤ need
    → need % 16 ≡ 0
    → Chain m end p (b ∷ ys)
    → Chain (take_block m need p) end p (carve need b ys)
unfolding carve
take_block-Chain m end need p b ys he hp hn h16 hm c =
    let total = Chain-span m end p (b ∷ ys) c in
    let room : need + header_size + 16 < 2 ^ 32 = omega arith in
    elim (Bool-cases (leb (need + header_size + 16) b.size)) [
      | inl big ↦
          subst⁻¹ (λ k. Chain k end p (carve need b ys))
            (take_block-split m need p b c.0 room (omega arith) big)
            (rw big (
              split-Chain m end need (b.size - need - header_size) p b ys h16 hm
                (omega (arith, leb→le _ _ big)) (omega (arith, leb→le _ _ big)) c))
      | inr small ↦
          subst⁻¹ (λ k. Chain k end p (carve need b ys))
            (take_block-whole m need p b c.0 room small) (rw small (whole-Chain m end p b ys c))
    ]

-- Taking a block leaves the headers before it.
take_block-before :
    (m : Headers) (need p : ℕ) (xs : List Block) (b : Block) (q : ℕ)
    → m p ≡ header_of b
    → need + header_size + 16 < 2 ^ 32
    → b.size < 2 ^ 32
    → Chain m p q xs
    → Chain (take_block m need p) p q xs
take_block-before m need p xs b q e room hb c =
    elim (Bool-cases (leb (need + header_size + 16) b.size)) [
      | inl big ↦
          subst⁻¹ (λ k. Chain k p q xs) (take_block-split m need p b e room hb big)
            (Chain-write_out _ p q p _ xs (inr (le_refl p))
              (Chain-write_out m p q (p + header_size + need) _ xs (inr (omega arith)) c))
      | inr small ↦
          subst⁻¹ (λ k. Chain k p q xs) (take_block-whole m need p b e room small)
            (Chain-write_out m p q p _ xs (inr (le_refl p)) c)
    ]

carve-Apart :
    (u need : ℕ) (xs : List Block) (b : Block) (ys : List Block)
    → b.used ≡ 0
    → Apart u (xs ++ (b ∷ ys))
    → Apart u (xs ++ carve need b ys)
carve-Apart u need [] b ys z c = elim (Bool-cases (leb (need + header_size + 16) b.size)) [
  | inl big ↦ subst⁻¹ (Apart u) (carve-split need b ys big) (
    (λ p q. absurd (omega arith)),
    ((λ p q. absurd (omega arith)), subst (λ w. Apart w ys) z c.1),
  )
  | inr small ↦
      subst⁻¹ (Apart u) (carve-whole need b ys small)
        ((λ p q. absurd (omega arith)), Apart-Coalesced b.used ys c.1)
]
carve-Apart u need (x ∷ xs) b ys z c = (c.0, carve-Apart x.used need xs b ys z c.1)

-- What `kmalloc` did, by the cut of the list of blocks at the first one that fits.
pub record Served (h : Kheap) (need : ℕ) (xs : List Block) (b : Block) (ys : List Block)
    (r : Kheap × ℕ) : Type 0 where
  pub valid : IsHeap r.0 (xs ++ carve need b ys)
  pub payload : r.1 ≡ h.start + span xs + header_size

kmalloc-some :
    {h : Kheap} (bs : List Block) (size need p : ℕ)
    → IsHeap h bs
    → needed size ≡ some need
    → find_fit (rounds h) h.headers (heap_end h) need h.start ≡ some p
    → kmalloc size h ≡ (record h { headers = take_block h.headers need p }, p + header_size)
unfolding kmalloc
kmalloc-some {h} bs size need p v e f = rw (==_ne h.start 0 (λ z. absurd (omega arith)), e, f)

kmalloc-none :
    {h : Kheap} (bs : List Block) (size need : ℕ)
    → IsHeap h bs
    → needed size ≡ some need
    → find_fit (rounds h) h.headers (heap_end h) need h.start ≡ none
    → kmalloc size h ≡ (h, 0)
unfolding kmalloc
kmalloc-none {h} bs size need v e f = rw (==_ne h.start 0 (λ z. absurd (omega arith)), e, f)

found :
    {h : Kheap} (bs : List Block) (need : ℕ)
    → IsHeap h bs
    → find_fit (rounds h) h.headers (heap_end h) need h.start
      ≡ Option.map (λ c. h.start + offset c) (place need bs)
found {h} bs need v =
    find_fit-place (rounds h) h.headers (heap_end h) need h.start bs (length-lt-rounds bs v) v.chain

-- In a valid heap `kmalloc` takes the first free block that is large enough.
pub kmalloc-first_fit :
    {h : Kheap} (bs xs : List Block) (b : Block) (ys : List Block) (size need : ℕ)
    → IsHeap h bs
    → size < 2 ^ 32
    → needed size ≡ some need
    → place need bs ≡ some (xs, b, ys)
    → Served h need xs b ys (kmalloc size h)
kmalloc-first_fit {h} bs xs b ys size need v hs e c =
    let cut : IsCut need bs xs b ys = subst (Cut need bs) c (place-Cut need bs) in
    let m = h.headers in
    let p = h.start + span xs in
    let parts =
      Chain-split m p (heap_end h) h.start xs (b ∷ ys) (omega arith)
        (subst (Chain m (heap_end h) h.start) cut.parts v.chain) in
    let total = Chain-span m (heap_end h) p (b ∷ ys) parts.1 in
    let n = needed-some size need hs e in
    rw (kmalloc-some bs size need p v e (found bs need v ∙ rw c)) (record {
      valid = record {
        started = v.started;
        below = v.below;
        chain =
            Chain-append _ p (heap_end h) h.start xs (carve need b ys)
              (take_block-before m need p xs b h.start parts.1.0 (omega (arith, cut.large))
                (omega arith) parts.0)
              (take_block-Chain m (heap_end h) need p b ys v.below (omega (arith, v.started))
                cut.large (omega arith) (omega arith) parts.1);
        coalesced = carve-Apart 1 need xs b ys cut.free (subst Coalesced cut.parts v.coalesced);
      };
      payload = refl;
    })

-- Where no free block is large enough `kmalloc` returns `NULL` and leaves the heap.
pub kmalloc-exhausted :
    {h : Kheap} (bs : List Block) (size need : ℕ)
    → IsHeap h bs
    → needed size ≡ some need
    → place need bs ≡ none
    → kmalloc size h ≡ (h, 0)
kmalloc-exhausted {h} bs size need v e c = kmalloc-none bs size need v e (found bs need v ∙ rw c)

-- A size whose rounding to 16 does not fit in 32 bits is refused; every other one is looked for.
pub needed-none : (size : ℕ) → size < 2 ^ 32 → (needed size ≡ none) ↔ (2 ^ 32 - 16 < size)
unfolding needed align16
needed-none size h = ground arith
