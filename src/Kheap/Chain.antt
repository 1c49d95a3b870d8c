-- ===== src/Kheap/Chain.antt =====
-- The heap as the list of its blocks: which headers a walk from the start meets.
use muos.Common.{
  ℕ, ◌+◌, ◌-◌, ◌*◌, ◌%◌, ◌^◌, ◌≤◌, ◌<◌, ◌≡◌, refl, subst, ◌≢◌, ◌⊎◌, inl, inr, List, [], ◌∷◌, ◌++◌,
  arith, length, ==_ne,
}
use muos.Kheap.{
  Header, Headers, Kheap, heap_end, kheap_magic, header_size, write, rounds, kheap_init,
}

-- A block's size and its `used` word.
pub record Block : Type 0 where
  pub size : ℕ
  pub used : ℕ

abbrev pub header_of : Block → Header
header_of b = record { magic = kheap_magic; size = b.size; used = b.used; pad = 0 }

-- How many bytes the blocks take, headers included.
abbrev pub span : List Block → ℕ
span [] = 0
span (b ∷ bs) = header_size + b.size + span bs

-- From `p` the walk meets exactly the headers of `bs`, each with a payload of a positive multiple
-- of 16 bytes, and ends at `end`.
abbrev pub Chain : Headers → ℕ → ℕ → List Block → Type 0
Chain m end p [] = p ≡ end
Chain m end p (b ∷ bs) =
    (m p ≡ header_of b)
    × (16 ≤ b.size)
    × (b.size % 16 ≡ 0)
    × Chain m end (p + header_size + b.size) bs

pub Chain-span : (m : Headers) (end p : ℕ) (bs : List Block) → Chain m end p bs → p + span bs ≡ end
Chain-span m end p [] c = omega arith
Chain-span m end p (b ∷ bs) c = omega (arith, Chain-span m end (p + header_size + b.size) bs c.3)

-- A write before the chain or behind it leaves it.
pub Chain-write_out :
    (m : Headers) (end p a : ℕ) (v : Header) (bs : List Block)
    → (a < p) ⊎ (end ≤ a)
    → Chain m end p bs
    → Chain (write m a v) end p bs
unfolding write
Chain-write_out m end p a v [] h c = c
Chain-write_out m end p a v (b ∷ bs) h c = (
  ground (arith, Chain-span m end p (b ∷ bs)),
  c.1,
  c.2,
  Chain-write_out m end (p + header_size + b.size) a v bs (later h) c.3,
)
  where
    later : (a < p) ⊎ (end ≤ a) → (a < p + header_size + b.size) ⊎ (end ≤ a)
    later (inl q) = inl (omega arith)
    later (inr q) = inr q

pub write_self : (m : Headers) (a : ℕ) (v : Header) → write m a v a ≡ v
unfolding write
write_self m a v = ground arith

pub write_other : (m : Headers) (a q : ℕ) (v : Header) → q ≢ a → write m a v q ≡ m q
unfolding write
write_other m a q v h = ground arith

pub Chain-append :
    (m : Headers) (mid end p : ℕ) (xs ys : List Block)
    → Chain m mid p xs
    → Chain m end mid ys
    → Chain m end p (xs ++ ys)
Chain-append m mid end p [] ys c d = rw c d
Chain-append m mid end p (x ∷ xs) ys c d =
    (c.0, c.1, c.2, Chain-append m mid end (p + header_size + x.size) xs ys c.3 d)

pub Chain-split :
    (m : Headers) (mid end p : ℕ) (xs ys : List Block)
    → p + span xs ≡ mid
    → Chain m end p (xs ++ ys)
    → Chain m mid p xs × Chain m end mid ys
Chain-split m mid end p [] ys e c = (omega arith, subst (λ q. Chain m end q ys) (omega arith) c)
Chain-split m mid end p (x ∷ xs) ys e c =
    let rest = Chain-split m mid end (p + header_size + x.size) xs ys (omega arith) c.3 in
    ((c.0, c.1, c.2, rest.0), rest.1)

pub span-append : (xs ys : List Block) → span (xs ++ ys) ≡ span xs + span ys
span-append [] ys = omega arith
span-append (x ∷ xs) ys = omega (arith, span-append xs ys)

-- A block takes at least 32 bytes.
pub length-le-span :
    (m : Headers) (end p : ℕ) (bs : List Block) → Chain m end p bs → 32 * length bs ≤ span bs
length-le-span m end p [] c = omega arith
length-le-span m end p (b ∷ bs) c =
    omega (arith, length-le-span m end (p + header_size + b.size) bs c.3)

-- No two free blocks stand side by side, where a block whose `used` word is `u` stands before.
abbrev pub Apart : ℕ → List Block → Type 0
Apart u [] = Unit {0}
Apart u (b ∷ bs) = (u ≡ 0 → b.used ≡ 0 → ⊥) × Apart b.used bs

abbrev pub Coalesced : List Block → Type 0
Coalesced bs = Apart 1 bs

pub Apart-Coalesced : (u : ℕ) (bs : List Block) → Apart u bs → Coalesced bs
Apart-Coalesced u [] c = tt
Apart-Coalesced u (b ∷ bs) c = ((λ z. absurd (omega arith)), c.1)

pub Apart-append : (u : ℕ) (xs ys : List Block) → Apart u (xs ++ ys) → Apart u xs × Coalesced ys
Apart-append u [] ys c = (tt, Apart-Coalesced u ys c)
Apart-append u (x ∷ xs) ys c = let rest = Apart-append x.used xs ys c.1 in ((c.0, rest.0), rest.1)

-- The heap is set up, not in the first 16 bytes of memory, lies below 4 GB, and its blocks
-- are `bs`, with no two free ones side by side.
pub record IsHeap (h : Kheap) (bs : List Block) : Type 0 where
  pub started : 16 ≤ h.start
  pub below : heap_end h < 2 ^ 32
  pub chain : Chain h.headers (heap_end h) h.start bs
  pub coalesced : Coalesced bs

-- The walks' fuel is more than there are blocks.
pub length-lt-rounds : {h : Kheap} (bs : List Block) → IsHeap h bs → length bs < rounds h
length-lt-rounds {h} bs v = omega (
  arith,
  length-le-span h.headers (heap_end h) h.start bs v.chain,
  Chain-span h.headers (heap_end h) h.start bs v.chain,
)

-- What `kheap_init` sets up is a valid heap of one free block.
pub kheap_init-IsHeap :
    (mem : ℕ) (h : Kheap)
    → 16 ≤ mem
    → mem + 2 ^ 20 < 2 ^ 32
    → IsHeap (kheap_init mem h) (record { size = 2 ^ 20 - 16; used = 0 } ∷ [])
unfolding kheap_init
kheap_init-IsHeap mem h lo hi = rw (==_ne mem 0 (λ z. absurd (omega arith))) (record {
  started = lo;
  below = hi;
  chain = (write_self h.headers mem _, omega arith, refl, omega arith);
  coalesced = (λ z. absurd (omega arith), tt);
})
