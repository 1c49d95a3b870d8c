-- ===== src/Kheap/Free.antt =====
-- `kfree` marks a block free and merges it with the free blocks on both sides.
use native.Mathlib.Decide.{ℕ_discrete}
use muos.Common.{
  ℕ, ◌+◌, ◌-◌, ◌≤◌, ◌<◌, ◌≡◌, refl, sym, ap, ◌⊎◌, inl, ◌∙◌, ◌≢◌, false, List, [], ◌∷◌, ◌++◌, arith,
  length-append, ◌==◌, subst, subst⁻¹, ==_ne, not_ltb, not_leb,
}
use muos.Kheap.{
  Headers, Kheap, heap_end, header_size, rounds, kheap_magic, write, merge_forward, merge_back,
  release, kfree,
}
use muos.Kheap.Chain.{
  Block, header_of, Chain, span, Chain-span, Chain-split, Chain-write_out, write_self, write_other,
  Apart, Coalesced, Apart-Coalesced, Apart-append, IsHeap, length-lt-rounds,
}
use muos.Kheap.Merge.{
  block, absorb, join, absorb-free, absorb-used, absorb-nil, merge_forward-Chain,
  merge_forward-other, join-nil, join-more, join-free, join-used, merge_back-Chain,
}

-- The list of blocks that a release leaves.
abbrev pub released : List Block → Block → List Block → List Block
released xs b ys = join xs (absorb (block b.size 0) ys)

absorb-cons :
    (b : Block) (ys : List Block)
    → (c : Block) × (zs : List Block) × (absorb b ys ≡ c ∷ zs) × (c.used ≡ b.used)
absorb-cons b [] = (b, [], absorb-nil b, refl)
absorb-cons b (c ∷ ys) = elim (ℕ_discrete c.used 0) [
  | yes u ↦
      let r = absorb-cons (block (b.size + header_size + c.size) b.used) ys in
      (r.0, r.1, absorb-free b c ys u ∙ r.2, r.3)
  | no u ↦ (b, c ∷ ys, absorb-used b c ys u, refl)
]

Chain-unchanged :
    (m k : Headers) (end p : ℕ) (bs : List Block)
    → ((q : ℕ) → q < end → k q ≡ m q)
    → Chain m end p bs
    → Chain k end p bs
Chain-unchanged m k end p [] h c = c
Chain-unchanged m k end p (b ∷ bs) h c = (
  h p (omega (arith, Chain-span m end p (b ∷ bs) c)) ∙ c.0,
  c.1,
  c.2,
  Chain-unchanged m k end (p + header_size + b.size) bs h c.3,
)

release_lem :
    (h : Kheap) (b : ℕ)
    → release h b
      ≡ merge_back
          (rounds h)
          (merge_forward
            (rounds h)
            (write h.headers b (record (h.headers b) { used = 0 }))
            (heap_end h)
            b
            (b + header_size + (h.headers b).size))
          (heap_end h)
          b
          h.start
unfolding release
release_lem h b = refl

mark-Chain :
    (m : Headers) (end p : ℕ) (b : Block) (ys : List Block)
    → Chain m end p (b ∷ ys)
    → Chain (write m p (record (m p) { used = 0 })) end p (block b.size 0 ∷ ys)
mark-Chain m end p b ys c = rw c.0 (
  write_self m p _,
  c.1,
  c.2,
  Chain-write_out m end (p + header_size + b.size) p _ ys (inl (omega arith)) c.3,
)

mark_size : (m : Headers) (p : ℕ) → (write m p (record (m p) { used = 0 }) p).size ≡ (m p).size
unfolding write
mark_size m p = ground arith

-- One step of the forward loop leaves what lies before the block, so the loop does.
release-Chain :
    {h : Kheap} (xs : List Block) (b : Block) (ys : List Block)
    → IsHeap h (xs ++ (b ∷ ys))
    → Chain (release h (h.start + span xs)) (heap_end h) h.start (released xs b ys)
release-Chain {h} xs b ys v =
    let p = h.start + span xs in
    let m = write h.headers p (record (h.headers p) { used = 0 }) in
    let k = merge_forward (rounds h) m (heap_end h) p (p + header_size + b.size) in
    let parts = Chain-split h.headers p (heap_end h) h.start xs (b ∷ ys) refl v.chain in
    let fuel = length-lt-rounds (xs ++ (b ∷ ys)) v in
    let count = length-append xs (b ∷ ys) in
    let forward =
      merge_forward-Chain (rounds h) m (heap_end h) p (block b.size 0) ys v.below (omega arith)
        (mark-Chain h.headers (heap_end h) p b ys parts.1) in
    let first = absorb-cons (block b.size 0) ys in
    let before =
      Chain-unchanged h.headers k p h.start xs
        (λ q lt.
          merge_forward-other (rounds h) m (heap_end h) p _ q (omega arith)
          ∙ write_other h.headers p q _ (omega arith))
        parts.0 in
    subst⁻¹ (λ r. Chain r (heap_end h) h.start (released xs b ys))
      (release_lem h p
        ∙ ap
            (λ c.
              merge_back (rounds h)
                (merge_forward (rounds h) m (heap_end h) p (p + header_size + c.size)) (heap_end h)
                p h.start)
            parts.1.0)
      (subst⁻¹
        (λ zs.
          Chain (merge_back (rounds h) k (heap_end h) p h.start) (heap_end h) h.start (join xs zs))
        first.2
        (merge_back-Chain (rounds h) k (heap_end h) p h.start xs first.0 first.1 v.below
          (omega arith) before (subst (Chain k (heap_end h) p) first.2 forward)))

kfree-used :
    (h : Kheap) (p : ℕ) (b : Block)
    → 16 ≤ h.start
    → h.start ≤ p
    → p + header_size < heap_end h
    → h.headers p ≡ header_of b
    → b.used ≢ 0
    → kfree (p + header_size) h ≡ record h { headers = release h p }
unfolding kfree
kfree-used h p b hs lo hi e u =
    let here : p + header_size - header_size ≡ p = omega arith in
    let used : (b.used == 0) ≡ false = ==_ne b.used 0 (λ z. u z) in
    rw (
      here,
      e,
      used,
      ==_ne (p + header_size) 0 (λ z. absurd (omega arith)),
      ==_ne h.start 0 (λ z. absurd (omega arith)),
      not_ltb (p + header_size) (h.start + header_size) (omega arith),
      not_leb (heap_end h) (p + header_size) (omega arith),
    )

absorb-Apart :
    (u : ℕ) (b : Block) (ys : List Block)
    → b.used ≡ 0
    → u ≢ 0
    → Coalesced ys
    → Apart u (absorb b ys)
absorb-Apart u b [] z n c = subst⁻¹ (Apart u) (absorb-nil b) ((λ p. absurd (n p)), tt)
absorb-Apart u b (y ∷ ys) z n c = elim (ℕ_discrete y.used 0) [
  | yes e ↦ subst⁻¹ (Apart u) (absorb-free b y ys e) (
      absorb-Apart u (block (b.size + header_size + y.size) b.used) ys z n
        (Apart-Coalesced y.used ys c.1))
  | no e ↦ subst⁻¹ (Apart u) (absorb-used b y ys e) ((λ p. absurd (n p)), ((λ p q. e q), c.1))
]

join-Apart :
    (u : ℕ) (x : Block) (xs : List Block) (b : Block) (ys : List Block)
    → Apart u (x ∷ xs)
    → Apart 1 (b ∷ ys)
    → b.used ≡ 0
    → Apart u (join (x ∷ xs) (b ∷ ys))
join-Apart u x [] b ys c d z = elim (ℕ_discrete x.used 0) [
  | yes e ↦ subst⁻¹ (Apart u) (join-free x b ys e) (c.0, subst (λ w. Apart w ys) (z ∙ sym e) d.1)
  | no e ↦ subst⁻¹ (Apart u) (join-used x b ys e) (c.0, ((λ p q. e p), d.1))
]
join-Apart u x (x' ∷ xs) b ys c d z =
    subst⁻¹ (Apart u) (join-more x x' xs (b ∷ ys)) (c.0, join-Apart x.used x' xs b ys c.1 d z)

released-Coalesced :
    (xs : List Block) (b : Block) (ys : List Block)
    → Coalesced (xs ++ (b ∷ ys))
    → Coalesced (released xs b ys)
released-Coalesced [] b ys c = subst⁻¹ Coalesced (join-nil _) (
    absorb-Apart 1 (block b.size 0) ys refl (λ z. absurd (omega arith))
      (Apart-Coalesced b.used ys c.1))
released-Coalesced (x ∷ xs) b ys c =
    let first = absorb-cons (block b.size 0) ys in
    let parts = Apart-append 1 (x ∷ xs) (b ∷ ys) c in
    let rest =
      absorb-Apart 1 (block b.size 0) ys refl (λ z. absurd (omega arith))
        (Apart-Coalesced b.used ys parts.1.1) in
    subst⁻¹ (λ zs. Coalesced (join (x ∷ xs) zs)) first.2
      (join-Apart 1 x xs first.0 first.1 parts.0 (subst Coalesced first.2 rest) first.3)

-- Freeing the payload of a used block leaves a valid heap in which that block is free, merged with
-- the free blocks behind it and with the one before it if that is free. All other blocks stay.
pub kfree-released :
    {h : Kheap} (xs : List Block) (b : Block) (ys : List Block)
    → IsHeap h (xs ++ (b ∷ ys))
    → b.used ≢ 0
    → IsHeap (kfree (h.start + span xs + header_size) h) (released xs b ys)
kfree-released {h} xs b ys v u =
    let p = h.start + span xs in
    let parts = Chain-split h.headers p (heap_end h) h.start xs (b ∷ ys) refl v.chain in
    let total = Chain-span h.headers (heap_end h) p (b ∷ ys) parts.1 in
    subst⁻¹ (λ g. IsHeap g (released xs b ys))
      (kfree-used h p b v.started (omega arith) (omega (arith, parts.1.1)) parts.1.0 u)
      (record {
        started = v.started;
        below = v.below;
        chain = release-Chain xs b ys v;
        coalesced = released-Coalesced xs b ys v.coalesced;
      })

-- `kfree` of `NULL`, of an address outside the heap's payloads, or where no used header stands (a
-- double free) changes nothing.
pub kfree-ignored :
    (ptr : ℕ) (h : Kheap)
    → (ptr < h.start + header_size)
      ⊎ (heap_end h ≤ ptr)
      ⊎ ((h.headers (ptr - header_size)).used ≡ 0)
      ⊎ ((h.headers (ptr - header_size)).magic ≢ kheap_magic)
    → kfree ptr h ≡ h
unfolding kfree
kfree-ignored ptr h c = ground arith
