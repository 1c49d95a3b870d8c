-- ===== src/Kheap/Tests.antt =====
-- Runs of the heap of src/kheap.c, and the theorems at them.
use muos.Common.{ℕ, ◌≡◌, refl, List, [], ◌∷◌, arith}
use muos.Kheap.{Kheap, write, fresh_header, needed, align16, find_fit, take_block, kmalloc, kfree}
use muos.Kheap.Chain.{Block, header_of, IsHeap}
use muos.Kheap.Find.{place}
use muos.Kheap.Alloc.{Served, kmalloc-first_fit, kmalloc-exhausted}
use muos.Kheap.Merge.{absorb, join}
use muos.Kheap.Free.{kfree-released}

abbrev block : ℕ → ℕ → Block
block n u = record { size = n; used = u }

abbrev off : Kheap
off = record { start = 0; size = 0; headers = λ p. fresh_header 0 }

-- 176 bytes at 4096: a used block of 32 bytes, a free one of 48, a used one of 16, a free one of 16.
abbrev blocks : List Block
blocks = block 32 1 ∷ block 48 0 ∷ block 16 1 ∷ block 16 0 ∷ []

abbrev small : Kheap
small = record {
  start = 4096;
  size = 176;
  headers =
      write
        (write
          (write (write off.headers 4096 (header_of (block 32 1))) 4144 (header_of (block 48 0)))
          4208 (header_of (block 16 1)))
        4240 (header_of (block 16 0));
}

small-IsHeap : IsHeap small blocks
unfolding write
small-IsHeap = record {
  started = omega arith;
  below = omega arith;
  chain = (
    refl,
    omega arith,
    refl,
    (refl, omega arith, refl, (refl, omega arith, refl, (refl, omega arith, refl, refl))),
  );
  coalesced = (
    (λ p q. absurd (omega arith)),
    (
      (λ p q. absurd (omega arith)),
      ((λ p q. absurd (omega arith)), ((λ p q. absurd (omega arith)), tt)),
    ),
  );
}

-- 10 bytes are taken from the free block of 48, which is split.
kmalloc-first_fit_example :
    Served small 16 (block 32 1 ∷ []) (block 48 0) (block 16 1 ∷ block 16 0 ∷ []) (kmalloc 10 small)
unfolding place needed align16
kmalloc-first_fit_example =
    kmalloc-first_fit blocks (block 32 1 ∷ []) (block 48 0) (block 16 1 ∷ block 16 0 ∷ []) 10 16
      small-IsHeap (omega arith) refl refl

kmalloc_runs : (kmalloc 10 small).1 ≡ 4160
unfolding kmalloc needed align16 find_fit take_block write
kmalloc_runs = refl

kmalloc-exhausted_example : kmalloc 100 small ≡ (small, 0)
unfolding place needed align16
kmalloc-exhausted_example = kmalloc-exhausted blocks 100 112 small-IsHeap refl refl

-- Freeing the third block merges it with both neighbours.
kfree-released_example : IsHeap (kfree 4224 small) (block 32 1 ∷ block 112 0 ∷ [])
unfolding absorb join
kfree-released_example =
    kfree-released (block 32 1 ∷ block 48 0 ∷ []) (block 16 1) (block 16 0 ∷ []) small-IsHeap
      (omega arith)
