-- ===== src/Kheap.antt =====
-- The kernel heap of src/kheap.c: first-fit allocation over a chain of 16-byte headers.
-- A header is read and written at its address, and a walk adds sizes to an address as the C code
-- does; what lies in the payloads is not modelled but for the stale headers that merging leaves.
-- Each loop runs on fuel, one round more than there are headers in the heap: a round moves on by at
-- least a header.
pub mod Chain
pub mod Find
pub mod Alloc
pub mod Merge
pub mod Free
mod Tests
use muos.Common.{
  ℕ, zero, suc, ◌+◌, ◌-◌, ◌*◌, ◌/◌, ◌^◌, Bool, true, false, not, ◌&&◌, ◌||◌, Option, none, some,
  ltb, leb, ◌==◌, if◌then◌else◌, u32,
}

-- `kheap_block_t`
pub record Header : Type 0 where
  pub magic : ℕ
  pub size : ℕ
  pub used : ℕ
  pub pad : ℕ

abbrev pub kheap_pages : ℕ
kheap_pages = 256

abbrev pub page_size : ℕ
page_size = 4096

abbrev pub kheap_magic : ℕ
kheap_magic = 0x4B48454F

-- `sizeof(kheap_block_t)`
abbrev pub header_size : ℕ
header_size = 16

-- `ALIGN16`: the addition is one of `uint32_t`
pub align16 : ℕ → ℕ
align16 x = u32 (x + 15) / 16 * 16

abbrev pub Headers : Type 0
Headers = ℕ → Header

-- The heap's two static variables, and the headers by address.
pub record Kheap : Type 0 where
  pub start : ℕ
  pub size : ℕ
  pub headers : Headers

abbrev pub heap_end : Kheap → ℕ
heap_end h = h.start + h.size

pub write : Headers → ℕ → Header → Headers
write m p b q = if q == p then b else m q

abbrev pub fresh_header : ℕ → Header
fresh_header n = record { magic = kheap_magic; size = n; used = 0; pad = 0 }

-- `mem` is what `mm_alloc_pages(KHEAP_PAGES)` returned.
pub kheap_init : ℕ → Kheap → Kheap
kheap_init mem h = if mem == 0 then h else record {
  start = mem;
  size = kheap_pages * page_size;
  headers = write h.headers mem (fresh_header (kheap_pages * page_size - header_size));
}

pub kheap_ready : Kheap → Bool
kheap_ready h = not (h.start == 0)

abbrev pub rounds : Kheap → ℕ
rounds h = suc (h.size / header_size)

-- The walk of `kmalloc`: the address of the header that it takes.
pub find_fit : ℕ → Headers → ℕ → ℕ → ℕ → Option ℕ
find_fit zero m end need p = none
find_fit (suc f) m end need p =
    let b = m p in
    let rest = find_fit f m end need (p + header_size + b.size) in
    if not (leb (p + header_size) end)
    then none
    else if not (b.magic == kheap_magic)
    then none
    else if (b.used == 0) && leb need b.size
    then some p
    else rest

-- What `kmalloc` writes when it takes the header at `p`: a split if the rest can hold a block.
pub take_block : Headers → ℕ → ℕ → Headers
take_block m need p =
    let b = m p in
    if leb (u32 (need + header_size + 16)) b.size
    then write
        (write m (p + header_size + need)
          (fresh_header (u32 (b.size + 2 ^ 32 - need - header_size))))
        p (record b { size = need; used = 1 })
    else write m p (record b { used = 1 })

-- The size asked for, as the walk takes it: `none` where the rounding overflows.
pub needed : ℕ → Option ℕ
needed size =
    let s = if size == 0 then 1 else size in if ltb (align16 s) s then none else some (align16 s)

-- Returns the payload's address, 0 for `NULL`.
pub kmalloc : ℕ → Kheap → Kheap × ℕ
kmalloc size h = if h.start == 0 then (h, 0) else elim (needed size) [
  | none ↦ (h, 0)
  | some need ↦ elim (find_fit (rounds h) h.headers (heap_end h) need h.start) [
    | none ↦ (h, 0)
    | some p ↦ (record h { headers = take_block h.headers need p }, p + header_size)
  ]
]

-- The forward loop of `kfree`: `b` takes in the free blocks from `next` on.
pub merge_forward : ℕ → Headers → ℕ → ℕ → ℕ → Headers
merge_forward zero m end b next = m
merge_forward (suc f) m end b next =
    let nb = m next in
    let rest =
      merge_forward f (write m b (record (m b) { size = u32 ((m b).size + header_size + nb.size) }))
        end b (next + header_size + nb.size) in
    if not (leb (next + header_size) end)
    then m
    else if not (nb.magic == kheap_magic) || not (nb.used == 0)
    then m
    else rest

-- The backward loop of `kfree`: the block before `b` takes `b` in if it is free.
pub merge_back : ℕ → Headers → ℕ → ℕ → ℕ → Headers
merge_back zero m end b cur = m
merge_back (suc f) m end b cur =
    let c = m cur in
    let next = cur + header_size + c.size in
    let rest = merge_back f m end b next in
    if not (leb (cur + header_size) end && ltb cur b)
    then m
    else if not (c.magic == kheap_magic)
    then m
    else if next == b
    then (if c.used == 0
        then write m cur (record c { size = u32 (c.size + header_size + (m b).size) })
        else m)
    else rest

-- What `kfree` does once it has found a used block's header at `b`.
pub release : Kheap → ℕ → Headers
release h b =
    let m = write h.headers b (record (h.headers b) { used = 0 }) in
    let merged = merge_forward (rounds h) m (heap_end h) b (b + header_size + (h.headers b).size) in
    merge_back (rounds h) merged (heap_end h) b h.start

pub kfree : ℕ → Kheap → Kheap
kfree ptr h =
    let b = h.headers (ptr - header_size) in
    if (ptr == 0) || (h.start == 0)
    then h
    else if ltb ptr (h.start + header_size) || leb (heap_end h) ptr
    then h
    else if not (b.magic == kheap_magic)
    then h
    else if b.used == 0
    then h
    else record h { headers = release h (ptr - header_size) }

-- `num * size` is computed in 64 bits; the zeroing writes the payload only.
pub kcalloc : ℕ → ℕ → Kheap → Kheap × ℕ
kcalloc num size h = if ltb (2 ^ 32 - 1) (num * size) then (h, 0) else kmalloc (u32 (num * size)) h
