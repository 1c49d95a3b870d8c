-- ===== src/Frames.antt =====
-- The allocator of physical page frames of src/mm.c: the bitmap, the reference counts and the free
-- count. The bitmap is given by its bits; where the code looks at a word of 32 the model looks at
-- its 32 bits. The page tables of the same file are not modelled here.
pub mod First
pub mod Count
pub mod Run
pub mod Pages
mod Tests
use muos.Common.{
  ℕ, zero, suc, ◌+◌, ◌-◌, ◌*◌, ◌/◌, ◌%◌, ◌^◌, Bool, true, false, not, ◌&&◌, ◌||◌, Option, none,
  some, ltb, leb, ◌==◌, if◌then◌else◌, u32,
}

abbrev pub page_size : ℕ
page_size = 4096

-- `total_pages`, `free_pages`, `bitmap` and `frame_refs`
pub record Frames : Type 0 where
  pub total : ℕ
  pub free : ℕ
  pub used : ℕ → Bool
  pub refs : ℕ → ℕ

-- `bitmap_set` and `bitmap_clear`
unfoldable pub set_bit : ℕ → Bool → (ℕ → Bool) → ℕ → Bool
set_bit frame v used i = if i == frame then v else used i

abbrev pub set_ref : ℕ → ℕ → (ℕ → ℕ) → ℕ → ℕ
set_ref frame v refs i = if i == frame then v else refs i

pub mm_page_ref_inc : ℕ → Frames → Frames
mm_page_ref_inc phys s =
    let pfn = phys / page_size in
    if leb s.total pfn
    then s
    else if ltb (s.refs pfn) 255
    then record s { refs = set_ref pfn (s.refs pfn + 1) s.refs }
    else s

pub mm_page_ref : ℕ → Frames → ℕ
mm_page_ref phys s = if ltb (phys / page_size) s.total then s.refs (phys / page_size) else 0

pub page_unref : ℕ → Frames → Frames
page_unref pfn s =
    if leb s.total pfn
    then s
    else if ltb 1 (s.refs pfn)
    then record s { refs = set_ref pfn (s.refs pfn - 1) s.refs }
    else if s.used pfn
    then record s {
      refs = set_ref pfn 0 s.refs;
      used = set_bit pfn false s.used;
      free = s.free + 1;
    }
    else record s { refs = set_ref pfn 0 s.refs }

-- What the inner loop of `bitmap_find_first_free` comes to: a free frame, the end of the memory,
-- or the end of the word.
pub data Scan : Type 0 where
  found : ℕ → Scan
  past : Scan
  full : Scan

pub scan_word : ℕ → ℕ → Frames → Scan
scan_word zero frame s = full
scan_word (suc n) frame s =
    let rest = scan_word n (frame + 1) s in
    if leb s.total frame then past else if not (s.used frame) then found frame else rest

-- The `n` bits from `frame` on are set: `bitmap[i] == 0xFFFFFFFF` for 32.
pub all_set : ℕ → ℕ → Frames → Bool
all_set zero frame s = true
all_set (suc n) frame s = s.used frame && all_set n (frame + 1) s

-- The outer loop, from word `i` on.
pub scan_words : ℕ → ℕ → Frames → Option ℕ
scan_words zero i s = none
scan_words (suc n) i s =
    let rest = scan_words n (i + 1) s in
    if all_set 32 (i * 32) s
    then rest
    else elim (scan_word 32 (i * 32) s) [ found f ↦ some f | past ↦ none | full ↦ rest ]

pub bitmap_find_first_free : Frames → Option ℕ
bitmap_find_first_free s = scan_words ((s.total + 31) / 32) 0 s

-- `n--` of a `uint32_t`.
abbrev pub one_less : ℕ → ℕ
one_less n = if n == 0 then 2 ^ 32 - 1 else n - 1

-- Returns the frame's address, 0 for `NULL`.
pub mm_alloc_page : Frames → Frames × ℕ
mm_alloc_page s = elim (bitmap_find_first_free s) [
  | none ↦ (s, 0)
  | some f ↦ (
    record s { used = set_bit f true s.used; refs = set_ref f 1 s.refs; free = one_less s.free },
    f * page_size,
  )
]

pub mm_free_page : ℕ → Frames → Frames
mm_free_page addr s = if ltb (addr / page_size) s.total then page_unref (addr / page_size) s else s

-- The inner loop of `mm_alloc_pages`, from `i` on: the first `i` whose frame is in use.
pub first_used : ℕ → ℕ → ℕ → Frames → Option ℕ
first_used zero i start s = none
first_used (suc n) i start s =
    let rest = first_used n (i + 1) start s in if s.used (start + i) then some i else rest

-- The outer loop. A round moves on by a frame at least.
pub find_run : ℕ → ℕ → ℕ → Frames → Option ℕ
find_run zero start count s = none
find_run (suc fuel) start count s =
    if ltb s.total (start + count) then none else elim (first_used count 0 start s) [
      | none ↦ some start
      | some i ↦ find_run fuel (start + i + 1) count s
    ]

-- The loop that takes the frames.
pub take_run : ℕ → ℕ → Frames → Frames
take_run zero frame s = s
take_run (suc n) frame s =
    take_run n (frame + 1)
      (record s { used = set_bit frame true s.used; refs = set_ref frame 1 s.refs })

-- Returns the first frame's address, 0 for `NULL`.
pub mm_alloc_pages : ℕ → Frames → Frames × ℕ
mm_alloc_pages count s =
    if (count == 0) || ltb s.total count || ltb s.free count
    then (s, 0)
    else elim (find_run (suc s.total) 0 count s) [
      | none ↦ (s, 0)
      | some start ↦
          let s' = take_run count start s in
          (record s' { free = s'.free - count }, start * page_size)
    ]

pub unref_run : ℕ → ℕ → Frames → Frames
unref_run zero frame s = s
unref_run (suc n) frame s = unref_run n (frame + 1) (page_unref frame s)

-- The sum of the last check is one of `uint32_t`.
pub mm_free_pages : ℕ → ℕ → Frames → Frames
mm_free_pages addr count s =
    let frame = addr / page_size in
    if (count == 0) || not (addr % page_size == 0)
    then s
    else if leb s.total frame || ltb s.total (u32 (frame + count))
    then s
    else unref_run count frame s

-- The two loops of `mm_reserve_range`.
pub any_used : ℕ → ℕ → Frames → Bool
any_used zero frame s = false
any_used (suc n) frame s = s.used frame || any_used n (frame + 1) s

pub reserve_run : ℕ → ℕ → Frames → Frames
reserve_run zero frame s = s
reserve_run (suc n) frame s =
    reserve_run n (frame + 1)
      (record s { used = set_bit frame true s.used; free = one_less s.free })

pub mm_reserve_range : ℕ → ℕ → Frames → Frames × Bool
mm_reserve_range start end s =
    let first = start / page_size in
    let last = (end - 1) / page_size + 1 in
    if leb end start
    then (s, false)
    else if leb s.total first || ltb s.total last
    then (s, false)
    else if any_used (last - first) first s
    then (s, false)
    else (reserve_run (last - first) first s, true)
