-- ===== src/Frames/Tests.antt =====
-- Runs of the frame allocator of src/mm.c, and the theorems at them.
use muos.Common.{◌≡◌, refl, some, arith, ltb, ◌==◌, ◌||◌}
use muos.Frames.{
  Frames, bitmap_find_first_free, scan_words, scan_word, all_set, mm_alloc_page, page_unref,
  find_run, first_used, take_run, mm_alloc_pages,
}
use muos.Frames.Count.{
  IsCounted, free_below, Allocated, mm_alloc_page-Allocated, page_unref-IsCounted,
}
use muos.Frames.Pages.{Served, mm_alloc_pages-Served}

-- Six frames, of which 2, 4 and 5 are free.
abbrev small : Frames
small = record { total = 6; free = 3; used = λ i. ltb i 2 || (i == 3); refs = λ i. 1 }

small-IsCounted : IsCounted small
unfolding free_below
small-IsCounted = refl

first_runs : bitmap_find_first_free small ≡ some 2
unfolding bitmap_find_first_free scan_words scan_word all_set
first_runs = refl

pages_run : (mm_alloc_pages 2 small).1 ≡ 16384
unfolding mm_alloc_pages find_run first_used take_run
pages_run = refl

mm_alloc_page-Allocated_example : Allocated small (mm_alloc_page small)
mm_alloc_page-Allocated_example = mm_alloc_page-Allocated small small-IsCounted

page_unref-IsCounted_example : IsCounted (page_unref 3 small)
page_unref-IsCounted_example = page_unref-IsCounted 3 small small-IsCounted

mm_alloc_pages-Served_example : Served small 2 (mm_alloc_pages 2 small)
mm_alloc_pages-Served_example =
    mm_alloc_pages-Served 2 small (omega arith) (omega arith) (omega arith)
