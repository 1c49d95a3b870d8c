-- ===== src/Fat/Tests.antt =====
-- A small volume, and the theorems at it.
use muos.Common.{
  ◌^◌, ◌≡◌, refl, true, false, some, [], ◌∷◌, take, ltb, ◌==◌, if◌then◌else◌, arith, ◌%◌, ap, ◌∙◌,
}
use muos.Common.Int.{pos}
use muos.Common.Mem.{blit, slice}
use muos.Common.Words.{le, le_value}
use muos.Ata.{Ata}
use muos.Ata.Bytes.{IsGood}
use muos.Fat.{
  try_volume, Vol, Fat, fat_end, in_chain, fat_next, set_fat, alloc_cluster, free_chain, read_entry,
}
use muos.Fat.Table.{rd-slice, IsTable, fat_next-word, set_fat-fat_next}
use muos.Fat.Alloc.{IsVolume, Allocation, alloc_cluster-Allocation}
use muos.Fat.Chain.{IsChain, Freed, contents, free_chain-Freed, read_entry-contents}

abbrev vol : Vol
vol = record {
  spc = 1;
  nfats = 2;
  fsz = 1;
  root_cluster = 2;
  fat_start = 1;
  data_start = 3;
  cluster_count = 10;
}

-- The cluster 2 is the end of a chain, all others are free.
abbrev drive : Ata
drive = record {
  present = true;
  sectors = 16;
  disk = blit (λ i. 0) 520 (le 4 fat_end);
  wait_data = λ lba. pos 0;
  wait_flush = λ lba. pos 0;
}

drive-IsTable : IsTable vol drive
drive-IsTable = record {
  disk = record {
    there = refl;
    data_fine = λ lba. refl;
    flush_fine = λ lba. refl;
    small = omega arith;
  };
  copies = omega arith;
  fits = omega arith;
}

-- The entry of the cluster 2 ends the chain.
ends : in_chain (fat_next vol 2 drive) ≡ false
unfolding slice blit le le_value
ends = ap in_chain (fat_next-word vol 2 drive drive-IsTable (omega arith)) ∙ refl

drive-IsChain : IsChain vol drive 2 (2 ∷ [])
drive-IsChain = (refl, refl, omega arith, ends)

set_fat-fat_next_example :
    ((set_fat vol 3 7 drive).1 ≡ true)
    × (fat_next vol 3 (set_fat vol 3 7 drive).0
        ≡ (if 3 == 3 then 7 % 2 ^ 28 else fat_next vol 3 drive))
    × IsTable vol (set_fat vol 3 7 drive).0
set_fat-fat_next_example =
    set_fat-fat_next vol 3 7 3 drive drive-IsTable (omega arith) (omega arith) (omega arith)

abbrev volume : Fat
volume = record { vol = vol; alloc_hint = 2; ata = drive }

volume-IsVolume : IsVolume volume
volume-IsVolume = record {
  table = drive-IsTable;
  entries = omega arith;
  hint_from = omega arith;
  hint_to = omega arith;
}

alloc_cluster-Allocation_example : Allocation volume (alloc_cluster volume)
alloc_cluster-Allocation_example = alloc_cluster-Allocation volume volume-IsVolume

free_chain-Freed_example : Freed vol (2 ∷ []) drive (free_chain vol 2 drive)
free_chain-Freed_example =
    free_chain-Freed vol 2 (2 ∷ []) drive drive-IsTable drive-IsChain (tt, tt) (omega arith)

read_entry-contents_example :
    read_entry vol 2 100 64 drive
    ≡ some (take (if ltb 64 100 then 64 else 100) (contents vol drive (take 4096 (2 ∷ []))))
read_entry-contents_example =
    read_entry-contents vol 2 100 64 (2 ∷ []) drive drive-IsTable.disk (omega arith) drive-IsChain
      (omega arith, tt)

-- The boot sector of a volume of 10 sectors a copy of whose table is one sector.
abbrev boot : Ata
boot = record drive {
  disk =
      blit
        (blit (λ i. 0) 0
          (0xEB ∷ 0 ∷ 0 ∷ 0 ∷ 0 ∷ 0 ∷ 0 ∷ 0 ∷ 0 ∷ 0 ∷ 0 ∷ 0 ∷ 2 ∷ 1 ∷ 1 ∷ 0 ∷ 2 ∷ 0 ∷ 0 ∷ 13 ∷ []))
        36 (1 ∷ 0 ∷ 0 ∷ 0 ∷ 0 ∷ 0 ∷ 0 ∷ 0 ∷ 2 ∷ []);
}

boot-IsGood : IsGood boot
boot-IsGood = record {
  there = refl;
  data_fine = λ lba. refl;
  flush_fine = λ lba. refl;
  small = omega arith;
}

boot_volume : try_volume 0 boot ≡ some vol
unfolding try_volume slice blit le_value
boot_volume = rw (try_volume, rd-slice boot 0 512 boot-IsGood (omega arith)) refl
