-- ===== src/Part/Tests.antt =====
-- Runs of the partition tables of src/part.c, and the theorems at them.
use muos.Common.{◌^◌, ◌≡◌, refl, some, true, arith, if◌then◌else◌, ◌==◌}
use muos.Common.Int.{pos}
use muos.Common.Mem.{slice}
use muos.Ata.{Ata}
use muos.Ata.Bytes.{IsGood}
use muos.Part.{read_sector}
use muos.Part.Table.{read_sector-wraps}

-- A disk of 1 GB with an MBR of one partition, of type 12, from sector 5 on.
abbrev drive : Ata
drive = record {
  present = true;
  sectors = 2 ^ 21;
  disk = λ i.
      if i == 450
      then 12
      else if i == 454
      then 5
      else if i == 458
      then 9
      else if i == 510
      then 85
      else if i == 511
      then 170
      else 0;
  wait_data = λ lba. pos 0;
  wait_flush = λ lba. pos 0;
}

drive-IsGood : IsGood drive
drive-IsGood = record {
  there = refl;
  data_fine = λ lba. refl;
  flush_fine = λ lba. refl;
  small = omega arith;
}

-- Sector 2 ^ 23 of the disk of 1 GB is its sector 0, with the mark of an MBR at its end.
read_sector-wraps_example : read_sector (2 ^ 23) drive ≡ some (slice drive.disk 0 512)
read_sector-wraps_example =
    read_sector-wraps drive drive-IsGood (2 ^ 23) (omega arith) (omega arith)
