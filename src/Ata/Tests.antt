-- ===== src/Ata/Tests.antt =====
-- Runs of the disk access of src/ata.c, and the theorems at them.
use muos.Common.{ℕ, ◌^◌, ◌≡◌, refl, true, [], ◌∷◌, arith}
use muos.Common.Int.{pos, negsuc}
use muos.Common.Mem.{blit, slice}
use muos.Ata.{
  Ata, ata_read_bytes, ata_write_bytes, read_loop, write_loop, ata_read_sector, ata_write_sector,
}
use muos.Ata.Bytes.{IsGood, ata_read_bytes-slice, ata_write_bytes-blit, ata_read_bytes-refused}

abbrev drive : ℕ → Ata
drive n = record {
  present = true;
  sectors = n;
  disk = λ i. i;
  wait_data = λ lba. pos 0;
  wait_flush = λ lba. pos 0;
}

drive-IsGood : IsGood (drive 4)
drive-IsGood = record {
  there = refl;
  data_fine = λ lba. refl;
  flush_fine = λ lba. refl;
  small = omega arith;
}

reads : ata_read_bytes 510 4 (drive 4) ≡ (510 ∷ 511 ∷ 512 ∷ 513 ∷ [], pos 4)
unfolding ata_read_bytes read_loop ata_read_sector slice
reads = refl

writes : (ata_write_bytes 511 (7 ∷ 8 ∷ []) (drive 4)).0.disk 512 ≡ 8
unfolding ata_write_bytes write_loop ata_read_sector ata_write_sector slice blit
writes = refl

-- Four bytes on both sides of the first sector's end.
ata_read_bytes-slice_example : ata_read_bytes 510 4 (drive 4) ≡ (slice (drive 4).disk 510 4, pos 4)
ata_read_bytes-slice_example = ata_read_bytes-slice (drive 4) drive-IsGood 510 4 (omega arith)

ata_write_bytes-blit_example :
    ata_write_bytes 511 (7 ∷ 8 ∷ []) (drive 4)
    ≡ (record (drive 4) { disk = blit (drive 4).disk 511 (7 ∷ 8 ∷ []) }, pos 2)
ata_write_bytes-blit_example =
    ata_write_bytes-blit (drive 4) drive-IsGood 511 (7 ∷ 8 ∷ []) (omega arith)

ata_read_bytes-refused_example :
    (ata_read_bytes 0 2 (drive (2 ^ 23)) ≡ ([], negsuc 21))
    × (ata_write_bytes 0 (7 ∷ 8 ∷ []) (drive (2 ^ 23)) ≡ (drive (2 ^ 23), negsuc 21))
ata_read_bytes-refused_example =
    ata_read_bytes-refused (drive (2 ^ 23)) refl refl 0 (7 ∷ 8 ∷ []) (omega arith)
