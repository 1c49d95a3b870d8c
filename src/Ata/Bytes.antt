-- ===== src/Ata/Bytes.antt =====
-- On a drive that reports no error, the byte access is that of one array of bytes.
use native.Mathlib.Decide.{ℕ_discrete}
use muos.Common.{
  ℕ, zero, suc, ◌+◌, ◌-◌, ◌*◌, ◌/◌, ◌%◌, ◌^◌, ◌≤◌, ◌<◌, ◌≡◌, refl, sym, ap, ◌∙◌, fun_ext, true,
  false, inr, List, [], ◌∷◌, ◌++◌, arith, length, take, drop, get_or, not_leb, length-take,
  take-append-drop, length-drop, length-append, ==_ne,
}
use muos.Common.Int.{pos, negsuc}
use muos.Common.Mem.{
  slice_ap, slice-append, take-slice, drop-slice, slice-blit_out, Mem, blit, slice, length-slice,
  get_or-slice,
}
use muos.Ata.{
  Ata, sector_size, ata_read_sector, ata_write_sector, chunk, read_loop, ata_read_bytes, patch,
  write_loop, ata_write_bytes, out_of_range,
}

-- The drive is there and every sector can be read and written.
pub record IsGood (d : Ata) : Type 0 where
  pub there : d.present ≡ true
  pub data_fine : (lba : ℕ) → d.wait_data lba ≡ pos 0
  pub flush_fine : (lba : ℕ) → d.wait_flush lba ≡ pos 0
  pub small : d.sectors < 2 ^ 23

get_or-append_left :
    (xs ys : List ℕ) (i : ℕ) → i < length xs → get_or (xs ++ ys) i 0 ≡ get_or xs i 0
get_or-append_left [] ys i h = absurd (omega arith)
get_or-append_left (x ∷ xs) ys zero h = refl
get_or-append_left (x ∷ xs) ys (suc i) h = get_or-append_left xs ys i (omega arith)

get_or-append_right :
    (xs ys : List ℕ) (i : ℕ) → length xs ≤ i → get_or (xs ++ ys) i 0 ≡ get_or ys (i - length xs) 0
get_or-append_right [] ys i h = ap (λ k. get_or ys k 0) {y = i - 0} (omega arith)
get_or-append_right (x ∷ xs) ys zero h = absurd (omega arith)
get_or-append_right (x ∷ xs) ys (suc i) h =
    get_or-append_right xs ys i (omega arith)
    ∙ ap (λ k. get_or ys k 0) {y = suc i - suc (length xs)} (omega arith)

-- A write in two parts.
pub blit-blit_append :
    (m : Mem) (at : ℕ) (xs ys : List ℕ)
    → blit (blit m at xs) (at + length xs) ys ≡ blit m at (xs ++ ys)
unfolding blit
blit-blit_append m at xs ys = fun_ext (λ i. ground (
  arith,
  length-append xs ys,
  get_or-append_left xs ys (i - at),
  get_or-append_right xs ys (i - at),
  shift i,
))
  where
    shift :
        (i : ℕ)
        → at + length xs ≤ i
        → get_or ys (i - (at + length xs)) 0 ≡ get_or ys (i - at - length xs) 0
    shift i h = ap (λ k. get_or ys k 0) (omega arith)

-- Writing back what is there changes nothing.
blit-slice_self : (m : Mem) (at n : ℕ) → blit m at (slice m at n) ≡ m
unfolding blit
blit-slice_self m at n =
    fun_ext (λ i. ground (arith, length-slice m at n, get_or-slice m at n (i - at), back i))
  where
    back : (i : ℕ) → at ≤ i → m (at + (i - at)) ≡ m i
    back i h = ap m (omega arith)

-- What a round writes is the part of the buffer.
pub blit-patch :
    (m : Mem) (at off : ℕ) (xs : List ℕ)
    → off + length xs ≤ sector_size
    → blit m at (patch off xs (slice m at sector_size)) ≡ blit m (at + off) xs
blit-patch m at off xs h =
    rw
      (
        take-slice m at off sector_size (omega arith),
        drop-slice m at (off + length xs) sector_size,
        sym (
            blit-blit_append m at (slice m at off)
              (xs ++ slice m (at + (off + length xs)) (sector_size - (off + length xs)))),
        blit-slice_self m at off,
        length-slice m at off,
      )
      (sym (
          blit-blit_append m (at + off) xs
            (slice m (at + (off + length xs)) (sector_size - (off + length xs))))
        ∙ ap (λ c. blit (blit m (at + off) xs) (at + off + length xs) c)
            (tail
              ∙ sym (
                  slice-blit_out m (at + off) xs (at + off + length xs)
                    (sector_size - (off + length xs)) (inr (omega arith))))
        ∙ blit-slice_self (blit m (at + off) xs) (at + off + length xs)
            (sector_size - (off + length xs)))
  where
    tail :
        slice m (at + (off + length xs)) (sector_size - (off + length xs))
        ≡ slice m (at + off + length xs) (sector_size - (off + length xs))
    tail = slice_ap m _ _ _ _ (omega arith) refl

module _ (d : Ata) (good : IsGood d) where
  read-slice :
      (lba : ℕ)
      → lba < d.sectors
      → ata_read_sector lba d ≡ inr (slice d.disk (lba * sector_size) sector_size)
  unfolding ata_read_sector
  read-slice lba h = rw (good.data_fine lba, not_leb d.sectors lba h) refl

  write-blit :
      (lba : ℕ) (bytes : List ℕ)
      → lba < d.sectors
      → ata_write_sector lba bytes d
        ≡ (record d { disk = blit d.disk (lba * sector_size) bytes }, pos 0)
  unfolding ata_write_sector
  write-blit lba bytes h =
      rw (good.data_fine lba, good.flush_fine lba, not_leb d.sectors lba h) refl

chunk-bounds :
    (at left : ℕ)
    → 0 < left
    → (chunk at left ≤ left)
      × (0 < chunk at left)
      × (at % sector_size + chunk at left ≤ sector_size)
chunk-bounds at left h = ground arith

-- The part of a sector that a round copies.
round-slice :
    (m : Mem) (at n : ℕ)
    → at % sector_size + n ≤ sector_size
    → take n (drop (at % sector_size) (slice m (at / sector_size * sector_size) sector_size))
      ≡ slice m at n
round-slice m at n h =
    rw
      (
        drop-slice m (at / sector_size * sector_size) (at % sector_size) sector_size,
        take-slice m (at / sector_size * sector_size + at % sector_size) n
            (sector_size - at % sector_size) (omega arith),
      )
      (slice_ap m (at / sector_size * sector_size + at % sector_size) at n n (omega arith) refl)

read_loop-slice :
    (d : Ata)
    → IsGood d
    → (f at left : ℕ) → left ≤ f
    → at + left ≤ d.sectors * sector_size
    → read_loop f at left d ≡ (slice d.disk at left, pos 0)
unfolding read_loop slice
read_loop-slice d good zero at left hf h =
    ap (λ l. (l, pos 0)) (slice_ap d.disk at at 0 left refl (omega arith))
read_loop-slice d good (suc f) at left hf h = elim (ℕ_discrete left 0) [
  | yes z ↦ rw z refl
  | no z ↦
      let (le, pos_n, fits) = chunk-bounds at left (omega arith) in
      let ih =
        read_loop-slice d good f (at + chunk at left) (left - chunk at left) (omega arith)
          (omega arith) in
      rw
        (
          ==_ne left 0 z,
          read-slice d good (at / sector_size) (omega arith),
          ih,
          round-slice d.disk at (chunk at left) fits,
          slice-append d.disk at (chunk at left) (left - chunk at left),
        )
        (ap (λ l. (l, pos 0))
          (slice_ap d.disk at at (chunk at left + (left - chunk at left)) left refl (omega arith)))
]

drop-nil : (n : ℕ) → drop {A = ℕ} n [] ≡ []
drop-nil zero = refl
drop-nil (suc n) = refl

append_nil : (xs : List ℕ) → xs ++ [] ≡ xs
append_nil [] = refl
append_nil (x ∷ xs) = ap (λ l. x ∷ l) (append_nil xs)

patch_whole : (off : ℕ) (xs : List ℕ) → off ≡ 0 → patch off xs [] ≡ xs
patch_whole off xs h = rw (h, drop-nil (0 + length xs), append_nil xs) refl

module _ (d : Ata) (good : IsGood d) (at : ℕ) (xs : List ℕ)
    (inside : at / sector_size < d.sectors) where
  -- A round that writes a whole sector, and one that writes a part of it.
  round_whole :
      at % sector_size ≡ 0
      → ata_write_sector (at / sector_size) (patch (at % sector_size) xs []) d
        ≡ (record d { disk = blit d.disk at xs }, pos 0)
  round_whole h =
      rw (patch_whole (at % sector_size) xs h, write-blit d good (at / sector_size) xs inside)
        (ap (λ a. (record d { disk = blit d.disk a xs }, pos 0)) {y = at} (omega arith))

  round_part :
      at % sector_size + length xs ≤ sector_size
      → ata_write_sector
          (at / sector_size)
          (patch (at % sector_size) xs (slice d.disk (at / sector_size * sector_size) sector_size))
          d
        ≡ (record d { disk = blit d.disk at xs }, pos 0)
  round_part h =
      rw
        (
          write-blit d good (at / sector_size)
              (patch (at % sector_size) xs
                (slice d.disk (at / sector_size * sector_size) sector_size))
              inside,
          blit-patch d.disk (at / sector_size * sector_size) (at % sector_size) xs h,
        )
        (ap (λ a. (record d { disk = blit d.disk a xs }, pos 0)) {y = at} (omega arith))

pub after-IsGood :
    (d : Ata) (at : ℕ) (xs : List ℕ) → IsGood d → IsGood (record d { disk = blit d.disk at xs })
after-IsGood d at xs g = record {
  there = g.there;
  data_fine = g.data_fine;
  flush_fine = g.flush_fine;
  small = g.small;
}

blit-nil : (m : Mem) (at : ℕ) → blit m at [] ≡ m
unfolding blit
blit-nil m at = fun_ext (λ i. ground arith)

length-zero : (xs : List ℕ) → length xs ≡ 0 → xs ≡ []
length-zero [] h = refl
length-zero (x ∷ xs) h = absurd (omega arith)

write_loop-blit :
    (d : Ata)
    → IsGood d
    → (f at : ℕ) (src : List ℕ) → length src ≤ f
    → at + length src ≤ d.sectors * sector_size
    → write_loop f at src d ≡ (record d { disk = blit d.disk at src }, pos 0)
unfolding write_loop
write_loop-blit d good zero at [] hf h = rw (blit-nil d.disk at) refl
write_loop-blit d good zero at (x ∷ src) hf h = absurd (omega arith)
write_loop-blit d good (suc f) at src hf h = elim (ℕ_discrete (length src) 0) [
  | yes z ↦ rw (z, length-zero src z, blit-nil d.disk at) refl
  | no z ↦
      let (le, pos_n, fits) = chunk-bounds at (length src) (omega arith) in
      let n = chunk at (length src) in
      let lt = length-take n src in
      let d' = record d { disk = blit d.disk at (take n src) } in
      let ih =
        write_loop-blit d' (after-IsGood d at (take n src) good) f (at + n) (drop n src)
          (omega (arith, length-drop n src)) (omega (arith, length-drop n src)) in
      let joined : blit (blit d.disk at (take n src)) (at + n) (drop n src) ≡ blit d.disk at src =
        ap (λ k. blit (blit d.disk at (take n src)) k (drop n src)) {x = at + n}
          {y = at + length (take n src)} (omega arith)
        ∙ blit-blit_append d.disk at (take n src) (drop n src)
        ∙ ap (λ l. blit d.disk at l) (take-append-drop n src) in
      elim (ℕ_discrete n sector_size) [
        | yes w ↦
            rw (==_ne (length src) 0 z, w)
              (rw (round_whole d good at (take n src) (omega arith) (omega arith), ih)
                (ap (λ m. (record d { disk = m }, pos 0)) joined))
        | no w ↦
            rw
              (
                ==_ne (length src) 0 z,
                ==_ne n sector_size w,
                read-slice d good (at / sector_size) (omega arith),
                round_part d good at (take n src) (omega arith) (omega arith),
                ih,
              )
              (ap (λ m. (record d { disk = m }, pos 0)) joined)
      ]
]

in_range :
    (d : Ata)
    → IsGood d
    → (offset count : ℕ) → offset + count ≤ d.sectors * sector_size
    → out_of_range offset count d ≡ false
in_range d good offset count h = ground arith

full :
    (d : Ata)
    → d.sectors ≡ 2 ^ 23
    → (offset count : ℕ) → 0 < count
    → out_of_range offset count d ≡ true
full d e offset count h = rw e (ground arith)

-- On a drive of less than 4 GB that reports no error, a read inside the disk returns the bytes that
-- stand there, over however many sectors they lie.
pub ata_read_bytes-slice :
    (d : Ata)
    → IsGood d
    → (offset count : ℕ) → offset + count ≤ d.sectors * sector_size
    → ata_read_bytes offset count d ≡ (slice d.disk offset count, pos count)
unfolding ata_read_bytes slice
ata_read_bytes-slice d good offset count h = elim (ℕ_discrete count 0) [
  | yes z ↦ simp (good.there, z) refl
  | no z ↦
      simp
        (
          good.there,
          ==_ne count 0 z,
          in_range d good offset count h,
          read_loop-slice d good count offset count (omega arith) h,
        )
        refl
]

write-nil : (d : Ata) (offset : ℕ) → d.present ≡ true → ata_write_bytes offset [] d ≡ (d, pos 0)
unfolding ata_write_bytes
write-nil d offset there = simp there refl

-- On such a drive a write inside the disk replaces the bytes from its offset on and no others.
pub ata_write_bytes-blit :
    (d : Ata)
    → IsGood d
    → (offset : ℕ) (src : List ℕ) → offset + length src ≤ d.sectors * sector_size
    → ata_write_bytes offset src d ≡ (record d { disk = blit d.disk offset src }, pos (length src))
unfolding ata_write_bytes
ata_write_bytes-blit d good offset src h = elim (ℕ_discrete (length src) 0) [
  | yes z ↦ rw (length-zero src z) (
      write-nil d offset good.there
      ∙ ap (λ m. (record d { disk = m }, pos 0)) (sym (blit-nil d.disk offset)))
  | no z ↦
      simp
        (
          good.there,
          ==_ne (length src) 0 z,
          in_range d good offset (length src) h,
          write_loop-blit d good (length src) offset src (omega arith) h,
        )
        refl
]

-- On a disk of 2 ^ 23 sectors, exactly 4 GB, every read and write is refused: its size in bytes is
-- computed in 32 bits and comes out as 0.
pub ata_read_bytes-refused :
    (d : Ata)
    → d.present ≡ true
    → d.sectors ≡ 2 ^ 23
    → (offset : ℕ) (src : List ℕ) → 0 < length src
    → (ata_read_bytes offset (length src) d ≡ ([], negsuc 21))
      × (ata_write_bytes offset src d ≡ (d, negsuc 21))
unfolding ata_read_bytes ata_write_bytes
ata_read_bytes-refused d there e offset src h =
    simp (there, ==_ne (length src) 0 (omega arith), full d e offset (length src) h) (refl, refl)
