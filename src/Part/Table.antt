-- ===== src/Part/Table.antt =====
-- What `part_init` finds.
use muos.Common.{
  if_all, ℕ, zero, suc, ◌+◌, ◌-◌, ◌*◌, ◌%◌, ◌^◌, ◌≤◌, ◌<◌, ◌≡◌, refl, Bool, true, false, not, inl,
  inr, Option, none, some, List, [], ◌∷◌, leb, if◌then◌else◌, length, length-append, arith, drop,
  Bool-cases, Option-cases, subst⁻¹, u32, not_ltb,
}
use muos.Common.Mem.{slice}
use muos.Ata.{Ata, sector_size}
use muos.Ata.Bytes.{IsGood, ata_read_bytes-slice}
use muos.Part.{
  Part, Parts, part_max, read_sector, sector_at, add_part, gpt_loop, read_entry, gpt_entry,
  parse_gpt, le32, le64, starts_with, mbr_entry, mbr_loop, has_gpt, no_parts, part_init,
}

sector_at-slice :
    (d : Ata)
    → IsGood d
    → (offset : ℕ) → offset + 512 ≤ d.sectors * sector_size
    → sector_at offset d ≡ some (slice d.disk offset 512)
unfolding sector_at
sector_at-slice d good offset h = simp (sector_at, ata_read_bytes-slice d good offset 512 h) refl

-- On a drive of less than 4 GB that reports no error, `read_sector` reads the sector whose number is
-- the remainder by 2 ^ 23, if the disk has that one, for every number below 2 ^ 32: a number behind the
-- end of the disk, from 2 ^ 23 on, is not refused and reads a sector in front.
pub read_sector-wraps :
    (d : Ata)
    → IsGood d
    → (lba : ℕ) → lba < 2 ^ 32
    → lba % 2 ^ 23 < d.sectors
    → read_sector lba d ≡ some (slice d.disk (lba % 2 ^ 23 * 512) 512)
unfolding read_sector
read_sector-wraps d good lba small inside =
    let offset : u32 (lba * 512) ≡ lba % 2 ^ 23 * 512 = omega arith in
    rw (read_sector, not_ltb (2 ^ 32 - 1) lba (omega arith), offset)
      (sector_at-slice d good (lba % 2 ^ 23 * 512) (omega arith))

add_part-bound :
    (o : Option Part) (parts : List Part)
    → length parts < part_max
    → length (add_part o parts) ≤ part_max
add_part-bound none parts h = omega arith
add_part-bound (some p) parts h = omega (arith, length-append parts (p ∷ []))

leb-false : (a b : ℕ) → leb a b ≡ false → b < a
leb-false a b h = ground arith

gpt_loop-bound :
    (n lba esz i : ℕ) (parts : List Part) (d : Ata)
    → length parts ≤ part_max
    → length (gpt_loop n lba esz i parts d).0 ≤ part_max
unfolding gpt_loop
gpt_loop-bound zero lba esz i parts d h = h
gpt_loop-bound (suc n) lba esz i parts d h = elim (Bool-cases (leb part_max (length parts))) [
  | inl e ↦ rw (gpt_loop, e) h
  | inr e ↦ elim (Option-cases (read_entry lba esz i d)) [
    | inl k ↦ rw (gpt_loop, e, k) h
    | inr (b, k) ↦
        rw (gpt_loop, e, k)
          (gpt_loop-bound n lba esz (i + 1) (add_part (gpt_entry b) parts) d
            (add_part-bound (gpt_entry b) parts (leb-false part_max (length parts) e)))
  ]
]

mbr_loop-bound :
    (n i : ℕ) (mbr : List ℕ) (parts : List Part)
    → length parts ≤ part_max
    → length (mbr_loop n i mbr parts) ≤ part_max
unfolding mbr_loop
mbr_loop-bound zero i mbr parts h = h
mbr_loop-bound (suc n) i mbr parts h = elim (Bool-cases (leb part_max (length parts))) [
  | inl e ↦ rw (mbr_loop, e) h
  | inr e ↦
      rw (mbr_loop, e)
        (mbr_loop-bound n (i + 1) mbr (add_part (mbr_entry mbr i) parts)
          (add_part-bound (mbr_entry mbr i) parts (leb-false part_max (length parts) e)))
]

abbrev Fits : List Part × Bool → Type 0
Fits r = length r.0 ≤ part_max

parse_gpt-bound : (d : Ata) → Fits (parse_gpt d)
unfolding parse_gpt
parse_gpt-bound d = elim (Option-cases (read_sector 1 d)) [
  | inl e ↦ subst⁻¹ Fits {x = parse_gpt d} {y = ([], false)} (rw (parse_gpt, e) refl) (omega arith)
  | inr (hdr, e) ↦
      rw (parse_gpt, e)
        (if_all Fits (not (starts_with hdr _)) ([], false) _ (omega arith)
          (if_all Fits _ ([], false) _ (omega arith)
            (gpt_loop-bound (le32 (drop 80 hdr)) (le64 (drop 72 hdr)) (le32 (drop 84 hdr)) 0 [] d
              (omega arith))))
]

-- `part_init` never lists more partitions than its table has entries, whatever the disk holds.
part_init-bound : (d : Ata) → length (part_init d).0.parts ≤ part_max
unfolding part_init
part_init-bound d = elim (Option-cases (read_sector 0 d)) [
  | inl e ↦
      subst⁻¹ (λ r. length r.0.parts ≤ part_max) {x = part_init d} {y = (no_parts, false)}
        (rw (part_init, e) refl) (omega arith)
  | inr (mbr, e) ↦
      let r = if has_gpt mbr then parse_gpt d else ([], false) in
      let fits =
        if_all Fits (has_gpt mbr) (parse_gpt d) ([], false) (parse_gpt-bound d) (omega arith) in
      rw (part_init, e)
        (if_all {A = Parts × Bool} (λ r. length r.0.parts ≤ part_max) _ (no_parts, false) _
          (omega arith)
          (if_all {A = Parts × Bool} (λ r. length r.0.parts ≤ part_max) r.1
            (record { parts = r.0; present = true; partitioned = true }, true)
            (record { parts = mbr_loop 4 0 mbr r.0; present = true; partitioned = true }, true) fits
            (mbr_loop-bound 4 0 mbr r.0 fits)))
]
