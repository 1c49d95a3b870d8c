-- ===== src/Part.antt =====
-- The partition tables of src/part.c, read from the disk by `ata_read_bytes`. The messages on the
-- serial line are left out.
pub mod Table
mod Tests
use muos.Common.{
  ℕ, zero, suc, ◌+◌, ◌-◌, ◌*◌, ◌/◌, ◌%◌, ◌^◌, Bool, true, false, not, ◌&&◌, ◌||◌, Option, none,
  some, List, [], ◌∷◌, ◌++◌, ltb, leb, ◌==◌, if◌then◌else◌, length, get_elem?, take, drop, get_or,
  u32,
}
use muos.Common.Int.{ℤ, pos, negsuc}
use muos.Ata.{Ata, ata_read_bytes}

abbrev pub part_max : ℕ
part_max = 8

-- `part_t`
pub record Part : Type 0 where
  pub start_lba : ℕ
  pub sectors : ℕ
  pub type : ℕ
  pub gpt : Bool
  pub name : List ℕ

-- The static variables: `nparts` is the length of `parts`.
pub record Parts : Type 0 where
  pub parts : List Part
  pub present : Bool
  pub partitioned : Bool

pub le16 : List ℕ → ℕ
le16 p = get_or p 0 0 + 2 ^ 8 * get_or p 1 0

pub le32 : List ℕ → ℕ
le32 p = get_or p 0 0 + 2 ^ 8 * get_or p 1 0 + 2 ^ 16 * get_or p 2 0 + 2 ^ 24 * get_or p 3 0

pub le64 : List ℕ → ℕ
le64 p = le32 p + 2 ^ 32 * le32 (drop 4 p)

-- 512 bytes from the offset on, if all could be read.
pub sector_at : ℕ → Ata → Option (List ℕ)
sector_at offset d =
    let (bytes, rc) = ata_read_bytes offset 512 d in
    elim rc [ pos n ↦ if n == 512 then some bytes else none | negsuc n ↦ none ]

-- The offset is a product of `uint32_t`.
pub read_sector : ℕ → Ata → Option (List ℕ)
read_sector lba d = if ltb (2 ^ 32 - 1) lba then none else sector_at (u32 (lba * 512)) d

-- `memcmp(a, b, length(b)) == 0`
pub starts_with : List ℕ → List ℕ → Bool
starts_with a [] = true
starts_with a (c ∷ b) = (get_or a 0 0 == c) && starts_with (drop 1 a) b

abbrev pub guid_basic_data : List ℕ
guid_basic_data =
    0xA2 ∷ 0xA0 ∷ 0xD0 ∷ 0xEB ∷ 0xE5 ∷ 0xB9 ∷ 0x33 ∷ 0x44 ∷ 0x87 ∷ 0xC0 ∷ 0x68 ∷ 0xB6 ∷ 0xB7 ∷ 0x26
    ∷ 0x99 ∷ 0xC7 ∷ []

-- The loop of `guid_name`: `n` is what is left of the name, of which 36 bytes are looked at, two a
-- round.
pub name_loop : ℕ → List ℕ → List ℕ
name_loop zero n = []
name_loop (suc f) n =
    let rest = name_loop f (drop 2 n) in if get_or n 0 0 == 0 then [] else get_or n 0 0 ∷ rest

pub guid_name : List ℕ → List ℕ
guid_name entry = name_loop 18 (drop 56 entry)

-- One entry of a GPT, none if it is passed over.
pub gpt_entry : List ℕ → Option Part
gpt_entry e =
    let first = le64 (drop 32 e) in
    let last = le64 (drop 40 e) in
    if not (starts_with e guid_basic_data) || ltb last first
    then none
    else some (record {
      start_lba = first;
      sectors = (last - first + 1) % 2 ^ 64;
      type = 0xEE;
      gpt = true;
      name = guid_name e;
    })

-- The bytes of entry `i`, which may reach into the next sector.
pub read_entry : ℕ → ℕ → ℕ → Ata → Option (List ℕ)
read_entry entries_lba esz i d =
    let lba = (entries_lba + i * esz / 512) % 2 ^ 64 in
    let off = i * esz % 512 in
    elim (read_sector lba d) [
      | none ↦ none
      | some a ↦
          if ltb 512 (off + esz)
          then elim (read_sector ((lba + 1) % 2 ^ 64) d) [
            | none ↦ none
            | some b ↦ some (drop off (a ++ b))
          ]
          else some (drop off a)
    ]

-- What a round adds.
abbrev pub add_part : Option Part → List Part → List Part
add_part none parts = parts
add_part (some p) parts = parts ++ (p ∷ [])

-- The loop of `parse_gpt` from entry `i` on, `n` entries: the partitions, and whether it got to the end.
pub gpt_loop : ℕ → ℕ → ℕ → ℕ → List Part → Ata → List Part × Bool
gpt_loop zero entries_lba esz i parts d = (parts, true)
gpt_loop (suc n) entries_lba esz i parts d =
    if leb part_max (length parts) then (parts, true) else elim (read_entry entries_lba esz i d) [
      | none ↦ (parts, false)
      | some e ↦ gpt_loop n entries_lba esz (i + 1) (add_part (gpt_entry e) parts) d
    ]

pub parse_gpt : Ata → List Part × Bool
parse_gpt d = elim (read_sector 1 d) [
  | none ↦ ([], false)
  | some hdr ↦
      let num = le32 (drop 80 hdr) in
      let esz = le32 (drop 84 hdr) in
      let (parts, ended) = gpt_loop num (le64 (drop 72 hdr)) esz 0 [] d in
      if not (starts_with hdr (b'E' ∷ b'F' ∷ b'I' ∷ b' ' ∷ b'P' ∷ b'A' ∷ b'R' ∷ b'T' ∷ []))
      then ([], false)
      else if ltb esz 128 || (ltb 512 esz || ((num == 0) || ltb 128 num))
      then ([], false)
      else (parts, ended && not (length parts == 0))
]

-- Entry `i` of the MBR, none if it is passed over.
pub mbr_entry : List ℕ → ℕ → Option Part
mbr_entry mbr i =
    let e = drop (446 + i * 16) mbr in
    let type = get_or e 4 0 in
    let first = le32 (drop 8 e) in
    let count = le32 (drop 12 e) in
    if (type == 0) || ((first == 0) || (count == 0))
    then none
    else some (record { start_lba = first; sectors = count; type = type; gpt = false; name = [] })

-- The last loop of `part_init`; it goes on from the partitions that `parse_gpt` left.
pub mbr_loop : ℕ → ℕ → List ℕ → List Part → List Part
mbr_loop zero i mbr parts = parts
mbr_loop (suc n) i mbr parts =
    if leb part_max (length parts)
    then parts
    else mbr_loop n (i + 1) mbr (add_part (mbr_entry mbr i) parts)

pub has_gpt : List ℕ → Bool
has_gpt mbr =
    (get_or mbr 450 0 == 0xEE)
    || ((get_or mbr 466 0 == 0xEE) || ((get_or mbr 482 0 == 0xEE) || (get_or mbr 498 0 == 0xEE)))

abbrev pub no_parts : Parts
no_parts = record { parts = []; present = false; partitioned = false }

pub part_init : Ata → Parts × Bool
part_init d = elim (read_sector 0 d) [
  | none ↦ (no_parts, false)
  | some mbr ↦
      let (parts, ok) = if has_gpt mbr then parse_gpt d else ([], false) in
      if not d.present || (not (get_or mbr 510 0 == 0x55) || not (get_or mbr 511 0 == 0xAA))
      then (no_parts, false)
      else if ok
      then (record { parts = parts; present = true; partitioned = true }, true)
      else (record { parts = mbr_loop 4 0 mbr parts; present = true; partitioned = true }, true)
]

pub part_get : ℤ → Parts → Option Part
part_get (negsuc n) p = none
part_get (pos i) p = get_elem? p.parts i

-- The number of the first MBR partition of the type.
pub find_type : ℕ → ℕ → List Part → Option ℕ
find_type type i [] = none
find_type type i (p ∷ ps) =
    let rest = find_type type (i + 1) ps in if not p.gpt && (p.type == type) then some i else rest

pub part_find_type : ℕ → Parts → Option ℕ
part_find_type type p = find_type type 0 p.parts
