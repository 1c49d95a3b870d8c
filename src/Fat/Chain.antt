-- ===== src/Fat/Chain.antt =====
-- Chains of clusters: freeing one, and reading a file along one.
use muos.Common.{
  ℕ, zero, suc, ◌+◌, ◌-◌, ◌*◌, ◌%◌, ◌^◌, ◌≤◌, ◌<◌, ◌≡◌, ◌≢◌, inl, inr, refl, ap, ◌∙◌, sym, subst,
  Bool, true, false, some, List, [], ◌∷◌, ◌++◌, length, take, All, ltb, ◌==◌, if◌then◌else◌, arith,
  Bool-cases, ==_ne, not_ltb, take-append, take_nil,
}
use muos.Common.Mem.{slice, length-slice}
use muos.Ata.{Ata, sector_size}
use muos.Ata.Bytes.{IsGood}
use muos.Fat.{
  Vol, dirbuf_max, fat_next, set_fat, in_chain, free_loop, free_chain, cluster_at, read_cluster,
  read_loop, read_entry,
}
use muos.Fat.Table.{IsTable, HasEntry, set_fat-fat_next, rd-slice}

-- The clusters of the chain from `c` on.
abbrev pub IsChain : Vol → Ata → ℕ → List ℕ → Type 0
IsChain v d c [] = in_chain c ≡ false
IsChain v d c (x ∷ xs) =
    (c ≡ x) × (in_chain x ≡ true) × HasEntry v x × IsChain v d (fat_next v x d) xs

abbrev pub Distinct : List ℕ → Type 0
Distinct [] = Unit
Distinct (x ∷ xs) = All (λ y. y ≢ x) xs × Distinct xs

abbrev pub is_in : ℕ → List ℕ → Bool
is_in c [] = false
is_in c (x ∷ xs) = if c == x then true else is_in c xs

-- A chain stays when the entry of another cluster is written.
IsChain-set_fat :
    (v : Vol) (cluster value c : ℕ) (xs : List ℕ) (d : Ata)
    → IsTable v d
    → HasEntry v cluster
    → value < 2 ^ 32
    → All (λ y. y ≢ cluster) xs
    → IsChain v d c xs
    → IsChain v (set_fat v cluster value d).0 c xs
IsChain-set_fat v cluster value c [] d t h b a k = k
IsChain-set_fat v cluster value c (x ∷ xs) d t h b (a, others) (e, is, has, k) =
    let (ok, entry, table) = set_fat-fat_next v cluster value x d t h has b in
    let same : fat_next v x (set_fat v cluster value d).0 ≡ fat_next v x d =
      entry ∙ rw (==_ne x cluster a) refl in
    (
      e,
      is,
      has,
      subst (λ n. IsChain v (set_fat v cluster value d).0 n xs) (sym same)
          (IsChain-set_fat v cluster value (fat_next v x d) xs d t h b others k),
    )

-- What freeing the clusters does to the entry of one.
abbrev pub Freed : Vol → List ℕ → Ata → Ata → Type 0
Freed v xs d d' =
    IsTable v d'
    × ((other : ℕ)
        → HasEntry v other
        → fat_next v other d' ≡ (if is_in other xs then 0 else fat_next v other d))

free_loop-Freed :
    (guard : ℕ) (v : Vol) (c : ℕ) (xs : List ℕ) (d : Ata)
    → IsTable v d
    → IsChain v d c xs
    → Distinct xs
    → length xs ≤ guard
    → Freed v xs d (free_loop guard v c d)
unfolding free_loop
free_loop-Freed zero v c [] d t k s l = (t, λ other h. refl)
free_loop-Freed zero v c (x ∷ xs) d t k s l = absurd (omega arith)
free_loop-Freed (suc guard) v c [] d t k s l = rw k (t, λ other h. refl)
free_loop-Freed (suc guard) v c (x ∷ xs) d t (e, is, has, k) (a, s) l =
    let d1 = (set_fat v x 0 d).0 in
    let table = (set_fat-fat_next v x 0 x d t has has (omega arith)).2 in
    let (done, entries) =
      free_loop-Freed guard v (fat_next v x d) xs d1 table
        (IsChain-set_fat v x 0 (fat_next v x d) xs d t has (omega arith) a k) s (omega arith) in
    rw (e, is)
      (
        done,
        λ other h.
            entries other h
            ∙ ap (λ n. if is_in other xs then 0 else n)
                ((set_fat-fat_next v x 0 other d t has h (omega arith)).1)
            ∙ both (other == x) (is_in other xs) (fat_next v other d),
      )
  where
    both :
        (a b : Bool) (n : ℕ)
        → (if b then 0 else if a then 0 % 2 ^ 28 else n)
          ≡ (if (if a then true else b) then 0 else n)
    both true true n = refl
    both true false n = refl
    both false true n = refl
    both false false n = refl

-- Freeing a chain of at most 4096 clusters makes exactly its clusters free: their entries are 0, and
-- every other entry of the table is as it was.
pub free_chain-Freed :
    (v : Vol) (first : ℕ) (xs : List ℕ) (d : Ata)
    → IsTable v d
    → IsChain v d first xs
    → Distinct xs
    → length xs ≤ 4096
    → Freed v xs d (free_chain v first d)
unfolding free_chain
free_chain-Freed v first xs d t k s l = free_loop-Freed 4096 v first xs d t k s l

-- The bytes of the clusters.
abbrev pub contents : Vol → Ata → List ℕ → List ℕ
contents v d [] = []
contents v d (x ∷ xs) = slice d.disk (cluster_at v x) (v.spc * sector_size) ++ contents v d xs

-- The clusters are on the disk.
abbrev pub OnDisk : Vol → Ata → List ℕ → Type 0
OnDisk v d xs = All (λ x. cluster_at v x + v.spc * sector_size ≤ d.sectors * sector_size) xs

read_loop-contents :
    (guard : ℕ) (v : Vol) (c want : ℕ) (xs : List ℕ) (d : Ata)
    → IsGood d
    → v.spc ≤ 32
    → IsChain v d c xs
    → OnDisk v d xs
    → read_loop guard v c want d ≡ some (take want (contents v d (take guard xs)))
unfolding read_loop read_cluster
read_loop-contents zero v c want xs d g p k o = ap some (sym (take_nil want))
read_loop-contents (suc guard) v c want [] d g p k o =
    rw (read_loop, k) (ap some (sym (take_nil want)))
read_loop-contents (suc guard) v c want (x ∷ xs) d g p (e, is, has, k) (o, os) =
    let n = v.spc * sector_size in
    let b = slice d.disk (cluster_at v x) n in
    let rest = read_loop-contents guard v (fat_next v x d) (want - n) xs d g p k os in
    ap (λ y. read_loop (suc guard) v y want d) e ∙ elim (Bool-cases (want == 0)) [
      | inl z ↦ let none_wanted : want ≡ 0 = ground arith in rw (read_loop, is, z, none_wanted) refl
      | inr more ↦
          rw
            (
              read_loop,
              is,
              more,
              not_ltb dirbuf_max n (omega arith),
              rd-slice d (cluster_at v x) n g o,
              rest,
            )
            (ap some (
              ap (λ k. take want b ++ take (want - k) (contents v d (take guard xs)))
                (sym (length-slice d.disk (cluster_at v x) n))
              ∙ sym (take-append want b (contents v d (take guard xs)))))
    ]

-- `fat_read_file` along a chain of clusters that are on the disk gives the bytes of the first 4096
-- clusters, cut to the size of the file and to the room for them. A file of more clusters is cut
-- off there without an error.
pub read_entry-contents :
    (v : Vol) (first size cap : ℕ) (xs : List ℕ) (d : Ata)
    → IsGood d
    → v.spc ≤ 32
    → IsChain v d first xs
    → OnDisk v d xs
    → read_entry v first size cap d
      ≡ some (take (if ltb cap size then cap else size) (contents v d (take 4096 xs)))
unfolding read_entry
read_entry-contents v first size cap xs d g p k o =
    read_loop-contents 4096 v first (if ltb cap size then cap else size) xs d g p k o
