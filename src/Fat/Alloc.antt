-- ===== src/Fat/Alloc.antt =====
-- The allocation of clusters.
use muos.Common.{
  ℕ, zero, suc, ◌+◌, ◌-◌, ◌*◌, ◌≤◌, ◌<◌, ◌≡◌, ◌≢◌, inl, inr, refl, subst, Option, none, some, leb,
  ◌==◌, if◌then◌else◌, arith, Bool-cases,
}
use muos.Ata.{Ata}
use muos.Fat.{Vol, Fat, fat_end, fat_next, scan_free, take_cluster, alloc_cluster}
use muos.Fat.Table.{IsTable, HasEntry, set_fat-fat_next}

-- A volume that can be written: the table has an entry for each cluster, and the hint is a cluster.
pub record IsVolume (s : Fat) : Type 0 where
  pub table : IsTable s.vol s.ata
  pub entries : 2 + s.vol.cluster_count ≤ s.vol.fsz * 128
  pub hint_from : 2 ≤ s.alloc_hint
  pub hint_to : s.alloc_hint < 2 + s.vol.cluster_count

-- No cluster from `c` to before `t` is free.
abbrev pub NoneFree : Vol → Ata → ℕ → ℕ → Type 0
NoneFree v d c t = (e : ℕ) → c ≤ e → e < t → fat_next v e d ≢ 0

abbrev pub IsFree : Vol → Ata → ℕ → ℕ → Option ℕ → Type 0
IsFree v d c t none = NoneFree v d c t
IsFree v d c t (some x) = (c ≤ x) × (x < t) × (fat_next v x d ≡ 0)

IsFree-cons :
    (v : Vol) (d : Ata) (c t : ℕ) (o : Option ℕ)
    → fat_next v c d ≢ 0
    → IsFree v d (c + 1) t o
    → IsFree v d c t o
IsFree-cons v d c t none h k = λ e a b. elim (Bool-cases (c == e)) [
  | inl same ↦ subst (λ x. fat_next v x d ≢ 0) {x = c} (ground arith) h
  | inr other ↦ k e (ground arith) b
]
IsFree-cons v d c t (some x) h (a, b, z) = (omega arith, b, z)

scan_free-IsFree : (n c : ℕ) (v : Vol) (d : Ata) → IsFree v d c (c + n) (scan_free n c v d)
unfolding scan_free
scan_free-IsFree zero c v d = λ e a b. absurd (omega arith)
scan_free-IsFree (suc n) c v d = elim (Bool-cases (fat_next v c d == 0)) [
  | inl e ↦ rw e (omega arith, omega arith, ground arith)
  | inr e ↦ rw e (
      IsFree-cons v d c (c + suc n) (scan_free n (c + 1) v d) (λ z. ground arith)
        (subst (λ t. IsFree v d (c + 1) t (scan_free n (c + 1) v d)) (omega arith)
          (scan_free-IsFree n (c + 1) v d)))
]

-- A free cluster has become the end of a chain, and all else is as it was.
pub record Allocated (s : Fat) (c : ℕ) (s' : Fat) : Type 0 where
  pub from : 2 ≤ c
  pub to : c < 2 + s.vol.cluster_count
  pub was_free : fat_next s.vol c s.ata ≡ 0
  pub same_vol : s'.vol ≡ s.vol
  pub entry :
      (other : ℕ)
      → HasEntry s.vol other
      → fat_next s.vol other s'.ata ≡ (if other == c then fat_end else fat_next s.vol other s.ata)
  pub volume : IsVolume s'

abbrev pub Allocation : Fat → Fat × Option ℕ → Type 0
Allocation s (s', none) = (s' ≡ s) × NoneFree s.vol s.ata 2 (2 + s.vol.cluster_count)
Allocation s (s', some c) = Allocated s c s'

take_cluster-Allocation :
    (c : ℕ) (s : Fat)
    → IsVolume s
    → 2 ≤ c
    → c < 2 + s.vol.cluster_count
    → fat_next s.vol c s.ata ≡ 0
    → Allocation s (take_cluster c s)
unfolding take_cluster
take_cluster-Allocation c s g a b z =
    let has : HasEntry s.vol c = omega (arith, g.entries) in
    let (ok, self, table) =
      set_fat-fat_next s.vol c fat_end c s.ata g.table has has (omega arith) in
    simp (take_cluster, ok)
      (record {
        from = a;
        to = b;
        was_free = z;
        same_vol = refl;
        entry =
            λ other h. (set_fat-fat_next s.vol c fat_end other s.ata g.table has h (omega arith)).1;
        volume = record {
          table = table;
          entries = g.entries;
          hint_from = ground arith;
          hint_to = ground arith;
        };
      })

-- `alloc_cluster` gives a cluster of the volume that was free, which is then the end of a chain while
-- all other entries are as they were; or no cluster of the volume is free, and nothing changes.
pub alloc_cluster-Allocation : (s : Fat) → IsVolume s → Allocation s (alloc_cluster s)
unfolding alloc_cluster
alloc_cluster-Allocation s g =
    first (scan_free (last - s.alloc_hint) s.alloc_hint s.vol s.ata) refl
      (scan_free-IsFree (last - s.alloc_hint) s.alloc_hint s.vol s.ata)
  where
    last : ℕ
    last = 2 + s.vol.cluster_count

    both :
        NoneFree s.vol s.ata s.alloc_hint (s.alloc_hint + (last - s.alloc_hint))
        → NoneFree s.vol s.ata 2 (2 + (s.alloc_hint - 2))
        → NoneFree s.vol s.ata 2 last
    both h k e a b = elim (Bool-cases (leb s.alloc_hint e)) [
      | inl up ↦ h e (ground arith) (omega (arith, g.hint_to))
      | inr low ↦ k e a (ground arith)
    ]

    second :
        scan_free (last - s.alloc_hint) s.alloc_hint s.vol s.ata ≡ none
        → NoneFree s.vol s.ata s.alloc_hint (s.alloc_hint + (last - s.alloc_hint))
        → (o : Option ℕ) → scan_free (s.alloc_hint - 2) 2 s.vol s.ata ≡ o
        → IsFree s.vol s.ata 2 (2 + (s.alloc_hint - 2)) o
        → Allocation s (alloc_cluster s)
    second e h none e' k = simp (alloc_cluster, e, e') (refl, both h k)
    second e h (some c) e' (a, b, z) =
        simp (alloc_cluster, e, e')
          (take_cluster-Allocation c s g a (omega (arith, g.hint_to, g.hint_from)) z)

    first :
        (o : Option ℕ)
        → scan_free (last - s.alloc_hint) s.alloc_hint s.vol s.ata ≡ o
        → IsFree s.vol s.ata s.alloc_hint (s.alloc_hint + (last - s.alloc_hint)) o
        → Allocation s (alloc_cluster s)
    first none e h =
        second e h (scan_free (s.alloc_hint - 2) 2 s.vol s.ata) refl
          (scan_free-IsFree (s.alloc_hint - 2) 2 s.vol s.ata)
    first (some c) e (a, b, z) =
        simp (alloc_cluster, e)
          (take_cluster-Allocation c s g (omega (arith, g.hint_from)) (omega (arith, g.hint_to)) z)
