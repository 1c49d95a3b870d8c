-- ===== src/Frames/Pages.antt =====
-- What `mm_alloc_pages` takes.
use muos.Common.{
  ℕ, zero, suc, ◌+◌, ◌-◌, ◌*◌, ◌≤◌, ◌<◌, ◌≡◌, ◌≢◌, refl, ap, ◌∙◌, ◌⊎◌, inl, inr, true, false, ◌||◌,
  ltb, ◌==◌, arith, Option-cases, Bool-cases, subst⁻¹, subst, ==_ne, ==_refl,
}
use muos.Frames.{Frames, page_size, set_bit, set_ref, find_run, take_run, mm_alloc_pages}
use muos.Frames.Run.{IsRun, IsFirstRun, find_run-lowest}

-- The `n` frames from `a` on are in use with one reference each; all others are as before.
pub record RunTaken (s : Frames) (n a : ℕ) (s' : Frames) : Type 0 where
  pub taken : (g : ℕ) → a ≤ g → g < a + n → (s'.used g ≡ true) × (s'.refs g ≡ 1)
  pub others : (g : ℕ) → (g < a) ⊎ (a + n ≤ g) → (s'.used g ≡ s.used g) × (s'.refs g ≡ s.refs g)
  pub total : s'.total ≡ s.total

abbrev marked : ℕ → Frames → Frames
marked a s = record s { used = set_bit a true s.used; refs = set_ref a 1 s.refs }

marked_at : (a : ℕ) (s : Frames) → ((marked a s).used a ≡ true) × ((marked a s).refs a ≡ 1)
unfolding set_bit
marked_at a s = (rw (==_refl a) refl, rw (==_refl a) refl)

marked_other :
    (a g : ℕ) (s : Frames)
    → g ≢ a
    → ((marked a s).used g ≡ s.used g) × ((marked a s).refs g ≡ s.refs g)
unfolding set_bit
marked_other a g s h = (rw (==_ne g a h) refl, rw (==_ne g a h) refl)

take_run-free : (n a : ℕ) (s : Frames) → (take_run n a s).free ≡ s.free
unfolding take_run
take_run-free zero a s = refl
take_run-free (suc n) a s = take_run-free n (a + 1) (marked a s)

take_run-RunTaken : (n a : ℕ) (s : Frames) → RunTaken s n a (take_run n a s)
unfolding take_run
take_run-RunTaken zero a s = record {
  taken = λ g p q. absurd (omega arith);
  others = λ g h. (refl, refl);
  total = refl;
}
take_run-RunTaken (suc n) a s =
    let rest = take_run-RunTaken n (a + 1) (marked a s) in
    record {
      taken = λ g p q. elim (Bool-cases (g == a)) [
        | inl e ↦ here g e (rest.others a (inl (omega arith)))
        | inr e ↦ rest.taken g (ground arith) (omega arith)
      ];
      others = λ g h.
          let (u, r) =
            rest.others g (elim h [ inl p ↦ inl (omega arith) | inr p ↦ inr (omega arith) ]) in
          let (u', r') =
            marked_other a g s
              (elim h [ inl p ↦ λ e. absurd (omega arith) | inr p ↦ λ e. absurd (omega arith) ]) in
          (u ∙ u', r ∙ r');
      total = rest.total;
    }
  where
    here :
        (g : ℕ)
        → (g == a) ≡ true
        → let t = take_run n (a + 1) (marked a s) in
          (t.used a ≡ (marked a s).used a) × (t.refs a ≡ (marked a s).refs a)
          → (t.used g ≡ true) × (t.refs g ≡ 1)
    here g e (u, r) =
        let same : g ≡ a = ground arith in
        let (u', r') = marked_at a s in
        (
          ap (take_run n (a + 1) (marked a s)).used same ∙ u ∙ u',
          ap (take_run n (a + 1) (marked a s)).refs same ∙ r ∙ r',
        )

-- What comes of the search: the lowest long enough run is taken and counted, or there is none.
abbrev pub Served : Frames → ℕ → Frames × ℕ → Type 0
Served s count (s', addr) =
    ((start : ℕ) × (addr ≡ start * page_size)
      × IsRun s count start
      × ((t : ℕ) → t < start → IsRun s count t → ⊥)
      × RunTaken s count start s'
      × (s'.free ≡ s.free - count))
    ⊎ ((s' ≡ s) × (addr ≡ 0) × ((t : ℕ) → IsRun s count t → ⊥))

with_free :
    (s s' : Frames) (count start n : ℕ)
    → RunTaken s count start s'
    → RunTaken s count start (record s' { free = n })
with_free s s' count start n t = record { taken = t.taken; others = t.others; total = t.total }

-- `mm_alloc_pages`, asked for at least one frame and no more than are counted free, takes the lowest
-- run of that many free frames, gives each one reference and counts them; all other frames stay. Where
-- there is no such run it returns `NULL` and changes nothing.
pub mm_alloc_pages-Served :
    (count : ℕ) (s : Frames)
    → 0 < count
    → count ≤ s.total
    → count ≤ s.free
    → Served s count (mm_alloc_pages count s)
unfolding mm_alloc_pages
mm_alloc_pages-Served count s c t f = elim (Option-cases (find_run (suc s.total) 0 count s)) [
  | inl e ↦
      let no_run = subst (IsFirstRun s count 0) e (find_run-lowest count s c) in
      subst⁻¹ (Served s count) {x = mm_alloc_pages count s} {y = (s, 0)}
        (rw (mm_alloc_pages, passes, e) refl)
        (inr (refl, refl, λ t run. no_run t (omega arith) run))
  | inr (start, e) ↦
      let (p, run, first) = subst (IsFirstRun s count 0) e (find_run-lowest count s c) in
      let s' = take_run count start s in
      subst⁻¹ (Served s count) {x = mm_alloc_pages count s}
        {y = (record s' { free = s'.free - count }, start * page_size)}
        (rw (mm_alloc_pages, passes, e) refl)
        (inl (
          start,
          refl,
          run,
          λ t q r. first t (omega arith) q r,
          with_free s s' count start (s'.free - count) (take_run-RunTaken count start s),
          ap (λ k. k - count) (take_run-free count start s),
        ))
]
  where
    passes : ((count == 0) || ltb s.total count || ltb s.free count) ≡ false
    passes = ground arith
