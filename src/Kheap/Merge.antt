-- ===== src/Kheap/Merge.antt =====
-- What the merging loops of `kfree` in src/kheap.c do to a chain of blocks.
use native.Mathlib.Decide.{ℕ_discrete}
use muos.Common.{
  ℕ, zero, suc, ◌+◌, ◌^◌, ◌≤◌, ◌<◌, ◌≡◌, refl, ap, inl, ◌∙◌, ◌≢◌, true, false, List, [], ◌∷◌, arith,
  length, ◌==◌, if◌then◌else◌, u32, subst, subst⁻¹, lt→ltb, le→leb,
}
use muos.Kheap.{Headers, header_size, write, merge_forward, merge_back}
use muos.Kheap.Chain.{Block, header_of, Chain, Chain-span, Chain-write_out, write_self, write_other}

abbrev pub block : ℕ → ℕ → Block
block n u = record { size = n; used = u }

-- A block takes in the free blocks that follow it.
unfoldable pub absorb : Block → List Block → List Block
absorb b [] = b ∷ []
absorb b (c ∷ ys) =
    let rest = absorb (block (b.size + header_size + c.size) b.used) ys in
    if c.used == 0 then rest else b ∷ c ∷ ys

-- The last block of the first list takes in the first one of the second list if it is free.
unfoldable pub join : List Block → List Block → List Block
join [] ys = ys
join (x ∷ []) [] = x ∷ []
join (x ∷ []) (b ∷ ys) =
    if x.used == 0 then block (x.size + header_size + b.size) x.used ∷ ys else x ∷ b ∷ ys
join (x ∷ x' ∷ xs) ys = x ∷ join (x' ∷ xs) ys

pub absorb-free :
    (b c : Block) (ys : List Block)
    → c.used ≡ 0
    → absorb b (c ∷ ys) ≡ absorb (block (b.size + header_size + c.size) b.used) ys
unfolding absorb
absorb-free b c ys u = ground arith

pub absorb-used : (b c : Block) (ys : List Block) → c.used ≢ 0 → absorb b (c ∷ ys) ≡ b ∷ c ∷ ys
unfolding absorb
absorb-used b c ys u = ground arith

pub absorb-nil : (b : Block) → absorb b [] ≡ b ∷ []
unfolding absorb
absorb-nil b = refl

grow-Chain :
    (m : Headers) (end p : ℕ) (b c : Block) (ys : List Block)
    → end < 2 ^ 32
    → Chain m end p (b ∷ c ∷ ys)
    → Chain
        (write m p (record (m p) { size = u32 ((m p).size + header_size + c.size) }))
        end
        p
        (block (b.size + header_size + c.size) b.used ∷ ys)
grow-Chain m end p b c ys he k =
    let total = Chain-span m end p (b ∷ c ∷ ys) k in
    let fits : u32 (b.size + header_size + c.size) ≡ b.size + header_size + c.size = omega arith in
    rw (k.0, fits)
      (
        write_self m p _,
        omega (arith, k.1),
        omega (arith, k.2, k.3),
        Chain-write_out m end (p + header_size + (b.size + header_size + c.size)) p _ ys
            (inl (omega arith)) (subst (λ q. Chain m end q ys) (omega arith) k.3.3),
      )

module _ (f : ℕ) (m : Headers) (end b next : ℕ) where
  forward-end : end < next + header_size → merge_forward (suc f) m end b next ≡ m
  unfolding merge_forward
  forward-end h = ground arith

  forward-used :
      (c : Block) → m next ≡ header_of c → c.used ≢ 0 → merge_forward (suc f) m end b next ≡ m
  unfolding merge_forward
  forward-used c e h = rw e (ground arith)

  forward-free :
      (c : Block)
      → next + header_size ≤ end
      → m next ≡ header_of c
      → c.used ≡ 0
      → merge_forward (suc f) m end b next
        ≡ merge_forward f
            (write m b (record (m b) { size = u32 ((m b).size + header_size + c.size) }))
            end
            b
            (next + header_size + c.size)
  unfolding merge_forward
  forward-free c h e u =
      let test : (c.used == 0) ≡ true = ground arith in rw (e, le→leb _ _ h, test)

pub merge_forward-Chain :
    (f : ℕ) (m : Headers) (end p : ℕ) (b : Block) (ys : List Block)
    → end < 2 ^ 32
    → length ys < f
    → Chain m end p (b ∷ ys)
    → Chain (merge_forward f m end p (p + header_size + b.size)) end p (absorb b ys)
merge_forward-Chain zero m end p b ys he h k = absurd (omega arith)
merge_forward-Chain (suc f) m end p b [] he h k =
    subst⁻¹ (λ m'. Chain m' end p (absorb b [])) (forward-end f m end p _ (omega arith))
      (subst⁻¹ (Chain m end p) (absorb-nil b) k)
merge_forward-Chain (suc f) m end p b (c ∷ ys) he h k = elim (ℕ_discrete c.used 0) [
  | yes u ↦
      subst⁻¹ (λ m'. Chain m' end p (absorb b (c ∷ ys)))
        (forward-free f m end p _ c (omega (arith, Chain-span m end p (b ∷ c ∷ ys) k)) k.3.0 u
          ∙ ap (merge_forward f _ end p) (omega arith))
        (subst⁻¹ (Chain _ end p) (absorb-free b c ys u)
          (merge_forward-Chain f _ end p _ ys he (omega arith) (grow-Chain m end p b c ys he k)))
  | no u ↦
      subst⁻¹ (λ m'. Chain m' end p (absorb b (c ∷ ys))) (forward-used f m end p _ c k.3.0 u)
        (subst⁻¹ (Chain m end p) (absorb-used b c ys u) k)
]

pub merge_forward-other :
    (f : ℕ) (m : Headers) (end b next q : ℕ) → q ≢ b → merge_forward f m end b next q ≡ m q
unfolding merge_forward
merge_forward-other zero m end b next q h = refl
merge_forward-other (suc f) m end b next q h = ground (
  arith,
  merge_forward-other f
      (write m b (record (m b) { size = u32 ((m b).size + header_size + (m next).size) })) end b
      (next + header_size + (m next).size) q h,
  write_other m b q (record (m b) { size = u32 ((m b).size + header_size + (m next).size) }) h,
)

module _ (f : ℕ) (m : Headers) (end b cur : ℕ) where
  back-here : b ≤ cur → merge_back (suc f) m end b cur ≡ m
  unfolding merge_back
  back-here h = ground arith

  back-join :
      (c d : Block)
      → cur + header_size ≤ end
      → m cur ≡ header_of c
      → m b ≡ header_of d
      → c.used ≡ 0
      → cur + header_size + c.size ≡ b
      → merge_back (suc f) m end b cur
        ≡ write m cur (record (m cur) { size = u32 ((m cur).size + header_size + d.size) })
  unfolding merge_back
  back-join c d h e e' u n =
      let used : (c.used == 0) ≡ true = ground arith in
      let meet : (cur + header_size + c.size == b) ≡ true = ground arith in
      rw (e, e', le→leb _ _ h, lt→ltb cur b (omega arith), meet, used)

  back-stop :
      (c : Block)
      → cur + header_size ≤ end
      → m cur ≡ header_of c
      → c.used ≢ 0
      → cur + header_size + c.size ≡ b
      → merge_back (suc f) m end b cur ≡ m
  unfolding merge_back
  back-stop c h e u n =
      let used : (c.used == 0) ≡ false = ground arith in
      let meet : (cur + header_size + c.size == b) ≡ true = ground arith in
      rw (e, le→leb _ _ h, lt→ltb cur b (omega arith), meet, used)

  back-next :
      (c : Block)
      → cur + header_size ≤ end
      → m cur ≡ header_of c
      → cur + header_size + c.size < b
      → merge_back (suc f) m end b cur ≡ merge_back f m end b (cur + header_size + c.size)
  unfolding merge_back
  back-next c h e n =
      let meet : (cur + header_size + c.size == b) ≡ false = ground arith in
      rw (e, le→leb _ _ h, lt→ltb cur b (omega arith), meet)

merge_back-other :
    (f : ℕ) (m : Headers) (end b cur q : ℕ) → q < cur → merge_back f m end b cur q ≡ m q
unfolding merge_back
merge_back-other zero m end b cur q h = refl
merge_back-other (suc f) m end b cur q h = ground (
  arith,
  merge_back-other f m end b (cur + header_size + (m cur).size) q (omega arith),
  write_other m cur q (record (m cur) { size = u32 ((m cur).size + header_size + (m b).size) })
      (omega arith),
)

pub join-nil : (ys : List Block) → join [] ys ≡ ys
unfolding join
join-nil ys = refl

pub join-more : (x x' : Block) (xs ys : List Block) → join (x ∷ x' ∷ xs) ys ≡ x ∷ join (x' ∷ xs) ys
unfolding join
join-more x x' xs ys = refl

pub join-free :
    (x b : Block) (ys : List Block)
    → x.used ≡ 0
    → join (x ∷ []) (b ∷ ys) ≡ block (x.size + header_size + b.size) x.used ∷ ys
unfolding join
join-free x b ys u = ground arith

pub join-used : (x b : Block) (ys : List Block) → x.used ≢ 0 → join (x ∷ []) (b ∷ ys) ≡ x ∷ b ∷ ys
unfolding join
join-used x b ys u = ground arith

-- The walk back ends at the block before `p`, whatever lies before that one.
pub merge_back-Chain :
    (f : ℕ) (m : Headers) (end p cur : ℕ) (xs : List Block) (b : Block) (ys : List Block)
    → end < 2 ^ 32
    → length xs < f
    → Chain m p cur xs
    → Chain m end p (b ∷ ys)
    → Chain (merge_back f m end p cur) end cur (join xs (b ∷ ys))
merge_back-Chain zero m end p cur xs b ys he h k l = absurd (omega arith)
merge_back-Chain (suc f) m end p cur [] b ys he h k l =
    subst⁻¹ (λ m'. Chain m' end cur (join [] (b ∷ ys))) (back-here f m end p cur (omega arith))
      (subst⁻¹ (Chain m end cur) (join-nil (b ∷ ys)) (subst⁻¹ (λ q. Chain m end q (b ∷ ys)) k l))
merge_back-Chain (suc f) m end p cur (x ∷ []) b ys he h k l =
    let total = Chain-span m end p (b ∷ ys) l in
    let both : Chain m end cur (x ∷ b ∷ ys) =
      (k.0, k.1, k.2, subst⁻¹ (λ q. Chain m end q (b ∷ ys)) k.3 l) in
    elim (ℕ_discrete x.used 0) [
      | yes u ↦
          subst⁻¹ (λ m'. Chain m' end cur (join (x ∷ []) (b ∷ ys)))
            (back-join f m end p cur x b (omega arith) k.0 l.0 u k.3)
            (subst⁻¹ (Chain _ end cur) (join-free x b ys u) (grow-Chain m end cur x b ys he both))
      | no u ↦
          subst⁻¹ (λ m'. Chain m' end cur (join (x ∷ []) (b ∷ ys)))
            (back-stop f m end p cur x (omega arith) k.0 u k.3)
            (subst⁻¹ (Chain m end cur) (join-used x b ys u) both)
    ]
merge_back-Chain (suc f) m end p cur (x ∷ x' ∷ xs) b ys he h k l =
    let next = cur + header_size + x.size in
    let total = Chain-span m end p (b ∷ ys) l in
    let before = Chain-span m p next (x' ∷ xs) k.3 in
    subst⁻¹ (λ m'. Chain m' end cur (join (x ∷ x' ∷ xs) (b ∷ ys)))
      (back-next f m end p cur x (omega arith) k.0 (omega arith))
      (subst⁻¹ (Chain _ end cur) (join-more x x' xs (b ∷ ys)) (
        merge_back-other f m end p next cur (omega arith) ∙ k.0,
        k.1,
        k.2,
        merge_back-Chain f m end p next (x' ∷ xs) b ys he (omega arith) k.3 l,
      ))
