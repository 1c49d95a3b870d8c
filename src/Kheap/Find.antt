-- ===== src/Kheap/Find.antt =====
-- The walk of `kmalloc` finds the first block that fits.
use muos.Common.{
  ℕ, zero, suc, ◌+◌, ◌≤◌, ◌<◌, ◌≡◌, refl, ap, inl, inr, Bool, false, ◌&&◌, Option, none, some, List,
  [], ◌∷◌, ◌++◌, arith, length, All, leb, ◌==◌, if◌then◌else◌, Bool-cases,
}
use mathlib.Core.Option
use muos.Kheap.{Headers, header_size, find_fit}
use muos.Kheap.Chain.{Block, Chain, span, Chain-span}

-- The block is free and large enough.
abbrev pub fits : ℕ → Block → Bool
fits need b = (b.used == 0) && leb need b.size

-- A list of blocks cut at its first one that fits.
unfoldable pub place : ℕ → List Block → Option (List Block × Block × List Block)
place need [] = none
place need (b ∷ bs) =
    if fits need b
    then some ([], b, bs)
    else Option.map (λ (xs, c, ys). (b ∷ xs, c, ys)) (place need bs)

abbrev pub offset : List Block × Block × List Block → ℕ
offset (xs, b, ys) = span xs

pub find_fit-place :
    (f : ℕ) (m : Headers) (end need p : ℕ) (bs : List Block)
    → length bs < f
    → Chain m end p bs
    → find_fit f m end need p ≡ Option.map (λ c. p + offset c) (place need bs)
unfolding find_fit place
find_fit-place zero m end need p bs h c = absurd (omega arith)
find_fit-place (suc f) m end need p [] h c = ground arith
find_fit-place (suc f) m end need p (b ∷ bs) h c = rw c.0 (
    ground (
      arith,
      Chain-span m end p (b ∷ bs) c,
      find_fit-place f m end need (p + header_size + b.size) bs (omega arith) c.3,
    ))

-- Where a cut succeeds it cuts the list at a block that fits, with none before it that does.
pub record IsCut (need : ℕ) (bs xs : List Block) (b : Block) (ys : List Block) : Type 0 where
  pub parts : bs ≡ xs ++ (b ∷ ys)
  pub free : b.used ≡ 0
  pub large : need ≤ b.size
  pub first : All (λ c. fits need c ≡ false) xs

abbrev pub Cut : ℕ → List Block → Option (List Block × Block × List Block) → Type 0
Cut need bs none = All (λ c. fits need c ≡ false) bs
Cut need bs (some (xs, b, ys)) = IsCut need bs xs b ys

Cut-cons :
    (need : ℕ) (c : Block) (bs : List Block) (o : Option (List Block × Block × List Block))
    → fits need c ≡ false
    → Cut need bs o
    → Cut need (c ∷ bs) (Option.map (λ (xs, b, ys). (c ∷ xs, b, ys)) o)
Cut-cons need c bs none e k = (e, k)
Cut-cons need c bs (some (xs, b, ys)) e k = record {
  parts = ap (λ l. c ∷ l) k.parts;
  free = k.free;
  large = k.large;
  first = (e, k.first);
}

pub place-Cut : (need : ℕ) (bs : List Block) → Cut need bs (place need bs)
unfolding place
place-Cut need [] = tt
place-Cut need (c ∷ bs) = elim (Bool-cases (fits need c)) [
  | inl e ↦ rw e (record { parts = refl; free = ground arith; large = ground arith; first = tt })
  | inr e ↦ rw e (Cut-cons need c bs (place need bs) e (place-Cut need bs))
]
