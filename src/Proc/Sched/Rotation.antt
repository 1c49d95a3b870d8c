-- ===== src/Proc/Sched/Rotation.antt =====
-- The round robin of `sched_pick_next`.
use muos.Common.{
  ℕ, zero, suc, ◌+◌, ◌-◌, ◌%◌, ◌≤◌, ◌<◌, ◌≡◌, ◌⊎◌, inl, inr, refl, ap, ◌∙◌, sym, subst, subst⁻¹,
  true, false, Option, none, some, List, [], ◌∷◌, length, get_elem?, All, arith, Bool-cases, ◌==◌,
}
use muos.Proc.{Proc, proc_max}
use muos.Proc.Sched.{can_run_at, pick_from, sched_pick_next}

-- No slot that the rounds from `n` to before `m` look at can run.
abbrev pub NoneRun : ℕ → ℕ → ℕ → List Proc → Type 0
NoneRun start n m ps = (e : ℕ) → n ≤ e → e < m → can_run_at ps ((start + e) % proc_max) ≡ false

-- The slot that the round `d` looks at can run, and none before.
pub record PickedAt (start n m : ℕ) (ps : List Proc) (i d : ℕ) : Type 0 where
  pub after : n ≤ d
  pub before : d < m
  pub at : i ≡ (start + d) % proc_max
  pub runs : can_run_at ps i ≡ true
  pub skipped : NoneRun start n d ps

abbrev pub IsPick : ℕ → ℕ → ℕ → List Proc → Option ℕ → Type 0
IsPick start n m ps none = NoneRun start n m ps
IsPick start n m ps (some i) = (d : ℕ) × PickedAt start n m ps i d

NoneRun-cons :
    (start n m : ℕ) (ps : List Proc)
    → can_run_at ps ((start + n) % proc_max) ≡ false
    → NoneRun start (n + 1) m ps
    → NoneRun start n m ps
NoneRun-cons start n m ps h k e p q = elim (Bool-cases (n == e)) [
  | inl same ↦ subst (λ x. can_run_at ps ((start + x) % proc_max) ≡ false) (ground arith) h
  | inr other ↦ k e (ground arith) q
]

IsPick-cons :
    (start n m : ℕ) (ps : List Proc) (o : Option ℕ)
    → can_run_at ps ((start + n) % proc_max) ≡ false
    → IsPick start (n + 1) m ps o
    → IsPick start n m ps o
IsPick-cons start n m ps none h k = NoneRun-cons start n m ps h k
IsPick-cons start n m ps (some i) h (d, k) = (
  d,
  record {
    after = omega (arith, k.after);
    before = k.before;
    at = k.at;
    runs = k.runs;
    skipped = NoneRun-cons start n d ps h k.skipped;
  },
)

pub pick_from-IsPick :
    (start n left : ℕ) (ps : List Proc) → IsPick start n (n + left) ps (pick_from start n left ps)
unfolding pick_from
pick_from-IsPick start n zero ps = λ e p q. absurd (omega arith)
pick_from-IsPick start n (suc left) ps =
    elim (Bool-cases (can_run_at ps ((start + n) % proc_max))) [
      | inl e ↦ rw e (
        n,
        record {
          after = omega arith;
          before = omega arith;
          at = refl;
          runs = e;
          skipped = λ x p q. absurd (omega arith);
        },
      )
      | inr e ↦ rw e (
          IsPick-cons start n (n + suc left) ps _ e (
            subst (λ m. IsPick start (n + 1) m ps (pick_from start (n + 1) left ps)) (omega arith)
              (pick_from-IsPick start (n + 1) left ps)))
    ]

-- The first slot that the search looks at.
abbrev pub first_slot : Option ℕ → ℕ
first_slot none = 0
first_slot (some cur) = cur + 1

-- `sched_pick_next` gives the first slot that can run, in the order of the slots after the current
-- one and around the table back to it, and none only when no slot can run.
pub sched_pick_next-IsPick :
    (cur : Option ℕ) (ps : List Proc)
    → IsPick (first_slot cur) 0 proc_max ps (sched_pick_next cur ps)
unfolding sched_pick_next
sched_pick_next-IsPick none ps = pick_from-IsPick 0 0 proc_max ps
sched_pick_next-IsPick (some cur) ps = pick_from-IsPick (cur + 1) 0 proc_max ps

-- How many slots the search from after `cur` passes over before `j`.
abbrev pub distance : ℕ → ℕ → ℕ
distance cur j = (j + 8 - (cur + 1)) % 8

-- A slot that can run is picked, or the one that is picked is nearer to it.
pub record Nearer (cur j : ℕ) (ps : List Proc) : Type 0 where
  pub next : ℕ
  pub in_table : next < 8
  pub picked : sched_pick_next (some cur) ps ≡ some next
  pub near : (next ≡ j) ⊎ (distance next j < distance cur j)

Ordering-cases : (a b : ℕ) → (a < b) ⊎ ((a ≡ b) ⊎ (b < a))
Ordering-cases a b = ground arith

step-distance :
    (cur j i d : ℕ)
    → cur < 8
    → j < 8
    → i ≡ (cur + 1 + d) % 8
    → d < distance cur j
    → distance i j < distance cur j
step-distance cur j i d h k e less = omega arith

pub pick-Nearer :
    (cur j : ℕ) (ps : List Proc) → cur < 8 → j < 8 → can_run_at ps j ≡ true → Nearer cur j ps
pick-Nearer cur j ps h k r =
    go (sched_pick_next (some cur) ps) refl (sched_pick_next-IsPick (some cur) ps)
  where
    at_j : (cur + 1 + distance cur j) % 8 ≡ j
    at_j = omega arith

    runs_there : can_run_at ps ((cur + 1 + distance cur j) % 8) ≡ true
    runs_there = subst⁻¹ (λ x. can_run_at ps x ≡ true) at_j r

    go :
        (o : Option ℕ)
        → sched_pick_next (some cur) ps ≡ o
        → IsPick (cur + 1) 0 8 ps o
        → Nearer cur j ps
    go none e p =
        let clash : true ≡ false =
          sym runs_there ∙ p (distance cur j) (omega arith) (omega arith) in
        absurd (cc)
    go (some i) e (d, p) = record {
      next = i;
      in_table = omega (arith, p.at);
      picked = e;
      near = elim (Ordering-cases d (distance cur j)) [
        | inl less ↦ inr (step-distance cur j i d h k p.at less)
        | inr (inl same) ↦ inl (p.at ∙ ap (λ x. (cur + 1 + x) % 8) same ∙ at_j)
        | inr (inr more) ↦
            let clash : true ≡ false =
              sym runs_there ∙ p.skipped (distance cur j) (omega arith) more in
            absurd (cc)
      ];
    }

-- The turn at which the slot `j` is picked.
abbrev pub PickedIn : ℕ → List ℕ → Type 0
PickedIn j picks = (t : ℕ) × (get_elem? picks t ≡ some j)

-- How a process gives up the processor: the tick takes it or the process blocks, or it ends.
pub data Leaving : Type 0 where
  goes_on : Leaving
  ends : Leaving

-- The argument of `sched_pick_next`: the current process in the tick and in blocking, `NULL` in
-- `proc_exit_current`.
abbrev pub picked_after : ℕ → Leaving → Option ℕ
picked_after cur goes_on = some cur
picked_after cur ends = none

-- The slots that are picked from the process in the slot `cur` on: how each process gives up the
-- processor, with the table at that time. What happens to the table between two picks is any change.
pub turns : ℕ → List (Leaving × List Proc) → List ℕ
turns cur [] = []
turns cur ((how, ps) ∷ rest) = elim (sched_pick_next (picked_after cur how) ps) [
  | none ↦ []
  | some next ↦ next ∷ turns next rest
]

turns-next :
    (cur j : ℕ) (ps : List Proc) (rest : List (Leaving × List Proc)) (n : Nearer cur j ps)
    → turns cur ((goes_on, ps) ∷ rest) ≡ n.next ∷ turns n.next rest
unfolding turns
turns-next cur j ps rest n = rw (turns, n.picked) refl

-- The process in the slot `j` can run, and the pick is not made at the end of a process.
abbrev pub Waits : ℕ → Leaving × List Proc → Type 0
Waits j (goes_on, ps) = can_run_at ps j ≡ true
Waits j (ends, ps) = ⊥

turns-within :
    (n cur j : ℕ) (rest : List (Leaving × List Proc))
    → cur < 8
    → j < 8
    → distance cur j < n
    → length rest ≡ n
    → All (Waits j) rest
    → PickedIn j (turns cur rest)
turns-within zero cur j rest h k d l r = absurd (omega arith)
turns-within (suc n) cur j [] h k d l r = absurd (omega arith)
turns-within (suc n) cur j ((ends, ps) ∷ rest) h k d l (r, rs) = absurd r
turns-within (suc n) cur j ((goes_on, ps) ∷ rest) h k d l (r, rs) =
    let near = pick-Nearer cur j ps h k r in
    subst⁻¹ (λ l. PickedIn j l) (turns-next cur j ps rest near)
      (elim (near.near) [
        | inl e ↦ (0, ap some e)
        | inr less ↦
            let (t, at) =
              turns-within n near.next j rest near.in_table k (omega arith) (omega arith) rs in
            (suc t, at)
      ])

-- Of eight picks in a row, each made by the tick or by a process that blocks and none at the end of a
-- process, one picks a given process that can run at each of them. What happens to the other
-- processes in between does not matter.
pub turns-all :
    (cur j : ℕ) (picks : List (Leaving × List Proc))
    → cur < 8
    → j < 8
    → length picks ≡ 8
    → All (Waits j) picks
    → PickedIn j (turns cur picks)
turns-all cur j picks h k l r = turns-within 8 cur j picks h k (omega arith) l r
