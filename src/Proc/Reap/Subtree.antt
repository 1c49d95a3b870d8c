-- ===== src/Proc/Reap/Subtree.antt =====
-- Which processes `proc_cleanup_children` releases.
use muos.Common.{
  ℕ, zero, suc, ◌+◌, ◌≤◌, ◌<◌, ◌≡◌, ◌≢◌, inl, inr, refl, ap, ◌∙◌, sym, subst, true, false, not,
  Option, none, some, List, [], ◌∷◌, ◌==◌, if_all, get_elem?, get_elem?-set_ne, get_elem?-set-some,
  get_elem?-bound, length, arith, Bool-cases, Option-cases,
}
use muos.Proc.{Proc, no_proc, Kernel, proc_max}
use muos.Proc.Reap.{proc_reap, is_child, children_loop, proc_cleanup_children}
use muos.Proc.Reap.Children.{
  Shrunk, Shrinks, Cleared, Ordered, count_above, child_step, Shrunk-Cleared, proc_reap-Shrunk,
  child_step-Shrunk, children_loop-Shrunk, cleanup-Shrunk, Ordered-Shrunk, Ordered-at,
  count_above-Shrunk, count_above-child,
}

-- No process of the table is a child of the number.
abbrev pub NoChild : ℕ → List Proc → Type 0
NoChild pid ps = (j : ℕ) (q : Proc) → get_elem? ps j ≡ some q → is_child pid q ≡ false

-- A process that is cleared leaves no child.
abbrev pub Closed : List Proc → List Proc → Type 0
Closed ps qs =
    (j : ℕ) (p : Proc)
    → get_elem? ps j ≡ some p
    → p.used ≡ true
    → get_elem? qs j ≡ some no_proc
    → NoChild p.pid qs

not_child-Cleared :
    (pid : ℕ) (o o' : Option Proc) (q : Proc)
    → Cleared o o'
    → o' ≡ some q
    → ((p : Proc) → o ≡ some p → is_child pid p ≡ false)
    → is_child pid q ≡ false
not_child-Cleared pid o o' q (inl e) h n = n q (sym e ∙ h)
not_child-Cleared pid o o' q (inr e) h n =
    let same : no_proc ≡ q = ground arith in ap (λ (x : Proc). is_child pid x) (sym same)

NoChild-Shrunk : (pid : ℕ) (ps qs : List Proc) → Shrunk ps qs → NoChild pid ps → NoChild pid qs
NoChild-Shrunk pid ps qs h n j q e =
    not_child-Cleared pid (get_elem? ps j) (get_elem? qs j) q (Shrunk-Cleared ps qs j h) e (n j)

Closed-trans :
    (ps qs rs : List Proc)
    → Shrunk ps qs
    → Shrunk qs rs
    → Closed ps qs
    → Closed qs rs
    → Closed ps rs
Closed-trans ps qs rs h k c d j p at used gone = elim (Shrunk-Cleared ps qs j h) [
  | inl e ↦ d j p (e ∙ at) used gone
  | inr e ↦ NoChild-Shrunk p.pid qs rs k (c j p at used e)
]

pub unused-clash : (p : Proc) → p.used ≡ true → some p ≡ some no_proc → ⊥
unused-clash p u e =
    let same : p ≡ no_proc = ground arith in
    let clash : true ≡ false = sym u ∙ ap (λ (x : Proc). x.used) same in absurd (cc)

Closed-refl : (ps : List Proc) → Closed ps ps
Closed-refl ps j p at used gone = absurd (unused-clash p used (sym at ∙ gone))

-- The entry of another slot.
pub proc_reap-other :
    (i j : ℕ) (k : Kernel) → i ≢ j → get_elem? (proc_reap i k).procs j ≡ get_elem? k.procs j
unfolding proc_reap
proc_reap-other i j k h = elim (Option-cases (get_elem? k.procs i)) [
  | inl e ↦ simp (proc_reap, e) refl
  | inr (p, e) ↦
      simp (proc_reap, e)
        (if_all (λ (r : Kernel). get_elem? r.procs j ≡ get_elem? k.procs j) (not p.used) k _ refl
          (get_elem?-set_ne k.procs no_proc h))
]

proc_reap-gone :
    (pid i : ℕ) (k : Kernel) (q : Proc)
    → get_elem? (proc_reap i k).procs i ≡ some q
    → is_child pid q ≡ false
unfolding proc_reap
proc_reap-gone pid i k q h = elim (Option-cases (get_elem? k.procs i)) [
  | inl e ↦
      let stays : get_elem? (proc_reap i k).procs i ≡ none = simp (proc_reap, e) refl in absurd (cc)
  | inr (p, e) ↦ elim (Bool-cases p.used) [
    | inl used ↦
        let cleared : get_elem? (proc_reap i k).procs i ≡ some no_proc =
          simp (proc_reap, e, used) (get_elem?-set-some i no_proc p k.procs e) in
        let same : no_proc ≡ q = ground arith in ap (λ (x : Proc). is_child pid x) (sym same)
    | inr unused ↦
        let stays : get_elem? (proc_reap i k).procs i ≡ some p = simp (proc_reap, e, unused) refl in
        let same : p ≡ q = ground arith in
        subst (λ (x : Proc). is_child pid x ≡ false) same (rw unused refl)
  ]
]

-- A slot whose process has no child left may be released.
Closed-proc_reap :
    (i : ℕ) (k : Kernel)
    → ((p : Proc) → get_elem? k.procs i ≡ some p → p.used ≡ true → NoChild p.pid k.procs)
    → Closed k.procs (proc_reap i k).procs
Closed-proc_reap i k n j p at used gone = elim (Bool-cases (i == j)) [
  | inl e ↦
      let here : get_elem? k.procs i ≡ some p =
        ap (get_elem? k.procs) (let s : i ≡ j = ground arith in s) ∙ at in
      NoChild-Shrunk p.pid k.procs (proc_reap i k).procs (proc_reap-Shrunk i k) (n p here used)
  | inr e ↦
      absurd (unused-clash p used (sym at ∙ sym (proc_reap-other i j k (λ s. ground arith)) ∙ gone))
]

some-injective : (p q : Proc) → some p ≡ some q → p ≡ q
some-injective p q h = ground arith

-- A used slot of a shrunk table is one of the table.
pub still_there :
    (ps qs : List Proc) (i : ℕ) (p p' : Proc)
    → Shrunk ps qs
    → get_elem? ps i ≡ some p
    → get_elem? qs i ≡ some p'
    → p'.used ≡ true
    → p ≡ p'
still_there ps qs i p p' h at at' used = elim (Shrunk-Cleared ps qs i h) [
  | inl e ↦ some-injective p p' (sym at ∙ sym e ∙ at')
  | inr e ↦ absurd (unused-clash p' used (sym at' ∙ e))
]

-- Eight slots, and every process has a larger number than its parent.
abbrev pub IsTable : List Proc → Type 0
IsTable ps = Ordered ps × (length ps ≡ proc_max)

length-Shrunk : (ps qs : List Proc) → Shrunk ps qs → length qs ≡ length ps
length-Shrunk [] [] h = refl
length-Shrunk [] (q ∷ qs) h = absurd h
length-Shrunk (p ∷ ps) [] h = absurd h
length-Shrunk (p ∷ ps) (q ∷ qs) (h, hs) = ap suc (length-Shrunk ps qs hs)

IsTable-Shrunk : (ps qs : List Proc) → Shrunk ps qs → IsTable ps → IsTable qs
IsTable-Shrunk ps qs h (o, e) = (Ordered-Shrunk ps qs h o, length-Shrunk ps qs h ∙ e)

-- What a call has to do for the processes above `b`.
abbrev pub Clears : ℕ → (ℕ → Kernel → Kernel) → Type 0
Clears b c =
    (pid : ℕ) (k : Kernel)
    → IsTable k.procs
    → count_above pid k.procs < b
    → NoChild pid (c pid k).procs × Closed k.procs (c pid k).procs

-- The body of the loop leaves the slot without a child.
child_step-Closed :
    (b : ℕ) (c : ℕ → Kernel → Kernel) (pid i : ℕ) (k : Kernel)
    → Clears b c
    → Shrinks c
    → IsTable k.procs
    → count_above pid k.procs ≤ b
    → ((q : Proc) → get_elem? (child_step c pid i k).procs i ≡ some q → is_child pid q ≡ false)
      × Closed k.procs (child_step c pid i k).procs
unfolding child_step
child_step-Closed b c pid i k a s o l = elim (Option-cases (get_elem? k.procs i)) [
  | inl e ↦ simp (child_step, e) (λ q h. absurd (cc), Closed-refl k.procs)
  | inr (p, e) ↦ elim (Bool-cases (is_child pid p)) [
    | inr other ↦
        simp (child_step, e, other)
          (
            λ q h. subst (λ (x : Proc). is_child pid x ≡ false) (some-injective p q h) other,
            Closed-refl k.procs,
          )
    | inl child ↦
        let used : p.used ≡ true = ground arith in
        let parent : p.ppid ≡ pid = ground arith in
        let above = Ordered-at k.procs i p o.0 e used in
        let fewer = count_above-child pid i k.procs p e used (omega arith) in
        let (below, closed) = a p.pid k o (omega arith) in
        simp (child_step, e, child)
          (
            proc_reap-gone pid i (c p.pid k),
            Closed-trans k.procs (c p.pid k).procs _ (s p.pid k) (proc_reap-Shrunk i (c p.pid k))
                closed
                (Closed-proc_reap i (c p.pid k) (λ p' h u.
                  subst (λ (x : Proc). NoChild x.pid (c p.pid k).procs)
                    (still_there k.procs (c p.pid k).procs i p p' (s p.pid k) e h u) below)),
          )
  ]
]

-- The slots from `i` to before `m` hold no child.
abbrev NoChildIn : ℕ → ℕ → ℕ → List Proc → Type 0
NoChildIn pid i m ps =
    (j : ℕ) (q : Proc) → i ≤ j → j < m → get_elem? ps j ≡ some q → is_child pid q ≡ false

children_loop-Closed :
    (b : ℕ) (c : ℕ → Kernel → Kernel) (pid n i : ℕ) (k : Kernel)
    → Clears b c
    → Shrinks c
    → IsTable k.procs
    → count_above pid k.procs ≤ b
    → NoChildIn pid i (i + n) (children_loop c pid n i k).procs
      × Closed k.procs (children_loop c pid n i k).procs
unfolding children_loop child_step
children_loop-Closed b c pid zero i k a s o l =
    (λ j q p r. absurd (omega arith), Closed-refl k.procs)
children_loop-Closed b c pid (suc n) i k a s o l =
    let k' = child_step c pid i k in
    let less = child_step-Shrunk c pid i k s in
    let (here, closed) = child_step-Closed b c pid i k a s o l in
    let (later, closed') =
      children_loop-Closed b c pid n (i + 1) k' a s (IsTable-Shrunk k.procs k'.procs less o)
        (omega (arith, count_above-Shrunk pid k.procs k'.procs less)) in
    let rest = children_loop-Shrunk c pid n (i + 1) k' s in
    (
      λ j q p r h. elim (Bool-cases (i == j)) [
        | inl e ↦
            not_child-Cleared pid (get_elem? k'.procs j)
              (get_elem? (children_loop c pid n (i + 1) k').procs j) q
              (Shrunk-Cleared k'.procs (children_loop c pid n (i + 1) k').procs j rest) h
              (λ x at. here x (ap (get_elem? k'.procs) {x = i} {y = j} (ground arith) ∙ at))
        | inr e ↦ later j q (ground arith) (omega arith) h
      ],
      Closed-trans k.procs k'.procs (children_loop c pid n (i + 1) k').procs less rest closed
          closed',
    )

NoChild-all :
    (pid : ℕ) (ps : List Proc) → length ps ≡ proc_max → NoChildIn pid 0 proc_max ps → NoChild pid ps
NoChild-all pid ps l h j q e = h j q (omega arith) (omega (arith, get_elem?-bound ps j q e)) e

pub cleanup-Clears : (f : ℕ) → Clears f (proc_cleanup_children f)
unfolding proc_cleanup_children
cleanup-Clears zero pid k o l = absurd (omega arith)
cleanup-Clears (suc f) pid k o l =
    let (none_left, closed) =
      children_loop-Closed f (proc_cleanup_children f) pid proc_max 0 k (cleanup-Clears f)
        (cleanup-Shrunk f) o (omega arith) in
    let rest = children_loop-Shrunk (proc_cleanup_children f) pid proc_max 0 k (cleanup-Shrunk f) in
    (NoChild-all pid _ (length-Shrunk k.procs _ rest ∙ o.1) none_left, closed)
