-- ===== src/Proc/Reap.antt =====
-- Sharing and releasing what processes hold, and the release of a process and of its children, of
-- src/proc.c. A pointer that an allocator returns comes as an argument, 0 when it fails; a space or
-- an fd table that is freed has 0 references. That an fd table which is freed gives up its files and
-- pipes is the work of src/user.c.
pub mod Children
pub mod Subtree
pub mod Below
pub mod Numbered
pub mod Pids
mod Tests
use muos.Common.{
  ℕ, zero, suc, ◌+◌, ◌-◌, Bool, true, false, not, ◌&&◌, ◌||◌, Option, none, some, List, [], ◌∷◌,
  ◌==◌, if◌then◌else◌, get_elem?, set, ltb,
}
use muos.Proc.{Proc, no_proc, Kernel, proc_max, proc_find, put_proc}
use muos.Proc.Sched.{update}
use muos.Proc.Deliver.{same_slot}

-- `proc_space_unref`
unfoldable pub proc_space_unref : ℕ → Kernel → Kernel
proc_space_unref s k =
    if s == 0
    then k
    else if ltb 1 (k.refs s)
    then record k { refs = update k.refs s (k.refs s - 1) }
    else record k { refs = update k.refs s 0 }

-- `proc_space_alloc` for the slot `i`: `s`, `mem`, `tramp` and `pd` are what the four allocations
-- give. The memory is new.
unfoldable pub proc_space_alloc : ℕ → ℕ → ℕ → ℕ → ℕ → Kernel → Kernel × Bool
proc_space_alloc s mem tramp pd i k = elim (get_elem? k.procs i) [
  | none ↦ (k, false)
  | some p ↦
      if not (p.space == 0)
      then (k, true)
      else if (s == 0) || ((mem == 0) || ((tramp == 0) || (pd == 0)))
      then (k, false)
      else (put_proc i (record p { space = s }) (record k { refs = update k.refs s 1 }), true)
]

-- `proc_space_cow` of the child in the slot `i`: reading, it has the memory of the parent.
unfoldable pub proc_space_cow : ℕ → ℕ → ℕ → ℕ → Proc → Kernel → Kernel × Bool
proc_space_cow s tramp pd i parent k = elim (get_elem? k.procs i) [
  | none ↦ (k, false)
  | some p ↦
      if (parent.space == 0) || ((s == 0) || ((tramp == 0) || (pd == 0))) then (k, false) else (
        put_proc i (record p { space = s })
            (record k {
              refs = update k.refs s 1;
              memory = update k.memory s (k.memory parent.space);
            }),
        true,
      )
]

-- `proc_space_share` of the child in the slot `i`.
unfoldable pub proc_space_share : ℕ → Proc → Kernel → Kernel × Bool
proc_space_share i parent k = elim (get_elem? k.procs i) [
  | none ↦ (k, false)
  | some p ↦ if parent.space == 0 then (k, false) else (
    put_proc i (record p { space = parent.space })
        (record k { refs = update k.refs parent.space (k.refs parent.space + 1) }),
    true,
  )
]

-- `proc_snapshot_free` of the slot `i`.
unfoldable pub proc_snapshot_free : ℕ → Kernel → Kernel
proc_snapshot_free i k = elim (get_elem? k.procs i) [
  | none ↦ k
  | some p ↦
      if p.space == 0 then k else put_proc i (record p { space = 0 }) (proc_space_unref p.space k)
]

-- `proc_fdstate_share` of the child in the slot `i`.
unfoldable pub proc_fdstate_share : ℕ → Proc → Kernel → Kernel × Bool
proc_fdstate_share i parent k = elim (get_elem? k.procs i) [
  | none ↦ (k, false)
  | some p ↦ if parent.fd_state == 0 then (k, false) else (
    put_proc i (record p { fd_state = parent.fd_state; fds_retained = parent.fds_retained })
        (record k { fd_refs = update k.fd_refs parent.fd_state (k.fd_refs parent.fd_state + 1) }),
    true,
  )
]

-- The references of `proc_fdstate_free`.
pub fdstate_unref : ℕ → Kernel → Kernel
fdstate_unref h k =
    if h == 0
    then k
    else if ltb 1 (k.fd_refs h)
    then record k { fd_refs = update k.fd_refs h (k.fd_refs h - 1) }
    else record k { fd_refs = update k.fd_refs h 0 }

-- `proc_reap` of the slot `i`. The frames of its kernel stack go back to the allocator, which keeps no
-- part of this state.
pub proc_reap : ℕ → Kernel → Kernel
proc_reap i k = elim (get_elem? k.procs i) [
  | none ↦ k
  | some p ↦
      if not p.used then k else record (fdstate_unref p.fd_state (proc_space_unref p.space k)) {
        current_proc = if same_slot k.current_proc i then proc_find 1 k.procs else k.current_proc;
        procs = set k.procs i no_proc;
      }
]

-- The condition of the loop of `proc_cleanup_children`.
abbrev pub is_child : ℕ → Proc → Bool
is_child pid p = p.used && (not (p.pid == pid) && (p.ppid == pid))

-- The loop from the slot `i` on, `n` slots; `cleanup` is the recursive call.
pub children_loop : (ℕ → Kernel → Kernel) → ℕ → ℕ → ℕ → Kernel → Kernel
children_loop cleanup pid zero i k = k
children_loop cleanup pid (suc n) i k =
    children_loop cleanup pid n (i + 1) (elim (get_elem? k.procs i) [
      | none ↦ k
      | some p ↦ if is_child pid p then proc_reap i (cleanup p.pid k) else k
    ])

-- `proc_cleanup_children`, on fuel for the depth of the recursion.
pub proc_cleanup_children : ℕ → ℕ → Kernel → Kernel
proc_cleanup_children zero pid k = k
proc_cleanup_children (suc f) pid k = children_loop (proc_cleanup_children f) pid proc_max 0 k
