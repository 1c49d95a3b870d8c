-- ===== src/Proc/Spaces.antt =====
-- The set-up of address spaces and fd tables in src/proc.c leaves all processes their numbers.
use muos.Common.{ℕ, ◌+◌, refl, not, ◌||◌, ◌==◌, if_all, get_elem?}
use muos.Proc.{Proc, Kernel, put_proc}
use muos.Proc.Ids.{put_proc-SameIds, option_all}
use muos.Proc.Calls.{Left, goes, stay}
use muos.Proc.Sched.{update}
use muos.Proc.Reap.{proc_space_alloc, proc_space_cow, proc_space_share, proc_fdstate_share}

pub proc_space_alloc-SameIds :
    (s mem tramp pd i : ℕ) (k : Kernel) → Left k (proc_space_alloc s mem tramp pd i k)
unfolding proc_space_alloc
proc_space_alloc-SameIds s mem tramp pd i k =
    option_all (Left k) (get_elem? k.procs i) _ _ (stay k) (λ p e.
      let k' = record k { refs = update k.refs s 1 } in
      if_all (Left k) (not (p.space == 0)) _ _ (stay k) (
        if_all (Left k) ((s == 0) || ((mem == 0) || ((tramp == 0) || (pd == 0)))) _ _ (stay k) (
          goes k (put_proc i (record p { space = s }) k')
            (put_proc-SameIds k' i p (record p { space = s }) e (refl, refl, refl)))))

pub proc_space_cow-SameIds :
    (s tramp pd i : ℕ) (parent : Proc) (k : Kernel) → Left k (proc_space_cow s tramp pd i parent k)
unfolding proc_space_cow
proc_space_cow-SameIds s tramp pd i parent k =
    option_all (Left k) (get_elem? k.procs i) _ _ (stay k) (λ p e.
      let k' = record k {
        refs = update k.refs s 1;
        memory = update k.memory s (k.memory parent.space);
      } in
      if_all (Left k) ((parent.space == 0) || ((s == 0) || ((tramp == 0) || (pd == 0)))) _ _
        (stay k)
        (goes k (put_proc i (record p { space = s }) k')
          (put_proc-SameIds k' i p (record p { space = s }) e (refl, refl, refl))))

pub proc_space_share-SameIds :
    (i : ℕ) (parent : Proc) (k : Kernel) → Left k (proc_space_share i parent k)
unfolding proc_space_share
proc_space_share-SameIds i parent k = option_all (Left k) (get_elem? k.procs i) _ _ (stay k) (λ p e.
    let k' = record k { refs = update k.refs parent.space (k.refs parent.space + 1) } in
    if_all (Left k) (parent.space == 0) _ _ (stay k) (
      goes k (put_proc i (record p { space = parent.space }) k')
        (put_proc-SameIds k' i p (record p { space = parent.space }) e (refl, refl, refl))))

pub proc_fdstate_share-SameIds :
    (i : ℕ) (parent : Proc) (k : Kernel) → Left k (proc_fdstate_share i parent k)
unfolding proc_fdstate_share
proc_fdstate_share-SameIds i parent k =
    option_all (Left k) (get_elem? k.procs i) _ _ (stay k) (λ p e.
      let k' = record k {
        fd_refs = update k.fd_refs parent.fd_state (k.fd_refs parent.fd_state + 1);
      } in
      let q = record p { fd_state = parent.fd_state; fds_retained = parent.fds_retained } in
      if_all (Left k) (parent.fd_state == 0) _ _ (stay k)
        (goes k (put_proc i q k') (put_proc-SameIds k' i p q e (refl, refl, refl))))
