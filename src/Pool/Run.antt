-- ===== src/Pool/Run.antt =====
-- ThreadPool/processPool.h: run, in whatever process the constructor leaves.
pub mod Tests
use linux_websocket.Prelude.{
  ℕ, zero, suc, ◌+◌, ◌≡◌, ◌∙◌, refl, sym, ap, inl, inr, false, Option, none, some, List, [], ◌∷◌,
  ◌++◌, length, replicate, get_elem?, arith, Option-cases,
}
use mathlib.Core.Path.{subst}
use linux_websocket.Pool
use linux_websocket.Pool.{
  Fd, Process, new_process, ProcessPool, Spawn, Outcome, run_parent, construct,
}
use linux_websocket.Pool.Construct.{Shape, Constructed, construct-Constructed}
use linux_websocket.Pool.Loop.{started, Ends, construct-run_parent}
use linux_websocket.Pool.Child.{SigPipe, setup_sig_pipe, Child, run_child, adds_fd, closes}
use linux_websocket.Pool.Child
use linux_websocket.Pool.Child.Tasks.{tasks, watches}
use linux_websocket.Pool.Child.Clients.{run_child-history}

-- What run does: run_parent, run_child, or an assert that fails.
pub data Ran (T : Type 0) : Type 0 where
  ran_parent : Outcome → Ran T
  ran_child : Child T → Ran T
  aborted : Ran T

-- The rounds of events, of the parent and of a child.
abbrev pub ParentRounds : Type 0
ParentRounds = List (Option (List Pool.Event))

abbrev pub ChildRounds : Type 0
ChildRounds = List (Option (List Child.Event))

-- run_parent from its start.
pub from_setup :
    {T : Type 0} → ProcessPool → Option (SigPipe × List Child.Action) → ParentRounds → Ran T
from_setup pool none rounds = aborted
from_setup pool (some (sig, acts)) rounds =
    ran_parent (run_parent (started pool sig.sig_read) rounds)

pub child_result : {T : Type 0} → Option (Child T) → Ran T
child_result none = aborted
child_result (some c) = ran_child c

module _ {T : Type 0} (init : T → (epollfd connfd address : ℕ) → T) (process : T → T)
    (fresh : T) where
  -- `idx` is m_idx; epoll_create and socketpair return `epollfd` and `pair`.
  pub run_as :
      (idx : Option ℕ)
      → ProcessPool
      → (epollfd : Option Fd) → (pair : Option (Fd × Fd)) → ParentRounds
      → ChildRounds
      → Ran T
  unfolding from_setup child_result
  run_as none pool epollfd pair ps cs = from_setup pool (setup_sig_pipe epollfd pair) ps
  run_as (some k) pool epollfd pair ps cs =
      child_result (run_child init process fresh pool epollfd pair cs)

  pub run :
      ProcessPool
      → (epollfd : Option Fd) → (pair : Option (Fd × Fd)) → ParentRounds
      → ChildRounds
      → Ran T
  unfolding run_as
  run pool epollfd pair ps cs = run_as pool.idx pool epollfd pair ps cs

get_elem?-at :
    {A : Type 0} (before : List A) (x : A) (after : List A)
    → get_elem? (before ++ x ∷ after) (length before) ≡ some x
get_elem?-at [] x after = refl
get_elem?-at (b ∷ before) x after = get_elem?-at before x after

-- What the process with the index `idx` does in run.
abbrev pub Fares :
    {T : Type 0} → ProcessPool → (e r : Fd) → ChildRounds → (idx : Option ℕ) → Ran T → Type 0
Fares p e r cs none o = (end : Outcome) × (o ≡ ran_parent end) × Ends end
Fares {T} p e r cs (some k) o =
    (own : Process) × ((back : Fd) × ((pipefd : Fd) × (get_elem? p.sub_process k ≡ some own)
        × (own.pipes ≡ some (back, pipefd))
        × ((d : Child T) × (o ≡ ran_child d)
            × (d.log
                ≡ (adds_fd e r ∷ adds_fd e pipefd ∷ [])
                  ++ watches e (tasks pipefd r cs)
                  ++ closes pipefd ∷ closes e ∷ []))))

own_entry :
    (n k : ℕ) (p : ProcessPool)
    → Shape 0 n (some k) p.sub_process
    → (own : Process) × (get_elem? p.sub_process k ≡ some own)
      × ((fds : Fd × Fd) × (own.pipes ≡ some fds))
own_entry n k p (low, high, (before, (own, (rest, e, at_k, whole, zero_pid, pipes, started)))) =
    let at_len : length before ≡ k = omega arith in
    (
      own,
      ap (λ ps. get_elem? ps k) e
          ∙ ap (get_elem? (before ++ own ∷ replicate rest new_process)) (sym at_len)
          ∙ get_elem?-at before own (replicate rest new_process),
      pipes,
    )

module _ {T : Type 0} (init : T → (epollfd connfd address : ℕ) → T) (process : T → T) (fresh : T)
    (listenfd n : ℕ) (spawns : ℕ → Spawn) (p : ProcessPool) (acts : List Pool.Action)
    (built : construct listenfd n spawns ≡ some (p, acts)) where
  run_as-Fares :
      (e r w : Fd) (ps : ParentRounds) (cs : ChildRounds) (idx : Option ℕ)
      → idx ≡ p.idx
      → Fares p e r cs idx (run_as init process fresh idx p (some e) (some (r, w)) ps cs)
  unfolding run_as setup_sig_pipe
  run_as-Fares e r w ps cs none is = (
    run_parent (started p r) ps,
    refl,
    construct-run_parent listenfd n r spawns p acts ps built (sym is),
  )
  run_as-Fares e r w ps cs (some k) is =
      let c = construct-Constructed listenfd n spawns p acts built in
      let (own, at_k, (fds, pipes)) =
        own_entry n k p (subst (λ i. Shape 0 n i p.sub_process) (sym is) c.shape) in
      let (d, ran, users, log) =
        run_child-history init process fresh p k own fds.0 fds.1 e r w cs (sym is) c.goes_on at_k
          pipes in
      (own, (fds.0, (fds.1, at_k, pipes, (d, ap child_result ran, log))))

-- Whatever process leaves the constructor, run does what is right for it, if epoll_create and
-- socketpair work and with any rounds of events: no assert of setup_sig_pipe fails. The parent goes
-- through run_parent, in which no search of the round robin runs on for ever. The child with index
-- `k` goes through run_child on the pipe of its own entry, watches its signal pipe, that pipe and
-- then the connections, and at last closes the pipe and the epoll descriptor.
pub construct-run :
    {T : Type 0} (init : T → (epollfd connfd address : ℕ) → T) (process : T → T) (fresh : T)
    (listenfd n : ℕ) (spawns : ℕ → Spawn) (p : ProcessPool) (acts : List Pool.Action) (e r w : Fd)
    (ps : ParentRounds) (cs : ChildRounds)
    → construct listenfd n spawns ≡ some (p, acts)
    → Fares p e r cs p.idx (run init process fresh p (some e) (some (r, w)) ps cs)
unfolding run
construct-run init process fresh listenfd n spawns p acts e r w ps cs built =
    run_as-Fares init process fresh listenfd n spawns p acts built e r w ps cs p.idx refl
