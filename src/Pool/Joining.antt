-- ===== src/Pool/Joining.antt =====
-- ThreadPool/processPool.h: what run_parent does with SIGCHLD.
use mathlib.Core.Path.{subst, ap₂}
use linux_websocket.Prelude.{
  ◌≡◌, ◌∙◌, refl, sym, ◌↔◌, inl, inr, true, false, Bool, ◌||◌, none, some, List, [], ◌∷◌, arith,
  ◌==◌, Option-cases, if◌then◌else◌, is_none,
}
use linux_websocket.Pool.{
  Pid, Process, Parent, sigchld, join_process, join_all, all_dead, reap, reap_all, on_signal,
}

abbrev pub is_among : Pid → List Pid → Bool
is_among p [] = false
is_among p (q ∷ qs) = (p == q) || is_among p qs

-- A process that waitpid has returned loses its pid, and keeps its pipes.
abbrev pub joined : List Pid → Process → Process
joined pids p = elim p.pid [
  | none ↦ p
  | some q ↦ if is_among q pids then record p { pid = none } else p
]

abbrev pub map_joined : List Pid → List Process → List Process
map_joined pids [] = []
map_joined pids (p ∷ ps) = joined pids p ∷ map_joined pids ps

joined-nil : (p : Process) → joined [] p ≡ p
joined-nil p = ground arith

joined-cons :
    (pid : Pid) (pids : List Pid) (p : Process)
    → joined pids (join_process p pid) ≡ joined (pid ∷ pids) p
unfolding join_process
joined-cons pid pids p = ground arith

map_joined-nil : (ps : List Process) → map_joined [] ps ≡ ps
map_joined-nil [] = refl
map_joined-nil (p ∷ ps) = ground (arith, joined-nil p, map_joined-nil ps)

map_joined-cons :
    (pid : Pid) (pids : List Pid) (ps : List Process)
    → map_joined pids (join_all ps pid) ≡ map_joined (pid ∷ pids) ps
unfolding join_all
map_joined-cons pid pids [] = refl
map_joined-cons pid pids (p ∷ ps) = ap₂ ◌∷◌ (joined-cons pid pids p) (map_joined-cons pid pids ps)

reap_all-joined :
    (s : Parent) (pids : List Pid)
    → (reap_all s pids).pool.sub_process ≡ map_joined pids s.pool.sub_process
unfolding reap_all
reap_all-joined s [] = sym (map_joined-nil s.pool.sub_process)
reap_all-joined s (pid ∷ pids) =
    reap_all-joined (reap s pid) pids ∙ map_joined-cons pid pids s.pool.sub_process

-- Every process is one that waitpid has returned, now or before.
abbrev pub AllJoined : List Pid → List Process → Type 0
AllJoined pids [] = Unit {0}
AllJoined pids (p ∷ ps) = ((q : Pid) → p.pid ≡ some q → is_among q pids ≡ true) × AllJoined pids ps

joined-dead :
    (pids : List Pid) (p : Process)
    → (is_none (joined pids p).pid ≡ true) ↔ ((q : Pid) → p.pid ≡ some q → is_among q pids ≡ true)
joined-dead pids p = (
  λ e q at_q. ground arith,
  λ f. elim (Option-cases p.pid) [
    | inl gone ↦ ground arith
    | inr (q, at_q) ↦ ground (arith, f q at_q)
  ],
)

all_dead-AllJoined :
    (pids : List Pid) (ps : List Process)
    → (all_dead (map_joined pids ps) ≡ true) ↔ AllJoined pids ps
unfolding all_dead
all_dead-AllJoined pids [] = (λ e. tt, λ a. refl)
all_dead-AllJoined pids (p ∷ ps) =
    let first = joined-dead pids p in
    let rest = all_dead-AllJoined pids ps in
    (
      λ e. (first.0 (ground (arith, e)), rest.0 (ground (arith, e))),
      λ a. ground (arith, first.1 a.0, rest.1 a.1),
    )

-- On SIGCHLD the parent takes out exactly the processes whose pids waitpid returns: they lose their
-- pids, and nothing else of the array changes. The pool stops exactly if no process is left.
pub sigchld_stops :
    (s : Parent) (pids : List Pid)
    → let t = on_signal s (sigchld pids) in
      (t.pool.sub_process ≡ map_joined pids s.pool.sub_process)
      × ((t.pool.stop ≡ true) ↔ AllJoined pids s.pool.sub_process)
unfolding on_signal
sigchld_stops s pids =
    let e = reap_all-joined s pids in
    (
      e,
      subst (λ ps. (all_dead ps ≡ true) ↔ AllJoined pids s.pool.sub_process) (sym e)
          (all_dead-AllJoined pids s.pool.sub_process),
    )
