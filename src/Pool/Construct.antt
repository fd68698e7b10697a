-- ===== src/Pool/Construct.antt =====
-- ThreadPool/processPool.h: the constructor of processpool.
use mathlib.Core.Path.{subst}
use linux_websocket.Prelude.{
  ℕ, zero, suc, ◌+◌, ◌<◌, ◌≤◌, ◌≡◌, refl, ap, inl, inr, false, ◌&&◌, Option, none, some, List, [],
  ◌∷◌, ◌++◌, arith, ltb, Bool-cases, length, replicate,
}
use linux_websocket.Pool.{
  Fd, Pid, Process, new_process, ProcessPool, Action, Forked, failed, in_child, in_parent, Spawn,
  Built, max_process_number, cons_process, spawned, build, made, construct,
}

-- A process that the parent has started.
abbrev pub IsStarted : Process → Type 0
IsStarted p = ((pid : Pid) × (p.pid ≡ some pid)) × ((fds : Fd × Fd) × (p.pipes ≡ some fds))

abbrev pub All {ℓ κ} : {A : Type ℓ} → (A → Type κ) → List A → Type κ
All P [] = Unit
All P (x ∷ xs) = P x × All P xs

-- In the parent all `n` processes are started. In the child with index `i` the processes before it
-- are, its own entry has the pid 0 and a pair of pipes, and the entries behind it are as new.
abbrev pub Shape : (i n : ℕ) → Option ℕ → List Process → Type 0
Shape i n none ps = (length ps ≡ n) × All IsStarted ps
Shape i n (some k) ps =
    (i ≤ k)
    × (k < i + n)
    × ((before : List Process) × ((own : Process) × ((rest : ℕ) × (ps
              ≡ before ++ own ∷ replicate rest new_process)
            × (i + length before ≡ k)
            × (length before + suc rest ≡ n)
            × (own.pid ≡ some 0)
            × ((fds : Fd × Fd) × (own.pipes ≡ some fds))
            × All IsStarted before)))

abbrev Fine : ℕ → ℕ → Built → Type 0
Fine i n none = Unit {0}
Fine i n (some (idx, ps, acts)) = Shape i n idx ps

cons_process-Fine :
    (i n : ℕ) (p : Process) (a : Action) (r : Built)
    → IsStarted p
    → Fine (suc i) n r
    → Fine i (suc n) (cons_process p a r)
unfolding cons_process
cons_process-Fine i n p a none st f = tt
cons_process-Fine i n p a (some (none, ps, acts)) st f = (ap suc f.0, (st, f.1))
cons_process-Fine i n p a (some (some k, ps, acts)) st
      (low, high, (before, (own, (rest, e, at_k, whole, zero_pid, own_pipes, started)))) =
    (
      omega arith,
      omega arith,
      (
        p ∷ before,
        (own, (rest, ap (◌∷◌ p) e, omega arith, omega arith, zero_pid, own_pipes, (st, started))),
      ),
    )

spawned-Fine :
    (i n : ℕ) (pair : Option (Fd × Fd)) (f : Forked) (r : Built)
    → Fine (suc i) n r
    → Fine i (suc n) (spawned i n pair f r)
unfolding spawned
spawned-Fine i n none f r g = tt
spawned-Fine i n (some (p, q)) failed r g = tt
spawned-Fine i n (some (p, q)) in_child r g = (
  omega arith,
  omega arith,
  ([], (_, (n, refl, omega arith, omega arith, refl, ((p, q), refl), tt))),
)
spawned-Fine i n (some (p, q)) (in_parent pid) r g =
    cons_process-Fine i n _ _ r ((pid, refl), ((p, q), refl)) g

build-Fine : (spawns : ℕ → Spawn) (i n : ℕ) → Fine i n (build spawns i n)
unfolding build
build-Fine spawns i zero = (refl, tt)
build-Fine spawns i (suc n) =
    spawned-Fine i n (spawns i).pair (spawns i).forked _ (build-Fine spawns (suc i) n)

-- What a process that has left the constructor holds.
pub record Constructed (listenfd n : ℕ) (p : ProcessPool) : Type 0 where
  pub positive : 0 < n
  pub bounded : n < max_process_number
  pub number : p.process_number ≡ n
  pub listens : p.listenfd ≡ listenfd
  pub goes_on : p.stop ≡ false
  pub shape : Shape 0 n p.idx p.sub_process

made-Constructed :
    (listenfd n : ℕ) (r : Built) (p : ProcessPool) (acts : List Action)
    → 0 < n
    → n < max_process_number
    → Fine 0 n r
    → made listenfd n r ≡ some (p, acts)
    → Constructed listenfd n p
unfolding made
made-Constructed listenfd n none p acts pos less f e = absurd (ground arith)
made-Constructed listenfd n (some (idx, ps, as')) p acts pos less f e =
    subst (Constructed listenfd n) (ap pool_of e) (record {
      positive = pos;
      bounded = less;
      number = refl;
      listens = refl;
      goes_on = refl;
      shape = f;
    })
  where
    pool_of : Option (ProcessPool × List Action) → ProcessPool
    pool_of none = p
    pool_of (some (q, _)) = q

-- Every process that leaves the constructor has the number of processes that was asked for, which
-- lies between 1 and 15. The parent has started each of them. The child with index `k` sees the
-- processes before it started, the pid 0 and a pair of pipes in its own entry, and the entries
-- behind it as new.
pub construct-Constructed :
    (listenfd n : ℕ) (spawns : ℕ → Spawn) (p : ProcessPool) (acts : List Action)
    → construct listenfd n spawns ≡ some (p, acts)
    → Constructed listenfd n p
unfolding construct
construct-Constructed listenfd n spawns p acts e =
    elim (Bool-cases (ltb 0 n && ltb n max_process_number)) [
      | inl fits ↦
          made-Constructed listenfd n (build spawns 0 n) p acts (ground arith) (ground arith)
            (build-Fine spawns 0 n) (rw fits at e)
      | inr refused ↦ absurd (ground (arith, e, refused))
    ]
