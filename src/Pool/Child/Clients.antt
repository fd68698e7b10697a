-- ===== src/Pool/Child/Clients.antt =====
-- ThreadPool/processPool.h: what a child process of the pool makes of its clients.
use mathlib.Core.List.{append_assoc, append-nil}
use linux_websocket.Prelude.{
  ℕ, ◌≡◌, ◌∙◌, refl, sym, ap, inl, inr, Bool, true, false, ◌||◌, Option, none, some, List, [], ◌∷◌,
  ◌++◌, map, arith, ◌==◌, if◌then◌else◌, get_elem?, Bool-cases,
}
use linux_websocket.Pool.{Fd, Process, ProcessPool}
use linux_websocket.Pool.Child.{
  adds_fd, closes, Child, Event, setup_sig_pipe, serve_client, child_loop, start, finish, run_child,
}
use linux_websocket.Pool.Child.Tasks.{
  Task, admits, works, stops, idle, task_of, has_stop, tasks, watches, history,
}
use linux_websocket.Pool.Child.Perform.{perform, perform_all, on_events-perform, perform_all-append}

-- An update at `f` that reads at `f`.
own_entry :
    {T : Type 0} (g : T → T) (v : ℕ → T) (f fd : ℕ)
    → (if f == fd then g (v f) else v fd) ≡ (if f == fd then g (v fd) else v fd)
own_entry g v f fd = elim (Bool-cases (f == fd)) [
  | inl same ↦ let e : f ≡ fd = ground arith in rw same (ap (λ x. g (v x)) e)
  | inr differs ↦ rw differs refl
]

if_no : {A : Type 0} {b : Bool} (x y : A) → b ≡ false → (if b then x else y) ≡ y
if_no x y e = rw e refl

or_true : (b : Bool) → (b || true) ≡ true
or_true true = refl
or_true false = refl

or_false : (b : Bool) → (b || false) ≡ b
or_false true = refl
or_false false = refl

module _ {T : Type 0} (init : T → (epollfd connfd address : ℕ) → T) (process : T → T) where
  -- What performing tasks leaves.
  record Performed (c d : Child T) (ts : List Task) : Type 0 where
    pipefd : d.pipefd ≡ c.pipefd
    sig_read : d.sig_read ≡ c.sig_read
    epollfd : d.epollfd ≡ c.epollfd
    stop : d.stop ≡ (c.stop || has_stop ts)
    users : (fd : Fd) → d.users fd ≡ history init process c.epollfd fd ts (c.users fd)
    log : d.log ≡ c.log ++ watches c.epollfd ts

  perform_all-Performed :
      (c : Child T) (ts : List Task) → Performed c (perform_all init process c ts) ts
  unfolding serve_client
  perform_all-Performed c [] = record {
    pipefd = refl;
    sig_read = refl;
    epollfd = refl;
    stop = sym (or_false c.stop);
    users = λ fd. refl;
    log = sym (append-nil c.log);
  }
  perform_all-Performed c (admits f a ∷ ts) =
      let p = perform_all-Performed (perform init process c (admits f a)) ts in
      record {
        pipefd = p.pipefd;
        sig_read = p.sig_read;
        epollfd = p.epollfd;
        stop = p.stop;
        users = λ fd.
            p.users fd
            ∙ ap (history init process c.epollfd fd ts)
                (own_entry (λ u. init u c.epollfd f a) c.users f fd);
        log = p.log ∙ append_assoc c.log (adds_fd c.epollfd f ∷ []) (watches c.epollfd ts);
      }
  perform_all-Performed c (works f ∷ ts) =
      let p = perform_all-Performed (perform init process c (works f)) ts in
      record {
        pipefd = p.pipefd;
        sig_read = p.sig_read;
        epollfd = p.epollfd;
        stop = p.stop;
        users = λ fd.
            p.users fd ∙ ap (history init process c.epollfd fd ts) (own_entry process c.users f fd);
        log = p.log;
      }
  perform_all-Performed c (stops ∷ ts) =
      let p = perform_all-Performed (perform init process c stops) ts in
      record {
        pipefd = p.pipefd;
        sig_read = p.sig_read;
        epollfd = p.epollfd;
        stop = p.stop ∙ sym (or_true c.stop);
        users = p.users;
        log = p.log;
      }
  perform_all-Performed c (idle ∷ ts) =
      let p = perform_all-Performed c ts in
      record {
        pipefd = p.pipefd;
        sig_read = p.sig_read;
        epollfd = p.epollfd;
        stop = p.stop;
        users = p.users;
        log = p.log;
      }

  child_loop-stop :
      (c : Child T) (rounds : List (Option (List Event)))
      → c.stop ≡ true
      → child_loop init process c rounds ≡ c
  unfolding child_loop
  child_loop-stop c [] stopped = refl
  child_loop-stop c (none ∷ rounds) stopped = refl
  child_loop-stop c (some evs ∷ rounds) stopped = rw stopped refl

  child_loop-perform :
      (c : Child T) (rounds : List (Option (List Event)))
      → c.stop ≡ false
      → child_loop init process c rounds
        ≡ perform_all init process c (tasks c.pipefd c.sig_read rounds)
  unfolding child_loop tasks
  child_loop-perform c [] go = refl
  child_loop-perform c (none ∷ rounds) go = refl
  child_loop-perform c (some evs ∷ rounds) go =
      let now = map (task_of c.pipefd c.sig_read) evs in
      let d = perform_all init process c now in
      let p = perform_all-Performed c now in
      if_no c _ go
      ∙ rw (on_events-perform init process c evs) (elim (Bool-cases (has_stop now)) [
        | inl stop ↦ rw stop (child_loop-stop d rounds (p.stop ∙ rw (go, stop) refl))
        | inr goes ↦ rw goes (
            child_loop-perform d rounds (p.stop ∙ rw (go, goes) refl)
            ∙ rw (p.pipefd, p.sig_read) (sym (perform_all-append init process c now _)))
      ])

  -- A child of the pool, with a pipe to the parent and its signal pipe set up, ends its run after
  -- any rounds of events. Then the object of each descriptor has the history of this descriptor
  -- alone: init for each connection that was accepted on it, process for each time it was readable,
  -- in order, up to the end of the round that asked for a stop. The child has watched its pipes and
  -- every accepted connection, each once and in order, and closes its pipe and its epoll instance.
  pub run_child-history :
      (fresh : T) (pool : ProcessPool) (k : ℕ) (own : Process) (back pipefd e r w : Fd)
      (rounds : List (Option (List Event)))
      → pool.idx ≡ some k
      → pool.stop ≡ false
      → get_elem? pool.sub_process k ≡ some own
      → own.pipes ≡ some (back, pipefd)
      → (d : Child T) × (run_child init process fresh pool (some e) (some (r, w)) rounds ≡ some d)
        × ((fd : Fd) → d.users fd ≡ history init process e fd (tasks pipefd r rounds) fresh)
        × (d.log
            ≡ (adds_fd e r ∷ adds_fd e pipefd ∷ [])
              ++ watches e (tasks pipefd r rounds)
              ++ closes pipefd ∷ closes e ∷ [])
  unfolding run_child start setup_sig_pipe finish
  run_child-history fresh pool k own back pipefd e r w rounds idx go at_k pipes =
      let c : Child T = record {
        epollfd = e;
        sig_read = r;
        pipefd = pipefd;
        stop = false;
        users = λ _. fresh;
        log = adds_fd e r ∷ adds_fd e pipefd ∷ [];
      } in
      let p = perform_all-Performed c (tasks pipefd r rounds) in
      (
        finish init process (perform_all init process c (tasks pipefd r rounds)),
        rw (idx, at_k, pipes, go, child_loop-perform c rounds refl) refl,
        p.users,
        rw (p.log, p.pipefd, p.epollfd) (append_assoc c.log (watches e (tasks pipefd r rounds)) _),
      )
