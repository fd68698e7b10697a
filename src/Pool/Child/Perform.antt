-- ===== src/Pool/Child/Perform.antt =====
-- ThreadPool/processPool.h: the events of a child process of the pool as tasks.
use linux_websocket.Prelude.{
  ℕ, ◌≡◌, refl, inl, inr, true, ◌&&◌, Option, none, some, List, [], ◌∷◌, ◌++◌, map, ◌==◌,
  if◌then◌else◌, Bool-cases,
}
use linux_websocket.Pool.{Fd, Signal, sigchld, sigterm, sigint, other}
use linux_websocket.Pool.Child.{
  Child, Event, goes_on, on_signal, on_signals, serve_client, on_pipe, on_event, on_events,
}
use linux_websocket.Pool.Child.Tasks.{
  Task, admits, works, stops, idle, stopping, admission, task_of,
}

module _ {T : Type 0} (init : T → (epollfd connfd address : ℕ) → T) (process : T → T) where
  abbrev pub perform : Child T → Task → Child T
  perform c (admits f a) = serve_client init process c (some (f, a))
  perform c (works f) = record c {
    users = λ fd. if f == fd then process (c.users f) else c.users fd;
  }
  perform c stops = record c { stop = true }
  perform c idle = c

  abbrev pub perform_all : Child T → List Task → Child T
  perform_all c [] = c
  perform_all c (t ∷ ts) = perform_all (perform c t) ts

  on_signals-stop :
      (c : Child T) (xs : List Signal)
      → on_signals (record c { stop = true }) xs ≡ record c { stop = true }
  unfolding on_signals on_signal
  on_signals-stop c [] = refl
  on_signals-stop c (sigchld pids ∷ xs) = on_signals-stop c xs
  on_signals-stop c (sigterm ∷ xs) = on_signals-stop c xs
  on_signals-stop c (sigint ∷ xs) = on_signals-stop c xs
  on_signals-stop c (other ∷ xs) = on_signals-stop c xs

  on_signals-stopping :
      (c : Child T) (xs : List Signal)
      → on_signals c xs ≡ (if stopping xs then record c { stop = true } else c)
  unfolding on_signals on_signal stopping
  on_signals-stopping c [] = refl
  on_signals-stopping c (sigchld pids ∷ xs) = on_signals-stopping c xs
  on_signals-stopping c (sigterm ∷ xs) = on_signals-stop c xs
  on_signals-stopping c (sigint ∷ xs) = on_signals-stop c xs
  on_signals-stopping c (other ∷ xs) = on_signals-stopping c xs

  serve_client-perform :
      (c : Child T) (a : Option (Fd × ℕ)) → serve_client init process c a ≡ perform c (admission a)
  unfolding serve_client
  serve_client-perform c none = refl
  serve_client-perform c (some (connfd, address)) = refl

  on_event-perform :
      (c : Child T) (ev : Event)
      → on_event init process c ev ≡ perform c (task_of c.pipefd c.sig_read ev)
  unfolding on_event on_pipe task_of
  on_event-perform c ev = elim (Bool-cases ((ev.sockfd == c.pipefd) && ev.readable)) [
    | inl pipe ↦ rw pipe (elim (Bool-cases (goes_on ev.received)) [
      | inl go ↦ rw go (serve_client-perform c ev.accepted)
      | inr lost ↦ rw lost refl
    ])
    | inr other_fd ↦ rw other_fd (elim (Bool-cases ((ev.sockfd == c.sig_read) && ev.readable)) [
      | inl signal ↦
          rw (signal, on_signals-stopping c ev.signals)
            (elim (Bool-cases (stopping ev.signals)) [
              | inl stop ↦ rw stop refl
              | inr go ↦ rw go refl
            ])
      | inr client ↦ rw client (elim (Bool-cases ev.readable) [
        | inl data_here ↦ rw data_here refl
        | inr nothing ↦ rw nothing refl
      ])
    ])
  ]

  perform_pipefd : (c : Child T) (t : Task) → (perform c t).pipefd ≡ c.pipefd
  unfolding serve_client
  perform_pipefd c (admits f a) = refl
  perform_pipefd c (works f) = refl
  perform_pipefd c stops = refl
  perform_pipefd c idle = refl

  perform_sig_read : (c : Child T) (t : Task) → (perform c t).sig_read ≡ c.sig_read
  unfolding serve_client
  perform_sig_read c (admits f a) = refl
  perform_sig_read c (works f) = refl
  perform_sig_read c stops = refl
  perform_sig_read c idle = refl

  pub on_events-perform :
      (c : Child T) (evs : List Event)
      → on_events init process c evs ≡ perform_all c (map (task_of c.pipefd c.sig_read) evs)
  unfolding on_events
  on_events-perform c [] = refl
  on_events-perform c (ev ∷ evs) =
      let t = task_of c.pipefd c.sig_read ev in
      rw
        (
          on_event-perform c ev,
          on_events-perform (perform c t) evs,
          perform_pipefd c t,
          perform_sig_read c t,
        )
        refl

  pub perform_all-append :
      (c : Child T) (ts us : List Task)
      → perform_all c (ts ++ us) ≡ perform_all (perform_all c ts) us
  perform_all-append c [] us = refl
  perform_all-append c (t ∷ ts) us = perform_all-append (perform c t) ts us
