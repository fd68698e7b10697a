-- ===== src/Pool/Dispatch.antt =====
-- ThreadPool/processPool.h: what run_parent does with a new connection.
use linux_websocket.Prelude.{
  ℕ, ◌+◌, ◌%◌, ◌<◌, ◌≤◌, ◌≡◌, ◌∙◌, refl, sym, ap, ◌≢◌, ◌⊎◌, inl, inr, true, false, none, some, [],
  ◌∷◌, ◌++◌, arith, length, get_elem?, Option-cases, get_elem?-beyond, get_elem?-within,
}
use linux_websocket.Pool.{
  Process, Parent, Outcome, running, breaks, out_of_range, sends_new_conn, is_dead, send_to, chosen,
  on_connection,
}
use linux_websocket.Pool.Search.{place, Found, living, nobody, place-zero, search-Found}

-- The array of processes has the pool's length, all pipes are there, and the counter is in range.
pub record IsReady (s : Parent) : Type 0 where
  pub number : length s.pool.sub_process ≡ s.pool.process_number
  pub counter : s.sub_process_counter < s.pool.process_number
  pub pipes : (k : ℕ) (p : Process) → get_elem? s.pool.sub_process k ≡ some p → p.pipes ≢ none

-- The round robin: the first living process from the counter on, and the counter behind it.
abbrev pub next_counter : Parent → ℕ → Parent
next_counter s j = record s { sub_process_counter = (j + 1) % s.pool.process_number }

abbrev pub Dispatches : Parent → ℕ → Outcome → Type 0
Dispatches s i o =
    ((j : ℕ) × Found s.pool.sub_process s.pool.process_number s.sub_process_counter j
      × (is_dead s.pool.sub_process j ≡ false)
      × (o ≡ send_to (next_counter s j) (get_elem? s.pool.sub_process i)))
    ⊎ (((e : ℕ)
          → e < s.pool.process_number
          → is_dead s.pool.sub_process (place s.pool.process_number s.sub_process_counter e) ≡ true)
        × (o ≡ breaks (record s { pool = record s.pool { stop = true } })))

chosen-Dispatches :
    (s : Parent) (i j : ℕ)
    → IsReady s
    → Found s.pool.sub_process s.pool.process_number s.sub_process_counter j
    → Dispatches s i (chosen s i (some j))
unfolding chosen
chosen-Dispatches s i j r (living d less at_j lives before) =
    inl (j, living d less at_j lives before, lives, rw lives)
chosen-Dispatches s i j r (nobody home dead) =
    let start : place s.pool.process_number s.sub_process_counter 0 ≡ s.sub_process_counter =
      place-zero s.pool.process_number s.sub_process_counter r.counter in
    let ended : is_dead s.pool.sub_process j ≡ true =
      ap (is_dead s.pool.sub_process) (home ∙ sym start) ∙ dead 0 (ground (arith, r.counter)) in
    inr (dead, rw ended)

-- For event number `i` of its round run_parent searches the first living process from the counter
-- on. If there is one, the counter moves behind it, and the message goes to process number `i`. If
-- none of the processes lives, the pool stops.
pub on_connection-Dispatches : (s : Parent) (i : ℕ) → IsReady s → Dispatches s i (on_connection s i)
unfolding on_connection
on_connection-Dispatches s i r =
    let (j, run, found) =
      search-Found s.pool.sub_process s.pool.process_number s.sub_process_counter r.counter in
    rw run (chosen-Dispatches s i j r found)

send_to-cases :
    (s : Parent) (p : Process)
    → p.pipes ≢ none
    → (fd : ℕ) × (back : ℕ) × (p.pipes ≡ some (fd, back))
      × (send_to s (some p) ≡ running (record s { log = s.log ++ sends_new_conn fd ∷ [] }))
unfolding send_to
send_to-cases s p ne = elim (Option-cases p.pipes) [
  | inl missing ↦ absurd (ne missing)
  | inr (fds, e) ↦ (fds.0, fds.1, e, rw (e, send_to))
]

send_to-none : (s : Parent) → send_to s none ≡ out_of_range
unfolding send_to
send_to-none s = refl

module _ (s : Parent) (i k : ℕ) (r : IsReady s) (less : k < s.pool.process_number)
    (lives : is_dead s.pool.sub_process (place s.pool.process_number s.sub_process_counter k)
      ≡ false) where
  -- Some process lives, so one is chosen.
  chosen_one :
      (j : ℕ) × (on_connection s i ≡ send_to (next_counter s j) (get_elem? s.pool.sub_process i))
  chosen_one = elim (on_connection-Dispatches s i r) [
    | inl (j, _, _, run) ↦ (j, run)
    | inr (dead, _) ↦ absurd (ground (arith, dead k less, lives))
  ]

  -- In a parent with its counter in range and a pipe for each process, of which at least one lives,
  -- a new connection makes the parent send one message, into the pipe of the process with the
  -- number `i` of the event in its round, whichever process the round robin chooses.
  pub connection_misdirected :
      i < s.pool.process_number
      → (p : Process) × (get_elem? s.pool.sub_process i ≡ some p)
        × ((fd : ℕ) × (back : ℕ) × (p.pipes ≡ some (fd, back))
            × ((t : Parent) × (on_connection s i ≡ running t)
                × (t.log ≡ s.log ++ sends_new_conn fd ∷ [])))
  connection_misdirected within =
      let (j, run) = chosen_one in
      let (p, at_i) = get_elem?-within s.pool.sub_process i (omega (arith, r.number)) in
      let (fd, back, pipe, sent) = send_to-cases (next_counter s j) p (r.pipes i p at_i) in
      (p, at_i, (fd, back, pipe, (_, run ∙ ap (send_to (next_counter s j)) at_i ∙ sent, refl)))

  -- In a parent with its counter in range and a pipe for each process, of which at least one lives,
  -- a new connection in an event whose number in its round is beyond the processes makes the parent
  -- leave the array of processes.
  pub connection_out_of_range : s.pool.process_number ≤ i → on_connection s i ≡ out_of_range
  connection_out_of_range beyond =
      let (j, run) = chosen_one in
      run
      ∙ ap (send_to (next_counter s j))
          (get_elem?-beyond s.pool.sub_process i (omega (arith, r.number)))
      ∙ send_to-none (next_counter s j)
