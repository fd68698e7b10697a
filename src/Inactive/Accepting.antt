-- ===== src/Inactive/Accepting.antt =====
-- Timer/closeNonactiveConn.cpp: what becomes of a new client.
use linux_websocket.Prelude.{
  ℕ, ◌+◌, ◌≤◌, ◌<◌, ◌≡◌, refl, ◌≢◌, false, some, [], ◌∷◌, ◌++◌, arith, length, ltb, true, Bool,
  if◌then◌else◌, ◌∙◌,
}
use linux_websocket.Timer.Heap.{
  Ptr, null, UtilTimer, TimerList, Heap, Run, Returns, returns, Holds, write,
}
use linux_websocket.Timer.Chain.{Cell, Cells, timer_of, has, IsList, Linked-frame}
use linux_websocket.Timer.Sorted.{AllUpTo, IsSorted}
use linux_websocket.Timer.Add.{add_timer-fault, add_timer-IsSorted}
use linux_websocket.Inactive.{
  Fd, Server, running, fault, adds_fd, with_timers, close_client, on_connection, fd_limit,
}

-- What a command that returns makes of the server.
pub with_timers-Returns :
    {P : TimerList → Heap → Type 0} {r : Run TimerList} (s : Server)
    → Returns P r
    → (l : TimerList) × (h : Heap) × (with_timers s r
        ≡ running (record s { timer_lst = l; heap = h }))
      × P l h
unfolding with_timers
with_timers-Returns s (returns {r = l} {h = h} p) = (l, h, refl, p)

-- The timer of a client that is accepted on `fd` at the time `cur`.
abbrev pub cell_for : (timer : Ptr) (fd : Fd) (cur : ℕ) → Cell
cell_for timer fd cur = record {
  addr = timer;
  expire = cur + 15;
  cb_func = close_client;
  user_data = fd;
}

-- A list of timers does not reach the address that new returns.
pub IsList-write :
    {h : Heap} {l : TimerList} {xs : Cells} (c : Cell) (t : UtilTimer)
    → IsList h l xs
    → has c.addr xs ≡ false
    → IsList (write h c.addr (some t)) l xs
unfolding write
IsList-write {xs} c t is out = record {
  chain = Linked-frame null null xs is.chain (λ a i. ground arith);
  distinct = is.distinct;
  head = is.head;
  tail = is.tail;
}

pub new-Holds :
    (h : Heap) (c : Cell)
    → c.addr ≢ null
    → Holds (write h c.addr (some (timer_of c null null))) c.addr (timer_of c null null)
unfolding write
new-Holds h c ne = record { valid = ne; stored = ground arith }

pub if_yes : {A : Type 0} {b : Bool} (x y : A) → b ≡ true → (if b then x else y) ≡ x
if_yes x y e = rw e refl

module _ (fuel : ℕ) (s : Server) (fd address cur : ℕ) (timer : Ptr) (fresh : timer ≢ null)
    (room : fd < fd_limit) where
  in_range : ltb fd fd_limit ≡ true
  in_range = ground arith

  -- The second client: while exactly one timer is in the list, at another address than the new
  -- one, and ends no later than 15 seconds after the current time, to accept a client whose
  -- descriptor is below FD_LIMIT makes add_timer dereference a null pointer.
  pub second_client_faults :
      (x : Cell)
      → IsList s.heap s.timer_lst (x ∷ [])
      → has timer (x ∷ []) ≡ false
      → x.expire ≤ cur + 15
      → on_connection fuel s (some (fd, address)) cur timer ≡ fault
  unfolding on_connection with_timers
  second_client_faults x is out early =
      let c = cell_for timer fd cur in
      rw (
        in_range,
        add_timer-fault c fuel (new-Holds s.heap c fresh) x (IsList-write c _ is out) early,
      )

  -- A client whose descriptor is below FD_LIMIT is accepted while any number of timers but one is
  -- in a well-formed list that is sorted and shorter than the fuel, does not hold the new timer's
  -- address and holds no timer that ends later than 15 seconds after the current time. Then the
  -- client's timer goes to the end of the list, which stays well formed and sorted, and the client
  -- gets its timer and is watched.
  pub client_joins :
      (xs : Cells)
      → IsList s.heap s.timer_lst xs
      → has timer xs ≡ false
      → length xs < fuel
      → IsSorted xs
      → AllUpTo (cur + 15) xs
      → length xs ≢ 1
      → (t : Server) × (on_connection fuel s (some (fd, address)) cur timer ≡ running t)
        × IsList t.heap t.timer_lst (xs ++ cell_for timer fd cur ∷ [])
        × IsSorted (xs ++ cell_for timer fd cur ∷ [])
        × ((t.users fd).timer ≡ timer)
        × (t.log ≡ s.log ++ adds_fd s.main_epollfd fd ∷ [])
  unfolding on_connection
  client_joins xs is out enough sorted early number =
      let c = cell_for timer fd cur in
      let (sorted', r) =
        add_timer-IsSorted c xs fuel (new-Holds s.heap c fresh) (IsList-write c _ is out) out enough
          sorted early number in
      let (l, h, run, p) = with_timers-Returns _ r in
      (_, if_yes _ _ in_range ∙ run, p.0, sorted', ground arith, refl)
