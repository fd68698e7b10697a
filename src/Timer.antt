-- ===== src/Timer.antt =====
-- Timer/linklistTimer.h: class sort_timer_lst over an explicit heap of timers. Each loop runs on
-- fuel.
pub mod Adjust
pub mod Chain
pub mod Delete
pub mod Destroy
pub mod Heap
pub mod Add
pub mod Insert
pub mod Sorted
pub mod Tests
pub mod Tick
pub mod Unlink
use linux_websocket.Prelude.{ℕ, zero, suc, Bool, List, [], ◌∷◌, ◌==◌, ltb, if◌then◌else◌, ◌&&◌}
use linux_websocket.Timer.Heap.{
  Ptr, null, TimerList, Cmd, out_of_fuel, pure, ◌>>=◌, ◌>>◌, load, set_next, set_prev, delete,
}

-- The loop of the private add_timer, with the test behind it: `tmp` is NULL there exactly when
-- the loop did not break.
pub insert_loop : ℕ → (timer prev tmp : Ptr) → TimerList → Cmd TimerList
insert_loop zero timer prev tmp l = λ _. out_of_fuel
insert_loop (suc k) timer prev tmp l =
    if tmp == null
    then (do
      set_next prev timer
      set_prev timer prev
      set_next timer null
      pure (record l { tail = timer }))
    else (do
      t ← load timer
      n ← load tmp
      let rest = insert_loop k timer tmp n.next l
      if ltb t.expire n.expire
          then (do
            set_next timer tmp
            set_prev timer prev
            set_next prev timer
            set_prev tmp timer
            pure l)
          else rest)

-- The private add_timer(timer, lst_head).
pub add_timer_from : ℕ → (timer lst_head : Ptr) → TimerList → Cmd TimerList
add_timer_from fuel timer lst_head l = do
  p ← load lst_head
  insert_loop fuel timer lst_head p.next l

-- The public add_timer(timer).
pub add_timer : ℕ → Ptr → TimerList → Cmd TimerList
add_timer fuel timer l =
    if timer == null
    then pure l
    else if l.head == null
    then pure (record { head = timer; tail = timer })
    else (do
      t ← load timer
      h ← load l.head
      if ltb t.expire h.expire
          then (do set_next timer l.head; set_prev l.head timer; pure (record l { head = timer }))
          else add_timer_from fuel timer h.next l)

-- `timer` has a new expire value and moves behind the timers that end no later.
pub adjust_timer : ℕ → Ptr → TimerList → Cmd TimerList
unfolding add_timer_from
adjust_timer fuel timer l = if timer == null then pure l else (do
  t ← load timer
  if t.next == null then pure l else (do
    n ← load t.next
    if ltb t.expire n.expire
        then pure l
        else if timer == l.head
        then (do
          h ← load l.head
          set_prev h.next null
          set_next timer null
          add_timer_from fuel timer h.next (record l { head = h.next }))
        else (do
          set_next t.prev t.next
          set_prev t.next t.prev
          t' ← load timer
          add_timer_from fuel timer t'.next l)))

pub del_timer : Ptr → TimerList → Cmd TimerList
del_timer timer l =
    if timer == null
    then pure l
    else if (timer == l.head) && (timer == l.tail)
    then (do delete timer; pure (record { head = null; tail = null }))
    else if timer == l.head
    then (do h ← load l.head; set_prev h.next null; delete timer; pure (record l { head = h.next }))
    else if timer == l.tail
    then (do t ← load l.tail; set_next t.prev null; delete timer; pure (record l { tail = t.prev }))
    else (do t ← load timer; set_next t.prev t.next; set_prev t.next t.prev; delete timer; pure l)

-- A call of a callback: the function, and the user's data that it is given.
abbrev pub Call : Type 0
Call = ℕ × ℕ

-- `if (head) head->prev = NULL`
pub unlink_head : Ptr → Cmd (Unit {0})
unlink_head head = if head == null then pure tt else set_prev head null

-- The callbacks that run, in order, and the list. A callback does not reach the timers.
pub tick_loop : (cur : ℕ) → ℕ → (tmp : Ptr) → TimerList → Cmd (List Call × TimerList)
unfolding unlink_head
tick_loop cur zero tmp l = λ _. out_of_fuel
tick_loop cur (suc k) tmp l = if tmp == null then pure ([], l) else (do
  t ← load tmp
  let rest = tick_loop cur k t.next (record l { head = t.next })
  if ltb cur t.expire then pure ([], l) else (do
    unlink_head t.next
    delete tmp
    (calls, l') ← rest
    pure ((t.cb_func, t.user_data) ∷ calls, l')))

-- `cur` is what time(NULL) returns.
pub tick : (cur : ℕ) → ℕ → TimerList → Cmd (List Call × TimerList)
unfolding tick_loop
tick cur fuel l = if l.head == null then pure ([], l) else tick_loop cur fuel l.head l

-- The loop of the destructor.
pub destroy_loop : ℕ → (temp : Ptr) → TimerList → Cmd TimerList
destroy_loop zero temp l = λ _. out_of_fuel
destroy_loop (suc k) temp l =
    if temp == null
    then pure l
    else (do t ← load temp; delete temp; destroy_loop k t.next (record l { head = t.next }))

pub destroy : ℕ → TimerList → Cmd TimerList
unfolding destroy_loop
destroy fuel l = destroy_loop fuel l.head l
