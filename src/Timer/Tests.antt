-- ===== src/Timer/Tests.antt =====
-- Timer/linklistTimer.h: three timers at the addresses 1, 2 and 3, and what the operations make of
-- them.
use linux_websocket.Prelude.{
  ℕ, ◌+◌, ◌≡◌, refl, true, none, some, [], ◌∷◌, arith, ◌==◌, if◌then◌else◌,
}
use linux_websocket.Timer.{add_timer, adjust_timer, del_timer, tick}
use linux_websocket.Timer.Heap.{null, TimerList, Heap, Returns, Holds}
use linux_websocket.Timer.Chain.{Cell, Cells, timer_of, has, IsList}
use linux_websocket.Timer.Insert.{insert, added}
use linux_websocket.Timer.Sorted.{IsSorted}
use linux_websocket.Timer.Add.{Adds, add_timer-added, add_timer_misplaces}
use linux_websocket.Timer.Adjust.{Adjusted, adjust_timer-insert}
use linux_websocket.Timer.Delete.{Deleted, del_timer-Deleted}
use linux_websocket.Timer.Tick.{Ticked, tick-Ticked}

abbrev pub cell : (addr expire : ℕ) → Cell
cell a e = record { addr = a; expire = e; cb_func = 0; user_data = a + 10 }

abbrev pub three : Cells
three = cell 1 10 ∷ cell 2 20 ∷ cell 3 30 ∷ []

-- A fourth timer stands at 4, in no list.
abbrev pub fourth : ℕ → Cell
fourth e = cell 4 e

abbrev pub three_heap : ℕ → Heap
three_heap e a =
    if a == 1
    then some (timer_of (cell 1 10) null 2)
    else if a == 2
    then some (timer_of (cell 2 20) 1 3)
    else if a == 3
    then some (timer_of (cell 3 30) 2 null)
    else if a == 4
    then some (timer_of (fourth e) null null)
    else none

abbrev pub three_list : TimerList
three_list = record { head = 1; tail = 3 }

pub three-IsList : (e : ℕ) → IsList (three_heap e) three_list three
three-IsList e = record {
  chain = (
    record { valid = omega arith; stored = refl },
    (
      record { valid = omega arith; stored = refl },
      (record { valid = omega arith; stored = refl }, tt),
    ),
  );
  distinct = (refl, (refl, (refl, tt)));
  head = refl;
  tail = λ _. refl;
}

fourth-Holds : (e : ℕ) → Holds (three_heap e) 4 (timer_of (fourth e) null null)
fourth-Holds e = record { valid = omega arith; stored = refl }

added_between : added (fourth 15) three ≡ some (cell 1 10 ∷ cell 2 20 ∷ fourth 15 ∷ cell 3 30 ∷ [])
unfolding added insert
added_between = refl

add_timer-added_example :
    Adds
      (three_heap 25)
      (fourth 25)
      three
      (added (fourth 25) three)
      (add_timer 9 4 three_list (three_heap 25))
add_timer-added_example =
    add_timer-added (fourth 25) three 9 (fourth-Holds 25) (three-IsList 25) refl (omega arith)

add_timer_misplaces_example :
    Returns
      (λ l g.
        (zs : Cells) × IsList g l (cell 1 10 ∷ cell 2 20 ∷ zs)
        × (has 4 zs ≡ true)
        × ¬ IsSorted (cell 1 10 ∷ cell 2 20 ∷ zs))
      (add_timer 9 4 three_list (three_heap 15))
add_timer_misplaces_example =
    add_timer_misplaces (fourth 15) (cell 1 10) (cell 2 20) (cell 3 30 ∷ []) 9 (fourth-Holds 15)
      (three-IsList 15) refl (omega arith) (omega arith) (omega arith)

-- Of three timers the first now ends between the others.
abbrev late : Cells
late = cell 1 25 ∷ cell 2 20 ∷ cell 3 30 ∷ []

abbrev late_heap : Heap
late_heap a = if a == 1 then some (timer_of (cell 1 25) null 2) else three_heap 0 a

late-IsList : IsList late_heap three_list late
late-IsList = record {
  chain = (
    record { valid = omega arith; stored = refl },
    (
      record { valid = omega arith; stored = refl },
      (record { valid = omega arith; stored = refl }, tt),
    ),
  );
  distinct = (refl, (refl, (refl, tt)));
  head = refl;
  tail = λ _. refl;
}

adjust_timer-insert_example :
    Returns
      (Adjusted late_heap late (cell 2 20 ∷ cell 1 25 ∷ cell 3 30 ∷ []))
      (adjust_timer 9 1 three_list late_heap)
unfolding insert
adjust_timer-insert_example =
    adjust_timer-insert (cell 1 25) 9 [] (cell 2 20 ∷ cell 3 30 ∷ []) late-IsList (omega arith)

del_timer-Deleted_example :
    Returns
      (Deleted (three_heap 0) (cell 2 20) three (cell 1 10 ∷ cell 3 30 ∷ []))
      (del_timer 2 three_list (three_heap 0))
del_timer-Deleted_example =
    del_timer-Deleted (cell 2 20) (cell 1 10 ∷ []) (cell 3 30 ∷ []) (three-IsList 0)

tick-Ticked_example : Returns (Ticked 20 (three_heap 0) three) (tick 20 9 three_list (three_heap 0))
tick-Ticked_example = tick-Ticked 20 9 three (three-IsList 0) (omega arith)
