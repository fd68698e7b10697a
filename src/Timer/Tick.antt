-- ===== src/Timer/Tick.antt =====
-- Timer/linklistTimer.h: tick.
use mathlib.Core.Path.{subst}
use linux_websocket.Prelude.{
  ℕ, zero, suc, ◌<◌, ◌≡◌, ◌∙◌, refl, sym, inl, inr, true, false, none, some, List, [], ◌∷◌, ◌++◌,
  map, arith, ◌==◌, ltb, Bool-cases, if◌then◌else◌, length,
}
use linux_websocket.Timer.Heap.{
  Ptr, null, TimerList, Cmd, Heap, write, Returns, returns, weaken, then_Returns, not_null, load-ok,
  load, delete, set_prev, pure, ◌>>=◌, ◌>>◌,
}
use linux_websocket.Timer.Chain.{
  Cell, Cells, timer_of, first, has, SameOutside, Linked-frame, IsList,
}
use linux_websocket.Timer.Sorted.{AllFrom, AllUpTo, IsSorted, AllFrom-mono}
use linux_websocket.Timer.{Call, unlink_head, tick_loop, tick}

unfoldable pub expired : ℕ → Cells → Cells
expired cur [] = []
expired cur (x ∷ xs) = if ltb cur x.expire then [] else x ∷ expired cur xs

unfoldable pub remaining : ℕ → Cells → Cells
remaining cur [] = []
remaining cur (x ∷ xs) = if ltb cur x.expire then x ∷ xs else remaining cur xs

abbrev pub calls_of : Cells → List Call
calls_of = map λ c. (c.cb_func, c.user_data)

-- The callbacks of the expired timers ran in order, those timers are deleted, the others are the
-- list, and no object outside it has changed.
pub record Ticked (cur : ℕ) (h : Heap) (xs : Cells) (r : List Call × TimerList) (g : Heap)
    : Type 0 where
  pub calls : r.0 ≡ calls_of (expired cur xs)
  pub list : IsList g r.1 (remaining cur xs)
  pub gone : (a : Ptr) → has a (expired cur xs) ≡ true → g a ≡ none
  pub same : SameOutside xs h g

-- The heap without the head of a list.
popped : Heap → Cell → Cells → Heap
popped h x [] = write h x.addr none
popped h x (y ∷ ys) = write (write h y.addr (some (timer_of y null (first ys null)))) x.addr none

module _ {h : Heap} {l : TimerList} (x : Cell) where
  popped-run :
      {A : Type 0} (k : Cmd A) (ys : Cells)
      → IsList h l (x ∷ ys)
      → (unlink_head (first ys null) >> (delete x.addr >> k)) h ≡ k (popped h x ys)
  unfolding popped unlink_head set_prev delete load write
  popped-run k [] is = ground (arith, is.chain.0.valid, is.chain.0.stored)
  popped-run k (y ∷ ys) is = ground (
    arith, is.chain.0.valid, is.chain.0.stored, is.chain.1.0.valid, is.chain.1.0.stored,
    is.distinct.0,
  )

  popped-IsList :
      (ys : Cells)
      → IsList h l (x ∷ ys)
      → IsList (popped h x ys) (record l { head = first ys null }) ys
  unfolding popped write
  popped-IsList [] is = record {
    chain = tt;
    distinct = tt;
    head = refl;
    tail = λ n. absurd (n refl);
  }
  popped-IsList (y ∷ ys) is = record {
    chain = (
      record { valid = is.chain.1.0.valid; stored = ground (arith, is.distinct.0) },
      Linked-frame y.addr null ys is.chain.1.1 (λ a i. ground (arith, is.distinct)),
    );
    distinct = is.distinct.1;
    head = refl;
    tail = λ _. is.tail (λ e. cc);
  }

popped-gone : (h : Heap) (x : Cell) (ys : Cells) → popped h x ys x.addr ≡ none
unfolding popped write
popped-gone h x [] = ground arith
popped-gone h x (y ∷ ys) = ground arith

popped-same : (h : Heap) (x : Cell) (ys : Cells) → SameOutside (x ∷ ys) h (popped h x ys)
unfolding popped write
popped-same h x [] a o = ground arith
popped-same h x (y ∷ ys) a o = ground arith

has-expired : (cur : ℕ) (a : Ptr) (xs : Cells) → has a xs ≡ false → has a (expired cur xs) ≡ false
unfolding expired
has-expired cur a [] o = refl
has-expired cur a (x ∷ xs) o = ground (arith, has-expired cur a xs)

module _ (cur : ℕ) {h : Heap} (x : Cell) (xs : Cells) (due : ltb cur x.expire ≡ false) where
  Ticked-cons :
      {l : TimerList} {r : List Call × TimerList} {g : Heap}
      → IsList h l (x ∷ xs)
      → Ticked cur (popped h x xs) xs r g
      → Ticked cur h (x ∷ xs) ((x.cb_func, x.user_data) ∷ r.0, r.1) g
  unfolding expired remaining
  Ticked-cons is t = record {
    calls = rw (due, t.calls);
    list = rw due t.list;
    gone = λ a i. ground (arith, t.gone a, t.same x.addr is.distinct.0, popped-gone h x xs);
    same = λ a o. t.same a (ground arith) ∙ popped-same h x xs a o;
  }

module _ (cur : ℕ) where
  tick_loop-Ticked :
      (h : Heap) (k : ℕ) (l : TimerList) (xs : Cells)
      → IsList h l xs
      → length xs < k
      → Returns (Ticked cur h xs) (tick_loop cur k (first xs null) l h)
  unfolding tick_loop expired remaining
  tick_loop-Ticked h zero l xs is enough = absurd (omega arith)
  tick_loop-Ticked h (suc k) l [] is enough =
      returns (record { calls = refl; list = is; gone = λ a i. cc; same = λ a o. refl })
  tick_loop-Ticked h (suc k) l (x ∷ xs) is enough = elim (Bool-cases (ltb cur x.expire)) [
    | inl live ↦
        rw (not_null is.chain.0, load-ok is.chain.0, live)
          (returns (record {
            calls = rw live;
            list = rw live is;
            gone = rw live (λ a i. cc);
            same = λ a o. refl;
          }))
    | inr due ↦
        rw
          (
            not_null is.chain.0,
            load-ok is.chain.0,
            due,
            popped-run x {A = List Call × TimerList}
                (tick_loop cur k (first xs null) (record l { head = first xs null }) >>= λ r.
                  pure ((x.cb_func, x.user_data) ∷ r.0, r.1))
                xs is,
          )
          (then_Returns
            (tick_loop-Ticked (popped h x xs) k (record l { head = first xs null }) xs
              (popped-IsList x xs is) (omega arith))
            (λ r g t. returns (Ticked-cons cur x xs due is t)))
  ]

-- On a sorted list `expired` are all timers that are due, and `remaining` all that are not.
expired-due : (cur : ℕ) (xs : Cells) → AllUpTo cur (expired cur xs)
unfolding expired
expired-due cur [] = tt
expired-due cur (x ∷ xs) = ground (arith, expired-due cur xs)

remaining-later : (cur : ℕ) (xs : Cells) → IsSorted xs → AllFrom (suc cur) (remaining cur xs)
unfolding remaining
remaining-later cur [] s = tt
remaining-later cur (x ∷ xs) s = elim (Bool-cases (ltb cur x.expire)) [
  | inl live ↦ rw live (ground arith, AllFrom-mono (suc cur) x.expire xs (ground arith) s.0)
  | inr due ↦ rw due (remaining-later cur xs s.1)
]

remaining-IsSorted : (cur : ℕ) (xs : Cells) → IsSorted xs → IsSorted (remaining cur xs)
unfolding remaining
remaining-IsSorted cur [] s = tt
remaining-IsSorted cur (x ∷ xs) s = ground (arith, remaining-IsSorted cur xs s.1)

expired-append-remaining : (cur : ℕ) (xs : Cells) → xs ≡ expired cur xs ++ remaining cur xs
unfolding expired remaining
expired-append-remaining cur [] = refl
expired-append-remaining cur (x ∷ xs) = ground (arith, expired-append-remaining cur xs)

-- On a well-formed list that is shorter than the fuel, tick ends: it calls the callbacks of the
-- timers in front that have expired, in order, deletes exactly those, and leaves a well-formed list
-- of the others.
pub tick-Ticked :
    {h : Heap} {l : TimerList} (cur fuel : ℕ) (xs : Cells)
    → IsList h l xs
    → length xs < fuel
    → Returns (Ticked cur h xs) (tick cur fuel l h)
unfolding tick expired remaining
tick-Ticked {l} cur fuel [] is enough =
    let empty : (l.head == null) ≡ true = ground (arith, is.head) in
    rw empty (returns (record { calls = refl; list = is; gone = λ a i. cc; same = λ a o. refl }))
tick-Ticked {h} {l} cur fuel (x ∷ xs) is enough =
    let full : (l.head == null) ≡ false = ground (arith, is.head, is.chain.0.valid) in
    rw full (
      subst (λ p. Returns (Ticked cur h (x ∷ xs)) (tick_loop cur fuel p l h)) (sym is.head)
        (tick_loop-Ticked cur h fuel l (x ∷ xs) is enough))

-- If the list is sorted too, tick calls the callbacks of all timers that are due and of no other:
-- the list is those followed by the ones that remain, which end later than the current time and
-- are sorted.
pub tick-IsSorted :
    {h : Heap} {l : TimerList} (cur fuel : ℕ) (xs : Cells)
    → IsList h l xs
    → length xs < fuel
    → IsSorted xs
    → (xs ≡ expired cur xs ++ remaining cur xs)
      × AllUpTo cur (expired cur xs)
      × AllFrom (suc cur) (remaining cur xs)
      × IsSorted (remaining cur xs)
      × Returns
          (λ r g. (r.0 ≡ calls_of (expired cur xs)) × IsList g r.1 (remaining cur xs))
          (tick cur fuel l h)
tick-IsSorted cur fuel xs is enough s = (
  expired-append-remaining cur xs,
  expired-due cur xs,
  remaining-later cur xs s,
  remaining-IsSorted cur xs s,
  weaken (λ r g t. (t.calls, t.list)) (tick-Ticked cur fuel xs is enough),
)
