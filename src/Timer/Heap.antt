-- ===== src/Timer/Heap.antt =====
-- Timer/linklistTimer.h: the objects of class util_timer at their addresses, and commands that
-- read and write them. A dereference of NULL or of a deleted timer is a fault.
use linux_websocket.Prelude.{ℕ, ◌≡◌, ◌≢◌, false, Option, none, some, arith, ◌==◌, if◌then◌else◌}

abbrev pub Ptr : Type 0
Ptr = ℕ

abbrev pub null : Ptr
null = 0

-- `cb_func` is the function that the pointer names, `user_data` the entry of the users' array.
pub record UtilTimer : Type 0 where
  pub expire : ℕ
  pub cb_func : ℕ
  pub user_data : ℕ
  pub prev : Ptr
  pub next : Ptr

pub record TimerList : Type 0 where
  pub head : Ptr
  pub tail : Ptr

abbrev pub Heap : Type 0
Heap = Ptr → Option UtilTimer

-- How a run ends: on a fault, without fuel, or with a result and the heap that it leaves.
pub data Run (R : Type 0) : Type 0 where
  fault out_of_fuel : Run R
  ok : R → Heap → Run R

abbrev pub Cmd : Type 0 → Type 0
Cmd R = Heap → Run R

abbrev pub pure : {R : Type 0} → R → Cmd R
pure r h = ok r h

module _ {A B : Type 0} where
  abbrev pub proceed : (A → Cmd B) → Run A → Run B
  proceed k (ok a h) = k a h
  proceed k fault = fault
  proceed k out_of_fuel = out_of_fuel

  infixl 5 ◌>>=◌ ◌>>◌
  abbrev pub ◌>>=◌ : Cmd A → (A → Cmd B) → Cmd B
  ◌>>=◌ m k h = proceed k (m h)

  abbrev pub ◌>>◌ : Cmd A → Cmd B → Cmd B
  ◌>>◌ m n h = proceed (λ _. n) (m h)

-- A run that ends without a fault, within its fuel, in a state with a property.
pub data Returns {R : Type 0} (Post : R → Heap → Type 0) : Run R → Type 0 where
  returns : {r : R} {h : Heap} → Post r h → Returns Post (ok r h)

pub weaken :
    {R : Type 0} {Post Post' : R → Heap → Type 0} {run : Run R}
    → ((r : R) (h : Heap) → Post r h → Post' r h)
    → Returns Post run
    → Returns Post' run
weaken step (returns p) = returns (step _ _ p)

-- A run goes on with a command that returns from every state that the run may leave.
pub then_Returns :
    {R S : Type 0} {Mid : R → Heap → Type 0} {Post : S → Heap → Type 0} {run : Run R}
    {next : R → Cmd S}
    → Returns Mid run
    → ((r : R) (h : Heap) → Mid r h → Returns Post (next r h))
    → Returns Post (proceed next run)
then_Returns (returns p) step = step _ _ p

-- `h` with `c` at `p`.
unfoldable pub write : Heap → Ptr → Option UtilTimer → Heap
write h p c a = if a == p then c else h a

-- `*p`
unfoldable pub load : Ptr → Cmd UtilTimer
load p h = if p == null then fault else elim (h p) [ none ↦ fault | some t ↦ ok t h ]

unfoldable pub set_next : Ptr → Ptr → Cmd (Unit {0})
set_next p q = do t ← load p; λ h. ok tt (write h p (some (record t { next = q })))

unfoldable pub set_prev : Ptr → Ptr → Cmd (Unit {0})
set_prev p q = do t ← load p; λ h. ok tt (write h p (some (record t { prev = q })))

-- `delete p`
unfoldable pub delete : Ptr → Cmd (Unit {0})
delete p = do load p; λ h. ok tt (write h p none)

-- The timer `t` stands at `p`.
pub record Holds (h : Heap) (p : Ptr) (t : UtilTimer) : Type 0 where
  pub valid : p ≢ null
  pub stored : h p ≡ some t

-- One rule for each command, on a timer that is there.
module _ {h : Heap} {p : Ptr} {t : UtilTimer} (e : Holds h p t) where
  pub not_null : (p == null) ≡ false
  not_null = ground arith

  pub load-ok : load p h ≡ ok t h
  unfolding load
  load-ok = rw (not_null, e.stored)

  pub set_next-ok : (q : Ptr) → set_next p q h ≡ ok tt (write h p (some (record t { next = q })))
  unfolding set_next
  set_next-ok q = rw load-ok

  pub set_prev-ok : (q : Ptr) → set_prev p q h ≡ ok tt (write h p (some (record t { prev = q })))
  unfolding set_prev
  set_prev-ok q = rw load-ok

  pub delete-ok : delete p h ≡ ok tt (write h p none)
  unfolding delete
  delete-ok = rw load-ok
