-- ===== src/Timer/Sorted.antt =====
-- Timer/linklistTimer.h: the order that class sort_timer_lst is about, on cells.
use linux_websocket.Prelude.{
  ℕ, ◌≤◌, ◌<◌, ◌≡◌, refl, inl, inr, [], ◌∷◌, ◌++◌, arith, ltb, Bool-cases,
}
use linux_websocket.Timer.Chain.{Cell, Cells, has, IsDistinct}
use linux_websocket.Timer.Insert.{insert}

abbrev pub AllFrom : ℕ → Cells → Type 0
AllFrom n [] = Unit {0}
AllFrom n (c ∷ xs) = (n ≤ c.expire) × AllFrom n xs

abbrev pub AllUpTo : ℕ → Cells → Type 0
AllUpTo n [] = Unit {0}
AllUpTo n (c ∷ xs) = (c.expire ≤ n) × AllUpTo n xs

abbrev pub IsSorted : Cells → Type 0
IsSorted [] = Unit {0}
IsSorted (c ∷ xs) = AllFrom c.expire xs × IsSorted xs

pub AllFrom-mono : (m n : ℕ) (xs : Cells) → m ≤ n → AllFrom n xs → AllFrom m xs
AllFrom-mono m n [] h a = tt
AllFrom-mono m n (x ∷ xs) h a = (omega arith, AllFrom-mono m n xs h a.1)

pub insert-AllFrom :
    (n : ℕ) (c : Cell) (xs : Cells) → n ≤ c.expire → AllFrom n xs → AllFrom n (insert c xs)
unfolding insert
insert-AllFrom n c [] h a = (h, tt)
insert-AllFrom n c (x ∷ xs) h a = ground (arith, insert-AllFrom n c xs h a.1)

pub insert-IsSorted : (c : Cell) (xs : Cells) → IsSorted xs → IsSorted (insert c xs)
unfolding insert
insert-IsSorted c [] s = (tt, tt)
insert-IsSorted c (x ∷ xs) s = elim (Bool-cases (ltb c.expire x.expire)) [
  | inl less ↦ rw less ((ground arith, AllFrom-mono c.expire x.expire xs (ground arith) s.0), s)
  | inr more ↦ rw more (insert-AllFrom x.expire c xs (ground arith) s.0, insert-IsSorted c xs s.1)
]

pub insert_latest : (c : Cell) (xs : Cells) → AllUpTo c.expire xs → insert c xs ≡ xs ++ c ∷ []
unfolding insert
insert_latest c [] a = refl
insert_latest c (x ∷ xs) a = ground (arith, insert_latest c xs a.1)

pub append-IsSorted :
    (c : Cell) (xs : Cells) → IsSorted xs → AllUpTo c.expire xs → IsSorted (xs ++ c ∷ [])
append-IsSorted c xs s a = rw (← insert_latest c xs a) (insert-IsSorted c xs s)

pub has-insert : (a : ℕ) (c : Cell) (xs : Cells) → has a (insert c xs) ≡ has a (c ∷ xs)
unfolding insert
has-insert a c [] = refl
has-insert a c (x ∷ xs) = ground (arith, has-insert a c xs)

pub insert-IsDistinct : (c : Cell) (xs : Cells) → IsDistinct (c ∷ xs) → IsDistinct (insert c xs)
unfolding insert
insert-IsDistinct c [] d = d
insert-IsDistinct c (x ∷ xs) d = ground (arith, has-insert x.addr c xs, insert-IsDistinct c xs)

pub insert_early : (n : ℕ) (c : Cell) (xs : Cells) → c.expire < n → ¬ AllFrom n (insert c xs)
unfolding insert
insert_early n c [] h a = absurd (omega arith)
insert_early n c (x ∷ xs) h a = ground (arith, insert_early n c xs h)
