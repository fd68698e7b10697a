-- ===== src/Timer/Chain.antt =====
-- What a list of timers stands for: its cells in order, linked both ways over distinct addresses.
use mathlib.Core.Bool.{or_assoc}
use linux_websocket.Prelude.{
  ℕ, ◌≡◌, ◌≢◌, ◌⊎◌, inl, inr, refl, ◌∙◌, Bool, true, false, ◌||◌, List, [], ◌∷◌, ◌++◌, arith, ◌==◌,
}
use linux_websocket.Timer.Heap.{Ptr, null, UtilTimer, Heap, Holds, TimerList}

pub record Cell : Type 0 where
  pub addr : Ptr
  pub expire : ℕ
  pub cb_func : ℕ
  pub user_data : ℕ

abbrev pub Cells : Type 0
Cells = List Cell

-- The timer of a cell between two neighbours.
abbrev pub timer_of : Cell → Ptr → Ptr → UtilTimer
timer_of c b n = record {
  expire = c.expire;
  cb_func = c.cb_func;
  user_data = c.user_data;
  prev = b;
  next = n;
}

abbrev pub first : Cells → Ptr → Ptr
first [] e = e
first (c ∷ xs) e = c.addr

abbrev pub last : Ptr → Cells → Ptr
last b [] = b
last b (c ∷ xs) = last c.addr xs

abbrev pub has : Ptr → Cells → Bool
has a [] = false
has a (c ∷ xs) = (a == c.addr) || has a xs

abbrev pub IsDistinct : Cells → Type 0
IsDistinct [] = Unit {0}
IsDistinct (c ∷ xs) = (has c.addr xs ≡ false) × IsDistinct xs

-- Behind `b` stand the timers of `xs`, and then `e`.
abbrev pub Linked : Heap → Ptr → Cells → Ptr → Type 0
Linked h b [] e = Unit {0}
Linked h b (c ∷ xs) e = Holds h c.addr (timer_of c b (first xs e)) × Linked h c.addr xs e

pub has-append :
    (p : Ptr) (front back : Cells) → has p (front ++ back) ≡ (has p front || has p back)
has-append p [] back = refl
has-append p (c ∷ front) back = rw (has-append p front back, or_assoc)

pub first-append : (xs ys : Cells) (e : Ptr) → first (xs ++ ys) e ≡ first xs (first ys e)
first-append [] ys e = refl
first-append (x ∷ xs) ys e = refl

-- `g` differs from `h` at most at the addresses of `xs`.
abbrev pub SameOutside : Cells → Heap → Heap → Type 0
SameOutside xs h g = (a : Ptr) → has a xs ≡ false → g a ≡ h a

-- A chain survives a change that spares its addresses.
pub Linked-frame :
    {h g : Heap} (b e : Ptr) (xs : Cells)
    → Linked h b xs e
    → ((a : Ptr) → has a xs ≡ true → g a ≡ h a)
    → Linked g b xs e
Linked-frame b e [] s same = tt
Linked-frame b e (c ∷ xs) s same = (
  record { valid = s.0.valid; stored = same c.addr (ground arith) ∙ s.0.stored },
  Linked-frame c.addr e xs s.1 (λ a i. same a (ground arith)),
)

pub record IsList (h : Heap) (l : TimerList) (xs : Cells) : Type 0 where
  pub chain : Linked h null xs null
  pub distinct : IsDistinct xs
  pub head : l.head ≡ first xs null
  pub tail : xs ≢ [] → l.tail ≡ last null xs

pub Linked-split :
    (h : Heap) (b e : Ptr) (xs ys : Cells)
    → Linked h b (xs ++ ys) e
    → Linked h b xs (first ys e) × Linked h (last b xs) ys e
Linked-split h b e [] ys s = (tt, s)
Linked-split h b e (c ∷ xs) ys s =
    let (front, back) = Linked-split h c.addr e xs ys s.1 in
    ((rw (← first-append xs ys e) s.0, front), back)

pub Linked-append :
    (h : Heap) (b e : Ptr) (xs ys : Cells)
    → Linked h b xs (first ys e)
    → Linked h (last b xs) ys e
    → Linked h b (xs ++ ys) e
Linked-append h b e [] ys s t = t
Linked-append h b e (c ∷ xs) ys s t =
    (rw (first-append xs ys e) s.0, Linked-append h c.addr e xs ys s.1 t)

pub last-append : (b : Ptr) (xs ys : Cells) → last b (xs ++ ys) ≡ last (last b xs) ys
last-append b [] ys = refl
last-append b (c ∷ xs) ys = last-append c.addr xs ys

pub IsDistinct-right : (xs ys : Cells) → IsDistinct (xs ++ ys) → IsDistinct ys
IsDistinct-right [] ys d = d
IsDistinct-right (x ∷ xs) ys d = IsDistinct-right xs ys d.1

pub IsDistinct-disjoint :
    (a : Ptr) (xs ys : Cells) → IsDistinct (xs ++ ys) → has a xs ≡ true → has a ys ≡ false
IsDistinct-disjoint a [] ys d i = absurd (ground arith)
IsDistinct-disjoint a (x ∷ xs) ys d i =
    ground (arith, has-append x.addr xs ys, IsDistinct-disjoint a xs ys d.1)

-- Behind a prefix, distinct cells may take the place of cells that hold their addresses.
pub IsDistinct-replace :
    (xs ys zs : Cells)
    → ((a : Ptr) → has a ys ≡ false → has a zs ≡ false)
    → IsDistinct (xs ++ ys)
    → IsDistinct zs
    → IsDistinct (xs ++ zs)
IsDistinct-replace [] ys zs sub d e = e
IsDistinct-replace (x ∷ xs) ys zs sub d e = (
  ground (arith, has-append x.addr xs ys, has-append x.addr xs zs, sub x.addr, d.0),
  IsDistinct-replace xs ys zs sub d.1 e,
)

pub first_ne :
    (xs : Cells) (z c : Cell) (ys : Cells)
    → IsDistinct (xs ++ z ∷ c ∷ ys)
    → (c.addr == first xs z.addr) ≡ false
first_ne [] z c ys d = ground arith
first_ne (x ∷ xs) z c ys d = ground (arith, has-append x.addr xs (z ∷ c ∷ ys), d.0)

pub last_ne :
    (a : Ptr) (y : Cell) (ys : Cells) → has a (y ∷ ys) ≡ false → (a == last y.addr ys) ≡ false
last_ne a y [] o = ground arith
last_ne a y (x ∷ ys) o = last_ne a x ys (ground arith)

pub snoc_cases : (xs : Cells) → (xs ≡ []) ⊎ ((ys : Cells) × (z : Cell) × (xs ≡ ys ++ z ∷ []))
snoc_cases [] = inl refl
snoc_cases (x ∷ xs) = elim (snoc_cases xs) [
  | inl e ↦ inr ([], x, rw e)
  | inr (ys, z, e) ↦ inr (x ∷ ys, z, rw e)
]

pub cons-ne-nil : (xs : Cells) (z : Cell) (ys : Cells) → xs ++ z ∷ ys ≢ []
cons-ne-nil [] z ys e = cc
cons-ne-nil (x ∷ xs) z ys e = cc

-- A cell behind the first is not the head, and the tail is the last cell behind it.
module _ {h : Heap} {l : TimerList} (xs : Cells) (z c : Cell) (ys : Cells)
    (is : IsList h l (xs ++ z ∷ c ∷ ys)) where
  pub not_head : (c.addr == l.head) ≡ false
  not_head = rw (is.head, first-append xs (z ∷ c ∷ ys) null) (first_ne xs z c ys is.distinct)

  pub tail_of : l.tail ≡ last c.addr ys
  tail_of = is.tail (cons-ne-nil xs z (c ∷ ys)) ∙ last-append null xs (z ∷ c ∷ ys)
