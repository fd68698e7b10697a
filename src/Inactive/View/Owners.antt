-- ===== src/Inactive/View/Owners.antt =====
-- Timer/closeNonactiveConn.cpp: the cells of the timers, and the clients that own them.
use mathlib.Core.Path.{subst}
use mathlib.Core.Option.{some-injective}
use linux_websocket.Prelude.{
  ℕ, suc, ◌≤◌, ◌≡◌, refl, ap, inl, inr, true, false, some, [], ◌∷◌, ◌++◌, arith, ◌==◌,
  if◌then◌else◌, length, ltb, Bool-cases,
}
use linux_websocket.Timer.Chain.{Cell, Cells}
use linux_websocket.Timer.Insert.{insert, added}
use linux_websocket.Timer.Tick.{expired, remaining}
use linux_websocket.Inactive.{ClientData}
use linux_websocket.Inactive.Clients.{until}
use linux_websocket.Inactive.View.{serves, extend, leave}

-- The client of a cell has the cell's timer, and its descriptor is its index.
abbrev pub Owns : (ℕ → ClientData) → Cell → Type 0
Owns users c = ((users c.user_data).timer ≡ c.addr) × ((users c.user_data).socket_fd ≡ c.user_data)

abbrev pub Owned : (ℕ → ClientData) → Cells → Type 0
Owned users [] = Unit {0}
Owned users (c ∷ xs) = Owns users c × Owned users xs

-- Where the timer of a client stands, and what becomes of the list there.
pub record Place (fd : ℕ) (xs : Cells) : Type 0 where
  pub front : Cells
  pub own : Cell
  pub back : Cells
  pub whole : xs ≡ front ++ own ∷ back
  pub client : own.user_data ≡ fd
  pub extended : (e : ℕ) → extend fd e xs ≡ front ++ insert (until e own) back
  pub left : leave fd xs ≡ front ++ back

pub place : (fd : ℕ) (xs : Cells) → serves fd xs ≡ true → Place fd xs
unfolding extend leave
place fd [] e = absurd (ground arith)
place fd (c ∷ xs) e = elim (Bool-cases (c.user_data == fd)) [
  | inl same ↦ record {
    front = [];
    own = c;
    back = xs;
    whole = refl;
    client = ground arith;
    extended = λ e. rw same;
    left = rw same;
  }
  | inr differs ↦
      let p = place fd xs (ground arith) in
      record {
        front = c ∷ p.front;
        own = p.own;
        back = p.back;
        whole = ap (λ r. c ∷ r) p.whole;
        client = p.client;
        extended = λ e. rw (differs, p.extended e);
        left = rw (differs, p.left);
      }
]

module _ (users : ℕ → ClientData) where
  pub Owned-place :
      (front : Cells) (c : Cell) (back : Cells) → Owned users (front ++ c ∷ back) → Owns users c
  Owned-place [] c back o = o.0
  Owned-place (x ∷ front) c back o = Owned-place front c back o.1

  pub Owned-insert :
      (c : Cell) (xs : Cells) → Owns users c → Owned users xs → Owned users (insert c xs)
  unfolding insert
  Owned-insert c [] p o = (p, tt)
  Owned-insert c (x ∷ xs) p o = elim (Bool-cases (ltb c.expire x.expire)) [
    | inl less ↦ rw less (p, o)
    | inr more ↦ rw more (o.0, Owned-insert c xs p o.1)
  ]

  pub Owned-extend : (fd e : ℕ) (xs : Cells) → Owned users xs → Owned users (extend fd e xs)
  unfolding extend
  Owned-extend fd e [] o = tt
  Owned-extend fd e (c ∷ xs) o = elim (Bool-cases (c.user_data == fd)) [
    | inl same ↦ rw same (Owned-insert (until e c) xs o.0 o.1)
    | inr differs ↦ rw differs (o.0, Owned-extend fd e xs o.1)
  ]

  pub Owned-leave : (fd : ℕ) (xs : Cells) → Owned users xs → Owned users (leave fd xs)
  unfolding leave
  Owned-leave fd [] o = tt
  Owned-leave fd (c ∷ xs) o = elim (Bool-cases (c.user_data == fd)) [
    | inl same ↦ rw same o.1
    | inr differs ↦ rw differs (o.0, Owned-leave fd xs o.1)
  ]

  pub Owned-remaining : (cur : ℕ) (xs : Cells) → Owned users xs → Owned users (remaining cur xs)
  unfolding remaining
  Owned-remaining cur [] o = tt
  Owned-remaining cur (x ∷ xs) o = elim (Bool-cases (ltb cur x.expire)) [
    | inl live ↦ rw live o
    | inr due ↦ rw due (Owned-remaining cur xs o.1)
  ]

  pub Owned-expired : (cur : ℕ) (xs : Cells) → Owned users xs → Owned users (expired cur xs)
  unfolding expired
  Owned-expired cur [] o = tt
  Owned-expired cur (x ∷ xs) o = elim (Bool-cases (ltb cur x.expire)) [
    | inl live ↦ rw live tt
    | inr due ↦ rw due (o.0, Owned-expired cur xs o.1)
  ]

  pub Owned-added :
      (c : Cell) (xs ys : Cells)
      → Owns users c
      → Owned users xs
      → added c xs ≡ some ys
      → Owned users ys
  unfolding added
  Owned-added c [] ys p o e = subst (Owned users) (some-injective _ _ e) (p, tt)
  Owned-added c (x ∷ []) ys p o e = elim (Bool-cases (ltb c.expire x.expire)) [
    | inl less ↦ subst (Owned users) (some-injective _ _ (rw less at e)) (p, o)
    | inr more ↦ absurd (ground (arith, e, more))
  ]
  Owned-added c (x ∷ y ∷ xs) ys p o e = elim (Bool-cases (ltb c.expire x.expire)) [
    | inl less ↦ subst (Owned users) (some-injective _ _ (rw less at e)) (p, o)
    | inr more ↦
        subst (Owned users) (some-injective _ _ (rw more at e))
          (o.0, (o.1.0, Owned-insert c xs p o.1.1))
  ]

  -- A client that owns none of the cells changes.
  pub Owned-update :
      (fd : ℕ) (u : ClientData) (xs : Cells)
      → serves fd xs ≡ false
      → Owned users xs
      → Owned (λ j. if fd == j then u else users j) xs
  Owned-update fd u [] out o = tt
  Owned-update fd u (c ∷ xs) out o =
      let other : (fd == c.user_data) ≡ false = ground arith in
      (rw other o.0, Owned-update fd u xs (ground arith) o.1)

length-insert : (c : Cell) (xs : Cells) → length (insert c xs) ≡ suc (length xs)
unfolding insert
length-insert c [] = refl
length-insert c (x ∷ xs) = ground (arith, length-insert c xs)

pub length-extend : (fd e : ℕ) (xs : Cells) → length (extend fd e xs) ≡ length xs
unfolding extend
length-extend fd e [] = refl
length-extend fd e (c ∷ xs) = ground (arith, length-insert (until e c) xs, length-extend fd e xs)

pub length-leave : (fd : ℕ) (xs : Cells) → length (leave fd xs) ≤ length xs
unfolding leave
length-leave fd [] = omega arith
length-leave fd (c ∷ xs) = ground (arith, length-leave fd xs)

pub length-remaining : (cur : ℕ) (xs : Cells) → length (remaining cur xs) ≤ length xs
unfolding remaining
length-remaining cur [] = omega arith
length-remaining cur (x ∷ xs) = ground (arith, length-remaining cur xs)

pub length-added : (c : Cell) (xs ys : Cells) → added c xs ≡ some ys → length ys ≡ suc (length xs)
unfolding added
length-added c [] ys e = ground arith
length-added c (x ∷ []) ys e = ground arith
length-added c (x ∷ y ∷ xs) ys e = ground (arith, length-insert c xs)
