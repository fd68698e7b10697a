-- ===== src/Chat/Room/Posting.antt =====
-- Multiprocessing/multiprocessingChatServer.cpp: how often an index is in a pipe, and what the parent
-- posts into it.
use linux_websocket.Prelude.{
  ℕ, zero, suc, ◌+◌, ◌≤◌, ◌<◌, ◌≡◌, ◌≢◌, ◌∙◌, inl, inr, refl, ap, List, [], ◌∷◌, ◌++◌, ◌==◌,
  if◌then◌else◌, length, arith, Bool-cases,
}
use linux_websocket.Chat.{ClientData, Fd, update, broadcast_from}
use linux_websocket.Chat.Broadcast.{users_behind}
use linux_websocket.Chat.Room.{indices_to}
use linux_websocket.Chat.Room.Pipes.{AllIn, AllIn-map, indices_to-broadcast}

abbrev pub count : (k : ℕ) → List ℕ → ℕ
count k [] = 0
count k (i ∷ is) = (if i == k then 1 else 0) + count k is

count-append : (k : ℕ) (is js : List ℕ) → count k (is ++ js) ≡ count k is + count k js
count-append k [] js = omega arith
count-append k (i ∷ is) js = omega (arith, count-append k is js)

count-all : (k : ℕ) (is : List ℕ) → AllIn (λ i. i ≡ k) is → count k is ≡ length is
count-all k [] a = refl
count-all k (i ∷ is) a = ground (arith, a.0, count-all k is a.1)

count-none : (k i : ℕ) (is : List ℕ) → i ≢ k → AllIn (λ x. x ≡ i) is → count k is ≡ 0
count-none k i [] o a = refl
count-none k i (x ∷ is) o a = ground (arith, a.0, count-none k i is o a.1)

-- Slot `l` gets `new` at the end of its list.
pub count-grows :
    (f : ℕ → List ℕ) (l : ℕ) (new : List ℕ) (j k : ℕ)
    → count k (update f l (f l ++ new) j) ≡ (if l == j then count k new else 0) + count k (f j)
count-grows f l new j k = elim (Bool-cases (l == j)) [
  | inl here ↦
      let at_j : l ≡ j = ground arith in
      let same = ap (λ x. count k (f x)) at_j in
      rw here (omega (arith, same, count-append k (f l) new))
  | inr off ↦ rw off (omega arith)
]

-- Slot `l` loses the head of its list.
pub count-shrinks :
    (f : ℕ → List ℕ) (l i : ℕ) (rest : List ℕ) (j k : ℕ)
    → f l ≡ i ∷ rest
    → (if l == j then count k (i ∷ []) else 0) + count k (update f l rest j) ≡ count k (f j)
count-shrinks f l i rest j k e = elim (Bool-cases (l == j)) [
  | inl here ↦
      let at_j : l ≡ j = ground arith in
      let same = ap (λ x. count k (f x)) at_j in
      let whole = ap (count k) e in rw here (omega (arith, same, whole))
  | inr off ↦ rw off (omega arith)
]

length-indices_to :
    (fd sockfd : Fd) (users : ℕ → ClientData) (k i n : ℕ)
    → length (indices_to fd (broadcast_from users sockfd k i n))
      ≡ (if fd == sockfd then 0 else users_behind users fd i n)
unfolding broadcast_from
length-indices_to fd sockfd users k i zero = ground arith
length-indices_to fd sockfd users k i (suc n) =
    ground (arith, length-indices_to fd sockfd users k (suc i) n)

-- The pipes of the users are different.
abbrev pub Apart : (ℕ → ClientData) → ℕ → Type 0
Apart users n = (i j : ℕ) → i < n → j < n → (users i).pipe_parent ≡ (users j).pipe_parent → i ≡ j

module _ (users : ℕ → ClientData) (m : ℕ) (apart : Apart users m) (j : ℕ) (user : j < m) where
  users_behind-none :
      (i n : ℕ) → i + n ≤ m → j < i → users_behind users (users j).pipe_parent i n ≡ 0
  users_behind-none i zero b h = refl
  users_behind-none i (suc n) b h =
      ground (
        arith,
        apart i j (omega arith) user,
        users_behind-none (suc i) n (omega arith) (omega arith),
      )

  users_behind-one :
      (i n : ℕ) → i + n ≤ m → i ≤ j → j < i + n → users_behind users (users j).pipe_parent i n ≡ 1
  users_behind-one i zero b l h = absurd (omega arith)
  users_behind-one i (suc n) b l h = elim (Bool-cases (i == j)) [
    | inl here ↦
        let at_j : i ≡ j = ground arith in
        let same : (users i).pipe_parent ≡ (users j).pipe_parent =
          ap (λ i. (users i).pipe_parent) at_j in
        let rest = users_behind-none (suc i) n (omega arith) (omega arith) in ground arith
    | inr off ↦
        let rest = users_behind-one (suc i) n (omega arith) (ground arith) (omega arith) in
        ground (arith, apart i j (omega arith) user)
  ]

  -- The parent's post of the index `i` of another client to the client at slot `j`.
  pub posted_count :
      (i l k : ℕ)
      → l < m
      → i ≡ l
      → k ≢ j
      → count k
          (indices_to (users j).pipe_parent (broadcast_from users (users l).pipe_parent i 0 m))
        ≡ (if l == k then 1 else 0)
  posted_count i l k lm at_l other =
      let sent = indices_to-broadcast (users j).pipe_parent (users l).pipe_parent users i 0 m in
      let same = AllIn-map _ (λ x. x ≡ i) _ (λ x p. p.0) sent in
      elim (Bool-cases (l == k)) [
        | inl here ↦
            let at_k : i ≡ k = ground arith in
            let all =
              count-all k _ (AllIn-map (λ x. x ≡ i) (λ x. x ≡ k) _ (λ x e. e ∙ at_k) same) in
            let long = length-indices_to (users j).pipe_parent (users l).pipe_parent users i 0 m in
            let one = users_behind-one 0 m (omega arith) (omega arith) (omega arith) in
            rw here (ground (arith, apart j l user lm))
        | inr off ↦ rw off (count-none k i _ (ground arith) same)
      ]
