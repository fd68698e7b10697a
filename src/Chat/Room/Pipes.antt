-- ===== src/Chat/Room/Pipes.antt =====
-- Multiprocessing/multiprocessingChatServer.cpp: the pipes and the segments of a room.
use linux_websocket.Prelude.{
  ℕ, zero, suc, ◌*◌, ◌<◌, ◌≡◌, ◌≢◌, inl, inr, refl, ap, false, List, [], ◌∷◌, ◌++◌, ◌==◌, length,
  arith, Bool-cases,
}
use linux_websocket.Chat.{ClientData, Fd, buffer_size, update, broadcast_from}
use linux_websocket.Chat.Child.{Child, got, client_readable, bytes_at}
use linux_websocket.Chat.Child.Relay.{client_readable-Keeps, bytes_at-congr}
use linux_websocket.Chat.Room.{indices_to}

abbrev pub AllIn : (ℕ → Type 0) → List ℕ → Type 0
AllIn P [] = Unit
AllIn P (i ∷ is) = P i × AllIn P is

pub AllIn-append : (P : ℕ → Type 0) (is js : List ℕ) → AllIn P is → AllIn P js → AllIn P (is ++ js)
AllIn-append P [] js a b = b
AllIn-append P (i ∷ is) js a b = (a.0, AllIn-append P is js a.1 b)

pub AllIn-map : (P Q : ℕ → Type 0) (is : List ℕ) → ((i : ℕ) → P i → Q i) → AllIn P is → AllIn Q is
AllIn-map P Q [] f a = tt
AllIn-map P Q (i ∷ is) f a = (f i a.0, AllIn-map P Q is f a.1)

pub update-at {ℓ} : {A : Type ℓ} (f : ℕ → A) (i : ℕ) (v : A) → update f i v i ≡ v
update-at f i v = ground arith

pub update-off {ℓ} : {A : Type ℓ} (f : ℕ → A) (i j : ℕ) (v : A) → i ≢ j → update f i v j ≡ f j
update-off f i j v n = ground arith

-- A family over the slots, where one slot has a new value.
pub update-all {ℓ} :
    {A : Type ℓ} (P : ℕ → A → Type 0) (f : ℕ → A) (i : ℕ) (v : A)
    → P i v
    → ((j : ℕ) → i ≢ j → P j (f j))
    → (j : ℕ) → P j (update f i v j)
update-all P f i v p q j = elim (Bool-cases (i == j)) [
  | inl here ↦ (let e : j ≡ i = ground arith in rw (here, e) p)
  | inr off ↦ rw off (q j (ground arith))
]

pub segment_kept :
    (c : Child) (bs : List ℕ) (i : ℕ)
    → c.idx ≢ i
    → length bs < buffer_size
    → bytes_at (client_readable c (got bs)).share_mem (i * buffer_size) buffer_size
      ≡ bytes_at c.share_mem (i * buffer_size) buffer_size
segment_kept c bs i n f =
    bytes_at-congr c.share_mem _ (i * buffer_size) buffer_size
      (λ a l h. (client_readable-Keeps c (got bs) f).elsewhere a (ground arith))

-- What the parent posts: only the index `k`, and nothing into the pipe that it has read.
pub indices_to-broadcast :
    (fd sockfd : Fd) (users : ℕ → ClientData) (k i n : ℕ)
    → AllIn
        (λ x. (x ≡ k) × ((fd == sockfd) ≡ false))
        (indices_to fd (broadcast_from users sockfd k i n))
unfolding broadcast_from
indices_to-broadcast fd sockfd users k i zero = tt
indices_to-broadcast fd sockfd users k i (suc n) =
    let rest = indices_to-broadcast fd sockfd users k (suc i) n in
    elim (Bool-cases ((users i).pipe_parent == sockfd)) [
      | inl sender ↦ rw sender rest
      | inr apart ↦ rw apart (elim (Bool-cases ((users i).pipe_parent == fd)) [
        | inl here ↦ rw here ((refl, ground arith), rest)
        | inr elsewhere ↦ rw elsewhere rest
      ])
    ]

pub another_pipe :
    (users : ℕ → ClientData) (j k : ℕ)
    → j ≡ k
    → ((users j).pipe_parent == (users k).pipe_parent) ≢ false
another_pipe users j k e f =
    let g : (users j).pipe_parent ≡ (users k).pipe_parent = ap (λ i. (users i).pipe_parent) e in
    ground arith
