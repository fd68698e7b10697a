-- ===== src/Epoll/Watching.antt =====
-- ThreadPool/processPool.h: which descriptors are watched and do not block, and what a handler
-- leaves.
use linux_websocket.Prelude.{
  ℕ, ◌/◌, ◌%◌, ◌≡◌, ◌≢◌, ◌∙◌, inl, inr, refl, sym, ap, true, false, Option, none, some, ◌==◌,
  if◌then◌else◌, arith, Bool-cases,
}
use linux_websocket.Chat.{update}
use linux_websocket.Epoll.{
  Fd, Kernel, in_et, or_nonblock, setnonblocking, set_flags, refuses, epoll_add, addfd, removefd,
}

-- All of the flags are kept but O_NONBLOCK, which is set.
abbrev pub Nonblocking : (old new : ℕ) → Type 0
Nonblocking old new = ((new / 2048) % 2 ≡ 1) × (new % 2048 ≡ old % 2048) × (new / 4096 ≡ old / 4096)

or_nonblock-Nonblocking : (old : ℕ) → Nonblocking old (or_nonblock old)
or_nonblock-Nonblocking old = elim (Bool-cases ((old / 2048) % 2 == 0)) [
  | inl clear ↦
      let zero_bit : (old / 2048) % 2 ≡ 0 = ground arith in
      rw clear (omega arith, omega arith, omega arith)
  | inr set ↦ let one_bit : (old / 2048) % 2 ≢ 0 = ground arith in rw set (omega arith, refl, refl)
]

set_flags-watched : (k : Kernel) (fd : Fd) (o : Option ℕ) → (set_flags k fd o).watched ≡ k.watched
set_flags-watched k fd none = refl
set_flags-watched k fd (some old) = refl

epoll_add-flags :
    (k : Kernel) (epollfd fd : Fd) (events : ℕ) → (epoll_add k epollfd fd events).flags ≡ k.flags
unfolding epoll_add
epoll_add-flags k epollfd fd events = elim (Bool-cases (refuses k epollfd fd)) [
  | inl refused ↦ rw refused refl
  | inr taken ↦ rw taken refl
]

module _ (k : Kernel) (fd : Fd) where
  addfd-flags :
      (old : ℕ)
      → k.flags fd ≡ some old
      → (addfd k k.epollfd fd).flags ≡ update k.flags fd (some (or_nonblock old))
  unfolding addfd setnonblocking
  addfd-flags old e =
      let added = epoll_add k k.epollfd fd in_et in
      let same = epoll_add-flags k k.epollfd fd in_et in
      let here : added.flags fd ≡ some old = ap (λ f. f fd) same ∙ e in
      rw here (ap (λ f. update f fd (some (or_nonblock old))) same)

  addfd-watched :
      (old : ℕ)
      → k.flags fd ≡ some old
      → k.watched fd ≡ none
      → fd ≢ k.epollfd
      → (addfd k k.epollfd fd).watched ≡ update k.watched fd (some in_et)
  unfolding addfd setnonblocking epoll_add
  addfd-watched old e w o =
      let off : (fd == k.epollfd) ≡ false = ground arith in
      let on : (k.epollfd == k.epollfd) ≡ true = ground arith in
      let takes : refuses k k.epollfd fd ≡ false = rw (off, on, e, w) refl in
      set_flags-watched (epoll_add k k.epollfd fd in_et) fd _ ∙ rw takes refl

  addfd-epollfd : (addfd k k.epollfd fd).epollfd ≡ k.epollfd
  unfolding addfd setnonblocking epoll_add
  addfd-epollfd = ground arith

  removefd-flags : (epollfd : Fd) → (removefd k epollfd fd).flags ≡ update k.flags fd none
  unfolding removefd
  removefd-flags epollfd = elim (Bool-cases (epollfd == k.epollfd)) [
    | inl own ↦ rw own refl
    | inr other ↦ rw other refl
  ]

  removefd-watched :
      (epollfd : Fd)
      → k.epollfd ≡ epollfd
      → (removefd k epollfd fd).watched ≡ update k.watched fd none
  unfolding removefd
  removefd-watched epollfd e = let own : (epollfd == k.epollfd) ≡ true = ground arith in rw own refl

-- A second value takes the place of the first.
update-twice {ℓ} :
    {A : Type ℓ} (f : ℕ → A) (i : ℕ) (a b : A) (j : ℕ)
    → update (update f i a) i b j ≡ (if i == j then b else f j)
update-twice f i a b j = elim (Bool-cases (i == j)) [
  | inl here ↦ rw here refl
  | inr off ↦ rw off refl
]

update-back {ℓ} :
    {A : Type ℓ} (f : ℕ → A) (i : ℕ) (a : A) (j : ℕ) → f i ≡ a → (if i == j then a else f j) ≡ f j
update-back f i a j e = elim (Bool-cases (i == j)) [
  | inl here ↦ let at_j : i ≡ j = ground arith in rw here (sym e ∙ ap f at_j)
  | inr off ↦ rw off refl
]

-- A descriptor that is open, is not watched and is not the epoll instance: addfd lets it be watched
-- for EPOLLIN with EPOLLET and sets O_NONBLOCK among its flags, which keep the others, and changes
-- nothing of other descriptors; removefd then leaves what is watched as it was before, and the
-- descriptor closed.
pub added_and_removed :
    (k : Kernel) (fd : Fd) (old : ℕ)
    → k.flags fd ≡ some old
    → k.watched fd ≡ none
    → fd ≢ k.epollfd
    → ((addfd k k.epollfd fd).watched ≡ update k.watched fd (some in_et))
      × ((new : ℕ) × ((addfd k k.epollfd fd).flags ≡ update k.flags fd (some new))
          × Nonblocking old new)
      × ((j : Fd) → (removefd (addfd k k.epollfd fd) k.epollfd fd).watched j ≡ k.watched j)
      × ((j : Fd)
          → (removefd (addfd k k.epollfd fd) k.epollfd fd).flags j
            ≡ (if fd == j then none else k.flags j))
added_and_removed k fd old e w o =
    let t = addfd k k.epollfd fd in
    let watched = addfd-watched k fd old e w o in
    let flags = addfd-flags k fd old e in
    let same = addfd-epollfd k fd in
    (
      watched,
      (or_nonblock old, flags, or_nonblock-Nonblocking old),
      λ j.
          ap (λ f. f j) (removefd-watched t fd k.epollfd same)
          ∙ ap (λ f. update f fd none j) watched
          ∙ update-twice k.watched fd (some in_et) none j
          ∙ update-back k.watched fd none j w,
      λ j.
          ap (λ f. f j) (removefd-flags t fd k.epollfd)
          ∙ ap (λ f. update f fd none j) flags
          ∙ update-twice k.flags fd (some (or_nonblock old)) none j,
    )
