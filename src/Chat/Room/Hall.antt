-- ===== src/Chat/Room/Hall.antt =====
-- Multiprocessing/multiprocessingChatServer.cpp: what the chat promises. A hall has no processes:
-- there is the latest message of each client, and what each client has got.
use linux_websocket.Prelude.{ℕ, ◌-◌, ◌≡◌, ◌≢◌, Option, some, List, [], ◌∷◌, ◌++◌, length, take}
use linux_websocket.Chat.{buffer_size, update}
use linux_websocket.Chat.Child.Relay.{zeros}

pub record Hall : Type 0 where
  pub latest : ℕ → Option (List ℕ)
  pub screen : ℕ → List (List ℕ)

-- The client at slot `k` has said `bs`; or its segment has been cleared and nothing said; or the
-- client at slot `j` is sent the message of slot `i`, of which `n` bytes go out; or a client comes.
pub data Event : Type 0 where
  said : (k : ℕ) (bs : List ℕ) → Event
  cleared : (k : ℕ) → Event
  heard : (j i n : ℕ) → Event
  came : (k : ℕ) → Event

-- A message as its segment holds it, with zeros behind it.
abbrev pub padded : List ℕ → List ℕ
padded bs = bs ++ zeros (buffer_size - length bs)

-- What an event makes of the hall. A client is sent the latest message of another only.
pub data Move (h : Hall) : Event → Hall → Type 0 where
  says :
      (k : ℕ) (bs : List ℕ)
      → Move h (said k bs) (record h { latest = update h.latest k (some (padded bs)) })
  clears : (k : ℕ) → Move h (cleared k) (record h { latest = update h.latest k (some (padded [])) })
  shows :
      (i j n : ℕ) (m : List ℕ)
      → i ≢ j
      → h.latest i ≡ some m
      → Move h (heard j i n) (record h { screen = update h.screen j (h.screen j ++ take n m ∷ []) })
  enters : (k : ℕ) → Move h (came k) (record h { screen = update h.screen k [] })

pub data Moves : Hall → List Event → Hall → Type 0 where
  done : {h : Hall} → Moves h [] h
  then_move :
      {h g f : Hall} {e : Event} {es : List Event} → Move h e g → Moves g es f → Moves h (e ∷ es) f
