-- ===== src/OneShot/Connect.antt =====
-- Timer/socketTimeout.cpp: a client that connects within some seconds.
use linux_websocket.Prelude.{
  ℕ, Bool, true, false, Option, none, some, List, [], ◌∷◌, leb, if◌then◌else◌,
}
use linux_websocket.OneShot.{sockfd, Call, opens, Ended, aborted, returned}

-- What connect returns: 0, or -1 with errno.
pub data Connected : Type 0 where
  connected : Connected
  failed : (einprogress : Bool) → Connected

-- Its result is sockfd, or none for -1, where an assert does not fail.
pub data Result : Type 0 where
  gives : (fd : Option ℕ) → List Call → Result
  asserts : List Call → Result

-- `fd` is what socket returns, and `set` whether setsockopt works. Both messages of a connect that
-- fails lead to -1.
unfoldable pub timeout_connect : (fd : Option ℕ) → (set : Bool) → Connected → Result
timeout_connect none set c = asserts []
timeout_connect (some fd) false c = asserts (opens sockfd ∷ [])
timeout_connect (some fd) true connected = gives (some fd) (opens sockfd ∷ [])
timeout_connect (some fd) true (failed einprogress) = gives none (opens sockfd ∷ [])

abbrev pub exit_code : Result → Ended
exit_code (asserts cs) = aborted cs
exit_code (gives none cs) = returned 1 cs
exit_code (gives (some fd) cs) = returned 0 cs

unfoldable pub main : (argc : ℕ) → (fd : Option ℕ) → (set : Bool) → Connected → Ended
unfolding timeout_connect
main argc fd set c = if leb argc 2 then returned 1 [] else exit_code (timeout_connect fd set c)
