-- ===== src/Web/Main.antt =====
-- IOfunction/webServer6_2.cpp: the whole of main.
use linux_websocket.Prelude.{
  ℕ, none, take, arith, inl, inr, Bool-cases, ◌+◌, ◌^◌, ◌≤◌, ◌<◌, ◌≡◌, ◌∙◌, refl, ap, Bool, true,
  false, not, ◌&&◌, length, Option, some, List, [], ◌∷◌, ◌++◌, if◌then◌else◌,
}
use linux_websocket.OneShot.{sock, connfd, Call, opens, closes, Ended, returned, Network, serve_one}
use linux_websocket.Web.Header.{value_from, IsNumeral}
use linux_websocket.Web.Response.{ok_text, error_text, body, servable, ok_reply, error_reply}
use linux_websocket.Web.{FileStat, Reply, sends, wild, serve_client}

-- What follows once the connection is accepted: the reply, close, delete and close. Of the reply,
-- writev or send takes `sent` bytes, 0 where it fails.
pub after_reply : (sent : ℕ) → Reply × Bool → Ended
after_reply sent (wild, deletes) = Ended.wild []
after_reply sent (sends bytes, false) =
    Ended.wild (Call.sends connfd (take sent bytes) ∷ closes connfd ∷ [])
after_reply sent (sends bytes, true) =
    returned 0 (Call.sends connfd (take sent bytes) ∷ closes connfd ∷ closes sock ∷ [])

-- Whether the code comes to `new char[file_stat.st_size+1]`.
abbrev pub allocates : Option FileStat → Bool
allocates none = false
allocates (some f) = not f.is_dir && f.others_read

-- `valid` is what the variable holds before it is set, and `content` what read returns. `allocated`
-- is whether `new` works; where it does not, nothing catches what it throws.
pub main :
    Network
    → (valid : Bool) → (file : Option FileStat) → (content : Option (List ℕ)) → (allocated : Bool)
    → (sent : ℕ) → Ended
unfolding after_reply
main n valid file content allocated sent = serve_one n (
    if allocates file && not allocated
    then Ended.aborted []
    else after_reply sent (serve_client valid file content))

abbrev pub up : Network
up = record { socket = true; bind = true; listen = true; accept = true }

comes_to_reply :
    (n : Network) (valid : Bool) (file : Option FileStat) (content : Option (List ℕ)) (sent : ℕ)
    → main n valid file content true sent
      ≡ serve_one n (after_reply sent (serve_client valid file content))
unfolding main
comes_to_reply n valid none content sent = refl
comes_to_reply n valid (some f) content sent = elim (Bool-cases (not f.is_dir && f.others_read)) [
  | inl reads ↦ rw reads refl
  | inr refused ↦ rw refused refl
]

-- Where the calls up to accept work, `valid` is true before it is set and the file is no directory,
-- others may read it, its size plus 1 is below 2 ^ 63, `new` works and read gets no more than the
-- size: the client is sent the first `sent` bytes of the header of the status 200 and then as many
-- bytes as the size, those that read got and zeros behind them. Content-Length is that size as a
-- decimal number, of digits of which the first is not 0 if there are more, and the whole header has
-- less than 57 characters. Then main closes the connection and the listening socket and returns 0.
pub main-ok :
    (f : FileStat) (bytes : List ℕ) (sent : ℕ)
    → f.is_dir ≡ false
    → f.others_read ≡ true
    → f.size + 1 < 2 ^ 63
    → length bytes ≤ f.size
    → (digits : List ℕ) × (value_from 0 digits ≡ f.size)
      × IsNumeral digits
      × (length (body f.size bytes) ≡ f.size)
      × (length (ok_text digits) < 57)
      × (main up true (some f) (some bytes) true sent
          ≡ returned 0 (
              opens sock
              ∷ opens connfd
              ∷ Call.sends connfd (take sent (ok_text digits ++ body f.size bytes))
              ∷ closes connfd
              ∷ closes sock
              ∷ []))
unfolding after_reply serve_one
main-ok f bytes sent d o h l =
    let r = ok_reply f bytes d o (omega arith) l in
    (
      r.0,
      r.1,
      r.2,
      r.3,
      r.4,
      comes_to_reply up true (some f) (some bytes) sent
          ∙ ap (λ x. serve_one up (after_reply sent x)) r.5,
    )

by_pointer :
    (sent : ℕ) (b : Bool)
    → serve_one up (after_reply sent (sends error_text, b)) ≡ (
        if b
        then returned 0 (
            opens sock
            ∷ opens connfd
            ∷ Call.sends connfd (take sent error_text)
            ∷ closes connfd
            ∷ closes sock
            ∷ [])
        else Ended.wild (
            opens sock
            ∷ opens connfd
            ∷ Call.sends connfd (take sent error_text)
            ∷ closes connfd
            ∷ []))
unfolding after_reply serve_one
by_pointer sent true = refl
by_pointer sent false = refl

-- Where the calls up to accept work, and the file is a directory, or others may not read it, or
-- read fails, and `new` works where it is come to: the client is sent the first `sent` bytes of the
-- header of the status 500 and nothing else, whatever `valid` was, and the connection is closed. Where the code has come to read, main then closes the listening
-- socket and returns 0; where it has not, it deletes by a pointer that is not set.
pub main-error :
    (valid : Bool) (f : FileStat) (content : Option (List ℕ)) (sent : ℕ)
    → servable f content ≡ false
    → main up valid (some f) content true sent ≡ (
        if not f.is_dir && f.others_read
        then returned 0 (
            opens sock
            ∷ opens connfd
            ∷ Call.sends connfd (take sent error_text)
            ∷ closes connfd
            ∷ closes sock
            ∷ [])
        else Ended.wild (
            opens sock
            ∷ opens connfd
            ∷ Call.sends connfd (take sent error_text)
            ∷ closes connfd
            ∷ []))
unfolding after_reply serve_one
main-error valid f content sent e =
    comes_to_reply up valid (some f) content sent
    ∙ ap (λ x. serve_one up (after_reply sent x)) (error_reply valid f content e)
    ∙ by_pointer sent (not f.is_dir && f.others_read)
