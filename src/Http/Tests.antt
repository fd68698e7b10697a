-- ===== src/Http/Tests.antt =====
-- IOfunction/httpparser9_3.cpp: a request in a buffer, and request lines.
use linux_websocket.Prelude.{ℕ, zero, suc, ◌≤◌, ◌≡◌, ◌↔◌, refl, List, [], ◌∷◌, ◌++◌, arith}
use linux_websocket.Http.{
  Buffer, parse_line, requestline, parse_requestline, refused, split_blank, skip_blank, same_nocase,
  path_of, check_method, check_version, check_path, get, http_1_1,
}
use linux_websocket.Http.Lines.{IsPlain, parse_line_resumes}
use linux_websocket.Http.RequestLine.{accepted, IsRequest, parse_requestline-accepts}

-- "GET\r\n" and zeros.
abbrev request : Buffer
request zero = b'G'
request (suc zero) = b'E'
request (suc (suc zero)) = b'T'
request (suc (suc (suc zero))) = 13
request (suc (suc (suc (suc zero)))) = 10
request (suc (suc (suc (suc (suc n))))) = 0

request-IsPlain : IsPlain request 0 3
request-IsPlain zero l h = (λ e. omega arith, λ e. omega arith)
request-IsPlain (suc zero) l h = (λ e. omega arith, λ e. omega arith)
request-IsPlain (suc (suc zero)) l h = (λ e. omega arith, λ e. omega arith)
request-IsPlain (suc (suc (suc n))) l h = absurd (omega arith)

-- The data comes in two pieces, and the first ends with '\r'.
parse_line_resumes_example :
    ((parse_line request 0 4).buffer ≡ request)
    × (0 ≤ (parse_line request 0 4).checked_index)
    × ((parse_line request 0 4).checked_index ≤ 4)
    × (parse_line request (parse_line request 0 4).checked_index 5 ≡ parse_line request 0 5)
unfolding parse_line
parse_line_resumes_example = parse_line_resumes request 0 4 5 (omega arith) (omega arith) refl

-- "get /a HTTP/1.1"
abbrev small : List ℕ
small = b'g' ∷ b'e' ∷ b't' ∷ b' ' ∷ b'/' ∷ b'a' ∷ b' ' ∷ http_1_1

parse_requestline-accepts_example :
    (parse_requestline small requestline ≡ accepted (b'/' ∷ b'a' ∷ []))
    ↔ IsRequest small (b'/' ∷ b'a' ∷ [])
parse_requestline-accepts_example = parse_requestline-accepts small requestline (b'/' ∷ b'a' ∷ [])

small_accepted : parse_requestline small requestline ≡ accepted (b'/' ∷ b'a' ∷ [])
unfolding parse_requestline check_method check_version check_path split_blank skip_blank same_nocase
    path_of
small_accepted = refl

-- "GET http://w.h HTTP/1.1", like the line of main, has no path behind the host.
abbrev example_line : List ℕ
example_line =
    get
    ++ b' ' ∷ b'h' ∷ b't' ∷ b't' ∷ b'p' ∷ b':' ∷ b'/' ∷ b'/' ∷ b'w' ∷ b'.' ∷ b'h' ∷ b' ' ∷ http_1_1

example_refused : parse_requestline example_line requestline ≡ refused requestline
unfolding parse_requestline check_method check_version check_path split_blank skip_blank same_nocase
    path_of
example_refused = refl

no_path : (path : List ℕ) → ¬ IsRequest example_line path
no_path path r =
    let e = (parse_requestline-accepts example_line requestline path).1 r in
    ground (arith, e, example_refused)
