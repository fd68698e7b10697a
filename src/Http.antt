-- ===== src/Http.antt =====
-- IOfunction/httpparser9_3.cpp: parse_line over a buffer of bytes, and parse_requestline over a
-- NUL-terminated text, which is the list of its bytes before the NUL.
pub mod Lines
pub mod RequestLine
pub mod Tests
use linux_websocket.Prelude.{
  ℕ, zero, suc, ◌+◌, ◌-◌, Bool, true, false, not, ◌&&◌, ◌||◌, Option, none, some, List, [], ◌∷◌,
  map, ◌==◌, ltb, leb, if◌then◌else◌,
}

pub data CheckState : Type 0 where
  requestline header : CheckState

pub data LineStatus : Type 0 where
  line_ok line_bad line_open : LineStatus

pub data HttpCode : Type 0 where
  no_request get_request bad_request forbidden_request internal_error closed_connection : HttpCode

abbrev pub cr : ℕ
cr = 13

abbrev pub lf : ℕ
lf = 10

abbrev pub Buffer : Type 0
Buffer = ℕ → ℕ

unfoldable pub put : Buffer → ℕ → ℕ → Buffer
put b i v j = if i == j then v else b j

-- The status, the buffer and checked_index.
pub record Line : Type 0 where
  pub status : LineStatus
  pub buffer : Buffer
  pub checked_index : ℕ

abbrev pub line : LineStatus → Buffer → ℕ → Line
line s b i = record { status = s; buffer = b; checked_index = i }

-- A byte '\r' at `i`, with `n` bytes behind it.
pub at_cr : Buffer → ℕ → ℕ → Line
unfolding put
at_cr b i n =
    if n == 0
    then line line_open b i
    else if b (i + 1) == lf
    then line line_ok (put (put b i 0) (i + 1) 0) (i + 2)
    else line line_bad b i

-- A byte '\n' at `i`.
pub at_lf : Buffer → ℕ → Line
unfolding put
at_lf b i =
    if ltb 1 i && (b (i - 1) == cr)
    then line line_ok (put (put b (i - 1) 0) i 0) (i + 1)
    else line line_bad b i

-- The loop at `i`, with `n` bytes left.
pub parse_from : Buffer → (i n : ℕ) → Line
unfolding at_cr at_lf
parse_from b i zero = line line_open b i
parse_from b i (suc n) =
    let rest = parse_from b (suc i) n in
    if b i == cr then at_cr b i n else if b i == lf then at_lf b i else rest

pub parse_line : Buffer → (checked_index read_index : ℕ) → Line
unfolding parse_from
parse_line b checked_index read_index = parse_from b checked_index (read_index - checked_index)

-- `" \t"`
abbrev pub is_blank : ℕ → Bool
is_blank c = (c == b' ') || (c == 9)

-- strpbrk(s, " \t"), with the NUL that the caller puts there: the text before the first blank,
-- and the text behind it.
pub split_blank : List ℕ → Option (List ℕ × List ℕ)
split_blank [] = none
split_blank (c ∷ cs) =
    if is_blank c
    then some ([], cs)
    else (elim (split_blank cs) [ none ↦ none | some (a, b) ↦ some (c ∷ a, b) ])

-- s + strspn(s, " \t")
pub skip_blank : List ℕ → List ℕ
skip_blank [] = []
skip_blank (c ∷ cs) = if is_blank c then skip_blank cs else c ∷ cs

pub to_lower : ℕ → ℕ
to_lower c = if leb b'A' c && leb c b'Z' then c + 32 else c

abbrev pub same_text : List ℕ → List ℕ → Bool
same_text [] [] = true
same_text [] (d ∷ ds) = false
same_text (c ∷ cs) [] = false
same_text (c ∷ cs) (d ∷ ds) = (c == d) && same_text cs ds

-- strcasecmp(a, b) == 0
pub same_nocase : List ℕ → List ℕ → Bool
unfolding to_lower
same_nocase a b = same_text (map to_lower a) (map to_lower b)

-- strncasecmp(s, p, strlen(p)) == 0, and s + strlen(p).
pub after_nocase : (p s : List ℕ) → Option (List ℕ)
unfolding to_lower
after_nocase [] s = some s
after_nocase (d ∷ ds) [] = none
after_nocase (d ∷ ds) (c ∷ cs) = if to_lower d == to_lower c then after_nocase ds cs else none

-- strchr(s, '/')
pub from_slash : List ℕ → Option (List ℕ)
from_slash [] = none
from_slash (c ∷ cs) = if c == b'/' then some (c ∷ cs) else from_slash cs

abbrev pub get : List ℕ
get = b'G' ∷ b'E' ∷ b'T' ∷ []

abbrev pub http_1_1 : List ℕ
http_1_1 = b'H' ∷ b'T' ∷ b'T' ∷ b'P' ∷ b'/' ∷ b'1' ∷ b'.' ∷ b'1' ∷ []

abbrev pub http_scheme : List ℕ
http_scheme = b'h' ∷ b't' ∷ b't' ∷ b'p' ∷ b':' ∷ b'/' ∷ b'/' ∷ []

-- The part of the url that counts: behind a scheme, from the first slash on.
pub path_of : List ℕ → Option (List ℕ)
unfolding after_nocase from_slash
path_of url = elim (after_nocase http_scheme url) [ none ↦ some url | some s ↦ from_slash s ]

abbrev pub starts_with_slash : List ℕ → Bool
starts_with_slash [] = false
starts_with_slash (c ∷ cs) = c == b'/'

-- The code that is returned, the check state, and the url that is printed.
pub record Parsed : Type 0 where
  pub code : HttpCode
  pub state : CheckState
  pub url : Option (List ℕ)

abbrev pub refused : CheckState → Parsed
refused s = record { code = bad_request; state = s; url = none }

pub check_path : CheckState → Option (List ℕ) → Parsed
check_path s none = refused s
check_path s (some u) =
    if starts_with_slash u
    then record { code = no_request; state = header; url = some u }
    else refused s

-- The text behind the url.
pub check_version : CheckState → Option (List ℕ × List ℕ) → Parsed
check_version s none = refused s
check_version s (some (url, version)) =
    if same_nocase (skip_blank version) http_1_1 then check_path s (path_of url) else refused s

pub check_method : CheckState → Option (List ℕ × List ℕ) → Parsed
check_method s none = refused s
check_method s (some (method, rest)) =
    if same_nocase method get then check_version s (split_blank (skip_blank rest)) else refused s

pub parse_requestline : List ℕ → CheckState → Parsed
parse_requestline temp s = check_method s (split_blank temp)
