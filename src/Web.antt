-- ===== src/Web.antt =====
-- IOfunction/webServer6_2.cpp: what the server sends to the client that it has accepted. The
-- results of stat and read are arguments, and so is the value of the variable `valid`, which main
-- does not initialise. printf is left out.
pub mod Header
pub mod Main
pub mod Response
pub mod Tests
use linux_websocket.Prelude.{
  ℕ, zero, suc, ◌+◌, ◌-◌, ◌%◌, ◌/◌, ◌^◌, Bool, true, false, Option, none, some, List, [], ◌∷◌, ◌++◌,
  ◌==◌, ltb, if◌then◌else◌, length, replicate, take, not, is_none,
}

abbrev pub buffer_size : ℕ
buffer_size = 1024

-- The characters of a header, by their place.
abbrev pub Buffer : Type 0
Buffer = ℕ → ℕ

-- "200 OK" and "500 Internal server error"
abbrev pub status_line : Bool → List ℕ
status_line true = b'2' ∷ b'0' ∷ b'0' ∷ b' ' ∷ b'O' ∷ b'K' ∷ []
status_line false =
    b'5' ∷ b'0' ∷ b'0' ∷ b' ' ∷ b'I' ∷ b'n' ∷ b't' ∷ b'e' ∷ b'r' ∷ b'n' ∷ b'a' ∷ b'l' ∷ b' ' ∷ b's'
    ∷ b'e' ∷ b'r' ∷ b'v' ∷ b'e' ∷ b'r' ∷ b' ' ∷ b'e' ∷ b'r' ∷ b'r' ∷ b'o' ∷ b'r' ∷ []

abbrev pub crlf : List ℕ
crlf = 13 ∷ 10 ∷ []

-- "HTTP/1.1 ", and the status line.
abbrev pub first_line : Bool → List ℕ
first_line ok =
    b'H' ∷ b'T' ∷ b'T' ∷ b'P' ∷ b'/' ∷ b'1' ∷ b'.' ∷ b'1' ∷ b' ' ∷ (status_line ok ++ crlf)

-- `%ld` of a number that is not negative; `fuel` bounds the number of digits.
pub decimal : (fuel : ℕ) → ℕ → List ℕ
decimal zero n = []
decimal (suc fuel) n =
    let front = decimal fuel (n / 10) in
    if ltb n 10 then (b'0' + n) ∷ [] else front ++ (b'0' + n % 10) ∷ []

abbrev pub print_long : ℕ → List ℕ
print_long n = decimal 19 n

-- "Content-Length: ", and the size.
abbrev pub length_name : List ℕ
length_name =
    b'C' ∷ b'o' ∷ b'n' ∷ b't' ∷ b'e' ∷ b'n' ∷ b't' ∷ b'-' ∷ b'L' ∷ b'e' ∷ b'n' ∷ b'g' ∷ b't' ∷ b'h'
    ∷ b':' ∷ b' ' ∷ []

abbrev pub length_line : ℕ → List ℕ
length_line size = length_name ++ (print_long size ++ crlf)

-- The text is written from `at` on, and a NUL behind it.
pub store : Buffer → (at : ℕ) → List ℕ → Buffer
store b at [] = λ i. if i == at then 0 else b i
store b at (c ∷ cs) = let rest = store b (suc at) cs in λ i. if i == at then c else rest i

-- snprintf with room for `n` bytes: it cuts the text off.
abbrev pub snprintf : Buffer → (at n : ℕ) → List ℕ → Buffer
snprintf b at zero cs = b
snprintf b at (suc n) cs = store b at (take n cs)

-- The int BUFFER_SIZE-1-len, as a size_t.
abbrev pub room : ℕ → ℕ
room len = (2 ^ 64 + 1023 - len) % 2 ^ 64

-- strlen; `none` where there is no NUL among the first `n` bytes from `i` on.
pub strlen : Buffer → (i n : ℕ) → Option ℕ
strlen b i zero = none
strlen b i (suc n) = let rest = strlen b (suc i) n in if b i == 0 then some i else rest

pub bytes_at : Buffer → (i n : ℕ) → List ℕ
bytes_at b i zero = []
bytes_at b i (suc n) = b i ∷ bytes_at b (suc i) n

-- header_buf after memset.
abbrev pub empty : Buffer
empty i = 0

pub ok_header : (size : ℕ) → Buffer
ok_header size =
    let b = snprintf empty 0 (buffer_size - 1) (first_line true) in
    let len = length (first_line true) in
    let b' = snprintf b len (room len) (length_line size) in
    let len' = len + length (length_line size) in snprintf b' len' (room len') crlf

pub error_header : Buffer
error_header =
    let b = snprintf empty 0 (buffer_size - 1) (first_line false) in
    let len = length (first_line false) in snprintf b len (room len) crlf

-- What stat tells of the file; `others_read` is the test of S_IROTH.
pub record FileStat : Type 0 where
  pub is_dir : Bool
  pub others_read : Bool
  pub size : ℕ

-- file_buf: memset, and the bytes that read puts there, once `new` has worked, so st_size + 1 is an
-- off_t.
pub file_buf : (size : ℕ) → (bytes : List ℕ) → List ℕ
file_buf size [] = replicate (suc size) 0
file_buf zero (c ∷ cs) = 0 ∷ []
file_buf (suc size) (c ∷ cs) = c ∷ file_buf size cs

-- The value of `valid` after the tests, and file_buf, where the code sets it. `content` is what
-- read returns, `none` for -1.
pub check_file : (valid : Bool) → FileStat → (content : Option (List ℕ)) → Bool × Option (List ℕ)
unfolding file_buf
check_file valid f content =
    if f.is_dir
    then (false, none)
    else if f.others_read
    then elim content [
      | none ↦ (false, some (file_buf f.size []))
      | some bytes ↦ (valid, some (file_buf f.size bytes))
    ]
    else (false, none)

-- The bytes that writev or send is given. `wild` stands for a pointer or a string that is not set.
pub data Reply : Type 0 where
  sends : List ℕ → Reply
  wild : Reply

abbrev pub until_nul : Buffer → Option ℕ → List ℕ → Reply
until_nul b none body = wild
until_nul b (some n) body = sends (bytes_at b 0 n ++ body)

-- What writev is given: the header, and iov_len bytes of file_buf.
abbrev pub write_file : (size : ℕ) → Option (List ℕ) → Reply
write_file size none = wild
write_file size (some buf) =
    until_nul (ok_header size) (strlen (ok_header size) 0 buffer_size) (take size buf)

pub answer : Bool → (size : ℕ) → Option (List ℕ) → Reply
unfolding ok_header error_header strlen bytes_at
answer valid size buf =
    if valid
    then write_file size buf
    else until_nul error_header (strlen error_header 0 buffer_size) []

-- The reply, and whether `delete []file_buf` gets a pointer that is set.
pub serve_client : (valid : Bool) → Option FileStat → (content : Option (List ℕ)) → Reply × Bool
unfolding check_file answer
serve_client valid none content = (sends [], false)
serve_client valid (some f) content =
    let r = check_file valid f content in (answer r.0 f.size r.1, not (is_none r.1))
