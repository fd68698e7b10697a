-- ===== src/Web/Response.antt =====
-- IOfunction/webServer6_2.cpp: the whole reply, for a file that is sent and for one that is
-- refused.
use mathlib.Core.Path.{ap₂}
use linux_websocket.Prelude.{
  ℕ, zero, suc, ◌+◌, ◌-◌, ◌^◌, ◌≤◌, ◌<◌, ◌≡◌, ◌∙◌, refl, sym, ap, Bool, true, false, not, ◌&&◌,
  Option, some, List, [], ◌∷◌, ◌++◌, length, length-append, take, replicate, arith, is_none, ltb,
}
use linux_websocket.Web.{
  Buffer, buffer_size, crlf, first_line, length_name, length_line, print_long, empty, room,
  ok_header, error_header, FileStat, file_buf, check_file, sends, until_nul, answer, serve_client,
  strlen,
}
use linux_websocket.Web.Header.{
  value_from, IsNumeral, NoNul, NoNul-append, print_long-Prints, IsText, snprintf-IsText,
  IsText-strlen, IsText-bytes,
}

-- The headers, and the body that a file of `size` bytes gets, of which read has got `bytes`.
abbrev pub ok_text : (digits : List ℕ) → List ℕ
ok_text digits = (first_line true ++ (length_name ++ (digits ++ crlf))) ++ crlf

abbrev pub error_text : List ℕ
error_text = first_line false ++ crlf

abbrev pub body : (size : ℕ) → (bytes : List ℕ) → List ℕ
body size bytes = bytes ++ replicate (size - length bytes) 0

ok_text-length : (digits : List ℕ) → length (ok_text digits) ≡ 37 + length digits
ok_text-length digits = omega (
  arith,
  length-append (first_line true ++ (length_name ++ (digits ++ crlf))) crlf,
  length-append digits crlf,
)

ok_header-IsText : (size : ℕ) → size < 2 ^ 63 → IsText (ok_header size) (ok_text (print_long size))
unfolding ok_header
ok_header-IsText size h =
    let p = print_long-Prints size h in
    let e = length-append (print_long size) crlf in
    let t = snprintf-IsText empty 0 1023 [] (first_line true) refl (omega arith) tt in
    let u =
      snprintf-IsText _ (length (first_line true)) (room (length (first_line true)))
        (first_line true) (length_line size) refl (omega (arith, e, p.short)) t.stands in
    snprintf-IsText _ (length (first_line true) + length (length_line size))
      (room (length (first_line true) + length (length_line size)))
      (first_line true ++ length_line size) crlf
      (sym (length-append (first_line true) (length_line size))) (omega (arith, e, p.short))
      u.stands

error_header-IsText : IsText error_header error_text
unfolding error_header
error_header-IsText =
    let t = snprintf-IsText empty 0 1023 [] (first_line false) refl (omega arith) tt in
    snprintf-IsText _ 36 (room 36) (first_line false) crlf refl (omega arith) t.stands

until_nul-IsText :
    (b : Buffer) (cs rest : List ℕ)
    → IsText b cs
    → NoNul cs
    → length cs < buffer_size
    → until_nul b (strlen b 0 buffer_size) rest ≡ sends (cs ++ rest)
until_nul-IsText b cs rest t k l =
    rw (IsText-strlen b buffer_size cs t k l) (ap (λ xs. sends (xs ++ rest)) (IsText-bytes b cs t))

take-zeros : (size : ℕ) → take {A = ℕ} size (replicate (suc size) 0) ≡ replicate size 0
take-zeros zero = refl
take-zeros (suc size) = ap (◌∷◌ 0) (take-zeros size)

take-file_buf :
    (size : ℕ) (bytes : List ℕ)
    → length bytes ≤ size
    → take size (file_buf size bytes) ≡ body size bytes
unfolding file_buf
take-file_buf size [] h = take-zeros size ∙ ap (λ n. replicate n 0) (omega arith)
take-file_buf zero (c ∷ cs) h = absurd (omega arith)
take-file_buf (suc size) (c ∷ cs) h =
    ap (◌∷◌ c) (take-file_buf size cs (omega arith) ∙ ap (λ n. cs ++ replicate n 0) (omega arith))

length-replicate : (n : ℕ) → length {A = ℕ} (replicate n 0) ≡ n
length-replicate zero = refl
length-replicate (suc n) = ap suc (length-replicate n)

body-length : (size : ℕ) (bytes : List ℕ) → length bytes ≤ size → length (body size bytes) ≡ size
body-length size bytes h = omega (
  arith,
  length-append bytes (replicate (size - length bytes) 0),
  length-replicate (size - length bytes),
)

abbrev nonzero : List ℕ → Bool
nonzero [] = true
nonzero (c ∷ cs) = ltb 0 c && nonzero cs

nonzero-NoNul : (cs : List ℕ) → nonzero cs ≡ true → NoNul cs
nonzero-NoNul [] e = tt
nonzero-NoNul (c ∷ cs) e = (ground arith, nonzero-NoNul cs (ground arith))

ok_text-NoNul : (digits : List ℕ) → NoNul digits → NoNul (ok_text digits)
ok_text-NoNul digits k =
    NoNul-append (first_line true ++ (length_name ++ (digits ++ crlf))) crlf
      (NoNul-append (first_line true) (length_name ++ (digits ++ crlf))
        (nonzero-NoNul (first_line true) refl)
        (NoNul-append length_name (digits ++ crlf) (nonzero-NoNul length_name refl)
          (NoNul-append digits crlf k (nonzero-NoNul crlf refl))))
      (nonzero-NoNul crlf refl)

answer_ok :
    (size : ℕ) (bytes : List ℕ)
    → size < 2 ^ 63
    → length bytes ≤ size
    → answer true size (some (file_buf size bytes))
      ≡ sends (ok_text (print_long size) ++ body size bytes)
unfolding answer
answer_ok size bytes h l =
    let p = print_long-Prints size h in
    until_nul-IsText (ok_header size) (ok_text (print_long size)) (take size (file_buf size bytes))
      (ok_header-IsText size h) (ok_text-NoNul _ p.no_nul)
      (omega (arith, ok_text-length (print_long size), p.short))
    ∙ ap (λ xs. sends (ok_text (print_long size) ++ xs)) (take-file_buf size bytes l)

check_file-ok :
    (f : FileStat) (bytes : List ℕ)
    → f.is_dir ≡ false
    → f.others_read ≡ true
    → check_file true f (some bytes) ≡ (true, some (file_buf f.size bytes))
unfolding check_file
check_file-ok f bytes d o = ground arith

-- Where `valid` is true and the file is no directory, others may read it, its size is below 2 ^ 63
-- and read gets no more than that: the client gets the header of the status 200 and then as many
-- bytes as the size, those that read got and zeros behind them. Content-Length is that size as a
-- decimal number, the whole header has less than 57 characters, and file_buf is set.
pub ok_reply :
    (f : FileStat) (bytes : List ℕ)
    → f.is_dir ≡ false
    → f.others_read ≡ true
    → f.size < 2 ^ 63
    → length bytes ≤ f.size
    → (digits : List ℕ) × (value_from 0 digits ≡ f.size)
      × IsNumeral digits
      × (length (body f.size bytes) ≡ f.size)
      × (length (ok_text digits) < 57)
      × (serve_client true (some f) (some bytes)
          ≡ (sends (ok_text digits ++ body f.size bytes), true))
unfolding serve_client
ok_reply f bytes d o h l =
    let p = print_long-Prints f.size h in
    (
      print_long f.size,
      p.digits,
      p.numeral,
      body-length f.size bytes l,
      omega (arith, ok_text-length (print_long f.size), p.short),
      ap (λ r. (answer r.0 f.size r.1, not (is_none r.1))) (check_file-ok f bytes d o)
          ∙ ap (λ r. (r, true)) (answer_ok f.size bytes h l),
    )

-- What makes the file one that the code sends.
abbrev pub servable : FileStat → Option (List ℕ) → Bool
servable f content = not f.is_dir && f.others_read && not (is_none content)

answer_error : (size : ℕ) (buf : Option (List ℕ)) → answer false size buf ≡ sends error_text
unfolding answer
answer_error size buf =
    until_nul-IsText error_header error_text [] error_header-IsText (nonzero-NoNul error_text refl)
      (omega arith)

check_file-error :
    (valid : Bool) (f : FileStat) (content : Option (List ℕ))
    → servable f content ≡ false
    → ((check_file valid f content).0 ≡ false)
      × (not (is_none (check_file valid f content).1) ≡ (not f.is_dir && f.others_read))
unfolding check_file
check_file-error valid f content e = ground arith

-- Where the file is a directory, or others may not read it, or read fails, the client gets the
-- header of the status 500 and nothing else, whatever `valid` was, and `delete []file_buf` gets a
-- pointer that is set just where the code has come to read.
pub error_reply :
    (valid : Bool) (f : FileStat) (content : Option (List ℕ))
    → servable f content ≡ false
    → serve_client valid (some f) content ≡ (sends error_text, not f.is_dir && f.others_read)
unfolding serve_client
error_reply valid f content e =
    let c = check_file-error valid f content e in
    ap₂ (λ r b. (r, b))
      (ap (λ v. answer v f.size (check_file valid f content).1) c.0
        ∙ answer_error f.size (check_file valid f content).1)
      c.1
