-- ===== src/Web/Tests.antt =====
-- IOfunction/webServer6_2.cpp: a file of twelve bytes of which read gets three, and a directory.
use linux_websocket.Prelude.{
  ℕ, ◌<◌, ◌≡◌, refl, true, false, some, none, List, [], ◌∷◌, ◌++◌, length, take, arith,
}
use linux_websocket.Web.{FileStat, decimal}
use linux_websocket.Web.Header.{value_from, IsNumeral}
use linux_websocket.Web.Response.{ok_text, error_text, body}
use linux_websocket.Web.Main.{main, up, main-ok, main-error}
use linux_websocket.OneShot.{Call, Ended, opens, closes, sock, connfd, returned}

abbrev small : FileStat
small = record { is_dir = false; others_read = true; size = 12 }

abbrev abc : List ℕ
abc = b'a' ∷ b'b' ∷ b'c' ∷ []

digits_small : decimal 19 12 ≡ b'1' ∷ b'2' ∷ []
unfolding decimal
digits_small = refl

main-ok_example :
    (digits : List ℕ) × (value_from 0 digits ≡ 12)
    × IsNumeral digits
    × (length (body 12 abc) ≡ 12)
    × (length (ok_text digits) < 57)
    × (main up true (some small) (some abc) true 1000
        ≡ returned 0 (
            opens sock
            ∷ opens connfd
            ∷ Call.sends connfd (take 1000 (ok_text digits ++ body 12 abc))
            ∷ closes connfd
            ∷ closes sock
            ∷ []))
main-ok_example = main-ok small abc 1000 refl refl (omega arith) (omega arith)

abbrev directory : FileStat
directory = record { is_dir = true; others_read = true; size = 4096 }

main-error_example :
    main up true (some directory) none true 1000
    ≡ Ended.wild
        (opens sock ∷ opens connfd ∷ Call.sends connfd (take 1000 error_text) ∷ closes connfd ∷ [])
main-error_example = main-error true directory none 1000 refl
