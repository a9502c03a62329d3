-- ===== src/Log/Lines.antt =====
-- What the methods of `Logger` leave in the files.
use computer_network_final_p.Base.{ℕ, true, List, [], ◌∷◌, ◌++◌, text, ◌≡◌, refl, ◌∙◌}
use computer_network_final_p.Base.Dict.{find, bytes_eq}
use computer_network_final_p.Log.{Logger, held, append_to, line, write, info, warn, error}

-- One call of a client of the logger: a method with the time at which it runs and its argument.
pub data Call : Type 0 where
  infos : List ℕ → List ℕ → Call
  warns : List ℕ → List ℕ → Call
  errors : List ℕ → List ℕ → Call

-- The call, where the file opens.
unfoldable pub call : Call → Logger → Logger
unfolding info warn error
call (infos now msg) = info true now msg
call (warns now msg) = warn true now msg
call (errors now msg) = error true now msg

unfoldable pub run : List Call → Logger → Logger
unfolding call
run [] l = l
run (c ∷ rest) l = run rest (call c l)

-- The line that a call is to leave.
unfoldable pub line_of : Call → List ℕ
line_of (infos now msg) = now ++ (text " [INFO] " ++ (msg ++ text "\n"))
line_of (warns now msg) = now ++ (text " [WARN] " ++ (msg ++ text "\n"))
line_of (errors now msg) = now ++ (text " [ERROR] " ++ (msg ++ text "\n"))

unfoldable pub lines : List Call → List ℕ
unfolding line_of
lines [] = []
lines (c ∷ rest) = line_of c ++ lines rest

unfoldable pub contents : Logger → List ℕ → List ℕ
unfolding held
contents l path = held (find path l.files)

-- Of a call, only the line matters.
call-append_to : (c : Call) (l : Logger) → call c l ≡ append_to true l (line_of c)
unfolding call line_of info warn error write line text
call-append_to (infos now msg) l = refl
call-append_to (warns now msg) l = refl
call-append_to (errors now msg) l = refl

run-path : (calls : List Call) (l : Logger) → (run calls l).path ≡ l.path
unfolding run append_to
run-path [] l = refl
run-path (c ∷ rest) l = run-path rest (call c l) ∙ rw (call-append_to c l) refl
