-- ===== src/Log.antt =====
-- `Logger` of `core/src/log/logger.cpp`. Every method holds the mutex for all of its body and is one
-- step here. The time as text and whether the file opens are arguments of each step.
pub mod Lines
use computer_network_final_p.Base.{
  ℕ, Bool, Option, none, some, List, [], ◌∷◌, ◌++◌, if◌then◌else◌, text,
}
use computer_network_final_p.Base.Dict.{Dict, find, insert, bytes_eq}

-- `path_`, and the files by their paths.
pub record Logger : Type 0 where
  pub path : List ℕ
  pub files : Dict (List ℕ) (List ℕ)

unfoldable pub held : Option (List ℕ) → List ℕ
held none = []
held (some bytes) = bytes

-- A stream opened with `std::ios::app`; one that does not open writes nothing.
unfoldable pub append_to : Bool → Logger → List ℕ → Logger
unfolding held
append_to opens l bytes =
    if opens
    then record l { files = insert l.path (held (find l.path l.files) ++ bytes) l.files }
    else l

unfoldable pub init : Bool → List ℕ → List ℕ → Logger → Logger
unfolding append_to
init opens now path l =
    append_to opens (record l { path = path }) (now ++ text " [INFO] logger initialized\n")

unfoldable pub line : List ℕ → List ℕ → List ℕ → List ℕ
line now level msg = now ++ (text " [" ++ (level ++ (text "] " ++ (msg ++ text "\n"))))

unfoldable pub write : Bool → List ℕ → List ℕ → List ℕ → Logger → Logger
unfolding append_to line
write opens now level msg l = append_to opens l (line now level msg)

unfoldable pub info : Bool → List ℕ → List ℕ → Logger → Logger
unfolding write
info opens now = write opens now (text "INFO")

unfoldable pub warn : Bool → List ℕ → List ℕ → Logger → Logger
unfolding write
warn opens now = write opens now (text "WARN")

unfoldable pub error : Bool → List ℕ → List ℕ → Logger → Logger
unfolding write
error opens now = write opens now (text "ERROR")
