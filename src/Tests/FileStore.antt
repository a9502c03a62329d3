-- ===== src/Tests/FileStore.antt =====
-- Paths and files at concrete values.
use computer_network_final_p.Base.{
  ℕ, ◌≡◌, ◌≢◌, refl, true, false, none, some, List, [], ◌∷◌, All, ok, fault, text, arith,
}
use computer_network_final_p.Base.Dict.{find, bytes_eq}
use computer_network_final_p.FileStore.{
  FileStore, DirectoryAnswer, WriteAnswer, ensure_directory, open_for_write, finalize_file,
  get_file_path, get_temp_path,
}
use computer_network_final_p.FileStore.Files.{empty}
use computer_network_final_p.FileStore.Decimal.{to_string}
use computer_network_final_p.FileStore.Paths.{paths_disjoint}
use computer_network_final_p.FileStore.Storing.{
  write_all, path_contents, IsTaken, finalize-write_all-open,
}

path_of_12 : get_file_path (text "./s") 12 (text "a.txt") ≡ text "./s/12/a.txt"
unfolding get_file_path to_string text
path_of_12 = refl

-- A file name may climb out of the storage directory.
path_that_climbs : get_file_path (text "./s") 12 (text "../../x") ≡ text "./s/12/../../x"
unfolding get_file_path to_string text
path_that_climbs = refl

twelve-ne-thirteen : ◌≢◌ {A = ℕ} 12 13
twelve-ne-thirteen = omega arith

paths_disjoint_example :
    (get_file_path (text "s") 12 (text "a") ≢ get_file_path (text "s") 13 (text "a.part"))
    × (get_temp_path (text "s") 12 (text "a") ≢ get_temp_path (text "s") 13 (text "a.part"))
    × (get_temp_path (text "s") 12 (text "a") ≢ get_file_path (text "s") 13 (text "a.part"))
    × (get_file_path (text "s") 12 (text "a") ≢ get_temp_path (text "s") 13 (text "a.part"))
paths_disjoint_example =
    paths_disjoint (text "s") 12 13 (omega arith) (omega arith) (text "a") (text "a.part")
      twelve-ne-thirteen

abbrev storage : FileStore
storage = record { base_path = b's' ∷ []; disk = empty }

abbrev made : DirectoryAnswer
made = record { creates = true; stat_finds = false; is_directory = false; mkdir_succeeds = false }

abbrev whole : WriteAnswer
whole = record { takes = 100; flushes = true }

abbrev two_chunks : List (WriteAnswer × List ℕ)
two_chunks = (whole, 1 ∷ 2 ∷ []) ∷ (whole, 3 ∷ []) ∷ []

two_chunks-IsTaken : All IsTaken two_chunks
two_chunks-IsTaken = ((λ e. cc, omega arith, refl), ((λ e. cc, omega arith, refl), tt))

made_there : ensure_directory made ≡ true
unfolding ensure_directory
made_there = refl

finalize-write_all-open_example :
    let (opened, handle) = open_for_write made true storage 12 (b'a' ∷ []) in
    (written done : FileStore) × (write_all opened handle two_chunks ≡ ok written)
    × (finalize_file true written 12 (b'a' ∷ []) handle ≡ ok (done, true))
    × (path_contents done.disk (get_file_path (b's' ∷ []) 12 (b'a' ∷ [])) ≡ some (1 ∷ 2 ∷ 3 ∷ []))
    × (find (get_temp_path (b's' ∷ []) 12 (b'a' ∷ [])) done.disk.names ≡ none)
    × (finalize_file true done 12 (b'a' ∷ []) handle ≡ fault)
finalize-write_all-open_example =
    finalize-write_all-open made storage 12 (b'a' ∷ []) two_chunks ((λ e. absurd (omega arith)), tt)
      ((λ e. absurd (omega arith)), tt) made_there two_chunks-IsTaken
