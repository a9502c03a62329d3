-- ===== src/FileStore.antt =====
-- `FileStore` of `core/include/fsx/storage/file_store.h` and `core/src/storage/file_store.cpp`, over the
-- part of the C library's files that it uses. What the system answers is an argument of each call.
pub mod Files
pub mod Decimal
pub mod Paths
pub mod Shutting
pub mod Streams
pub mod Writing
pub mod Storing
use computer_network_final_p.Base.{
  ℕ, ◌+◌, Bool, true, false, not, ◌&&◌, ◌||◌, Option, none, some, List, [], ◌∷◌, ◌++◌, length, take,
  ◌==◌, ltb, if◌then◌else◌, Result, ok, fault, ◌>>=◌, text, eq_bytes, c_str,
}
use computer_network_final_p.Base.Dict.{Dict}
use Files.{Disk, fopen_wb, fwrite, fclose, rename, remove_all}
use Decimal.{to_string}

-- What `create_directories`, `stat` and `mkdir` answer for one directory.
pub record DirectoryAnswer : Type 0 where
  pub creates : Bool
  pub stat_finds : Bool
  pub is_directory : Bool
  pub mkdir_succeeds : Bool

pub record FileStore : Type 0 where
  pub base_path : List ℕ
  pub disk : Disk

unfoldable pub ensure_directory : DirectoryAnswer → Bool
ensure_directory a =
    if a.creates then true else if not a.stat_finds then a.mkdir_succeeds else a.is_directory

unfoldable pub initialize : DirectoryAnswer → Bool
unfolding ensure_directory
initialize a = ensure_directory a

unfoldable pub transfer_dir : List ℕ → ℕ → List ℕ
transfer_dir base id = base ++ (text "/" ++ to_string id)

unfoldable pub get_file_path : List ℕ → ℕ → List ℕ → List ℕ
get_file_path base id filename = base ++ (text "/" ++ (to_string id ++ (text "/" ++ filename)))

unfoldable pub get_temp_path : List ℕ → ℕ → List ℕ → List ℕ
get_temp_path base id filename =
    base ++ (text "/" ++ (to_string id ++ (text "/" ++ (filename ++ text ".part"))))

-- `opens` is whether `fopen` succeeds.
unfoldable pub open_for_write :
    DirectoryAnswer → Bool → FileStore → ℕ → List ℕ → FileStore × Option ℕ
unfolding ensure_directory
open_for_write a opens store id filename =
    let (disk, handle) = fopen_wb store.disk (c_str (get_temp_path store.base_path id filename)) in
    if ensure_directory a && opens
    then (record store { disk = disk }, some handle)
    else (store, none)

-- What `fwrite` takes and whether `fflush` succeeds; a failure of the latter is only logged.
pub record WriteAnswer : Type 0 where
  pub takes : ℕ
  pub flushes : Bool

-- The result -1 is `none`.
unfoldable pub write_chunk :
    WriteAnswer → FileStore → Option ℕ → List ℕ → Result (FileStore × Option ℕ)
write_chunk a store none bytes = ok (store, none)
write_chunk a store (some handle) [] = ok (store, none)
write_chunk a store (some handle) (b ∷ rest) = do
  let sent = take a.takes (b ∷ rest)
  disk ← fwrite a.flushes store.disk handle sent
  let result = if length sent == length (b ∷ rest) then some (length sent) else none
  ok (record store { disk = disk }, result)

-- `renames` is whether `rename` succeeds.
unfoldable pub finalize_file : Bool → FileStore → ℕ → List ℕ → Option ℕ → Result (FileStore × Bool)
finalize_file renames store id filename none = ok (store, false)
finalize_file renames store id filename (some handle) = do
  closed ← fclose store.disk handle
  let temp = get_temp_path store.base_path id filename
  let final = get_file_path store.base_path id filename
  if renames
      then ok (record store { disk = rename closed (c_str temp) (c_str final) }, true)
      else ok (record store { disk = closed }, false)

-- `removes` says which paths go: all below the directory, or some of them before an exception.
unfoldable pub cleanup_transfer : Bool → (List ℕ → Bool) → FileStore → ℕ → FileStore × Bool
cleanup_transfer succeeds removes store id =
    let dir = transfer_dir store.base_path id ++ text "/" in
    (record store { disk = remove_all store.disk dir (λ path. succeeds || removes path) }, succeeds)
