-- ===== src/FileStore/Storing.antt =====
-- What ends up in a file that is opened, written in chunks and finalized.
use computer_network_final_p.Base.{
  ℕ, ◌≤◌, ◌≡◌, ◌≢◌, refl, sym, ◌∙◌, true, false, Option, none, some, List, [], ◌∷◌, ◌++◌,
  append-nil, append_assoc, length, All, IsPlain, c_str-IsPlain, arith, Result, ok, fault, ◌>>=◌,
}
use computer_network_final_p.Base.Dict.{
  find, insert, erase, find-insert, find-erase, nat_eq, bytes_eq, beq_self,
}
use computer_network_final_p.FileStore.{
  FileStore, DirectoryAnswer, WriteAnswer, ensure_directory, open_for_write, write_chunk,
  finalize_file, get_file_path, get_temp_path,
}
use computer_network_final_p.FileStore.Files.{Disk, Stream, fopen_wb, open_stream, fclose, rename}
use computer_network_final_p.FileStore.Paths.{
  temp-ne-final, get_file_path-IsPlain, get_temp_path-IsPlain,
}
use computer_network_final_p.FileStore.Shutting.{finalize_file-fault}
use computer_network_final_p.FileStore.Writing.{
  Writing, fopen-Writing, open_stream-Writing, write_chunk-Writing,
}

-- What the file at a path holds.
pub path_contents : Disk → List ℕ → Option (List ℕ)
path_contents d path = elim (find path d.names) [ none ↦ none | some file ↦ find file d.contents ]

-- The chunks of a file, each written with the answers that the system gives.
pub write_all : FileStore → Option ℕ → List (WriteAnswer × List ℕ) → Result FileStore
write_all store handle [] = ok store
write_all store handle ((a, bytes) ∷ rest) = do
  (store', written) ← write_chunk a store handle bytes
  write_all store' handle rest

-- The system takes the whole of a chunk that is not empty.
abbrev pub IsTaken : WriteAnswer × List ℕ → Type 0
IsTaken (a, bytes) = (bytes ≢ []) × (length bytes ≤ a.takes) × (a.flushes ≡ true)

abbrev pub joined : List (WriteAnswer × List ℕ) → List ℕ
joined [] = []
joined ((a, bytes) ∷ rest) = bytes ++ joined rest

write_all-Writing :
    (chunks : List (WriteAnswer × List ℕ)) (store : FileStore) (handle : ℕ) (path old : List ℕ)
    → Writing store.disk handle path old
    → All IsTaken chunks
    → (disk : Disk) × (write_all store (some handle) chunks ≡ ok (record store { disk = disk }))
      × Writing disk handle path (old ++ joined chunks)
unfolding write_all
write_all-Writing [] store handle path old w good = (store.disk, refl, rw (append-nil old) w)
write_all-Writing ((a, bytes) ∷ rest) store handle path old w good =
    let (disk, wrote, w') =
      write_chunk-Writing a store handle path old bytes w good.0.0 good.0.1 good.0.2 in
    let (disk', all, w'') =
      write_all-Writing rest (record store { disk = disk }) handle path (old ++ bytes) w' good.1 in
    (disk', rw (wrote, all), rw (← append_assoc old bytes (joined rest)) w'')

pub record Closed (d : Disk) (handle : ℕ) (temp final bytes : List ℕ) : Type 0 where
  pub gone : find temp d.names ≡ none
  pub holds : path_contents d final ≡ some bytes
  pub shut : open_stream d handle ≡ fault

rename-Closed :
    (d : Disk) (handle file : ℕ) (temp final bytes : List ℕ)
    → find temp d.names ≡ some file
    → find file d.contents ≡ some bytes
    → open_stream d handle ≡ fault
    → final ≢ temp
    → Closed (rename d temp final) handle temp final bytes
unfolding rename path_contents open_stream
rename-Closed d handle file temp final bytes named contents shut apart =
    rw (named, rename)
      (record { gone = gone; holds = rw (found, path_contents) contents; shut = shut })
  where
    names : List (List ℕ × ℕ)
    names = insert final file (erase temp d.names)

    found : find final names ≡ some file
    found = find-insert final final file (erase temp d.names) ∙ rw (beq_self final)

    gone : find temp names ≡ none
    gone = ground (
      arith,
      find-insert final temp file (erase temp d.names),
      find-erase temp temp d.names,
      beq_self temp,
      bytes_eq.beq_iff final temp,
    )

fclose-Writing :
    (d : Disk) (handle : ℕ) (path bytes : List ℕ)
    → Writing d handle path bytes
    → (d' : Disk) × (fclose d handle ≡ ok d')
      × (d'.names ≡ d.names)
      × (d'.contents ≡ d.contents)
      × (open_stream d' handle ≡ fault)
unfolding fclose
fclose-Writing d handle path bytes w =
    let closed : Stream = record { file = w.file; position = length bytes; is_open = false } in
    (
      record d { streams = insert handle closed d.streams },
      rw (open_stream-Writing d handle path bytes w),
      refl,
      refl,
      shut closed refl,
    )
  where
    shut :
        (s : Stream)
        → s.is_open ≡ false
        → open_stream (record d { streams = insert handle s d.streams }) handle ≡ fault
    shut s e =
        unfold open_stream in
        (rw (find-insert handle handle s d.streams, beq_self handle, open_stream, e))

pub finalize-Closed :
    (store : FileStore) (id : ℕ) (filename bytes : List ℕ) (handle : ℕ)
    → IsPlain store.base_path
    → IsPlain filename
    → Writing store.disk handle (get_temp_path store.base_path id filename) bytes
    → (disk : Disk) × (finalize_file true store id filename (some handle)
        ≡ ok (record store { disk = disk }, true))
      × Closed disk handle
          (get_temp_path store.base_path id filename)
          (get_file_path store.base_path id filename)
          bytes
unfolding finalize_file
finalize-Closed store id filename bytes handle hb hf w =
    let temp = get_temp_path store.base_path id filename in
    let final = get_file_path store.base_path id filename in
    let (d, closed, names_kept, contents_kept, shut) =
      fclose-Writing store.disk handle temp bytes w in
    (
      rename d temp final,
      rw (
        closed,
        c_str-IsPlain temp (get_temp_path-IsPlain store.base_path id filename hb hf),
        c_str-IsPlain final (get_file_path-IsPlain store.base_path id filename hb hf),
      ),
      rename-Closed d handle w.file temp final bytes (rw names_kept w.named)
          (rw contents_kept w.contents_are) shut
          (λ e. temp-ne-final store.base_path id filename (sym e)),
    )

-- Where neither the base path nor the file name holds a zero byte, a transfer's file that is opened,
-- written in chunks that the system takes, and finalized, stands under its final path and holds the
-- chunks one after the other; the `.part` path is gone. A second `finalize_file` with the same handle
-- closes a closed stream.
pub finalize-write_all-open :
    (a : DirectoryAnswer) (store : FileStore) (id : ℕ) (filename : List ℕ)
    (chunks : List (WriteAnswer × List ℕ))
    → IsPlain store.base_path
    → IsPlain filename
    → ensure_directory a ≡ true
    → All IsTaken chunks
    → let (opened, handle) = open_for_write a true store id filename in
      (written done : FileStore) × (write_all opened handle chunks ≡ ok written)
      × (finalize_file true written id filename handle ≡ ok (done, true))
      × (path_contents done.disk (get_file_path store.base_path id filename) ≡ some (joined chunks))
      × (find (get_temp_path store.base_path id filename) done.disk.names ≡ none)
      × (finalize_file true done id filename handle ≡ fault)
unfolding open_for_write
finalize-write_all-open a store id filename chunks hb hf there good =
    let path = get_temp_path store.base_path id filename in
    let handle = (fopen_wb store.disk path).1 in
    let (d1, wrote, w) =
      write_all-Writing chunks (record store { disk = (fopen_wb store.disk path).0 }) handle path []
        (fopen-Writing store.disk path) good in
    let (d2, finalized, c) =
      finalize-Closed (record store { disk = d1 }) id filename (joined chunks) handle hb hf w in
    rw (there, c_str-IsPlain path (get_temp_path-IsPlain store.base_path id filename hb hf))
      (
        record store { disk = d1 },
        record store { disk = d2 },
        wrote,
        finalized,
        c.holds,
        c.gone,
        finalize_file-fault true (record store { disk = d2 }) id filename handle c.shut,
      )
