-- ===== src/FileStore/Files.antt =====
-- The files that the C library's `fopen`, `fwrite`, `fflush`, `fclose` and `rename` work on. A path names
-- a file; a stream writes to its file at its own position, also after the file's path has changed. A
-- stream that is closed or was never opened may not be used: that is undefined behaviour, a fault. So streams
-- are numbered, and a number is not used again; an address may be, which only the two streams that have it
-- one after the other could show.
use computer_network_final_p.Base.{
  ℕ, zero, suc, ◌+◌, Bool, true, false, ◌&&◌, none, some, List, [], ◌∷◌, ◌++◌, length, drop, ◌==◌,
  if◌then◌else◌, Result, ok, fault, ◌>>=◌,
}
use computer_network_final_p.Base.Dict.{Dict, find, insert, erase, nat_eq, bytes_eq}

pub record Stream : Type 0 where
  pub file : ℕ
  pub position : ℕ
  pub is_open : Bool

pub record Disk : Type 0 where
  pub names : Dict (List ℕ) ℕ
  pub contents : Dict ℕ (List ℕ)
  pub streams : Dict ℕ Stream
  pub next_file : ℕ
  pub next_stream : ℕ

unfoldable pub empty : Disk
empty = record { names = []; contents = []; streams = []; next_file = 0; next_stream = 0 }

-- A new file where the path names none; an existing one is cut to length 0. The handle numbers the stream that
-- is opened, not the address of its FILE: where the C library gives an address again that `fclose` freed,
-- the pointer kept from before and the new one are two handles. They may not be taken for each other, since
-- a pointer whose stream was closed may not be used any more, whatever stands at its address.
unfoldable pub fopen_wb : Disk → List ℕ → Disk × ℕ
fopen_wb d path = elim (find path d.names) [
  | some file ↦ (
    record d {
      contents = insert file [] d.contents;
      streams =
          insert d.next_stream (record { file = file; position = 0; is_open = true }) d.streams;
      next_stream = d.next_stream + 1;
    },
    d.next_stream,
  )
  | none ↦ (
    record {
      names = insert path d.next_file d.names;
      contents = insert d.next_file [] d.contents;
      streams =
          insert d.next_stream (record { file = d.next_file; position = 0; is_open = true })
            d.streams;
      next_file = d.next_file + 1;
      next_stream = d.next_stream + 1;
    },
    d.next_stream,
  )
]

-- Bytes written at a position, over zeros where the file was shorter.
unfoldable pub fill : ℕ → List ℕ → List ℕ
fill zero xs = []
fill (suc n) [] = 0 ∷ fill n []
fill (suc n) (x ∷ xs) = x ∷ fill n xs

unfoldable pub write_at : List ℕ → ℕ → List ℕ → List ℕ
unfolding fill
write_at old position bytes = fill position old ++ (bytes ++ drop (position + length bytes) old)

unfoldable pub contents_of : Disk → ℕ → List ℕ
contents_of d file = elim (find file d.contents) [ none ↦ [] | some bytes ↦ bytes ]

unfoldable pub open_stream : Disk → ℕ → Result Stream
open_stream d handle = elim (find handle d.streams) [
  | none ↦ fault
  | some stream ↦ if stream.is_open then ok stream else fault
]

-- `fwrite` and the `fflush` behind it. Where the flush fails nothing reaches the file.
unfoldable pub fwrite : Bool → Disk → ℕ → List ℕ → Result Disk
unfolding write_at contents_of open_stream
fwrite flushes d handle bytes = do
  stream ← open_stream d handle
  let moved = record stream { position = stream.position + length bytes }
  let written = write_at (contents_of d stream.file) stream.position bytes
  ok (
      if flushes
      then record d {
        contents = insert stream.file written d.contents;
        streams = insert handle moved d.streams;
      }
      else d)

unfoldable pub fclose : Disk → ℕ → Result Disk
unfolding open_stream
fclose d handle = do
  stream ← open_stream d handle
  ok (record d { streams = insert handle (record stream { is_open = false }) d.streams })

-- The new path names the old one's file, whatever it named before. A path that names nothing cannot
-- be renamed; the caller's answer says that it succeeded only where it names a file.
unfoldable pub rename : Disk → List ℕ → List ℕ → Disk
rename d old new = elim (find old d.names) [
  | none ↦ d
  | some file ↦ record d { names = insert new file (erase old d.names) }
]

unfoldable pub begins : List ℕ → List ℕ → Bool
begins [] path = true
begins (c ∷ prefix) [] = false
begins (c ∷ prefix) (b ∷ path) = (c == b) && begins prefix path

unfoldable pub unlink_all : Dict (List ℕ) ℕ → List ℕ → (List ℕ → Bool) → Dict (List ℕ) ℕ
unfolding begins
unlink_all [] dir removes = []
unlink_all ((path, file) ∷ rest) dir removes =
    let kept = unlink_all rest dir removes in
    if begins dir path && removes path then kept else (path, file) ∷ kept

unfoldable pub remove_all : Disk → List ℕ → (List ℕ → Bool) → Disk
unfolding unlink_all
remove_all d dir removes = record d { names = unlink_all d.names dir removes }
