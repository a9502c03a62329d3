-- ===== src/FileStore/Writing.antt =====
-- A stream at the end of its file: opening it and appending to it.
use computer_network_final_p.Base.{
  ℕ, zero, suc, ◌+◌, ◌≤◌, ◌≡◌, ◌≢◌, refl, ap, ◌∙◌, true, Option, none, some, List, [], ◌∷◌, ◌++◌,
  append-nil, length, length-append, take, drop, arith, ok, subst,
}
use computer_network_final_p.Base.Dict.{find, insert, find-insert, nat_eq, bytes_eq, beq_self}
use computer_network_final_p.FileStore.{FileStore, WriteAnswer, write_chunk}
use computer_network_final_p.FileStore.Files.{
  Disk, fopen_wb, fill, write_at, contents_of, open_stream, fwrite,
}

-- The stream stands at the end of its file, which `path` names and which holds `bytes`.
pub record Writing (d : Disk) (handle : ℕ) (path bytes : List ℕ) : Type 0 where
  pub file : ℕ
  pub stream_is :
      find handle d.streams ≡ some (record { file = file; position = length bytes; is_open = true })
  pub contents_are : find file d.contents ≡ some bytes
  pub named : find path d.names ≡ some file

fill_self : (xs ys : List ℕ) → fill (length xs) (xs ++ ys) ≡ xs
unfolding fill
fill_self [] ys = refl
fill_self (x ∷ xs) ys = ap (◌∷◌ x) (fill_self xs ys)

drop_beyond : (n : ℕ) (xs : List ℕ) → length xs ≤ n → drop n xs ≡ []
drop_beyond zero [] h = refl
drop_beyond zero (x ∷ xs) h = absurd (omega arith)
drop_beyond (suc n) [] h = refl
drop_beyond (suc n) (x ∷ xs) h = drop_beyond n xs (omega arith)

-- At the end of the file a write appends.
write_at_end : (old bytes : List ℕ) → write_at old (length old) bytes ≡ old ++ bytes
unfolding write_at
write_at_end old bytes =
    rw (drop_beyond (length old + length bytes) old (omega arith), append-nil)
      (ap (λ xs. xs ++ bytes)
        (subst (λ xs. fill (length old) xs ≡ old) (append-nil old) (fill_self old [])))

take_all : (n : ℕ) (xs : List ℕ) → length xs ≤ n → take n xs ≡ xs
take_all zero [] h = refl
take_all zero (x ∷ xs) h = absurd (omega arith)
take_all (suc n) [] h = refl
take_all (suc n) (x ∷ xs) h = ap (◌∷◌ x) (take_all n xs (omega arith))

pub fopen-Writing :
    (d : Disk) (path : List ℕ) → Writing (fopen_wb d path).0 (fopen_wb d path).1 path []
unfolding fopen_wb
fopen-Writing d path = split (find path d.names) refl
  where
    split :
        (o : Option ℕ)
        → find path d.names ≡ o
        → Writing (fopen_wb d path).0 (fopen_wb d path).1 path []
    split none e =
        rw (e, fopen_wb)
          (record {
            file = d.next_file;
            stream_is =
                find-insert d.next_stream d.next_stream _ d.streams ∙ rw (beq_self d.next_stream);
            contents_are =
                find-insert d.next_file d.next_file _ d.contents ∙ rw (beq_self d.next_file);
            named = find-insert path path _ d.names ∙ rw (beq_self path);
          })
    split (some file) e =
        rw (e, fopen_wb)
          (record {
            file = file;
            stream_is =
                find-insert d.next_stream d.next_stream _ d.streams ∙ rw (beq_self d.next_stream);
            contents_are = find-insert file file _ d.contents ∙ rw (beq_self file);
            named = e;
          })

pub open_stream-Writing :
    (d : Disk) (handle : ℕ) (path bytes : List ℕ) (w : Writing d handle path bytes)
    → open_stream d handle ≡ ok (record { file = w.file; position = length bytes; is_open = true })
unfolding open_stream
open_stream-Writing d handle path bytes w = rw (w.stream_is, open_stream)

fwrite-Writing :
    (d : Disk) (handle : ℕ) (path old bytes : List ℕ)
    → Writing d handle path old
    → (d' : Disk) × (fwrite true d handle bytes ≡ ok d') × Writing d' handle path (old ++ bytes)
unfolding fwrite contents_of
fwrite-Writing d handle path old bytes w = (
  record d {
    contents = insert w.file (old ++ bytes) d.contents;
    streams =
        insert handle
          (record { file = w.file; position = length old + length bytes; is_open = true })
          d.streams;
  },
  rw (open_stream-Writing d handle path old w, contents_of, w.contents_are, write_at_end old bytes),
  record {
    file = w.file;
    stream_is =
        find-insert handle handle _ d.streams ∙ rw (beq_self handle, length-append old bytes);
    contents_are = find-insert w.file w.file _ d.contents ∙ rw (beq_self w.file);
    named = w.named;
  },
)

-- A chunk that the system takes whole is appended, and its size returned.
pub write_chunk-Writing :
    (a : WriteAnswer) (store : FileStore) (handle : ℕ) (path old bytes : List ℕ)
    → Writing store.disk handle path old
    → bytes ≢ []
    → length bytes ≤ a.takes
    → a.flushes ≡ true
    → (disk : Disk) × (write_chunk a store (some handle) bytes
        ≡ ok (record store { disk = disk }, some (length bytes)))
      × Writing disk handle path (old ++ bytes)
unfolding write_chunk
write_chunk-Writing a store handle path old [] w nonempty takes flushes = absurd (nonempty refl)
write_chunk-Writing a store handle path old (b ∷ rest) w nonempty takes flushes =
    let (disk, wrote, w') = fwrite-Writing store.disk handle path old (b ∷ rest) w in
    (disk, rw (flushes, take_all a.takes (b ∷ rest) takes, wrote) (ground arith), w')
