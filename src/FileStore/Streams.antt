-- ===== src/FileStore/Streams.antt =====
-- Which streams are open, and what the operations do to them.
use computer_network_final_p.Base.{
  ℕ, ◌+◌, ◌≤◌, ◌≡◌, ◌≢◌, refl, sym, ap, ◌∙◌, subst, ◌⊎◌, Bool, true, false, Bool-cases, inl, inr,
  Option, none, some, Option-cases, List, [], ◌∷◌, length, take, ◌==◌, if◌then◌else◌, ok, fault,
  ok-injective, arith, c_str,
}
use computer_network_final_p.Base.Dict.{Dict, find, insert, find-insert, nat_eq, bytes_eq, beq_self}
use computer_network_final_p.FileStore.{
  FileStore, WriteAnswer, get_temp_path, get_file_path, write_chunk, finalize_file,
}
use computer_network_final_p.FileStore.Shutting.{finalize_file-fault}
use computer_network_final_p.FileStore.Files.{
  Stream, Disk, fopen_wb, open_stream, write_at, contents_of, fwrite, fclose, rename,
}

pub record IsOpen (streams : Dict ℕ Stream) (handle : ℕ) : Type 0 where
  pub stream : Stream
  pub found : find handle streams ≡ some stream
  pub usable : stream.is_open ≡ true

open_stream-IsOpen :
    (d : Disk) (handle : ℕ) (o : IsOpen d.streams handle) → open_stream d handle ≡ ok o.stream
unfolding open_stream
open_stream-IsOpen d handle o = rw (o.found, open_stream, o.usable)

insert-IsOpen :
    (streams : Dict ℕ Stream) (handle other : ℕ) (s : Stream)
    → s.is_open ≡ true
    → IsOpen streams other
    → IsOpen (insert handle s streams) other
insert-IsOpen streams handle other s usable o = elim (Bool-cases (handle == other)) [
  | inl same ↦ record {
    stream = s;
    found = find-insert handle other s streams ∙ rw same;
    usable = usable;
  }
  | inr apart ↦ record {
    stream = o.stream;
    found = find-insert handle other s streams ∙ rw apart o.found;
    usable = o.usable;
  }
]

insert-IsOpen_self :
    (streams : Dict ℕ Stream) (handle : ℕ) (s : Stream)
    → s.is_open ≡ true
    → IsOpen (insert handle s streams) handle
insert-IsOpen_self streams handle s usable = record {
  stream = s;
  found = find-insert handle handle s streams ∙ rw (beq_self handle);
  usable = usable;
}

insert-IsOpen_other :
    (streams : Dict ℕ Stream) (handle other : ℕ) (s : Stream)
    → handle ≢ other
    → IsOpen streams other
    → IsOpen (insert handle s streams) other
insert-IsOpen_other streams handle other s apart o = record {
  stream = o.stream;
  found =
      find-insert handle other s streams
      ∙ (let e : (handle == other) ≡ false = ground (arith, apart) in rw e o.found);
  usable = o.usable;
}

-- The streams that are open stay open, and no handle is given again.
pub record Opens (d d' : Disk) : Type 0 where
  pub kept : (handle : ℕ) → IsOpen d.streams handle → IsOpen d'.streams handle
  pub next : d.next_stream ≤ d'.next_stream

pub Opens-same : (d : Disk) → Opens d d
Opens-same d = record { kept = λ handle o. o; next = omega arith }

-- `fopen` gives the next handle, which is open from then on.
pub fopen-Opens :
    (d : Disk) (path : List ℕ)
    → Opens d (fopen_wb d path).0
      × ((fopen_wb d path).1 ≡ d.next_stream)
      × ((fopen_wb d path).0.next_stream ≡ d.next_stream + 1)
      × IsOpen (fopen_wb d path).0.streams d.next_stream
unfolding fopen_wb
fopen-Opens d path = elim (Option-cases (find path d.names)) [
  | inl missing ↦
      rw (missing, fopen_wb)
        (
          record {
            kept = λ handle o. insert-IsOpen d.streams d.next_stream handle _ refl o;
            next = omega arith;
          },
          refl,
          refl,
          insert-IsOpen_self d.streams d.next_stream _ refl,
        )
  | inr (file, there) ↦
      rw (there, fopen_wb)
        (
          record {
            kept = λ handle o. insert-IsOpen d.streams d.next_stream handle _ refl o;
            next = omega arith;
          },
          refl,
          refl,
          insert-IsOpen_self d.streams d.next_stream _ refl,
        )
]

-- A write on an open stream returns.
fwrite-Opens :
    (flushes : Bool) (d : Disk) (handle : ℕ) (bytes : List ℕ)
    → IsOpen d.streams handle
    → (d' : Disk) × (fwrite flushes d handle bytes ≡ ok d') × Opens d d'
unfolding fwrite
fwrite-Opens false d handle bytes o = (d, rw (open_stream-IsOpen d handle o), Opens-same d)
fwrite-Opens true d handle bytes o =
    let s = o.stream in
    let moved : Stream = record s { position = s.position + length bytes } in
    let written = write_at (contents_of d s.file) s.position bytes in
    (
      record d {
        contents = insert s.file written d.contents;
        streams = insert handle moved d.streams;
      },
      rw (open_stream-IsOpen d handle o),
      record {
        kept = λ other p. insert-IsOpen d.streams handle other moved o.usable p;
        next = omega arith;
      },
    )

-- A chunk is written, in whole or in part, or not at all, without a fault where the transfer's stream
-- is open.
pub write_chunk-Opens :
    (a : WriteAnswer) (store : FileStore) (handle : Option ℕ) (bytes : List ℕ)
    → ((h : ℕ) → handle ≡ some h → IsOpen store.disk.streams h)
    → (after : FileStore) × (result : Option ℕ) × (write_chunk a store handle bytes
        ≡ ok (after, result))
      × Opens store.disk after.disk
unfolding write_chunk
write_chunk-Opens a store none bytes o = (store, none, refl, Opens-same store.disk)
write_chunk-Opens a store (some h) [] o = (store, none, refl, Opens-same store.disk)
write_chunk-Opens a store (some h) (b ∷ rest) o =
    let sent = take a.takes (b ∷ rest) in
    let (disk, wrote, opens) = fwrite-Opens a.flushes store.disk h sent (o h refl) in
    (
      record store { disk = disk },
      (if length sent == length (b ∷ rest) then some (length sent) else none),
      rw wrote,
      opens,
    )

-- What closing a stream leaves open.
pub record Closes (d d' : Disk) (closed : ℕ) : Type 0 where
  pub kept : (handle : ℕ) → closed ≢ handle → IsOpen d.streams handle → IsOpen d'.streams handle
  pub next : d.next_stream ≤ d'.next_stream

rename-Closes :
    (d d' : Disk) (closed : ℕ) (old new : List ℕ)
    → Closes d d' closed
    → Closes d (rename d' old new) closed
unfolding rename
rename-Closes d d' closed old new c = elim (Option-cases (find old d'.names)) [
  | inl missing ↦ rw (missing, rename) c
  | inr (file, there) ↦ rw (there, rename) (record { kept = c.kept; next = c.next })
]

pub finalize_file-Closes :
    (renames : Bool) (store : FileStore) (id : ℕ) (filename : List ℕ) (handle : ℕ)
    → IsOpen store.disk.streams handle
    → (after : FileStore) × (success : Bool) × (finalize_file renames store id filename
          (some handle)
        ≡ ok (after, success))
      × Closes store.disk after.disk handle
unfolding finalize_file fclose
finalize_file-Closes renames store id filename handle o =
    let shut : Stream = record o.stream { is_open = false } in
    let closed : Disk = record store.disk { streams = insert handle shut store.disk.streams } in
    let closes : Closes store.disk closed handle = record {
      kept = λ other apart p. insert-IsOpen_other store.disk.streams handle other shut apart p;
      next = omega arith;
    } in
    let temp = c_str (get_temp_path store.base_path id filename) in
    let final = c_str (get_file_path store.base_path id filename) in
    elim (Bool-cases renames) [
      | inl renamed ↦ (
        record store { disk = rename closed temp final },
        true,
        rw (open_stream-IsOpen store.disk handle o, renamed),
        rename-Closes store.disk closed handle temp final closes,
      )
      | inr refused ↦ (
        record store { disk = closed },
        false,
        rw (open_stream-IsOpen store.disk handle o, refused),
        closes,
      )
    ]

IsOpen-cases : (d : Disk) (handle : ℕ) → IsOpen d.streams handle ⊎ (open_stream d handle ≡ fault)
unfolding open_stream
IsOpen-cases d handle = elim (Option-cases (find handle d.streams)) [
  | inl never ↦ inr (rw (never, open_stream))
  | inr (s, there) ↦ elim (Bool-cases s.is_open) [
    | inl usable ↦ inl (record { stream = s; found = there; usable = usable })
    | inr shut ↦ inr (rw (there, open_stream, shut))
  ]
]

-- A `finalize_file` that returns has closed the transfer's stream.
pub finalize_file-ok :
    (renames : Bool) (store after : FileStore) (id : ℕ) (filename : List ℕ) (handle : ℕ)
    (success : Bool)
    → finalize_file renames store id filename (some handle) ≡ ok (after, success)
    → Closes store.disk after.disk handle
finalize_file-ok renames store after id filename handle success e =
    elim (IsOpen-cases store.disk handle) [
      | inr shut ↦
          absurd (let e1 = sym e ∙ finalize_file-fault renames store id filename handle shut in cc)
      | inl usable ↦
          let (closed, done, finalized, closes) =
            finalize_file-Closes renames store id filename handle usable in
          let same : closed ≡ after = ap (λ p. p.0) (ok-injective (sym finalized ∙ e)) in
          subst (λ s. Closes store.disk s.disk handle) same closes
    ]
