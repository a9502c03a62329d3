-- ===== src/FileStore/Shutting.antt =====
-- Streams that were closed.
use computer_network_final_p.Base.{
  ◌≡◌, ap, subst, inl, inr, Bool, Bool-cases, some, Option-cases, ℕ, List, ok, fault, ok-injective,
  Result-cases,
}
use computer_network_final_p.Base.Dict.{find, nat_eq, bytes_eq, find-insert, beq_self}
use computer_network_final_p.FileStore.{FileStore, finalize_file}
use computer_network_final_p.FileStore.Files.{Disk, open_stream, fclose, rename}

-- A stream that was closed is shut.
pub fclose-shut :
    (d closed : Disk) (handle : ℕ) → fclose d handle ≡ ok closed → open_stream closed handle ≡ fault
unfolding fclose open_stream
fclose-shut d closed handle e = elim (Option-cases (find handle d.streams)) [
  | inl never ↦ absurd (let e1 = rw (never, open_stream) at e in cc)
  | inr (s, found) ↦ elim (Bool-cases s.is_open) [
    | inr shut ↦ absurd (let e1 = rw (found, open_stream, shut) at e in cc)
    | inl usable ↦
        let e1 = ok-injective (rw (found, open_stream, usable) at e) in
        subst (λ d. open_stream d handle ≡ fault) e1
          (rw (find-insert handle handle _ d.streams, beq_self handle, open_stream))
  ]
]

streams_shut :
    (d d' : Disk) (handle : ℕ)
    → d'.streams ≡ d.streams
    → open_stream d handle ≡ fault
    → open_stream d' handle ≡ fault
unfolding open_stream
streams_shut d d' handle same shut = rw same shut

rename-streams : (d : Disk) (old new : List ℕ) → (rename d old new).streams ≡ d.streams
unfolding rename
rename-streams d old new = elim (Option-cases (find old d.names)) [
  | inl missing ↦ rw (missing, rename)
  | inr (file, found) ↦ rw (found, rename)
]

pub finalize_file-shut :
    (renames : Bool) (store after : FileStore) (id : ℕ) (filename : List ℕ) (handle : ℕ)
    (success : Bool)
    → finalize_file renames store id filename (some handle) ≡ ok (after, success)
    → open_stream after.disk handle ≡ fault
unfolding finalize_file
finalize_file-shut renames store after id filename handle success e =
    elim (Result-cases (fclose store.disk handle)) [
      | inr (inl (what, thrown)) ↦ absurd (let e1 = rw (thrown, finalize_file) at e in cc)
      | inr (inr broken) ↦ absurd (let e1 = rw (broken, finalize_file) at e in cc)
      | inl (closed, done) ↦
          let shut = fclose-shut store.disk closed handle done in
          elim (Bool-cases renames) [
            | inl renamed ↦
                let e1 =
                  ap (λ p. (p.0).disk) (ok-injective (rw (done, finalize_file, renamed) at e)) in
                subst (λ d. open_stream d handle ≡ fault) e1
                  (streams_shut closed _ handle (rename-streams closed _ _) shut)
            | inr refused ↦
                let e1 =
                  ap (λ p. (p.0).disk) (ok-injective (rw (done, finalize_file, refused) at e)) in
                subst (λ d. open_stream d handle ≡ fault) e1 shut
          ]
    ]

pub finalize_file-fault :
    (renames : Bool) (store : FileStore) (id : ℕ) (filename : List ℕ) (handle : ℕ)
    → open_stream store.disk handle ≡ fault
    → finalize_file renames store id filename (some handle) ≡ fault
unfolding finalize_file fclose
finalize_file-fault renames store id filename handle shut = rw shut
