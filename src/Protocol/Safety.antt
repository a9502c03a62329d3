-- ===== src/Protocol/Safety.antt =====
-- No `deserialize` reads outside its payload, but FILE_DONE's.
use computer_network_final_p.Base.{
  ℕ, zero, suc, ◌+◌, ◌<◌, ◌≤◌, ◌≡◌, ◌≢◌, true, String, if◌then◌else◌, List, [], length, ltb, leb,
  ◌==◌, ok, err, fault, Result, ◌>>=◌, ◌>>◌, throw_if, text, arith, Bool-cases, inl, inr, ◌↔◌,
  leb→le,
}
use computer_network_final_p.Wire.{Endian, get, get_bytes}
use computer_network_final_p.Wire.Reading.{
  get-ne-fault, get_byte-ne-fault, get64_portable-ne-fault, get_bytes-ne-fault,
}
use computer_network_final_p.Protocol.{get_text, optional_text}
use computer_network_final_p.Protocol.FileOfferReq
use computer_network_final_p.Protocol.FileOfferResp
use computer_network_final_p.Protocol.FileAcceptReq
use computer_network_final_p.Protocol.FileAcceptResp
use computer_network_final_p.Protocol.FileChunk
use computer_network_final_p.Protocol.FileDone
use computer_network_final_p.Protocol.FileResult
use computer_network_final_p.Protocol.RegisterReq
use computer_network_final_p.Protocol.LoginReq
use computer_network_final_p.Protocol.OnlineListResp

-- No fault, and a value that is returned satisfies `P`.
data Safe {ℓ} {A : Type ℓ} (P : A → Type 0) : Result A → Type ℓ where
  returns : (a : A) → P a → Safe P (ok a)
  throws : (e : List ℕ) → Safe P (err e)

abbrev Any {ℓ} : {A : Type ℓ} → A → Type 0
Any a = Unit {0}

Safe-ne-fault {ℓ} : {A : Type ℓ} {P : A → Type 0} {r : Result A} → Safe P r → r ≢ fault
Safe-ne-fault (returns a p) e = cc
Safe-ne-fault (throws x) e = cc

bind {ℓ κ} :
    {A : Type ℓ} {B : Type κ} {P : A → Type 0} {Q : B → Type 0} {m : Result A} (f : A → Result B)
    → Safe P m
    → ((a : A) → P a → Safe Q (f a))
    → Safe Q (m >>= f)
bind f (returns a p) k = k a p
bind f (throws e) k = throws e

-- Behind a check the code may rely on what was checked.
check {ℓ} :
    {B : Type ℓ} {Q : B → Type 0} (payload : List ℕ) (n : ℕ) (message : String) (k : Result B)
    → (n ≤ length payload → Safe Q k)
    → Safe Q (throw_if (ltb (length payload) n) message >> k)
check payload n message k h = elim (Bool-cases (ltb (length payload) n)) [
  | inl short ↦ rw short (throws (text message))
  | inr long ↦ rw long (h (ground arith))
]

read {ℓ} : {A : Type ℓ} {m : Result A} → ((a : A) × (m ≡ ok a)) → Safe Any m
read (a, e) = rw e (returns a tt)

get_text-Safe :
    (h : Endian) (payload : List ℕ) (pos : ℕ) (invalid : String)
    → pos + 2 ≤ length payload
    → Safe (λ r. r.1 ≤ length payload) (get_text h payload pos invalid)
unfolding get_text
get_text-Safe h payload pos invalid fits = bind _ (read (get-ne-fault h 2 payload pos fits)) λ n _.
    check payload (pos + 2 + n) invalid _
      λ room. rw (get_bytes-ne-fault payload (pos + 2) n room) (returns _ room)

optional_text-Safe :
    (h : Endian) (payload : List ℕ) (pos : ℕ) → Safe Any (optional_text h payload pos)
unfolding optional_text
optional_text-Safe h payload pos = elim (Bool-cases (leb (pos + 2) (length payload))) [
  | inr short ↦ rw short (returns [] tt)
  | inl long ↦ rw long (bind _ (read (get-ne-fault h 2 payload pos (leb→le _ _ long))) (inner long))
]
  where
    inner :
        leb (pos + 2) (length payload) ≡ true
        → (n : ℕ) → Any n
        → Safe Any
            (if leb (pos + 2 + n) (length payload) then get_bytes payload (pos + 2) n else ok [])
    inner long n _ = elim (Bool-cases (leb (pos + 2 + n) (length payload))) [
      | inr short ↦ rw short (returns [] tt)
      | inl room ↦
          rw (room, get_bytes-ne-fault payload (pos + 2) n (leb→le _ _ room)) (returns _ tt)
    ]

module _ (h : Endian) (payload : List ℕ) where
  offer_req-Safe : Safe Any (FileOfferReq.deserialize h payload)
  unfolding FileOfferReq.deserialize
  offer_req-Safe = check payload 14 _ _ λ h14.
      bind _ (read (get64_portable-ne-fault h payload 0 (omega arith))) λ id _.
        check payload 10 _ _ λ h10. bind _ (get_text-Safe h payload 8 _ h10) λ t1 _.
          check payload (t1.1 + 2) _ _ λ h1. bind _ (get_text-Safe h payload t1.1 _ h1) λ t2 _.
            check payload (t2.1 + 8) _ _ λ h2.
              bind _ (read (get64_portable-ne-fault h payload t2.1 h2)) λ size _.
                check payload (t2.1 + 8 + 4) _ _ λ h3.
                  bind _ (read (get-ne-fault h 4 payload (t2.1 + 8) h3)) λ chunk _. returns _ tt

  status_reply :
      {A : Type 0} (pos : ℕ) (f : List ℕ → A) (status : ℕ)
      → Safe Any
          ((if status == 0 then ok [] else optional_text h payload pos) >>= λ reason. ok (f reason))
  status_reply pos f status = elim (Bool-cases (status == 0)) [
    | inl good ↦ rw good (returns _ tt)
    | inr bad ↦ rw bad (bind _ (optional_text-Safe h payload pos) λ reason _. returns _ tt)
  ]

  offer_resp-Safe : Safe Any (FileOfferResp.deserialize h payload)
  unfolding FileOfferResp.deserialize
  offer_resp-Safe = check payload 9 _ _ λ h9.
      bind _ (read (get_byte-ne-fault payload 0 (omega arith))) λ status _.
        bind _ (read (get64_portable-ne-fault h payload 1 (omega arith)))
          λ id _. status_reply 9 _ status

  accept_req-Safe : Safe Any (FileAcceptReq.deserialize h payload)
  unfolding FileAcceptReq.deserialize
  accept_req-Safe = check payload 9 _ _ λ h9.
      bind _ (read (get-ne-fault h 8 payload 0 (omega arith)))
        λ id _. bind _ (read (get_byte-ne-fault payload 8 (omega arith))) λ flag _. returns _ tt

  accept_resp-Safe : Safe Any (FileAcceptResp.deserialize h payload)
  unfolding FileAcceptResp.deserialize
  accept_resp-Safe = check payload 1 _ _ λ h1.
      bind _ (read (get_byte-ne-fault payload 0 (omega arith))) λ status _. status_reply 1 _ status

  chunk-Safe : Safe Any (FileChunk.deserialize h payload)
  unfolding FileChunk.deserialize
  chunk-Safe = check payload 12 _ _ λ h12.
      bind _ (read (get-ne-fault h 8 payload 0 (omega arith)))
        λ id _. bind _ (read (get-ne-fault h 4 payload 8 (omega arith))) λ index _. returns _ tt

  result-Safe : Safe Any (FileResult.deserialize h payload)
  unfolding FileResult.deserialize
  result-Safe = check payload 9 _ _ λ h9.
      bind _ (read (get-ne-fault h 8 payload 0 (omega arith))) λ id _.
        bind _ (read (get_byte-ne-fault payload 8 (omega arith)))
          λ status _. bind _ (optional_text-Safe h payload 9) λ path _. returns _ tt

  register_req-Safe : Safe Any (RegisterReq.deserialize h payload)
  unfolding RegisterReq.deserialize
  register_req-Safe = check payload 6 _ _ λ h6.
      bind _ (get_text-Safe h payload 0 _ (omega arith)) λ t1 _. check payload (t1.1 + 2) _ _ λ h1.
        bind _ (get_text-Safe h payload t1.1 _ h1) λ t2 _.
          check payload (t2.1 + 2) _ _
            λ h2. bind _ (get_text-Safe h payload t2.1 _ h2) λ t3 _. returns _ tt

  login_req-Safe : Safe Any (LoginReq.deserialize h payload)
  unfolding LoginReq.deserialize
  login_req-Safe = check payload 4 _ _ λ h4.
      bind _ (get_text-Safe h payload 0 _ (omega arith)) λ t1 _.
        check payload (t1.1 + 2) _ _
          λ h1. bind _ (get_text-Safe h payload t1.1 _ h1) λ t2 _. returns _ tt

  usernames-Safe : (rounds pos : ℕ) → Safe Any (OnlineListResp.get_usernames h rounds payload pos)
  unfolding OnlineListResp.get_usernames
  usernames-Safe zero pos = returns [] tt
  usernames-Safe (suc rounds) pos = elim (Bool-cases (leb (pos + 2) (length payload))) [
    | inr short ↦ rw short (returns [] tt)
    | inl long ↦ rw long (
        bind _ (read (get-ne-fault h 2 payload pos (leb→le _ _ long))) λ n _.
          elim (Bool-cases (leb (pos + 2 + n) (length payload))) [
            | inr skip ↦ rw skip (usernames-Safe rounds (pos + 2))
            | inl room ↦
                rw (room, get_bytes-ne-fault payload (pos + 2) n (leb→le _ _ room))
                  (bind _ (usernames-Safe rounds (pos + 2 + n)) λ rest _. returns _ tt)
          ])
  ]

  online_list-Safe : Safe Any (OnlineListResp.deserialize h payload)
  unfolding OnlineListResp.deserialize
  online_list-Safe = elim (Bool-cases (ltb (length payload) 2)) [
    | inl short ↦ rw short (returns [] tt)
    | inr long ↦
        rw long
          (bind _ (read (get-ne-fault h 2 payload 0 (ground arith))) λ n _. usernames-Safe n 2)
  ]

  -- Whatever the payload, on every host, no request, answer or list but FILE_DONE makes its reader
  -- leave the payload.
  pub deserialize-ne-fault :
      (FileOfferReq.deserialize h payload ≢ fault)
      × (FileOfferResp.deserialize h payload ≢ fault)
      × (FileAcceptReq.deserialize h payload ≢ fault)
      × (FileAcceptResp.deserialize h payload ≢ fault)
      × (FileChunk.deserialize h payload ≢ fault)
      × (FileResult.deserialize h payload ≢ fault)
      × (RegisterReq.deserialize h payload ≢ fault)
      × (LoginReq.deserialize h payload ≢ fault)
      × (OnlineListResp.deserialize h payload ≢ fault)
  deserialize-ne-fault = (
    Safe-ne-fault offer_req-Safe,
    Safe-ne-fault offer_resp-Safe,
    Safe-ne-fault accept_req-Safe,
    Safe-ne-fault accept_resp-Safe,
    Safe-ne-fault chunk-Safe,
    Safe-ne-fault result-Safe,
    Safe-ne-fault register_req-Safe,
    Safe-ne-fault login_req-Safe,
    Safe-ne-fault online_list-Safe,
  )

  -- FILE_DONE's length check is four bytes short: exactly the payloads of 16 to 19 bytes pass it and
  -- make the last read run past the end.
  pub deserialize_done_faults :
      (FileDone.deserialize h payload ≡ fault) ↔ ((16 ≤ length payload) × (length payload < 20))
  unfolding FileDone.deserialize get
  deserialize_done_faults = (λ e. ground arith, λ range. ground arith)
