-- ===== src/Server/Steps.antt =====
-- The read loop, the write queue and the connections of a server as steps of its world, one for each
-- handler that the event loop runs.
use computer_network_final_p.Base.{
  ℕ, ◌*◌, ◌≡◌, ap, subst, Bool, true, false, not, ◌||◌, Bool-cases, inl, inr, List, [], length,
  drop, ltb, ◌==◌, Result, ok, Result-cases, ok-injective, ◌>>=◌,
}
use computer_network_final_p.Base.Dict.{adjust, nat_eq}
use computer_network_final_p.Wire.{little}
use computer_network_final_p.Protocol.Message.{
  MsgType, validate_header, payload_len, type_of, header_of,
}
use computer_network_final_p.Transfer.{init}
use computer_network_final_p.Auth.PasswordHash.{HexReader}
use computer_network_final_p.Db.{Services}
use computer_network_final_p.Server.{World, FileAnswers, drop_auth}
use computer_network_final_p.Server.Dispatch.{
  Phase, header, body, stopped, handle_message, header_read, body_read, written, accept_connection,
  destroy,
}

-- The worlds that a server comes to from its first one, which has no transfer. What a connection sends, what
-- the system answers, how writes end and when connections come and go is free. A step that faults is none:
-- what follows the use of a closed stream is not defined, so it leads to no world.
pub data Reach {S : Services} (first : World S) : World S → Type 0 where
  starts : first.transfers ≡ init → Reach first first
  accepts : (w : World S) (id : ℕ) → Reach first w → Reach first (accept_connection w id)
  reads_header :
      (read : HexReader) (a : FileAnswers) (w w' : World S) (self : ℕ) (in_error : Bool) (n : ℕ)
      (bytes : List ℕ) (phase : Phase)
      → Reach first w
      → header_read read a w self in_error n bytes ≡ ok (w', phase)
      → Reach first w'
  reads_body :
      (read : HexReader) (a : FileAnswers) (w w' : World S) (self : ℕ) (type : MsgType) (len : ℕ)
      (in_error : Bool) (bytes : List ℕ) (phase : Phase)
      → Reach first w
      → body_read read a w self type len in_error bytes ≡ ok (w', phase)
      → Reach first w'
  writes :
      (w : World S) (id : ℕ) (in_error : Bool) → Reach first w → Reach first (written w id in_error)
  ends : (w : World S) (id : ℕ) → Reach first w → Reach first (destroy w id)

-- What is needed of a statement on worlds to follow it along the steps.
pub record IsKept {S : Services} (first : World S) (P : World S → Type 0) : Type 0 where
  pub handled :
      (read : HexReader) (a : FileAnswers) (w : World S) (self : ℕ) (type : MsgType)
      (payload : List ℕ)
      → Reach first w
      → P w
      → (w' : World S) → handle_message read a w self type payload ≡ ok w'
      → P w'
  pub dropped : (w : World S) (self : ℕ) → P w → P (drop_auth w self)
  pub popped :
      (w : World S) (id : ℕ)
      → P w
      → P (record w { objects = adjust id (λ s. record s { outq = drop 1 s.outq }) w.objects })
  pub connected : (w : World S) (id : ℕ) → P w → P (accept_connection w id)
  pub gone : (w : World S) (id : ℕ) → P w → P (destroy w id)

module _ {S : Services} (first : World S) (P : World S → Type 0) (kept : IsKept first P) where
  -- The world of an outcome that is a world and what the read loop waits for.
  abbrev GoesOn : Result (World S × Phase) → Type 0
  GoesOn r = (w' : World S) (phase : Phase) → r ≡ ok (w', phase) → P w'

  GoesOn-ok : (w : World S) (phase : Phase) → P w → GoesOn (ok (w, phase))
  GoesOn-ok w phase v w' phase' e = subst P (ap (λ p. p.0) (ok-injective e)) v

  handled-GoesOn :
      (read : HexReader) (a : FileAnswers) (w : World S) (self : ℕ) (type : MsgType)
      (payload : List ℕ)
      → Reach first w
      → P w
      → GoesOn (do w' ← handle_message read a w self type payload; ok (w', header))
  handled-GoesOn read a w self type payload r v w' phase e =
      elim (Result-cases (handle_message read a w self type payload)) [
        | inl (w1, handled) ↦
            GoesOn-ok w1 header (kept.handled read a w self type payload r v w1 handled) w' phase
              (rw handled at e)
        | inr (inl (what, thrown)) ↦ absurd (let e1 = rw thrown at e in cc)
        | inr (inr broken) ↦ absurd (let e1 = rw broken at e in cc)
      ]

  body_read-GoesOn :
      (read : HexReader) (a : FileAnswers) (w : World S) (self : ℕ) (type : MsgType) (len : ℕ)
      (in_error : Bool) (bytes : List ℕ)
      → Reach first w
      → P w
      → GoesOn (body_read read a w self type len in_error bytes)
  unfolding body_read
  body_read-GoesOn read a w self type len in_error bytes r v =
      elim (Bool-cases (in_error || not (length bytes == len))) [
        | inl short ↦ rw short (GoesOn-ok _ stopped (kept.dropped w self v))
        | inr whole ↦ rw whole (handled-GoesOn read a w self type bytes r v)
      ]

  header_read-GoesOn :
      (read : HexReader) (a : FileAnswers) (w : World S) (self : ℕ) (in_error : Bool) (n : ℕ)
      (bytes : List ℕ)
      → Reach first w
      → P w
      → GoesOn (header_read read a w self in_error n bytes)
  unfolding header_read
  header_read-GoesOn read a w self in_error n bytes r v =
      let m = header_of little bytes in
      let len = payload_len little m in
      elim (Bool-cases (in_error || not (n == 12))) [
        | inl short ↦ rw short (GoesOn-ok _ stopped (kept.dropped w self v))
        | inr whole ↦ elim (Result-cases (validate_header little m)) [
          | inr (inr broken) ↦ rw (whole, broken) (λ w' phase e. absurd cc)
          | inr (inl (what, bad)) ↦ rw (whole, bad) (GoesOn-ok _ stopped (kept.dropped w self v))
          | inl (done, valid) ↦ elim (Bool-cases (ltb (16 * 1024 * 1024) len)) [
            | inl large ↦ rw (whole, valid, large) (GoesOn-ok w stopped v)
            | inr fits ↦ elim (Bool-cases (len == 0)) [
              | inl empty ↦
                  rw (whole, valid, fits, empty)
                    (handled-GoesOn read a w self (type_of m.type_byte) [] r v)
              | inr more ↦
                  rw (whole, valid, fits, more) (GoesOn-ok w (body (type_of m.type_byte) len) v)
            ]
          ]
        ]
      ]

  written_keeps : (w : World S) (id : ℕ) (in_error : Bool) → P w → P (written w id in_error)
  unfolding written
  written_keeps w id true v = kept.dropped w id v
  written_keeps w id false v = kept.popped w id v

  -- What every step keeps and the first world has holds in every world that the server reaches.
  pub Reach-induction : (first.transfers ≡ init → P first) → {w : World S} → Reach first w → P w
  Reach-induction base (starts fresh) = base fresh
  Reach-induction base (accepts w id r) = kept.connected w id (Reach-induction base r)
  Reach-induction base (reads_header read a w w' self in_error n bytes phase r e) =
      header_read-GoesOn read a w self in_error n bytes r (Reach-induction base r) w' phase e
  Reach-induction base (reads_body read a w w' self type len in_error bytes phase r e) =
      body_read-GoesOn read a w self type len in_error bytes r (Reach-induction base r) w' phase e
  Reach-induction base (writes w id in_error r) =
      written_keeps w id in_error (Reach-induction base r)
  Reach-induction base (ends w id r) = kept.gone w id (Reach-induction base r)
