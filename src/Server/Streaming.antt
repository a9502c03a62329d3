-- ===== src/Server/Streaming.antt =====
-- The read loop of one connection over the bytes that come in, and the messages that they carry.
use computer_network_final_p.Base.{
  ℕ, zero, suc, ◌+◌, ◌*◌, ◌%◌, ◌^◌, ◌<◌, ◌≤◌, ◌≡◌, ◌≢◌, refl, ap, ◌∙◌, subst, true, false, List, [],
  ◌∷◌, ◌++◌, append_assoc, length, length-append, All, take, drop, take-append, drop-append, ltb,
  le→ltb, ◌==◌, ==_iff, if◌then◌else◌, Result, ok, err, fault, ◌>>=◌, arith,
}
use computer_network_final_p.Wire.{Endian, little}
use computer_network_final_p.Protocol.Message.{MsgType, other, type_code, make_header, header_bytes}
use computer_network_final_p.Protocol.Framing.{header_of-header_bytes}
use computer_network_final_p.Auth.PasswordHash.{HexReader}
use computer_network_final_p.Db.{Services}
use computer_network_final_p.Client.{make_frame}
use computer_network_final_p.Client.Frames.{make_frame-header_bytes}
use computer_network_final_p.Server.{World, FileAnswers}
use computer_network_final_p.Server.Dispatch.{
  Phase, header, body, stopped, handle_message, header_read, body_read,
}
use computer_network_final_p.Server.Reading.{header_read-header_bytes}

abbrev pub Message : Type 0
Message = MsgType × List ℕ

-- The number of messages handled, after the read loop came to wait for something.
unfoldable pub counted : ℕ → Phase → ℕ
counted n header = n + 1
counted n (body type len) = n
counted n stopped = n

module _ {S : Services} (read : HexReader) (a : ℕ → FileAnswers) (self : ℕ) where
  -- Each read of the loop gets the bytes that it waits for, and the loop goes on while they are there;
  -- `a n` is what the system answers during message `n`.
  unfoldable pub read_loop : ℕ → ℕ → World S → Phase → List ℕ → Result (World S × Phase)
  unfolding counted
  read_loop zero n w phase bytes = fault
  read_loop (suc rounds) n w header bytes = if ltb (length bytes) 12 then ok (w, header) else (do
    (w', phase) ← header_read read (a n) w self false 12 (take 12 bytes)
    read_loop rounds (counted n phase) w' phase (drop 12 bytes))
  read_loop (suc rounds) n w (body type len) bytes =
      if ltb (length bytes) len then ok (w, body type len) else (do
        (w', phase) ← body_read read (a n) w self type len false (take len bytes)
        read_loop rounds (counted n phase) w' phase (drop len bytes))
  read_loop (suc rounds) n w stopped bytes = ok (w, stopped)

  -- The messages one after the other.
  unfoldable pub handle_all : ℕ → World S → List Message → Result (World S)
  handle_all n w [] = ok w
  handle_all n w ((type, payload) ∷ rest) = do
    w' ← handle_message read (a n) w self type payload
    handle_all (n + 1) w' rest

-- The frames that a client sends, one behind the other.
unfoldable pub frames : Endian → List Message → List ℕ
frames from [] = []
frames from ((type, payload) ∷ rest) = make_frame from (type_code type) payload ++ frames from rest

-- A known type, and a payload that the server takes.
abbrev pub IsMessage : Message → Type 0
IsMessage (type, payload) = ((c : ℕ) → type ≢ other c) × (length payload ≤ 16 * 1024 * 1024)

module _ (from : Endian) (type : MsgType) (known : (c : ℕ) → type ≢ other c) (payload more : List ℕ)
    (small : length payload ≤ 16 * 1024 * 1024) where
  abbrev head : List ℕ
  head = header_bytes from (make_header from type (length payload))

  head_size : length head ≡ 12
  head_size = (header_of-header_bytes from little type (length payload) known (omega arith)).0

  frame_is : make_frame from (type_code type) payload ++ more ≡ head ++ (payload ++ more)
  frame_is =
      let kept : length payload % 2 ^ 32 ≡ length payload = omega arith in
      rw (make_frame-header_bytes from type payload, kept) (append_assoc head payload more)

  front : take 12 (make_frame from (type_code type) payload ++ more) ≡ head
  front = rw frame_is (
      subst (λ n. take n (head ++ (payload ++ more)) ≡ head) head_size
        (take-append head (payload ++ more)))

  rest_of : drop 12 (make_frame from (type_code type) payload ++ more) ≡ payload ++ more
  rest_of = rw frame_is (
      subst (λ n. drop n (head ++ (payload ++ more)) ≡ payload ++ more) head_size
        (drop-append head (payload ++ more)))

  long_enough : ltb (length (make_frame from (type_code type) payload ++ more)) 12 ≡ false
  long_enough =
      le→ltb _ _
        (omega (arith, ap length frame_is, length-append head (payload ++ more), head_size))

module _ {ℓ} {A B : Type ℓ} where
  bind_congr : (r : Result A) (f g : A → Result B) → ((x : A) → f x ≡ g x) → (r >>= f) ≡ (r >>= g)
  bind_congr (ok x) f g e = e x
  bind_congr (err what) f g e = refl
  bind_congr fault f g e = refl

module _ {S : Services} (read : HexReader) (a : ℕ → FileAnswers) (self : ℕ) (from : Endian) where
  -- What comes behind a message that was handled.
  behind_header :
      (r : Result (World S)) (g : World S × Phase → Result (World S × Phase))
      → ((do w' ← r; ok (w', header)) >>= g) ≡ (do w' ← r; g (w', header))
  behind_header (ok w) g = refl
  behind_header (err what) g = refl
  behind_header fault g = refl

  abbrev waiting : World S → Result (World S × Phase)
  waiting w = ok (w, header)

  behind_all :
      (r : Result (World S)) (f : World S → Result (World S))
      → (r >>= λ w'. f w' >>= waiting) ≡ ((r >>= f) >>= waiting)
  behind_all (ok w) f = refl
  behind_all (err what) f = refl
  behind_all fault f = refl

  module _ (type : MsgType) (known : (c : ℕ) → type ≢ other c) (n : ℕ) (w : World S) where
    header_first :
        (payload more : List ℕ) (small : length payload ≤ 16 * 1024 * 1024)
        → header_read read
            (a n)
            w
            self
            false
            12
            (take 12 (make_frame from (type_code type) payload ++ more))
          ≡ (if length payload == 0
              then (do w' ← handle_message read (a n) w self type []; ok (w', header))
              else ok (w, body type (length payload)))
    header_first payload more small =
        let wanted : ltb (16 * 1024 * 1024) (length payload) ≡ false = le→ltb _ _ small in
        rw (front from type known payload more small) (
          header_read-header_bytes read (a n) w self from type known (length payload) (omega arith)
          ∙ rw wanted refl)

    one_message :
        (rounds : ℕ) (payload more : List ℕ)
        → length payload ≤ 16 * 1024 * 1024
        → 1 < rounds
        → (left : ℕ) × (rounds ≤ left + 2)
          × (read_loop read a self rounds n w header
                (make_frame from (type_code type) payload ++ more)
              ≡ (do
                w' ← handle_message read (a n) w self type payload
                read_loop read a self left (n + 1) w' header more))
    unfolding read_loop counted body_read
    one_message zero payload more small enough = absurd (omega arith)
    one_message (suc zero) payload more small enough = absurd (omega arith)
    one_message (suc (suc rounds)) [] more small enough = (
      suc rounds,
      omega arith,
      rw
          (
            long_enough from type known [] more small,
            header_first [] more small,
            rest_of from type known [] more small,
          )
          (behind_header (handle_message read (a n) w self type []) _),
    )
    one_message (suc (suc rounds)) (b ∷ bytes) more small enough =
        let payload : List ℕ = b ∷ bytes in
        let there : ltb (length (payload ++ more)) (length payload) ≡ false =
          le→ltb _ _ (omega (arith, length-append payload more)) in
        let some_bytes : (length payload == 0) ≡ false = ground arith in
        let whole : (length (take (length payload) (payload ++ more)) == length payload) ≡ true =
          (==_iff _ _).1 (ap length (take-append payload more)) in
        (
          rounds,
          omega arith,
          rw
              (
                long_enough from type known payload more small,
                header_first payload more small,
                some_bytes,
                rest_of from type known payload more small,
                there,
                whole,
                take-append payload more,
                drop-append payload more,
              )
              (behind_header (handle_message read (a n) w self type payload) _),
        )

  -- With more rounds than twice the messages, the read loop over the frames that a client of either byte
  -- order sends, of known types and with at most 16 MiB of payload, acts as the handlers on the
  -- messages in turn, up to the first error, and then waits for a header.
  pub read_loop-frames :
      (messages : List Message) (rounds n : ℕ) (w : World S)
      → All IsMessage messages
      → 2 * length messages < rounds
      → read_loop read a self rounds n w header (frames from messages)
        ≡ (do w' ← handle_all read a self n w messages; ok (w', header))
  unfolding frames handle_all
  read_loop-frames [] zero n w good enough = absurd (omega arith)
  read_loop-frames [] (suc rounds) n w good enough = unfold read_loop in refl
  read_loop-frames ((type, payload) ∷ rest) rounds n w good enough =
      let (left, room, first) =
        one_message type good.0.0 n w rounds payload (frames from rest) good.0.1 (omega arith) in
      first
      ∙ bind_congr (handle_message read (a n) w self type payload) _ _
          (λ w'. read_loop-frames rest left (n + 1) w' good.1 (omega arith))
      ∙ behind_all (handle_message read (a n) w self type payload)
          (λ w'. handle_all read a self (n + 1) w' rest)
