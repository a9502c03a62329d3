-- ===== src/Server/Writing/Order.antt =====
-- What the write queue puts on the wire.
use computer_network_final_p.Base.{
  ℕ, zero, suc, ◌≡◌, ◌≢◌, refl, sym, ap, ◌∙◌, subst, ◌⊎◌, inl, inr, Option, none, some, List, [],
  ◌∷◌, ◌++◌, append_assoc, append-nil, length, Result, ok, ok-injective, Result-cases,
}
use computer_network_final_p.Server.Writing.{
  Frame, Writer, empty, start_write, do_write, send_frame, pop_front, write_ended, write_failed,
  Event, sends, succeeds, fails, on_event, run, new_writer, frames_of, front, IsServed, IsStuck,
  Carries,
}

abbrev After : List Frame → Result Writer → Type 0
After frames r = (w : Writer) × (r ≡ ok w) × Carries frames w

some_cons :
    (f g : Frame) (l rest frames : List Frame)
    → some f ≡ some g
    → l ++ (g ∷ rest) ≡ frames
    → (l ++ (f ∷ [])) ++ rest ≡ frames
some_cons f g l rest frames same e =
    let here : g ≡ f = cc in
    append_assoc l (f ∷ []) rest ∙ (ap (λ h. l ++ (h ∷ rest)) (sym here) ∙ e)

push_cons :
    (f : Frame) (l q frames : List Frame)
    → l ++ q ≡ frames
    → l ++ (q ++ (f ∷ [])) ≡ frames ++ (f ∷ [])
push_cons f l q frames e = sym (append_assoc l q (f ∷ [])) ∙ ap (λ k. k ++ (f ∷ [])) e

send_frame-Carries :
    (f : Frame) (q : List Frame) (i : Option Frame) (l frames : List Frame)
    → Carries frames (record { outq = q; in_flight = i; on_wire = l })
    → After (frames ++ (f ∷ [])) (send_frame f (record { outq = q; in_flight = i; on_wire = l }))
unfolding send_frame do_write start_write empty Carries IsServed IsStuck front
send_frame-Carries f [] none l frames (e, w) = (_, refl, (push_cons f l [] frames e, inl refl))
send_frame-Carries f [] (some g) l frames (e, inl served) = absurd cc
send_frame-Carries f [] (some g) l frames (e, inr (idle, waits)) = absurd cc
send_frame-Carries f (g ∷ rest) i l frames (e, inl served) =
    (_, refl, (push_cons f l (g ∷ rest) frames e, inl served))
send_frame-Carries f (g ∷ rest) i l frames (e, inr (idle, waits)) =
    (_, refl, (push_cons f l (g ∷ rest) frames e, inr (idle, λ h. cc)))

write_ended-Carries :
    (q : List Frame) (i : Option Frame) (l frames : List Frame)
    → Carries frames (record { outq = q; in_flight = i; on_wire = l })
    → After frames (write_ended i (record { outq = q; in_flight = i; on_wire = l }))
unfolding write_ended pop_front do_write start_write empty Carries IsServed IsStuck front
write_ended-Carries q none l frames c = (_, refl, c)
write_ended-Carries [] (some f) l frames (e, inl served) = absurd cc
write_ended-Carries (g ∷ []) (some f) l frames (e, inl served) =
    (_, refl, (some_cons f g l [] frames served e, inl refl))
write_ended-Carries (g ∷ h ∷ rest) (some f) l frames (e, inl served) =
    (_, refl, (some_cons f g l (h ∷ rest) frames served e, inl refl))
write_ended-Carries q (some f) l frames (e, inr (idle, waits)) = absurd cc

write_failed-Carries :
    (q : List Frame) (i : Option Frame) (l frames : List Frame)
    → Carries frames (record { outq = q; in_flight = i; on_wire = l })
    → Carries frames (write_failed (record { outq = q; in_flight = i; on_wire = l }))
unfolding write_failed Carries IsServed IsStuck front
write_failed-Carries [] i l frames (e, w) = (e, inl refl)
write_failed-Carries (g ∷ rest) i l frames (e, w) = (e, inr (refl, λ h. cc))

unfoldable frames_of_event : Event → List Frame
frames_of_event (sends f) = f ∷ []
frames_of_event succeeds = []
frames_of_event fails = []

on_event-Carries :
    (e : Event) (w : Writer) (frames : List Frame)
    → Carries frames w
    → After (frames ++ frames_of_event e) (on_event e w)
unfolding on_event frames_of_event
on_event-Carries (sends f) w frames c = send_frame-Carries f w.outq w.in_flight w.on_wire frames c
on_event-Carries succeeds w frames c =
    rw (append-nil frames) (write_ended-Carries w.outq w.in_flight w.on_wire frames c)
on_event-Carries fails w frames c =
    (_, refl, rw (append-nil frames) (write_failed-Carries w.outq w.in_flight w.on_wire frames c))

frames_of-cons :
    (e : Event) (rest : List Event) → frames_of (e ∷ rest) ≡ frames_of_event e ++ frames_of rest
unfolding frames_of frames_of_event
frames_of-cons (sends f) rest = refl
frames_of-cons succeeds rest = refl
frames_of-cons fails rest = refl

run_from-Carries :
    (events : List Event) (w : Writer) (frames : List Frame)
    → Carries frames w
    → After (frames ++ frames_of events) (run events w)
unfolding run frames_of
run_from-Carries [] w frames c = (w, refl, rw (append-nil frames) c)
run_from-Carries (e ∷ rest) w frames c =
    let (w1, stepped, c1) = on_event-Carries e w frames c in
    let (w2, ran, c2) = run_from-Carries rest w1 (frames ++ frames_of_event e) c1 in
    let all =
      append_assoc frames (frames_of_event e) (frames_of rest)
      ∙ ap (λ k. frames ++ k) (sym (frames_of-cons e rest)) in
    (w2, rw stepped ran, subst (λ k. Carries k w2) all c2)

-- Whatever is sent and however writes end, the write queue uses no missing frame and starts no second write
-- while one is under way; the frames on the wire, then those in the queue, are the frames that were sent, in
-- their order; and the front of the queue is being written, or a frame waits and no write is under way.
pub run-Carries :
    (events : List Event)
    → (w : Writer) × (run events new_writer ≡ ok w)
      × (w.on_wire ++ w.outq ≡ frames_of events)
      × (IsServed w ⊎ IsStuck w)
unfolding Carries
run-Carries events =
    let (w, ran, (all, served)) =
      run_from-Carries events new_writer []
        (unfold new_writer IsServed front in (refl, inl refl)) in
    (w, ran, all, served)

-- Writes that all end without an error, `n` of them.
unfoldable pub successes : ℕ → List Event
successes zero = []
successes (suc n) = succeeds ∷ successes n

unfoldable pub HasNoFailure : List Event → Type 0
HasNoFailure [] = Unit
HasNoFailure (sends f ∷ rest) = HasNoFailure rest
HasNoFailure (succeeds ∷ rest) = HasNoFailure rest
HasNoFailure (fails ∷ rest) = ⊥

-- Without a failure the writer stays served.
send_frame-IsServed :
    (f : Frame) (q : List Frame) (i : Option Frame) (l : List Frame) (w : Writer)
    → IsServed (record { outq = q; in_flight = i; on_wire = l })
    → send_frame f (record { outq = q; in_flight = i; on_wire = l }) ≡ ok w
    → IsServed w
unfolding send_frame do_write start_write empty IsServed front
send_frame-IsServed f [] none l w served e =
    subst IsServed (ok-injective e) (unfold IsServed front in refl)
send_frame-IsServed f [] (some g) l w served e = absurd cc
send_frame-IsServed f (g ∷ rest) i l w served e = subst IsServed (ok-injective e) served

write_ended-IsServed :
    (q : List Frame) (i : Option Frame) (l : List Frame) (w : Writer)
    → IsServed (record { outq = q; in_flight = i; on_wire = l })
    → write_ended i (record { outq = q; in_flight = i; on_wire = l }) ≡ ok w
    → IsServed w
unfolding write_ended pop_front do_write start_write empty IsServed front
write_ended-IsServed q none l w served e = subst IsServed (ok-injective e) served
write_ended-IsServed [] (some f) l w served e = absurd cc
write_ended-IsServed (g ∷ []) (some f) l w served e = subst IsServed (ok-injective e) refl
write_ended-IsServed (g ∷ h ∷ rest) (some f) l w served e = subst IsServed (ok-injective e) refl

run-IsServed :
    (events : List Event) (w w' : Writer)
    → HasNoFailure events
    → IsServed w
    → run events w ≡ ok w'
    → IsServed w'
unfolding run HasNoFailure on_event
run-IsServed [] w w' none_fails served e = subst IsServed (ok-injective e) served
run-IsServed (sends f ∷ rest) w w' none_fails served e = elim (Result-cases (send_frame f w)) [
  | inl (w1, sent) ↦
      run-IsServed rest w1 w' none_fails
        (send_frame-IsServed f w.outq w.in_flight w.on_wire w1 served sent) (rw sent at e)
  | inr (inl (what, thrown)) ↦ absurd (let e1 = rw thrown at e in cc)
  | inr (inr broken) ↦ absurd (let e1 = rw broken at e in cc)
]
run-IsServed (succeeds ∷ rest) w w' none_fails served e =
    elim (Result-cases (write_ended w.in_flight w)) [
      | inl (w1, ended) ↦
          run-IsServed rest w1 w' none_fails
            (write_ended-IsServed w.outq w.in_flight w.on_wire w1 served ended) (rw ended at e)
      | inr (inl (what, thrown)) ↦ absurd (let e1 = rw thrown at e in cc)
      | inr (inr broken) ↦ absurd (let e1 = rw broken at e in cc)
    ]
run-IsServed (fails ∷ rest) w w' none_fails served e = absurd none_fails

-- A served writer ends with its queue on the wire after as many writes.
run-successes :
    (q : List Frame) (l : List Frame)
    → run (successes (length q)) (record { outq = q; in_flight = front q; on_wire = l })
      ≡ ok (record { outq = []; in_flight = none; on_wire = l ++ q })
unfolding run successes front on_event write_ended pop_front do_write start_write empty
run-successes [] l = rw (append-nil l) refl
run-successes (f ∷ []) l = refl
run-successes (f ∷ g ∷ rest) l =
    rw (← append_assoc l (f ∷ []) (g ∷ rest)) (run-successes (g ∷ rest) (l ++ (f ∷ [])))

-- If no write fails, then as many more writes as the queue holds put exactly the frames that were sent on
-- the wire, in their order.
pub run-frames_of :
    (events : List Event)
    → HasNoFailure events
    → (w : Writer) × (run events new_writer ≡ ok w)
      × (run (successes (length w.outq)) w
          ≡ ok (record { outq = []; in_flight = none; on_wire = frames_of events }))
unfolding IsServed
run-frames_of events none_fails =
    let (w, ran, all, _) = run-Carries events in
    let served =
      run-IsServed events new_writer w none_fails (unfold new_writer front in refl) ran in
    (
      w,
      ran,
      subst
          (λ k.
            run (successes (length w.outq)) w
            ≡ ok (record { outq = []; in_flight = none; on_wire = k }))
          all
          (subst
            (λ i.
              run (successes (length w.outq)) (record w { in_flight = i })
              ≡ ok (record { outq = []; in_flight = none; on_wire = w.on_wire ++ w.outq }))
            (sym served) (run-successes w.outq w.on_wire)),
    )

run_from-IsStuck :
    (events : List Event) (q : List Frame) (l : List Frame)
    → q ≢ []
    → (w : Writer) × (run events (record { outq = q; in_flight = none; on_wire = l }) ≡ ok w)
      × (w.on_wire ≡ l)
unfolding run on_event send_frame write_ended write_failed empty
run_from-IsStuck [] q l waits = (_, refl, refl)
run_from-IsStuck (sends f ∷ rest) [] l waits = absurd (waits refl)
run_from-IsStuck (sends f ∷ rest) (g ∷ q) l waits = run_from-IsStuck rest _ l (λ e. cc)
run_from-IsStuck (succeeds ∷ rest) q l waits = run_from-IsStuck rest q l waits
run_from-IsStuck (fails ∷ rest) q l waits = run_from-IsStuck rest q l waits

-- After a write that failed, no frame goes on the wire any more, whatever is sent.
pub run-fails :
    (w : Writer) (f : Frame) (events : List Event)
    → IsServed w
    → w.in_flight ≡ some f
    → (w' : Writer) × (run (fails ∷ events) w ≡ ok w') × (w'.on_wire ≡ w.on_wire)
unfolding run on_event write_failed IsServed front
run-fails w f events served writing =
    run_from-IsStuck events w.outq w.on_wire (waits w.outq (sym writing ∙ served))
  where
    waits : (q : List Frame) → some f ≡ front q → q ≢ []
    waits [] e = absurd (unfold front in cc)
    waits (g ∷ q) e = λ h. cc
