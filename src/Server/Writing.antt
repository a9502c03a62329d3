-- ===== src/Server/Writing.antt =====
-- The write queue of `TcpSession` with the asynchronous write that it keeps under way: `send` and
-- `do_write` of `core/src/net/tcp_session.cpp`. In Server.antt and Server/Dispatch only `outq_` is kept, as
-- the list of its frames.
pub mod Order
use computer_network_final_p.Base.{
  ℕ, zero, suc, ◌≡◌, ◌≢◌, refl, sym, ap, ◌∙◌, subst, ◌⊎◌, inl, inr, Bool, true, false, Option, none,
  some, List, [], ◌∷◌, ◌++◌, append_assoc, append-nil, length, if◌then◌else◌, Result, ok, err,
  fault, ◌>>=◌,
}

abbrev pub Frame : Type 0
Frame = List ℕ

-- `outq_`, the frame that `async_write` was started with and has not ended for, and the frames whose write
-- has ended without an error.
pub record Writer : Type 0 where
  pub outq : List Frame
  pub in_flight : Option Frame
  pub on_wire : List Frame

unfoldable pub empty : List Frame → Bool
empty [] = true
empty (f ∷ rest) = false

-- `async_write` of the front: there has to be one, and no other write of the socket may be under way.
unfoldable pub start_write : Option Frame → List Frame → Writer → Result Writer
start_write none [] w = fault
start_write none (f ∷ rest) w = ok (record w { in_flight = some f })
start_write (some g) q w = fault

unfoldable pub do_write : Writer → Result Writer
unfolding start_write
do_write w = start_write w.in_flight w.outq w

unfoldable pub send_frame : Frame → Writer → Result Writer
unfolding do_write empty
send_frame f w =
    let pushed = record w { outq = w.outq ++ (f ∷ []) } in
    if empty w.outq then do_write pushed else ok pushed

-- `pop_front`, which needs an element.
unfoldable pub pop_front : List Frame → Result (List Frame)
pop_front [] = fault
pop_front (f ∷ rest) = ok rest

-- The handler of a write that ended without an error, where one was under way.
unfoldable pub write_ended : Option Frame → Writer → Result Writer
unfolding pop_front empty do_write
write_ended none w = ok w
write_ended (some f) w = do
  rest ← pop_front w.outq
  let popped : Writer = record { outq = rest; in_flight = none; on_wire = w.on_wire ++ (f ∷ []) }
  if empty rest then ok popped else do_write popped

-- The handler of a write that ended with an error returns; the frame stays in front.
unfoldable pub write_failed : Writer → Writer
write_failed w = record w { in_flight = none }

pub data Event : Type 0 where
  sends : Frame → Event
  succeeds : Event
  fails : Event

unfoldable pub on_event : Event → Writer → Result Writer
unfolding send_frame write_ended write_failed
on_event (sends f) w = send_frame f w
on_event succeeds w = write_ended w.in_flight w
on_event fails w = ok (write_failed w)

unfoldable pub run : List Event → Writer → Result Writer
unfolding on_event
run [] w = ok w
run (e ∷ rest) w = do w' ← on_event e w; run rest w'

unfoldable pub new_writer : Writer
new_writer = record { outq = []; in_flight = none; on_wire = [] }

-- The frames that were given to `send`, in their order.
unfoldable pub frames_of : List Event → List Frame
frames_of [] = []
frames_of (sends f ∷ rest) = f ∷ frames_of rest
frames_of (succeeds ∷ rest) = frames_of rest
frames_of (fails ∷ rest) = frames_of rest

unfoldable pub front : List Frame → Option Frame
front [] = none
front (f ∷ rest) = some f

-- The write under way is the one of the front, or there is none although a frame waits.
unfoldable pub IsServed : Writer → Type 0
unfolding front
IsServed w = w.in_flight ≡ front w.outq

unfoldable pub IsStuck : Writer → Type 0
IsStuck w = (w.in_flight ≡ none) × (w.outq ≢ [])

-- What an event leaves: all frames so far, those on the wire first, and a writer that is served or stuck.
unfoldable pub Carries : List Frame → Writer → Type 0
unfolding IsServed IsStuck
Carries frames w = (w.on_wire ++ w.outq ≡ frames) × (IsServed w ⊎ IsStuck w)
