-- ===== src/Tests/Writing.antt =====
-- A write queue with two frames.
use computer_network_final_p.Base.{◌≡◌, refl, ◌⊎◌, some, none, List, [], ◌∷◌, ◌++◌, length, ok}
use computer_network_final_p.Server.Writing.{
  Writer, Event, sends, succeeds, fails, run, new_writer, frames_of, IsServed, IsStuck,
}
use computer_network_final_p.Server.Writing.Order.{
  run-Carries, run-frames_of, run-fails, successes, HasNoFailure,
}

abbrev two_sent : List Event
two_sent = sends (1 ∷ []) ∷ sends (2 ∷ []) ∷ succeeds ∷ []

run-Carries_example :
    (w : Writer) × (run two_sent new_writer ≡ ok w)
    × (w.on_wire ++ w.outq ≡ frames_of two_sent)
    × (IsServed w ⊎ IsStuck w)
run-Carries_example = run-Carries two_sent

two_sent_well : HasNoFailure two_sent
unfolding HasNoFailure
two_sent_well = tt

run-frames_of_example :
    (w : Writer) × (run two_sent new_writer ≡ ok w)
    × (run (successes (length w.outq)) w
        ≡ ok (record { outq = []; in_flight = none; on_wire = frames_of two_sent }))
run-frames_of_example = run-frames_of two_sent two_sent_well

abbrev one_under_way : Writer
one_under_way = record { outq = (5 ∷ []) ∷ []; in_flight = some (5 ∷ []); on_wire = [] }

one_under_way-IsServed : IsServed one_under_way
unfolding IsServed
one_under_way-IsServed = refl

run-fails_example :
    (w' : Writer) × (run (fails ∷ two_sent) one_under_way ≡ ok w') × (w'.on_wire ≡ [])
run-fails_example = run-fails one_under_way (5 ∷ []) two_sent one_under_way-IsServed refl
