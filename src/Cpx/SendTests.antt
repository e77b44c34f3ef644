-- ===== src/Cpx/SendTests.antt =====
-- Two senders of nanocockpit/lib/cpx/cpx.c.
use aideck_gap8_examples.Base.{List, [], ◌∷◌}
use aideck_gap8_examples.Cpx.SendTask.{
  Sends, initial, Event, sends, runs, completes, marks, calls_back, steps,
}

-- The packet of 7 is sent first, then that of 8, while 9 waits for its turn.
abbrev contended : List Event
contended =
    marks
    ∷ calls_back
    ∷ sends 7
    ∷ sends 8
    ∷ runs
    ∷ runs
    ∷ completes
    ∷ marks
    ∷ calls_back
    ∷ runs
    ∷ sends 9
    ∷ runs
    ∷ runs
    ∷ []

abbrev reached : Sends
reached = steps initial contended
