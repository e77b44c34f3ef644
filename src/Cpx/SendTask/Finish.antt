-- ===== src/Cpx/SendTask/Finish.antt =====
-- The senders of nanocockpit/lib/cpx/cpx.c finish when what is resumed runs and what is sent ends.
use aideck_gap8_examples.Base.{ℕ, zero, suc, ◌+◌, ◌≡◌, true, false, none, List, [], ◌∷◌}
use aideck_gap8_examples.Cpx.SendTask.{
  Point, absent, started, turn, on_air, Sends, Event, runs, completes, marks, calls_back, steps,
}
use aideck_gap8_examples.Cpx.SendTask.Inv.{IsValid}

-- What is resumed first runs, and a packet that is in flight ends.
abbrev pub cycle : List Event
cycle = runs ∷ completes ∷ marks ∷ calls_back ∷ []

unfoldable pub cycles : ℕ → Sends → Sends
cycles zero s = s
cycles (suc n) s = cycles n (steps s cycle)

-- How many cycles contexts need: one to send, and one to go on after it.
unfoldable cost : Point → ℕ
cost absent = 1
cost started = 2
cost turn = 2
cost on_air = 1

unfoldable load : (ℕ → Point) → List ℕ → ℕ
load point [] = 0
load point (c ∷ cs) = cost (point c) + load point cs

-- Nothing is sent.
record Quiet (s : Sends) : Type 0 where
  is_valid : IsValid s
  is_done : s.done ≡ true
  not_pushed : s.pushed ≡ false
  nobody : s.waiting ≡ []
  nothing : s.in_flight ≡ none

-- A state in which one cycle less is to come.
Nearer : Sends → Sends → Type 0
Nearer s u = Quiet u × (suc (load u.point u.resumed) ≡ load s.point s.resumed)

-- Nobody is sending.
abbrev pub AllSent : Sends → Type 0
AllSent s = (c : ℕ) → s.point c ≡ absent
