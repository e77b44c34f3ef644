-- ===== src/CoEvent/Tests.antt =====
-- Two coroutines wait on an event of nanocockpit/lib/coroutine.h.
use aideck_gap8_examples.Base.{ℕ_discrete, ◌≡◌, refl, false, [], ◌∷◌, ok, arith}
use aideck_gap8_examples.LinkedList.{link}
use aideck_gap8_examples.CoEvent.{Event, callback, wait}
use aideck_gap8_examples.CoEvent.Callback.{callback_lem, wait-callback}

abbrev event : Event
event = record {
  done = false;
  waiting = record { first = 8; next = link (λ a. 0) 8 16 };
  pushed = [];
}

callback_lem_example :
    (e' : Event) × (callback 2 event ≡ ok e') × (e'.waiting.first ≡ 0) × (e'.pushed ≡ 8 ∷ 16 ∷ [])
unfolding ℕ_discrete
callback_lem_example =
    callback_lem 2 event (8 ∷ 16 ∷ []) (omega arith) (refl, omega arith, (refl, omega arith, refl))
      (omega arith)

wait-callback_example :
    (e' e'' : Event) × (wait 3 event 24 ≡ ok e')
    × (callback 3 e' ≡ ok e'')
    × (e''.waiting.first ≡ 0)
    × (e''.pushed ≡ 8 ∷ 16 ∷ 24 ∷ [])
unfolding ℕ_discrete
wait-callback_example =
    wait-callback 3 event 24 (8 ∷ 16 ∷ []) (omega arith)
      (refl, omega arith, (refl, omega arith, refl)) (omega arith) (omega arith) (omega arith)
      (omega arith) refl refl
