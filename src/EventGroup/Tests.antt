-- ===== src/EventGroup/Tests.antt =====
-- Runs of nanocockpit/lib/event_group.h.
use aideck_gap8_examples.Base.{◌≡◌, refl, Bool, true, false, List, [], ◌∷◌, ok, arith}
use aideck_gap8_examples.EventGroup.{Group, any, all, init, set, wait_begin, wait_end, test, any_of}
use aideck_gap8_examples.EventGroup.Once.{
  Op, set_bits, clear_bits, wait_for, Ends, run_once, wait-set-resumes_twice,
}

abbrev operations : List Op
operations =
    set_bits (true ∷ [])
    ∷ wait_for 64 (true ∷ true ∷ []) all
    ∷ clear_bits (true ∷ [])
    ∷ set_bits (false ∷ true ∷ [])
    ∷ set_bits (true ∷ [])
    ∷ wait_for 80 (false ∷ true ∷ []) any
    ∷ []

run_once_example : Ends (init []) operations
unfolding init
run_once_example = run_once (init []) operations (λ ne. absurd (ne refl)) (omega arith)

abbrev ready : Group
ready = record { mask = true ∷ []; wait_ctx = 0; wait_mask = []; wait_mode = any; pushed = [] }

wait-set-resumes_twice_example :
    (g' : Group) × (wait_done : Bool) × (wait_begin ready 64 (true ∷ []) any ≡ ok (g', wait_done))
    × ((wait_end (set g' (false ∷ true ∷ [])) 64 wait_done).pushed ≡ 64 ∷ 64 ∷ [])
unfolding test any_of
wait-set-resumes_twice_example =
    wait-set-resumes_twice ready 64 (true ∷ []) any (false ∷ true ∷ []) (omega arith) refl refl
