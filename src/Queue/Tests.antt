-- ===== src/Queue/Tests.antt =====
-- The queue on inputs that can be followed in nanocockpit/examples/queue/main.c.
use aideck_gap8_examples.Base.{
  ◌≡◌, refl, true, false, List, [], ◌∷◌, length, ok, exit, Distinct, arith,
}
use aideck_gap8_examples.Queue
use aideck_gap8_examples.Queue.{Queue, Fault, release_out_of_order}
use aideck_gap8_examples.Queue.Inv.{IsValid, view}
use aideck_gap8_examples.Queue.Refine.{overwrite-in_use}
use aideck_gap8_examples.Queue.Run.{
  Op, acquires, commits, discards, releases, consumes, step, run, spec_run, after, run_refines,
  all_slots, Inside, after_ownership,
}

-- Three elements of four bytes at address 64.
abbrev fresh : Queue
fresh = record {
  capacity = 3;
  el_size = 4;
  start = 0;
  end = 0;
  count = 0;
  end_acq = 0;
  count_acq = 0;
  start_consume = 0;
  count_consume = 0;
  buffer = 64;
}

-- One element is being consumed and two are ready.
abbrev busy : Queue
busy = record fresh { start = 1; count = 2; count_consume = 1 }

abbrev script : List Op
script =
    acquires false
    ∷ acquires false
    ∷ acquires false
    ∷ acquires true
    ∷ commits 64
    ∷ commits 68
    ∷ commits 72
    ∷ acquires true
    ∷ discards 64
    ∷ consumes
    ∷ releases 72
    ∷ []

run-script :
    run fresh script
    ≡ ok 64
      ∷ ok 68
      ∷ ok 72
      ∷ ok 0
      ∷ ok 0
      ∷ ok 0
      ∷ ok 0
      ∷ ok 64
      ∷ ok 0
      ∷ ok 68
      ∷ exit release_out_of_order
      ∷ []
unfolding run Queue.push_acquire Queue.take_slot Queue.push_commit Queue.push_discard
    Queue.pop_consume Queue.pop_release Queue.peek Queue.get_el step
run-script = refl

fresh-IsValid : IsValid fresh
fresh-IsValid = omega arith

busy-IsValid : IsValid busy
busy-IsValid = omega arith

run_refines_example : run fresh script ≡ spec_run (view fresh) script
run_refines_example = run_refines fresh script fresh-IsValid

after_ownership_example :
    Distinct (all_slots (view busy))
    × Inside busy (all_slots (view busy))
    × (length (all_slots (view busy)) ≡ 3)
unfolding after Queue.push_acquire Queue.take_slot Queue.push_commit Queue.pop_consume Queue.peek
    Queue.get_el Queue.init step
after_ownership_example =
    after_ownership 3 4 64
      (acquires false
        ∷ acquires false
        ∷ acquires false
        ∷ commits 64
        ∷ commits 68
        ∷ commits 72
        ∷ consumes
        ∷ [])
      (omega arith) (omega arith) refl refl

overwrite-in_use_example : Queue.push_acquire busy true ≡ exit release_out_of_order
overwrite-in_use_example =
    overwrite-in_use busy busy-IsValid (omega arith) (λ e. omega arith) (λ e. omega arith)
