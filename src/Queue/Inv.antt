-- ===== src/Queue/Inv.antt =====
-- When a `queue_t` is well formed, and the four runs of slots that it stands for.
use aideck_gap8_examples.Base.{ℕ, ◌+◌, ◌-◌, ◌%◌, ◌≤◌, ◌<◌, ◌≡◌, List, ok, arith}
use aideck_gap8_examples.Queue.{Queue, init}
use aideck_gap8_examples.Queue.Slots.{Slots}
use aideck_gap8_examples.Queue.Window.{window}

-- Each run of slots begins where the one before it ends.
pub record IsValid (q : Queue) : Type 0 where
  pub some_slots : 0 < q.capacity
  pub sized : 0 < q.el_size
  pub allocated : 0 < q.buffer
  pub consume_in : q.start_consume < q.capacity
  pub start_follows : q.start ≡ (q.start_consume + q.count_consume) % q.capacity
  pub end_follows : q.end ≡ (q.start + q.count) % q.capacity
  pub acq_follows : q.end_acq ≡ (q.end + q.count_acq) % q.capacity
  pub fits : q.count_acq + q.count + q.count_consume ≤ q.capacity

abbrev pub slots : Queue → ℕ → ℕ → List ℕ
slots q = window q.buffer q.el_size q.capacity

abbrev pub free_count : Queue → ℕ
free_count q = q.capacity - (q.count_acq + q.count + q.count_consume)

abbrev pub view : Queue → Slots
view q = record {
  consumed = slots q q.start_consume q.count_consume;
  ready = slots q q.start q.count;
  acquired = slots q q.end q.count_acq;
  free = slots q q.end_acq (free_count q);
}

pub init-IsValid :
    (capacity el_size storage : ℕ) {q : Queue}
    → 0 < capacity
    → 0 < el_size
    → init capacity el_size storage ≡ ok q
    → IsValid q
unfolding init
init-IsValid capacity el_size storage hc hs e = ground arith
