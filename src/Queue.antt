-- ===== src/Queue.antt =====
-- The circular-buffer queue of nanocockpit/lib/queue.c: elements are acquired, written in place
-- and committed by the producer, consumed, read in place and released by the consumer.
-- A pointer is its address, and 0 is NULL. `int` fields hold numbers from 0 up.
pub mod Slots
pub mod Window
pub mod Inv
pub mod Refine
pub mod Keep
pub mod Run
mod Tests
use aideck_gap8_examples.Base.{
  ℕ, ◌+◌, ◌-◌, ◌*◌, ◌%◌, Bool, ◌==◌, ◌!=◌, leb, if◌then◌else◌, Outcome, ok, exit, ◌>>=◌,
}

-- `queue_t`
pub record Queue : Type 0 where
  pub capacity : ℕ
  pub el_size : ℕ
  pub start : ℕ
  pub end : ℕ
  pub count : ℕ
  pub end_acq : ℕ
  pub count_acq : ℕ
  pub start_consume : ℕ
  pub count_consume : ℕ
  pub buffer : ℕ

-- The assertions of queue.c
pub data Fault : Type 0 where
  allocation_failed out_of_bounds : Fault
  no_acquired commit_out_of_order discard_out_of_order : Fault
  no_consumed release_out_of_order : Fault

abbrev pub null : ℕ
null = 0

-- `queue_init`; `storage` is what `pi_l2_malloc` returned.
unfoldable pub init : ℕ → ℕ → ℕ → Outcome Fault Queue
init capacity el_size storage =
    if storage == null
    then exit allocation_failed
    else ok (record {
      capacity = capacity;
      el_size = el_size;
      start = 0;
      end = 0;
      count = 0;
      end_acq = 0;
      count_acq = 0;
      start_consume = 0;
      count_consume = 0;
      buffer = storage;
    })

-- `_queue_get_el`
unfoldable pub get_el : Queue → ℕ → Outcome Fault ℕ
get_el q i = if leb q.capacity i then exit out_of_bounds else ok (q.buffer + i * q.el_size)

unfoldable pub get_count : Queue → ℕ
get_count q = q.count

unfoldable pub peek : Queue → Outcome Fault ℕ
peek q = if q.count == 0 then ok null else get_el q q.start

unfoldable pub pop_consume : Queue → Outcome Fault (ℕ × Queue)
pop_consume q = do
  let next_start = (q.start + 1) % q.capacity
  el ← peek q
  ok (
      if el != null
      then (
        el,
        record q { start = next_start; count = q.count - 1; count_consume = q.count_consume + 1 },
      )
      else (el, q))

unfoldable pub pop_release : Queue → ℕ → Outcome Fault Queue
pop_release q el = do
  expected_el ← get_el q q.start_consume
  if q.count_consume == 0
      then exit no_consumed
      else if el != expected_el
      then exit release_out_of_order
      else ok (record q {
        start_consume = (q.start_consume + 1) % q.capacity;
        count_consume = q.count_consume - 1;
      })

-- The end of `queue_push_acquire`, past the test for a full queue.
unfoldable pub take_slot : Queue → ℕ → Outcome Fault (ℕ × Queue)
take_slot q next_end_acq = do
  el ← get_el q q.end_acq
  ok (el, record q { end_acq = next_end_acq; count_acq = q.count_acq + 1 })

unfoldable pub push_acquire : Queue → Bool → Outcome Fault (ℕ × Queue)
push_acquire q overwrite =
    let next_end_acq = (q.end_acq + 1) % q.capacity in
    let evict = (do (el, q₁) ← pop_consume q; q₂ ← pop_release q₁ el; take_slot q₂ next_end_acq) in
    if (q.count_acq + q.count + q.count_consume) == q.capacity
    then (if overwrite then (if q.count == 0 then ok (null, q) else evict) else ok (null, q))
    else take_slot q next_end_acq

unfoldable pub push_commit : Queue → ℕ → Outcome Fault Queue
push_commit q el = do
  expected_el ← get_el q q.end
  if q.count_acq == 0
      then exit no_acquired
      else if el != expected_el
      then exit commit_out_of_order
      else ok (record q {
        end = (q.end + 1) % q.capacity;
        count = q.count + 1;
        count_acq = q.count_acq - 1;
      })

-- `end_acq - 1 + capacity`: the sum is taken first, which is the same number, since capacity ≥ 1.
unfoldable pub push_discard : Queue → ℕ → Outcome Fault Queue
push_discard q el = do
  let prev_end_acq = (q.end_acq + q.capacity - 1) % q.capacity
  expected_el ← get_el q prev_end_acq
  if q.count_acq == 0
      then exit no_acquired
      else if el != expected_el
      then exit discard_out_of_order
      else ok (record q { end_acq = prev_end_acq; count_acq = q.count_acq - 1 })
