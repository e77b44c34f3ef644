-- ===== src/Queue/Refine.antt =====
-- The functions of nanocockpit/lib/queue.c against the lists of slots.
use aideck_gap8_examples.Base.{
  ℕ, zero, suc, ◌+◌, ◌-◌, ◌*◌, ◌%◌, ◌<◌, ◌≡◌, refl, Bool, true, false, List, ◌∷◌, Outcome, ok, exit,
  if◌then◌else◌, ◌!=◌, ◌>>=◌, ◌≢◌, sym, ap, ap₂, ◌∙◌, ℕ_discrete, ==_of_eq, ==_of_ne, arith,
}
use native.Mathlib.Nat.{mod-add-mod, mod-eq_of_lt, add-mod_right}
use aideck_gap8_examples.Queue
use aideck_gap8_examples.Queue.{Queue, Fault, discard_out_of_order, release_out_of_order, get_el}
use aideck_gap8_examples.Queue.Slots
use aideck_gap8_examples.Queue.Slots.{Slots, last_or, init_of}
use aideck_gap8_examples.Queue.Window.{
  window, address, window_of_pos, window_snoc, address, steps_ne, shift-mod, address_injective,
}
use aideck_gap8_examples.Queue.Inv.{IsValid, slots, free_count, view}

-- An index in range is an address of the buffer.
pub get_el-ok : (q : Queue) (i : ℕ) → i < q.capacity → get_el q i ≡ ok (q.buffer + i * q.el_size)
unfolding get_el
get_el-ok q i h = ground arith

abbrev pub viewed : Outcome Fault Queue → Outcome Fault Slots
viewed m = m >>= λ q. ok (view q)

abbrev pub viewed_with : Outcome Fault (ℕ × Queue) → Outcome Fault (ℕ × Slots)
viewed_with m = m >>= λ r. ok (r.0, view r.1)

pub peek_refines : (q : Queue) → IsValid q → Queue.peek q ≡ ok (Slots.peek (view q))
unfolding Queue.peek Slots.peek
peek_refines q v =
    ground (arith, get_el-ok q q.start, window_of_pos q.buffer q.el_size q.capacity q.start q.count)

-- Following two runs one after the other.
pub follow : (c s x y a : ℕ) → a ≡ (s + x) % c → (a + y) % c ≡ (s + (x + y)) % c
follow c s x y a e =
    ap (λ t. (t + y) % c) e
    ∙ mod-add-mod (s + x) c y
    ∙ ap (λ t. t % c) {x = s + x + y} (omega arith)

-- The free slots end where the consumed ones begin.
pub free-end : (q : Queue) → IsValid q → (q.end_acq + free_count q) % q.capacity ≡ q.start_consume
free-end q v =
    follow q.capacity q.end q.count_acq (free_count q) q.end_acq v.acq_follows
    ∙ follow q.capacity q.start q.count (q.count_acq + free_count q) q.end v.end_follows
    ∙ follow q.capacity q.start_consume q.count_consume (q.count + (q.count_acq + free_count q))
        q.start v.start_follows
    ∙ ap (λ t. t % q.capacity)
        {x = q.start_consume + (q.count_consume + (q.count + (q.count_acq + free_count q)))}
        {y = q.start_consume + q.capacity} (omega arith)
    ∙ add-mod_right q.start_consume q.capacity
    ∙ mod-eq_of_lt v.consume_in

pub commit_refines :
    (q : Queue) (el : ℕ) → IsValid q → viewed (Queue.push_commit q el) ≡ Slots.commit (view q) el
unfolding Queue.push_commit Slots.commit
commit_refines q el v = ground (
  arith,
  get_el-ok q q.end,
  window_of_pos q.buffer q.el_size q.capacity q.end q.count_acq,
  window_snoc q.buffer q.el_size q.capacity q.start q.count,
)

pub consume-none : (q : Queue) → q.count ≡ 0 → Queue.pop_consume q ≡ ok (0, q)
unfolding Queue.pop_consume Queue.peek
consume-none q e = ground arith

-- The queue after `queue_pop_consume` took an element.
abbrev pub consumed_one : Queue → Queue
consumed_one q = record q {
  start = (q.start + 1) % q.capacity;
  count = q.count - 1;
  count_consume = q.count_consume + 1;
}

pub consume-one :
    (q : Queue)
    → IsValid q
    → q.count ≢ 0
    → Queue.pop_consume q ≡ ok (q.buffer + q.start * q.el_size, consumed_one q)
unfolding Queue.pop_consume Queue.peek
consume-one q v e = ground (arith, get_el-ok q q.start)

view-consumed_one :
    (q : Queue)
    → IsValid q
    → q.count ≢ 0
    → (q.buffer + q.start * q.el_size, view (consumed_one q)) ≡ Slots.consume (view q)
unfolding Slots.consume
view-consumed_one q v e = ground (
  arith,
  window_of_pos q.buffer q.el_size q.capacity q.start q.count,
  window_snoc q.buffer q.el_size q.capacity q.start_consume q.count_consume,
)

pub consume_refines :
    (q : Queue) → IsValid q → viewed_with (Queue.pop_consume q) ≡ ok (Slots.consume (view q))
unfolding Slots.consume
consume_refines q v = elim (ℕ_discrete q.count 0) [
  | yes e ↦ rw (consume-none q e) (ground arith)
  | no e ↦ rw (consume-one q v e) (ap ok (view-consumed_one q v e))
]

pub release_refines :
    (q : Queue) (el : ℕ) → IsValid q → viewed (Queue.pop_release q el) ≡ Slots.release (view q) el
unfolding Queue.pop_release Slots.release
release_refines q el v = ground (
  arith,
  get_el-ok q q.start_consume,
  window_of_pos q.buffer q.el_size q.capacity q.start_consume q.count_consume,
  free-end q v,
  window_snoc q.buffer q.el_size q.capacity q.end_acq (free_count q),
)

-- The queue after a free slot was handed out.
abbrev pub acquired_one : Queue → Queue
acquired_one q = record q { end_acq = (q.end_acq + 1) % q.capacity; count_acq = q.count_acq + 1 }

pub acquire-free :
    (q : Queue) (overwrite : Bool)
    → IsValid q
    → q.count_acq + q.count + q.count_consume ≢ q.capacity
    → Queue.push_acquire q overwrite ≡ ok (q.buffer + q.end_acq * q.el_size, acquired_one q)
unfolding Queue.push_acquire Queue.take_slot
acquire-free q overwrite v e = rw (==_of_ne e) (rw (get_el-ok q q.end_acq (omega arith)))

view-acquired_one :
    (q : Queue) (overwrite : Bool)
    → IsValid q
    → q.count_acq + q.count + q.count_consume ≢ q.capacity
    → ok (q.buffer + q.end_acq * q.el_size, view (acquired_one q))
      ≡ Slots.acquire (view q) overwrite
unfolding Slots.acquire
view-acquired_one q overwrite v e = ground (
  arith,
  window_of_pos q.buffer q.el_size q.capacity q.end_acq (free_count q),
  window_snoc q.buffer q.el_size q.capacity q.end q.count_acq,
)

pub acquire-full :
    (q : Queue)
    → q.count_acq + q.count + q.count_consume ≡ q.capacity
    → Queue.push_acquire q false ≡ ok (0, q)
unfolding Queue.push_acquire
acquire-full q e = rw (==_of_eq e)

-- The queue after the oldest ready slot was handed out again.
abbrev pub overwritten : Queue → Queue
overwritten q = acquired_one (record q {
  start = (q.start + 1) % q.capacity;
  count = q.count - 1;
  start_consume = (q.start_consume + 1) % q.capacity;
  count_consume = 0;
})

pub overwrite-nothing :
    (q : Queue)
    → q.count_acq + q.count + q.count_consume ≡ q.capacity
    → q.count ≡ 0
    → Queue.push_acquire q true ≡ ok (0, q)
unfolding Queue.push_acquire
overwrite-nothing q e z = rw (==_of_eq e, ==_of_eq z)

-- With all slots in use, the oldest ready slot stands where the next push would go.
full-end : (q : Queue) → IsValid q → free_count q ≡ 0 → q.end_acq ≡ q.start_consume
full-end q v z =
    sym (mod-eq_of_lt {n = q.end_acq} {m = q.capacity} (omega arith))
    ∙ ap (λ t. t % q.capacity) {x = q.end_acq} {y = q.end_acq + free_count q} (omega arith)
    ∙ free-end q v

start-idle : (q : Queue) → IsValid q → q.count_consume ≡ 0 → q.start ≡ q.start_consume
start-idle q v z =
    v.start_follows
    ∙ ap (λ t. t % q.capacity) {y = q.start_consume} (omega arith)
    ∙ mod-eq_of_lt v.consume_in

release-consumed_one :
    (q : Queue)
    → IsValid q
    → q.count_consume ≡ 0
    → Queue.pop_release (consumed_one q) (q.buffer + q.start * q.el_size)
      ≡ ok (record (consumed_one q) {
        start_consume = (q.start_consume + 1) % q.capacity;
        count_consume = 0;
      })
unfolding Queue.pop_release
release-consumed_one q v z =
    rw (get_el-ok (consumed_one q) q.start_consume v.consume_in, start-idle q v z) (ground arith)

release-in_use :
    (q : Queue)
    → IsValid q
    → q.count ≢ 0
    → q.count_consume ≢ 0
    → Queue.pop_release (consumed_one q) (q.buffer + q.start * q.el_size)
      ≡ exit release_out_of_order
unfolding Queue.pop_release
release-in_use q v ne z =
    rw (get_el-ok (consumed_one q) q.start_consume v.consume_in) (ground (arith, differ))
  where
    apart : q.start_consume ≢ q.start
    apart =
        steps_ne q.buffer q.el_size q.capacity q.start_consume q.start (q.count_consume - 1)
          v.consume_in
          (v.start_follows ∙ ap (λ t. (q.start_consume + t) % q.capacity) (omega arith))
          (omega arith)

    differ : q.buffer + q.start * q.el_size ≢ q.buffer + q.start_consume * q.el_size
    differ e =
        apart
          (sym (address_injective q.buffer q.el_size q.capacity q.start q.start_consume v.sized e))

pub overwrite-one :
    (q : Queue)
    → IsValid q
    → q.count_acq + q.count + q.count_consume ≡ q.capacity
    → q.count ≢ 0
    → q.count_consume ≡ 0
    → Queue.push_acquire q true ≡ ok (q.buffer + q.end_acq * q.el_size, overwritten q)
unfolding Queue.push_acquire Queue.take_slot get_el
overwrite-one q v e ne z =
    rw (==_of_eq e, ==_of_ne ne, consume-one q v ne)
      (rw (release-consumed_one q v z) (rw (get_el-ok q q.end_acq (omega arith))))

-- `queue_push_acquire` with `overwrite`, on a full queue with an element that is ready, while
-- another element is being consumed: the assertion of `queue_pop_release` fails.
pub overwrite-in_use :
    (q : Queue)
    → IsValid q
    → q.count_acq + q.count + q.count_consume ≡ q.capacity
    → q.count ≢ 0
    → q.count_consume ≢ 0
    → Queue.push_acquire q true ≡ exit release_out_of_order
unfolding Queue.push_acquire
overwrite-in_use q v e ne z =
    rw (==_of_eq e, ==_of_ne ne, consume-one q v ne) (rw (release-in_use q v ne z))

view-overwritten :
    (q : Queue)
    → IsValid q
    → q.count_acq + q.count + q.count_consume ≡ q.capacity
    → q.count ≢ 0
    → q.count_consume ≡ 0
    → ok (q.buffer + q.end_acq * q.el_size, view (overwritten q)) ≡ Slots.acquire (view q) true
unfolding Slots.acquire
view-overwritten q v e ne z = ground (
  arith,
  full-end q v,
  start-idle q v z,
  window_of_pos q.buffer q.el_size q.capacity q.start q.count,
  window_snoc q.buffer q.el_size q.capacity q.end q.count_acq,
)

view-in_use :
    (q : Queue)
    → IsValid q
    → q.count_acq + q.count + q.count_consume ≡ q.capacity
    → q.count ≢ 0
    → q.count_consume ≢ 0
    → Slots.acquire (view q) true ≡ exit release_out_of_order
unfolding Slots.acquire
view-in_use q v e ne z = ground (
  arith,
  window_of_pos q.buffer q.el_size q.capacity q.start q.count,
  window_of_pos q.buffer q.el_size q.capacity q.start_consume q.count_consume,
)

acquire_refines_full :
    (q : Queue) (overwrite : Bool)
    → IsValid q
    → q.count_acq + q.count + q.count_consume ≡ q.capacity
    → viewed_with (Queue.push_acquire q overwrite) ≡ Slots.acquire (view q) overwrite
unfolding Slots.acquire
acquire_refines_full q false v e = rw (acquire-full q e) (ground arith)
acquire_refines_full q true v e = elim (ℕ_discrete q.count 0) [
  | yes z ↦ rw (overwrite-nothing q e z) (ground arith)
  | no ne ↦ elim (ℕ_discrete q.count_consume 0) [
    | yes z ↦ rw (overwrite-one q v e ne z) (view-overwritten q v e ne z)
    | no z ↦ rw (overwrite-in_use q v e ne z) (sym (view-in_use q v e ne z))
  ]
]

-- `queue_push_acquire` takes the first free slot, or overwrites as `Slots.acquire` says.
pub acquire_refines :
    (q : Queue) (overwrite : Bool)
    → IsValid q
    → viewed_with (Queue.push_acquire q overwrite) ≡ Slots.acquire (view q) overwrite
acquire_refines q overwrite v =
    elim (ℕ_discrete (q.count_acq + q.count + q.count_consume) q.capacity) [
      | no e ↦ rw (acquire-free q overwrite v e) (view-acquired_one q overwrite v e)
      | yes e ↦ acquire_refines_full q overwrite v e
    ]

-- `prev_end_acq` is the slot that was acquired last.
pub prev-last :
    (q : Queue)
    → IsValid q
    → q.count_acq ≢ 0
    → (q.end_acq + q.capacity - 1) % q.capacity ≡ (q.end + (q.count_acq - 1)) % q.capacity
prev-last q v ne =
    ap (λ t. t % q.capacity) {y = q.end_acq + (q.capacity - 1)} (omega arith)
    ∙ follow q.capacity q.end q.count_acq (q.capacity - 1) q.end_acq v.acq_follows
    ∙ ap (λ t. t % q.capacity) {y = q.end + (q.count_acq - 1) + q.capacity} (omega arith)
    ∙ add-mod_right (q.end + (q.count_acq - 1)) q.capacity

pub next-prev :
    (q : Queue)
    → IsValid q
    → ((q.end_acq + q.capacity - 1) % q.capacity + 1) % q.capacity ≡ q.end_acq
next-prev q v =
    mod-add-mod (q.end_acq + q.capacity - 1) q.capacity 1
    ∙ ap (λ t. t % q.capacity) {y = q.end_acq + q.capacity} (omega arith)
    ∙ add-mod_right q.end_acq q.capacity
    ∙ mod-eq_of_lt (omega arith)

module _ (buffer size cap : ℕ) where
  last-window :
      (h n : ℕ)
      → h < cap
      → last_or (buffer + h * size) (window buffer size cap ((h + 1) % cap) n)
        ≡ buffer + (h + n) % cap * size
  last-window h zero hh =
      ap (λ i. buffer + i * size)
        (sym (mod-eq_of_lt {n = h} {m = cap} hh)
          ∙ ap (λ t. t % cap) {x = h} {y = h + 0} (omega arith))
  last-window h (suc n) hh =
      last-window ((h + 1) % cap) n (omega arith)
      ∙ ap (λ i. buffer + i * size) (shift-mod buffer size cap h n)

  init-window :
      (h n : ℕ)
      → init_of (buffer + h * size) (window buffer size cap ((h + 1) % cap) n)
        ≡ window buffer size cap h n
  init-window h zero = refl
  init-window h (suc n) = ap (◌∷◌ (buffer + h * size)) (init-window ((h + 1) % cap) n)

-- The queue after the slot that was acquired last was given back.
abbrev pub discarded_one : Queue → Queue
discarded_one q = record q {
  end_acq = (q.end_acq + q.capacity - 1) % q.capacity;
  count_acq = q.count_acq - 1;
}

-- What the slots are when one has been acquired.
acquired-slots :
    (q : Queue)
    → IsValid q
    → q.count_acq ≢ 0
    → (x : ℕ) × (xs : List ℕ) × (slots q q.end q.count_acq ≡ x ∷ xs)
      × (last_or x xs ≡ q.buffer + (q.end_acq + q.capacity - 1) % q.capacity * q.el_size)
      × (init_of x xs ≡ slots q q.end (q.count_acq - 1))
acquired-slots q v ne = (
  q.buffer + q.end * q.el_size,
  slots q ((q.end + 1) % q.capacity) (q.count_acq - 1),
  window_of_pos q.buffer q.el_size q.capacity q.end q.count_acq ne,
  last-window q.buffer q.el_size q.capacity q.end (q.count_acq - 1) (omega arith)
      ∙ ap (λ i. q.buffer + i * q.el_size) (sym (prev-last q v ne)),
  init-window q.buffer q.el_size q.capacity q.end (q.count_acq - 1),
)

free-discarded_one :
    (q : Queue)
    → IsValid q
    → q.count_acq ≢ 0
    → slots q ((q.end_acq + q.capacity - 1) % q.capacity) (free_count (discarded_one q))
      ≡ (q.buffer + (q.end_acq + q.capacity - 1) % q.capacity * q.el_size)
        ∷ slots q q.end_acq (free_count q)
free-discarded_one q v ne =
    window_of_pos q.buffer q.el_size q.capacity ((q.end_acq + q.capacity - 1) % q.capacity)
      (free_count (discarded_one q)) (omega arith)
    ∙ ap₂
        (λ h n.
          address q.buffer q.el_size q.capacity ((q.end_acq + q.capacity - 1) % q.capacity)
          ∷ slots q h n)
        (next-prev q v) fewer
  where
    fewer : free_count (discarded_one q) - 1 ≡ free_count q
    fewer = omega arith

discard-some :
    (q : Queue) (el : ℕ)
    → IsValid q
    → q.count_acq ≢ 0
    → Queue.push_discard q el ≡ (
        if el != (q.buffer + (q.end_acq + q.capacity - 1) % q.capacity * q.el_size)
        then exit discard_out_of_order
        else ok (discarded_one q))
unfolding Queue.push_discard
discard-some q el v ne =
    rw (get_el-ok q ((q.end_acq + q.capacity - 1) % q.capacity) (omega arith)) (ground arith)

pub discard_refines :
    (q : Queue) (el : ℕ) → IsValid q → viewed (Queue.push_discard q el) ≡ Slots.discard (view q) el
unfolding Queue.push_discard Slots.discard
discard_refines q el v = elim (ℕ_discrete q.count_acq 0) [
  | yes z ↦
      rw (get_el-ok q ((q.end_acq + q.capacity - 1) % q.capacity) (omega arith)) (ground arith)
  | no ne ↦ rw (discard-some q el v ne) (
      let (x, xs, e, l, i) = acquired-slots q v ne in
      ground (arith, e, l, i, free-discarded_one q v ne))
]
