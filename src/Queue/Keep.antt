-- ===== src/Queue/Keep.antt =====
-- Every function of nanocockpit/lib/queue.c keeps a `queue_t` well formed.
use native.Mathlib.Nat.{mod-add-mod}
use aideck_gap8_examples.Base.{
  ℕ, ◌+◌, ◌-◌, ◌%◌, ◌≡◌, ◌≢◌, sym, subst, ap, ◌∙◌, Bool, true, false, ok, ℕ_discrete, arith,
}
use aideck_gap8_examples.Queue
use aideck_gap8_examples.Queue.{Queue, Fault}
use aideck_gap8_examples.Queue.Inv.{IsValid}
use aideck_gap8_examples.Queue.Refine.{
  follow, prev-last, get_el-ok, consumed_one, consume-none, consume-one, acquired_one, acquire-free,
  acquire-full, overwritten, overwrite-nothing, overwrite-one, overwrite-in_use, discarded_one,
}

-- One slot moves from the head of a run to the end of the run before it.
after_head : (c h n e : ℕ) → n ≢ 0 → e ≡ (h + n) % c → e ≡ ((h + 1) % c + (n - 1)) % c
after_head c h n e ne p =
    p ∙ ap (λ t. t % c) {y = h + 1 + (n - 1)} (omega arith) ∙ sym (mod-add-mod (h + 1) c (n - 1))

at_end : (c h n e : ℕ) → e ≡ (h + n) % c → (e + 1) % c ≡ (h + (n + 1)) % c
at_end c h n e p = follow c h n 1 e p

consumed_one-IsValid : (q : Queue) → IsValid q → q.count ≢ 0 → IsValid (consumed_one q)
consumed_one-IsValid q v ne = record {
  some_slots = v.some_slots;
  sized = v.sized;
  allocated = v.allocated;
  consume_in = v.consume_in;
  start_follows = at_end q.capacity q.start_consume q.count_consume q.start v.start_follows;
  end_follows = after_head q.capacity q.start q.count q.end ne v.end_follows;
  acq_follows = v.acq_follows;
  fits = omega arith;
}

acquired_one-IsValid :
    (q : Queue)
    → IsValid q
    → q.count_acq + q.count + q.count_consume ≢ q.capacity
    → IsValid (acquired_one q)
acquired_one-IsValid q v ne = record {
  some_slots = v.some_slots;
  sized = v.sized;
  allocated = v.allocated;
  consume_in = v.consume_in;
  start_follows = v.start_follows;
  end_follows = v.end_follows;
  acq_follows = at_end q.capacity q.end q.count_acq q.end_acq v.acq_follows;
  fits = omega arith;
}

-- The queue after `queue_pop_release` and `queue_push_commit`.
abbrev pub released_one : Queue → Queue
released_one q = record q {
  start_consume = (q.start_consume + 1) % q.capacity;
  count_consume = q.count_consume - 1;
}

abbrev pub committed_one : Queue → Queue
committed_one q = record q {
  end = (q.end + 1) % q.capacity;
  count = q.count + 1;
  count_acq = q.count_acq - 1;
}

released_one-IsValid : (q : Queue) → IsValid q → q.count_consume ≢ 0 → IsValid (released_one q)
released_one-IsValid q v ne = record {
  some_slots = v.some_slots;
  sized = v.sized;
  allocated = v.allocated;
  consume_in = omega arith;
  start_follows = after_head q.capacity q.start_consume q.count_consume q.start ne v.start_follows;
  end_follows = v.end_follows;
  acq_follows = v.acq_follows;
  fits = omega arith;
}

committed_one-IsValid : (q : Queue) → IsValid q → q.count_acq ≢ 0 → IsValid (committed_one q)
committed_one-IsValid q v ne = record {
  some_slots = v.some_slots;
  sized = v.sized;
  allocated = v.allocated;
  consume_in = v.consume_in;
  start_follows = v.start_follows;
  end_follows = at_end q.capacity q.start q.count q.end v.end_follows;
  acq_follows = after_head q.capacity q.end q.count_acq q.end_acq ne v.acq_follows;
  fits = omega arith;
}

discarded_one-IsValid : (q : Queue) → IsValid q → q.count_acq ≢ 0 → IsValid (discarded_one q)
discarded_one-IsValid q v ne = record {
  some_slots = v.some_slots;
  sized = v.sized;
  allocated = v.allocated;
  consume_in = v.consume_in;
  start_follows = v.start_follows;
  end_follows = v.end_follows;
  acq_follows = prev-last q v ne;
  fits = omega arith;
}

overwritten-IsValid :
    (q : Queue)
    → IsValid q
    → q.count_acq + q.count + q.count_consume ≡ q.capacity
    → q.count ≢ 0
    → q.count_consume ≡ 0
    → IsValid (overwritten q)
overwritten-IsValid q v e ne z = subst IsValid same made
  where
    freed : Queue
    freed = released_one (consumed_one q)

    made : IsValid (acquired_one freed)
    made =
        acquired_one-IsValid freed
          (released_one-IsValid (consumed_one q) (consumed_one-IsValid q v ne) (omega arith))
          (omega arith)

    same : acquired_one freed ≡ overwritten q
    same = ground arith

pub consume-IsValid :
    (q : Queue) → IsValid q → (el : ℕ) (q' : Queue) → Queue.pop_consume q ≡ ok (el, q') → IsValid q'
consume-IsValid q v el q' e = elim (ℕ_discrete q.count 0) [
  | yes z ↦ ground (arith, consume-none q z)
  | no ne ↦ ground (arith, consume-one q v ne, consumed_one-IsValid q v ne)
]

pub release-IsValid :
    (q : Queue) (el : ℕ) → IsValid q → (q' : Queue) → Queue.pop_release q el ≡ ok q' → IsValid q'
unfolding Queue.pop_release
release-IsValid q el v q' e = ground (arith, get_el-ok q q.start_consume, released_one-IsValid q v)

pub commit-IsValid :
    (q : Queue) (el : ℕ) → IsValid q → (q' : Queue) → Queue.push_commit q el ≡ ok q' → IsValid q'
unfolding Queue.push_commit
commit-IsValid q el v q' e = ground (arith, get_el-ok q q.end, committed_one-IsValid q v)

pub discard-IsValid :
    (q : Queue) (el : ℕ) → IsValid q → (q' : Queue) → Queue.push_discard q el ≡ ok q' → IsValid q'
unfolding Queue.push_discard
discard-IsValid q el v q' e =
    ground
      (arith, get_el-ok q ((q.end_acq + q.capacity - 1) % q.capacity), discarded_one-IsValid q v)

acquire_full-IsValid :
    (q : Queue) (overwrite : Bool)
    → IsValid q
    → q.count_acq + q.count + q.count_consume ≡ q.capacity
    → (el : ℕ) (q' : Queue) → Queue.push_acquire q overwrite ≡ ok (el, q')
    → IsValid q'
acquire_full-IsValid q false v full el q' e = ground (arith, acquire-full q full)
acquire_full-IsValid q true v full el q' e = elim (ℕ_discrete q.count 0) [
  | yes z ↦ ground (arith, overwrite-nothing q full z)
  | no ne ↦ elim (ℕ_discrete q.count_consume 0) [
    | yes z ↦ ground (arith, overwrite-one q v full ne z, overwritten-IsValid q v full ne z)
    | no nz ↦ ground (arith, overwrite-in_use q v full ne nz)
  ]
]

pub acquire-IsValid :
    (q : Queue) (overwrite : Bool)
    → IsValid q
    → (el : ℕ) (q' : Queue) → Queue.push_acquire q overwrite ≡ ok (el, q')
    → IsValid q'
acquire-IsValid q overwrite v el q' e =
    elim (ℕ_discrete (q.count_acq + q.count + q.count_consume) q.capacity) [
      | yes full ↦ acquire_full-IsValid q overwrite v full el q' e
      | no room ↦ ground (arith, acquire-free q overwrite v room, acquired_one-IsValid q v room)
    ]
