-- ===== src/Queue/Run.antt =====
-- Sequences of calls of nanocockpit/lib/queue.c, against the same calls on lists of slots.
use aideck_gap8_examples.Base.{
  Distinct, ℕ, zero, suc, ◌+◌, ◌*◌, ◌%◌, ◌≤◌, ◌<◌, ◌≡◌, refl, sym, ap, ◌∙◌, Bool, List, [], ◌∷◌,
  ◌++◌, length, inl, inr, Outcome, ok, exit, Outcome-cases, ◌>>=◌, arith,
}
use aideck_gap8_examples.Queue
use aideck_gap8_examples.Queue.{Queue, Fault}
use aideck_gap8_examples.Queue.Slots
use aideck_gap8_examples.Queue.Slots.{Slots}
use aideck_gap8_examples.Queue.Window.{window-append, window-Distinct, length-window}
use aideck_gap8_examples.Queue.Inv.{IsValid, slots, free_count, view, init-IsValid}
use aideck_gap8_examples.Queue.Refine.{
  viewed_with, peek_refines, commit_refines, consume_refines, release_refines, acquire_refines,
  discard_refines,
}
use aideck_gap8_examples.Queue.Keep.{
  consume-IsValid, release-IsValid, commit-IsValid, discard-IsValid, acquire-IsValid,
}

-- A call by the client, with the pointer or the flag that it passes.
pub data Op : Type 0 where
  acquires : Bool → Op
  commits discards releases : ℕ → Op
  consumes peeks : Op

-- The call's result (NULL where it has none) and the queue after it.
unfoldable pub step : Queue → Op → Outcome Fault (ℕ × Queue)
step q (acquires overwrite) = Queue.push_acquire q overwrite
step q (commits el) = do q' ← Queue.push_commit q el; ok (0, q')
step q (discards el) = do q' ← Queue.push_discard q el; ok (0, q')
step q (releases el) = do q' ← Queue.pop_release q el; ok (0, q')
step q consumes = Queue.pop_consume q
step q peeks = do el ← Queue.peek q; ok (el, q)

unfoldable pub spec_step : Slots → Op → Outcome Fault (ℕ × Slots)
spec_step s (acquires overwrite) = Slots.acquire s overwrite
spec_step s (commits el) = do s' ← Slots.commit s el; ok (0, s')
spec_step s (discards el) = do s' ← Slots.discard s el; ok (0, s')
spec_step s (releases el) = do s' ← Slots.release s el; ok (0, s')
spec_step s consumes = ok (Slots.consume s)
spec_step s peeks = ok (Slots.peek s, s)

-- The results of the calls, up to the first failed assertion.
unfoldable pub run : Queue → List Op → List (Outcome Fault ℕ)
run q [] = []
run q (o ∷ ops) = elim (step q o) [ ok r ↦ ok r.0 ∷ run r.1 ops | exit f ↦ exit f ∷ [] ]

unfoldable pub spec_run : Slots → List Op → List (Outcome Fault ℕ)
spec_run s [] = []
spec_run s (o ∷ ops) = elim (spec_step s o) [
  | ok r ↦ ok r.0 ∷ spec_run r.1 ops
  | exit f ↦ exit f ∷ []
]

-- The queue after the calls.
unfoldable pub after : Queue → List Op → Outcome Fault Queue
after q [] = ok q
after q (o ∷ ops) = elim (step q o) [ ok r ↦ after r.1 ops | exit f ↦ exit f ]

step_refines : (q : Queue) (o : Op) → IsValid q → viewed_with (step q o) ≡ spec_step (view q) o
unfolding step spec_step
step_refines q (acquires overwrite) v = acquire_refines q overwrite v
step_refines q (commits el) v = ground (arith, commit_refines q el v)
step_refines q (discards el) v = ground (arith, discard_refines q el v)
step_refines q (releases el) v = ground (arith, release_refines q el v)
step_refines q consumes v = consume_refines q v
step_refines q peeks v = ground (arith, peek_refines q v)

step-IsValid :
    (q : Queue) (o : Op) → IsValid q → (el : ℕ) (q' : Queue) → step q o ≡ ok (el, q') → IsValid q'
unfolding step
step-IsValid q (acquires overwrite) v el q' e = acquire-IsValid q overwrite v el q' e
step-IsValid q (commits x) v el q' e = ground (arith, commit-IsValid q x v q')
step-IsValid q (discards x) v el q' e = ground (arith, discard-IsValid q x v q')
step-IsValid q (releases x) v el q' e = ground (arith, release-IsValid q x v q')
step-IsValid q consumes v el q' e = consume-IsValid q v el q' e
step-IsValid q peeks v el q' e = ground arith

-- On any sequence of calls, a well formed `queue_t` gives the results that the lists of slots
-- give: the same pointers, NULLs and failed assertions.
pub run_refines : (q : Queue) (ops : List Op) → IsValid q → run q ops ≡ spec_run (view q) ops
unfolding run spec_run
run_refines q [] v = refl
run_refines q (o ∷ ops) v = elim (Outcome-cases (step q o)) [
  | inl (r, e) ↦
      rw (e, ← step_refines q o v, run, spec_run)
        (rw e (ap (◌∷◌ (ok r.0)) (run_refines r.1 ops (step-IsValid q o v r.0 r.1 e))))
  | inr (f, e) ↦ rw (e, ← step_refines q o v, run, spec_run) (rw e)
]

after-IsValid :
    (q : Queue) (ops : List Op) {q' : Queue} → IsValid q → after q ops ≡ ok q' → IsValid q'
unfolding after
after-IsValid q [] v e = ground arith
after-IsValid q (o ∷ ops) v e = elim (Outcome-cases (step q o)) [
  | inl (r, d) ↦ after-IsValid r.1 ops (step-IsValid q o v r.0 r.1 d) (rw (d, after) at e)
  | inr (f, d) ↦ ground arith
]

abbrev pub all_slots : Slots → List ℕ
all_slots s = s.consumed ++ (s.ready ++ (s.acquired ++ s.free))

cut :
    (q : Queue)
    → IsValid q
    → (h m n k : ℕ) → h < q.capacity
    → k ≡ (h + m) % q.capacity
    → slots q h (m + n) ≡ slots q h m ++ slots q k n
cut q v h m n k hh e =
    window-append q.buffer q.el_size q.capacity h m n hh
    ∙ ap (λ t. slots q h m ++ slots q t n) (sym e)

-- The four runs are the whole buffer, cut in four.
view-eq-window : (q : Queue) → IsValid q → all_slots (view q) ≡ slots q q.start_consume q.capacity
view-eq-window q v = sym (
    whole
    ∙ ap (◌++◌ (slots q q.start_consume q.count_consume))
        (later ∙ ap (◌++◌ (slots q q.start q.count)) last))
  where
    last :
        slots q q.end (q.count_acq + free_count q)
        ≡ slots q q.end q.count_acq ++ slots q q.end_acq (free_count q)
    last = cut q v q.end q.count_acq (free_count q) q.end_acq (omega arith) v.acq_follows

    later :
        slots q q.start (q.count + (q.count_acq + free_count q))
        ≡ slots q q.start q.count ++ slots q q.end (q.count_acq + free_count q)
    later = cut q v q.start q.count (q.count_acq + free_count q) q.end (omega arith) v.end_follows

    whole :
        slots q q.start_consume q.capacity
        ≡ slots q q.start_consume q.count_consume
          ++ slots q q.start (q.count + (q.count_acq + free_count q))
    whole =
        ap (slots q q.start_consume)
          {y = q.count_consume + (q.count + (q.count_acq + free_count q))} (omega arith)
        ∙ cut q v q.start_consume q.count_consume (q.count + (q.count_acq + free_count q)) q.start
            v.consume_in v.start_follows

-- Each address of the list is that of an element inside the buffer.
abbrev pub Inside : Queue → List ℕ → Type 0
Inside q [] = Unit
Inside q (x ∷ xs) =
    (q.buffer ≤ x) × (x + q.el_size ≤ q.buffer + q.capacity * q.el_size) × Inside q xs

slots-Inside : (q : Queue) (h n : ℕ) → h < q.capacity → Inside q (slots q h n)
slots-Inside q h zero hh = tt
slots-Inside q h (suc n) hh =
    (omega arith, grind arith, slots-Inside q ((h + 1) % q.capacity) n (omega arith))

step-capacity :
    (q : Queue) (o : Op) (el : ℕ) (q' : Queue) → step q o ≡ ok (el, q') → q'.capacity ≡ q.capacity
unfolding step Queue.push_commit Queue.push_discard Queue.pop_release Queue.pop_consume
    Queue.push_acquire Queue.take_slot
step-capacity q (acquires overwrite) el q' e = ground arith
step-capacity q (commits x) el q' e = ground arith
step-capacity q (discards x) el q' e = ground arith
step-capacity q (releases x) el q' e = ground arith
step-capacity q consumes el q' e = ground arith
step-capacity q peeks el q' e = ground arith

after-capacity :
    (q : Queue) (ops : List Op) {q' : Queue} → after q ops ≡ ok q' → q'.capacity ≡ q.capacity
unfolding after
after-capacity q [] e = ground arith
after-capacity q (o ∷ ops) e = elim (Outcome-cases (step q o)) [
  | inl (r, d) ↦ after-capacity r.1 ops (rw (d, after) at e) ∙ step-capacity q o r.0 r.1 d
  | inr (f, d) ↦ ground arith
]

init-capacity :
    (capacity el_size storage : ℕ) {q : Queue}
    → Queue.init capacity el_size storage ≡ ok q
    → q.capacity ≡ capacity
unfolding Queue.init
init-capacity capacity el_size storage e = ground arith

-- After any calls on a fresh queue of at least one element of at least one byte, the elements
-- being consumed, those ready, those acquired and the free ones together are as many as the
-- capacity, no two at one address, and each inside the buffer.
pub after_ownership :
    (capacity el_size storage : ℕ) (ops : List Op) {q q' : Queue}
    → 0 < capacity
    → 0 < el_size
    → Queue.init capacity el_size storage ≡ ok q
    → after q ops ≡ ok q'
    → Distinct (all_slots (view q'))
      × Inside q' (all_slots (view q'))
      × (length (all_slots (view q')) ≡ capacity)
after_ownership capacity el_size storage ops {q} {q'} hc hs e a =
    let v = after-IsValid q ops (init-IsValid capacity el_size storage hc hs e) a in
    rw (view-eq-window q' v) (
      window-Distinct q'.buffer q'.el_size q'.capacity v.sized q'.start_consume q'.capacity
          v.consume_in (omega arith),
      slots-Inside q' q'.start_consume q'.capacity v.consume_in,
      length-window q'.buffer q'.el_size q'.capacity q'.start_consume q'.capacity
          ∙ after-capacity q ops a
          ∙ init-capacity capacity el_size storage e,
    )
