-- ===== src/TraceBuffer/Last.antt =====
-- nanocockpit/lib/trace_buffer.c keeps the last 768 events.
use aideck_gap8_examples.Base.{
  ℕ, zero, suc, ◌+◌, ◌-◌, ◌%◌, ◌≤◌, ◌<◌, ◌≡◌, refl, sym, subst, ap, ap₂, ◌∙◌, min, true, false,
  none, some, List, [], ◌∷◌, ◌++◌, append_assoc, append-nil, length, length-set, length-append,
  length-replicate, get_or, set, get_or-set_self, get_or-set_ne, drop, replicate, Outcome, ok,
  ◌>>=◌, arith, dec_lt,
}
use aideck_gap8_examples.TraceBuffer.{
  Trace, Fault, events_buffer, init, push_event, dump_from, dump_core,
}

-- Several events, one after another.
unfoldable pub push_events : Trace → List ℕ → Outcome Fault Trace
push_events t [] = ok t
push_events t (event ∷ rest) = push_event (some t) event >>= λ u. push_events u rest

-- The buffer after a history of events.
pub record Keeps (history : List ℕ) (t : Trace) : Type 0 where
  pub started_is : t.started ≡ true
  pub next_is : t.next_event ≡ length history % 768
  pub count_is : t.event_count ≡ min (length history) 768
  pub whole : length t.buffer ≡ 768
  pub kept :
      (p : ℕ)
      → p < length history
      → length history ≤ p + 768
      → get_or t.buffer (p % 768) 0 ≡ get_or history p 0

get_or-append_left :
    (xs ys : List ℕ) (p : ℕ) → p < length xs → get_or (xs ++ ys) p 0 ≡ get_or xs p 0
get_or-append_left [] ys p h = absurd (omega arith)
get_or-append_left (x ∷ xs) ys zero h = refl
get_or-append_left (x ∷ xs) ys (suc p) h = get_or-append_left xs ys p (omega arith)

get_or-append_last : (xs : List ℕ) (y : ℕ) → get_or (xs ++ y ∷ []) (length xs) 0 ≡ y
get_or-append_last [] y = refl
get_or-append_last (x ∷ xs) y = get_or-append_last xs y

pushed : Trace → ℕ → Trace
pushed t event = record t {
  buffer = set t.buffer t.next_event event;
  next_event = (t.next_event + 1) % events_buffer;
  event_count = min (t.event_count + 1) events_buffer;
}

push-Keeps :
    (history : List ℕ) (t : Trace) (event : ℕ)
    → Keeps history t
    → (push_event (some t) event ≡ ok (pushed t event))
      × Keeps (history ++ event ∷ []) (pushed t event)
unfolding push_event pushed
push-Keeps history t event k =
    let n = length-append history (event ∷ []) in
    (
      rw k.started_is refl,
      record {
        started_is = k.started_is;
        next_is = omega (arith, n, k.next_is);
        count_is = omega (arith, n, k.count_is);
        whole = length-set t.buffer t.next_event event ∙ k.whole;
        kept = λ p h near. elim (dec_lt p (length history)) [
          | yes old ↦
              get_or-set_ne t.buffer t.next_event (p % 768) event 0
                (λ e. omega (arith, e, n, k.next_is))
              ∙ k.kept p old (omega (arith, n))
              ∙ sym (get_or-append_left history (event ∷ []) p old)
          | no new ↦
              let e : p ≡ length history = omega (arith, n) in
              ap (λ i. get_or (set t.buffer t.next_event event) i 0)
                (ap (λ i. i % 768) e ∙ sym k.next_is)
              ∙ get_or-set_self t.buffer t.next_event event 0 (omega (arith, k.next_is, k.whole))
              ∙ sym (
                  ap (λ i. get_or (history ++ event ∷ []) i 0) e ∙ get_or-append_last history event)
        ];
      },
    )

push_events-Keeps :
    (history events : List ℕ) (t : Trace)
    → Keeps history t
    → (u : Trace) × (push_events t events ≡ ok u) × Keeps (history ++ events) u
unfolding push_events
push_events-Keeps history [] t k = (t, refl, subst (λ h. Keeps h t) (sym (append-nil history)) k)
push_events-Keeps history (event ∷ rest) t k =
    let (e, next) = push-Keeps history t event k in
    let (u, f, last) = push_events-Keeps (history ++ event ∷ []) rest (pushed t event) next in
    (u, rw e f, subst (λ h. Keeps h u) (append_assoc history (event ∷ []) rest) last)

drop-get_or : (xs : List ℕ) (p : ℕ) → p < length xs → drop p xs ≡ get_or xs p 0 ∷ drop (suc p) xs
drop-get_or [] p h = absurd (omega arith)
drop-get_or (x ∷ xs) zero h = refl
drop-get_or (x ∷ xs) (suc p) h = drop-get_or xs p (omega arith)

drop-end : (xs : List ℕ) (p : ℕ) → length xs ≤ p → drop p xs ≡ []
drop-end [] zero h = refl
drop-end [] (suc p) h = refl
drop-end (x ∷ xs) zero h = absurd (omega arith)
drop-end (x ∷ xs) (suc p) h = drop-end xs p (omega arith)

dump_from-Keeps :
    (history : List ℕ) (t : Trace) (n p : ℕ)
    → Keeps history t
    → p + n ≡ length history
    → n ≤ 768
    → dump_from n (p % 768) t.buffer ≡ drop p history
unfolding dump_from
dump_from-Keeps history t zero p k e h = sym (drop-end history p (omega arith))
dump_from-Keeps history t (suc n) p k e h =
    ap₂ (λ x xs. x ∷ xs) (k.kept p (omega arith) (omega arith))
      (ap (λ i. dump_from n i t.buffer) (omega arith)
        ∙ dump_from-Keeps history t n (p + 1) k (omega arith) (omega arith)
        ∙ ap (λ i. drop i history) {x = p + 1} {y = suc p} (omega arith))
    ∙ sym (drop-get_or history p (omega arith))

fresh-Keeps : Keeps [] (record {
  started = true;
  next_event = 0;
  event_count = 0;
  buffer = replicate 768 0xaaaaaaaaaaaaaaaa;
})
fresh-Keeps = record {
  started_is = refl;
  next_is = refl;
  count_is = refl;
  whole = length-replicate {A = ℕ} 768 0xaaaaaaaaaaaaaaaa;
  kept = λ p h near. absurd (omega arith);
}

dump_core-Keeps :
    (history : List ℕ) (t : Trace)
    → Keeps history t
    → (dump_core t).0 ≡ drop (length history - 768) history
unfolding dump_core
dump_core-Keeps history t k =
    let p = length history - 768 in
    let first : (t.next_event + 768 - t.event_count) % 768 ≡ p % 768 =
      omega (arith, k.next_is, k.count_is) in
    ap (λ i. dump_from t.event_count i t.buffer) first
    ∙ dump_from-Keeps history t t.event_count p k (omega (arith, k.count_is))
        (omega (arith, k.count_is))

-- On a buffer that has been made by `trace_buffer_init` and started, any events can be pushed, and
-- `trace_buffer_dump_core` then prints the last 768 of them, or all if they are fewer, the oldest
-- first.
pub dump_lem :
    (t : Trace) (events : List ℕ)
    → init none true ≡ ok t
    → (u : Trace) × (push_events (record t { started = true }) events ≡ ok u)
      × ((dump_core u).0 ≡ drop (length events - 768) events)
unfolding init dump_core
dump_lem t events fresh =
    let e : t ≡ record {
      started = false;
      next_event = 0;
      event_count = 0;
      buffer = replicate 768 0xaaaaaaaaaaaaaaaa;
    } =
      ground (arith, fresh) in
    let start : Keeps [] (record t { started = true }) =
      subst (λ t. Keeps [] (record t { started = true })) (sym e) fresh-Keeps in
    let (u, p, k) = push_events-Keeps [] events (record t { started = true }) start in
    (u, p, dump_core-Keeps events u k)
