-- ===== src/Cpx/SendTask/Inv.antt =====
-- No context of `cpx_send_task` is lost or resumed twice.
use aideck_gap8_examples.Base.{
  ℕ, ◌+◌, ◌≡◌, ◌≢◌, refl, ap, ◌∙◌, sym, subst, true, false, none, some, List, [], ◌∷◌, ◌++◌, ◌==◌,
  if◌then◌else◌, occurrences, occurrences-append, ◌≤◌, ℕ_discrete, ==_of_eq, ==_of_ne, arith,
}
use aideck_gap8_examples.Cpx.SendTask.{
  Point, absent, started, turn, on_air, Sends, initial, move, send_async, try_send, resume,
  complete, mark_done, call_back,
}

-- How often a context is to be resumed, now or later.
unfoldable pub due : Point → ℕ
due absent = 0
due started = 1
due turn = 1
due on_air = 1

-- `send_done` and the packet in flight: nothing is sent, a packet is with `cpx_spi_task`, or the task
-- of `send_done` is to be called.
pub data Phase (s : Sends) : Type 0 where
  quiet : s.done ≡ true → s.pushed ≡ false → s.waiting ≡ [] → s.in_flight ≡ none → Phase s
  busy : (ctx : ℕ) → s.done ≡ false → s.pushed ≡ false → s.in_flight ≡ some ctx → Phase s
  ending : s.done ≡ false → s.pushed ≡ true → s.in_flight ≡ none → Phase s

pub record IsValid (s : Sends) : Type 0 where
  pub phase : Phase s
  pub once : (c : ℕ) → occurrences c s.waiting + occurrences c s.resumed ≡ due (s.point c)

pub initial-IsValid : IsValid initial
unfolding occurrences due
initial-IsValid = record { phase = ending refl refl refl; once = λ c. refl }

-- The counts of one context more.
count-cons :
    (c ctx : ℕ) (xs : List ℕ)
    → occurrences c (ctx ∷ xs) ≡ (if c == ctx then 1 else 0) + occurrences c xs
unfolding occurrences
count-cons c ctx xs = refl

count-last :
    (c ctx : ℕ) (xs : List ℕ)
    → occurrences c (xs ++ ctx ∷ []) ≡ (if c == ctx then 1 else 0) + occurrences c xs
unfolding occurrences
count-last c ctx xs = omega (arith, occurrences-append c xs (ctx ∷ []))

due-move :
    (c ctx : ℕ) (p : Point) (point : ℕ → Point)
    → due (move ctx p point c) ≡ (if c == ctx then due p else due (point c))
due-move c ctx p point = ground arith

pub send_async-IsValid :
    (ctx : ℕ) (s : Sends) → s.point ctx ≡ absent → IsValid s → IsValid (send_async ctx s)
unfolding send_async due
send_async-IsValid ctx s free v = record {
  phase = elim v.phase [
    | quiet a p b c ↦ quiet a p b c
    | busy x a p b ↦ busy x a p b
    | ending a p b ↦ ending a p b
  ];
  once = λ c.
      let o = v.once c in
      let e = count-last c ctx s.resumed in
      let f = due-move c ctx started s.point in ground (arith, free, o, e, f);
}

pub complete-none : (s : Sends) → s.in_flight ≡ none → complete s ≡ s
unfolding complete
complete-none s e = rw (complete, e) (ap (λ f. record s { in_flight = f }) e)

pub complete-some :
    (s : Sends) (ctx : ℕ)
    → s.in_flight ≡ some ctx
    → complete s ≡ record s { in_flight = none; pushed = true }
unfolding complete
complete-some s ctx e = rw (complete, e) refl

pub complete-IsValid : (s : Sends) → IsValid s → IsValid (complete s)
complete-IsValid s v = elim v.phase [
  | quiet a p b c ↦ subst IsValid (sym (complete-none s c)) v
  | busy x a p b ↦
      subst IsValid (sym (complete-some s x b))
        (record { phase = ending a refl refl; once = v.once })
  | ending a p b ↦ subst IsValid (sym (complete-none s b)) v
]

-- Where no sender runs between the mark and the callback.
abbrev pub fire : Sends → Sends
fire s = call_back (mark_done s)

pub fire-idle : (s : Sends) → s.pushed ≡ false → fire s ≡ s
unfolding call_back mark_done
fire-idle s e = ground (arith, e)

pub fire-pushed :
    (s : Sends)
    → s.pushed ≡ true
    → fire s
      ≡ record s { done = true; pushed = false; resumed = s.resumed ++ s.waiting; waiting = [] }
unfolding call_back mark_done
fire-pushed s e = ground (arith, e)

pub fire-IsValid : (s : Sends) → IsValid s → IsValid (fire s)
unfolding occurrences
fire-IsValid s v = elim v.phase [
  | quiet a p b c ↦ subst IsValid (sym (fire-idle s p)) v
  | busy x a p b ↦ subst IsValid (sym (fire-idle s p)) v
  | ending a p b ↦ subst IsValid (sym (fire-pushed s p)) (record {
    phase = quiet refl refl refl b;
    once = λ c. let o = v.once c in omega (arith, o, occurrences-append c s.resumed s.waiting);
  })
]

pub try_send-quiet :
    (ctx : ℕ) (s : Sends)
    → s.done ≡ true
    → try_send ctx s ≡ record s {
      done = false;
      waiting = ctx ∷ [];
      point = move ctx on_air s.point;
      in_flight = some ctx;
      sent = s.sent ++ ctx ∷ [];
    }
unfolding try_send
try_send-quiet ctx s e = rw (try_send, e) refl

pub try_send-busy :
    (ctx : ℕ) (s : Sends)
    → s.done ≡ false
    → try_send ctx s ≡ record s { waiting = s.waiting ++ ctx ∷ []; point = move ctx turn s.point }
unfolding try_send
try_send-busy ctx s e = rw (try_send, e) refl

due-le : (p : Point) → due p ≤ 1
unfolding due
due-le absent = omega arith
due-le started = omega arith
due-le turn = omega arith
due-le on_air = omega arith

-- The context that runs is not among those that wait or are resumed behind it.
module _ (ctx : ℕ) (rest : List ℕ) (s : Sends) (r : s.resumed ≡ ctx ∷ rest) (v : IsValid s) where
  pub first-once :
      (occurrences ctx s.waiting ≡ 0) × (occurrences ctx rest ≡ 0) × (due (s.point ctx) ≡ 1)
  unfolding occurrences
  first-once =
      let o = v.once ctx in
      let h : occurrences ctx s.resumed ≡ occurrences ctx (ctx ∷ rest) = ap (occurrences ctx) r in
      let e : occurrences ctx (ctx ∷ rest) ≡ 1 + occurrences ctx rest = ground arith in
      let l = due-le (s.point ctx) in
      (omega (arith, o, h, e, l), omega (arith, o, h, e, l), omega (arith, o, h, e, l))

  others : (c : ℕ) → c ≢ ctx → occurrences c s.waiting + occurrences c rest ≡ due (s.point c)
  others c n =
      let o = v.once c in
      let h : occurrences c s.resumed ≡ occurrences c (ctx ∷ rest) = ap (occurrences c) r in
      let e = count-cons c ctx rest in let z = ==_of_ne n in ground (arith, o, h, e, z)

  -- A context that moves to a point where it is due as often as it is in the lists.
  moved-once :
      (p : Point) (waiting : List ℕ) (extra : ℕ)
      → due p ≡ extra
      → ((c : ℕ) → c ≢ ctx → occurrences c waiting ≡ occurrences c s.waiting)
      → occurrences ctx waiting ≡ extra
      → (c : ℕ) → occurrences c waiting + occurrences c rest ≡ due (move ctx p s.point c)
  moved-once p waiting extra d same own c = elim (ℕ_discrete c ctx) [
    | yes e ↦
        let z = ==_of_eq e in
        let (a, b, _) = first-once in
        let f = due-move c ctx p s.point in
        let x : occurrences c waiting ≡ extra = ap (λ t. occurrences t waiting) e ∙ own in
        let y : occurrences c rest ≡ 0 = ap (λ t. occurrences t rest) e ∙ b in
        let g : due (move ctx p s.point c) ≡ due p = ground (arith, z, f) in
        omega (arith, x, y, g, d)
    | no n ↦
        let z = ==_of_ne n in
        let f = due-move c ctx p s.point in
        let g : due (move ctx p s.point c) ≡ due (s.point c) = ground (arith, z, f) in
        omega (arith, same c n, others c n, g)
  ]

  kept-Phase : Phase s → Phase (record s { resumed = rest; point = move ctx absent s.point })
  kept-Phase (quiet a p b n) = quiet a p b n
  kept-Phase (busy x a p b) = busy x a p b
  kept-Phase (ending a p b) = ending a p b

  pub ended-IsValid : IsValid (record s { resumed = rest; point = move ctx absent s.point })
  unfolding due
  ended-IsValid = record {
    phase = kept-Phase v.phase;
    once = moved-once absent s.waiting 0 refl (λ c n. refl) first-once.0;
  }

  queued-once :
      (c : ℕ)
      → occurrences c (s.waiting ++ ctx ∷ []) + occurrences c rest ≡ due (move ctx turn s.point c)
  unfolding due
  queued-once =
      moved-once turn (s.waiting ++ ctx ∷ []) 1 refl
        (λ c n. count-last c ctx s.waiting ∙ (let z = ==_of_ne n in ground (arith, z)))
        (count-last ctx ctx s.waiting ∙ (let w = first-once.0 in ground (arith, w)))

  pub try_send-IsValid : IsValid (try_send ctx (record s { resumed = rest }))
  unfolding due occurrences
  try_send-IsValid = elim v.phase [
    | quiet a p b n ↦
        subst IsValid (sym (try_send-quiet ctx (record s { resumed = rest }) a)) (record {
          phase = busy ctx refl p refl;
          once =
              moved-once on_air (ctx ∷ []) 1 refl
                (λ c n.
                  let z = ==_of_ne n in
                  let w : occurrences c s.waiting ≡ 0 = ap (occurrences c) b in
                  ground (arith, z, w))
                (ground arith);
        })
    | busy x a p b ↦
        subst IsValid (sym (try_send-busy ctx (record s { resumed = rest }) a))
          (record { phase = busy x a p b; once = queued-once })
    | ending a p b ↦
        subst IsValid (sym (try_send-busy ctx (record s { resumed = rest }) a))
          (record { phase = ending a p b; once = queued-once })
  ]

  pub resume_from :
      (p : Point) → s.point ctx ≡ p → IsValid (resume ctx (record s { resumed = rest }))
  unfolding resume due
  resume_from absent e = absurd (let (_, _, d) = first-once in ground (arith, d, e))
  resume_from started e = rw (resume, e) try_send-IsValid
  resume_from turn e = rw (resume, e) try_send-IsValid
  resume_from on_air e = rw (resume, e) ended-IsValid
