-- ===== src/Cpx/SendTask/Run.antt =====
-- Runs of the senders of nanocockpit/lib/cpx/cpx.c: nobody is dropped, and in no state do all wait for
-- each other.
use aideck_gap8_examples.Base.{ℕ, ◌≡◌, refl, sym, subst, ap, List, [], ◌∷◌}
use aideck_gap8_examples.Cpx.SendTask.{
  absent, Sends, send_async, resume, run, complete, Event, sends, runs, completes, marks,
  calls_back, step, steps,
}
use aideck_gap8_examples.Cpx.SendTask.Inv.{
  IsValid, send_async-IsValid, complete-IsValid, fire, fire-IsValid, resume_from,
}

run-none : (s : Sends) → s.resumed ≡ [] → run s ≡ s
unfolding run
run-none s e = rw (run, e) (ap (λ r. record s { resumed = r }) e)

pub run-first :
    (s : Sends) (ctx : ℕ) (rest : List ℕ)
    → s.resumed ≡ ctx ∷ rest
    → run s ≡ resume ctx (record s { resumed = rest })
unfolding run
run-first s ctx rest e = rw (run, e) refl

pub run-IsValid : (s : Sends) (xs : List ℕ) → s.resumed ≡ xs → IsValid s → IsValid (run s)
run-IsValid s [] e v = subst IsValid (sym (run-none s e)) v
run-IsValid s (ctx ∷ rest) e v =
    subst IsValid (sym (run-first s ctx rest e)) (resume_from ctx rest s e v (s.point ctx) refl)

-- When an event can take place: a context calls `cpx_send_async` while it is not sending.
abbrev pub Enabled : Sends → Event → Type 0
Enabled s (sends ctx) = s.point ctx ≡ absent
Enabled s runs = Unit
Enabled s completes = Unit
Enabled s marks = Unit
Enabled s calls_back = Unit

abbrev pub Possible : Sends → List Event → Type 0
Possible s [] = Unit
Possible s (e ∷ more) = Enabled s e × Possible (step s e) more

-- The hypothesis on PMSIS: a task is marked as done only where its callback is called, so that nothing
-- happens in between.
abbrev pub DoneAtCallback : List Event → Type 0
DoneAtCallback [] = Unit
DoneAtCallback (sends ctx ∷ more) = DoneAtCallback more
DoneAtCallback (runs ∷ more) = DoneAtCallback more
DoneAtCallback (completes ∷ more) = DoneAtCallback more
DoneAtCallback (calls_back ∷ more) = ⊥
DoneAtCallback (marks ∷ []) = ⊥
DoneAtCallback (marks ∷ calls_back ∷ more) = DoneAtCallback more
DoneAtCallback (marks ∷ marks ∷ more) = ⊥
DoneAtCallback (marks ∷ sends ctx ∷ more) = ⊥
DoneAtCallback (marks ∷ runs ∷ more) = ⊥
DoneAtCallback (marks ∷ completes ∷ more) = ⊥

pub steps-IsValid :
    (s : Sends) (events : List Event)
    → IsValid s
    → Possible s events
    → DoneAtCallback events
    → IsValid (steps s events)
unfolding steps step
steps-IsValid s [] v p d = v
steps-IsValid s (sends ctx ∷ more) v p d =
    steps-IsValid (send_async ctx s) more (send_async-IsValid ctx s p.0 v) p.1 d
steps-IsValid s (runs ∷ more) v p d =
    steps-IsValid (run s) more (run-IsValid s s.resumed refl v) p.1 d
steps-IsValid s (completes ∷ more) v p d =
    steps-IsValid (complete s) more (complete-IsValid s v) p.1 d
steps-IsValid s (calls_back ∷ more) v p d = absurd d
steps-IsValid s (marks ∷ []) v p d = absurd d
steps-IsValid s (marks ∷ calls_back ∷ more) v p d =
    steps-IsValid (fire s) more (fire-IsValid s v) p.1.1 d
steps-IsValid s (marks ∷ marks ∷ more) v p d = absurd d
steps-IsValid s (marks ∷ sends ctx ∷ more) v p d = absurd d
steps-IsValid s (marks ∷ runs ∷ more) v p d = absurd d
steps-IsValid s (marks ∷ completes ∷ more) v p d = absurd d
