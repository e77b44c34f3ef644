-- ===== src/Image/Writes.antt =====
-- What loops of img_proc.c write: an interval of offsets, and nothing else.
use aideck_gap8_examples.Base.{ℕ, zero, suc, ◌+◌, ◌≤◌, ◌<◌, ◌≡◌, refl, ◌∙◌, ◌⊎◌, inl, dec_lt, arith}
use aideck_gap8_examples.Image.{Image, rounds}

-- From `s` to `t`, the offsets from `low` up to `high` got the value of the reference `val`, and all
-- others were left.
pub record Writes (val : Image) (low high : ℕ) (s t : Image) : Type 0 where
  pub inside : (j : ℕ) → low ≤ j → j < high → t j ≡ val j
  pub outside : (j : ℕ) → (j < low) ⊎ (high ≤ j) → t j ≡ s j

pub Writes-none : (val : Image) (at : ℕ) (s : Image) → Writes val at at s s
Writes-none val at s = record { inside = λ j h k. absurd (omega arith); outside = λ j h. refl }

-- Neighbouring intervals.
pub Writes-join :
    (val : Image) (low mid high : ℕ) (s t u : Image)
    → low ≤ mid
    → mid ≤ high
    → Writes val low mid s t
    → Writes val mid high t u
    → Writes val low high s u
Writes-join val low mid high s t u h k a b = record {
  inside = λ j p q. elim (dec_lt j mid) [
    | yes r ↦ b.outside j (inl r) ∙ a.inside j p r
    | no r ↦ b.inside j (omega arith) q
  ];
  outside = λ j p. b.outside j (omega arith) ∙ a.outside j (omega arith);
}

-- A loop whose body at `i` writes from `edge i` to `edge (i + 1)`.
pub rounds-Writes :
    (val : Image) (edge : ℕ → ℕ) (body : ℕ → Image → Image) (n i end : ℕ) (s : Image)
    → i + n ≡ end
    → ((a b : ℕ) → a ≤ b → edge a ≤ edge b)
    → ((k : ℕ) (t : Image) → i ≤ k → k < end → Writes val (edge k) (edge (k + 1)) t (body k t))
    → Writes val (edge i) (edge end) s (rounds n i body s)
unfolding rounds
rounds-Writes val edge body zero i end s e up w =
    let same : i ≡ end = omega arith in rw (← same) (Writes-none val (edge i) s)
rounds-Writes val edge body (suc n) i end s e up w =
    Writes-join val (edge i) (edge (i + 1)) (edge end) s (body i s)
      (rounds n (i + 1) body (body i s)) (up i (i + 1) (omega arith)) (up (i + 1) end (omega arith))
      (w i s (omega arith) (omega arith))
      (rounds-Writes val edge body n (i + 1) end (body i s) (omega arith) up
        (λ k t h. w k t (omega arith)))
