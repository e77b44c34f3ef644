-- ===== src/Image/Cores.antt =====
-- The filters of img_proc.c on the cores of the cluster, one core after the other in any order. A
-- core reads `srcBuffer` and writes `resBuffer`, which are taken to be apart.
use aideck_gap8_examples.Base.{
  ℕ, ◌≤◌, ◌<◌, ◌≡◌, refl, sym, ap, ◌∙◌, ◌⊎◌, inl, inr, List, [], ◌∷◌, dec_lt, arith,
}
use aideck_gap8_examples.Image.{Image}
use aideck_gap8_examples.Image.Writes.{Writes}

-- A function of each of a list of cores.
unfoldable pub run_cores : (ℕ → Image → Image) → List ℕ → Image → Image
run_cores f [] s = s
run_cores f (c ∷ cores) s = run_cores f cores (f c s)

abbrev pub Has : ℕ → List ℕ → Type 0
Has c [] = ⊥
Has c (x ∷ xs) = (c ≡ x) ⊎ Has c xs

-- A cell that has the value of the reference keeps it.
run_cores-keep :
    (val : Image) (f : ℕ → Image → Image) (low high : ℕ → ℕ) (cores : List ℕ) (s : Image) (j : ℕ)
    → ((c : ℕ) (t : Image) → Has c cores → Writes val (low c) (high c) t (f c t))
    → s j ≡ val j
    → run_cores f cores s j ≡ val j
unfolding run_cores
run_cores-keep val f low high [] s j w e = e
run_cores-keep val f low high (c ∷ cores) s j w e =
    run_cores-keep val f low high cores (f c s) j (λ d t h. w d t (inr h)) now
  where
    here : Writes val (low c) (high c) s (f c s)
    here = w c s (inl refl)

    now : f c s j ≡ val j
    now = elim (dec_lt j (low c)) [
      | yes p ↦ here.outside j (inl p) ∙ e
      | no p ↦ elim (dec_lt j (high c)) [
        | yes q ↦ here.inside j (omega arith) q
        | no q ↦ here.outside j (inr (omega arith)) ∙ e
      ]
    ]

run_cores-inside :
    (val : Image) (f : ℕ → Image → Image) (low high : ℕ → ℕ) (cores : List ℕ) (s : Image) (c j : ℕ)
    → ((d : ℕ) (t : Image) → Has d cores → Writes val (low d) (high d) t (f d t))
    → Has c cores
    → low c ≤ j
    → j < high c
    → run_cores f cores s j ≡ val j
unfolding run_cores
run_cores-inside val f low high [] s c j w m h k = elim m [ ]
run_cores-inside val f low high (x ∷ cores) s c j w (inl e) h k =
    run_cores-keep val f low high cores (f x s) j (λ d t p. w d t (inr p))
      ((w x s (inl refl)).inside j (omega (arith, ap low e)) (omega (arith, ap high e)))
run_cores-inside val f low high (x ∷ cores) s c j w (inr m) h k =
    run_cores-inside val f low high cores (f x s) c j (λ d t p. w d t (inr p)) m h k

run_cores-outside :
    (val : Image) (f : ℕ → Image → Image) (low high : ℕ → ℕ) (cores : List ℕ) (s : Image) (j : ℕ)
    → ((d : ℕ) (t : Image) → Has d cores → Writes val (low d) (high d) t (f d t))
    → ((d : ℕ) → Has d cores → high d ≤ j)
    → run_cores f cores s j ≡ s j
unfolding run_cores
run_cores-outside val f low high [] s j w h = refl
run_cores-outside val f low high (x ∷ cores) s j w h =
    run_cores-outside val f low high cores (f x s) j (λ d t p. w d t (inr p)) (λ d p. h d (inr p))
    ∙ (w x s (inl refl)).outside j (inr (h x (inl refl)))

-- Cores that write parts of the reference, and cover it together, write it.
pub run_cores-Writes :
    (val : Image) (f : ℕ → Image → Image) (low high : ℕ → ℕ) (limit : ℕ) (cores : List ℕ)
    (s : Image)
    → ((d : ℕ) (t : Image) → Has d cores → Writes val (low d) (high d) t (f d t))
    → ((d : ℕ) → high d ≤ limit)
    → ((j : ℕ) → j < limit → (c : ℕ) × Has c cores × (low c ≤ j) × (j < high c))
    → Writes val 0 limit s (run_cores f cores s)
run_cores-Writes val f low high limit cores s w h cover = record {
  inside =
      λ j _ k. let (c, m, p, q) = cover j k in run_cores-inside val f low high cores s c j w m p q;
  outside = λ j p.
      run_cores-outside val f low high cores s j w
        (λ d _. let b : high d ≤ limit = h d in omega arith);
}

-- Two results of the same cells agree.
pub Writes-unique :
    (val : Image) (limit : ℕ) (s t u : Image) (j : ℕ)
    → Writes val 0 limit s t
    → Writes val 0 limit s u
    → t j ≡ u j
Writes-unique val limit s t u j a b = elim (dec_lt j limit) [
  | yes p ↦ a.inside j (omega arith) p ∙ sym (b.inside j (omega arith) p)
  | no p ↦ a.outside j (inr (omega arith)) ∙ sym (b.outside j (inr (omega arith)))
]
