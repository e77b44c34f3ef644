-- ===== src/Rng/Draws.antt =====
-- What a sequence of draws from nanocockpit/lib/rng.c gives.
use aideck_gap8_examples.Base.{
  ℕ, zero, suc, ◌+◌, ◌*◌, ◌-◌, ◌/◌, ◌%◌, ◌^◌, ◌≡◌, ◌≤◌, ◌<◌, refl, sym, ap, ◌∙◌, List, [], ◌∷◌,
  Outcome, ok, exit, ◌>>=◌, arith, dec_lt,
}
use native.Mathlib.Nat.{
  pow-suc, div-add-mod, mul-add, mul-le-mul_left, mod-lt, mul-suc, mul_assoc, mul_comm,
  mul-add-mod_self_left, mul-add-div, mod-eq_of_lt, div-eq_of_lt, one-le-pow, pow-le-pow_right,
}
use aideck_gap8_examples.Rng.{Rng, Fault, insufficient_entropy, push_entropy, random_bits}

-- The outputs of draws of these numbers of bits.
unfoldable pub draw : List ℕ → Rng → Outcome Fault (List ℕ × Rng)
draw [] g = ok ([], g)
draw (n_bits ∷ rest) g = do
  (output, g') ← random_bits n_bits g
  (outputs, g'') ← draw rest g'
  ok (output ∷ outputs, g'')

-- The number with these digits, the lowest first.
unfoldable pub join : List ℕ → List ℕ → ℕ
join [] outputs = 0
join (n_bits ∷ rest) [] = 0
join (n_bits ∷ rest) (output ∷ outputs) = output + 2 ^ n_bits * join rest outputs

-- Each of the draws is of fewer than 32 bits.
abbrev pub Narrow : List ℕ → Type 0
Narrow [] = Unit
Narrow (n ∷ rest) = (n < 32) × Narrow rest

abbrev pub total : List ℕ → ℕ
total [] = 0
total (n ∷ rest) = n + total rest

pow-add : (n r : ℕ) → 2 ^ (n + r) ≡ 2 ^ n * 2 ^ r
pow-add zero r =
    let e : 0 + r ≡ r = omega arith in let f : 2 ^ r ≡ 1 * 2 ^ r = omega arith in rw e f
pow-add (suc n) r =
    let e : suc n + r ≡ suc (n + r) = omega arith in
    rw e (
      rw (pow-suc 2 (n + r)) (
        rw (pow-suc 2 n) (
          rw (pow-add n r) (
            omega (
              arith,
              mul_assoc (2 ^ n) 2 (2 ^ r),
              mul_assoc (2 ^ n) (2 ^ r) 2,
              ap (λ t. 2 ^ n * t) (mul_comm 2 (2 ^ r)),
            )))))

-- The ones of a mask, split.
mask_split : (m q : ℕ) → 0 < m → 0 < q → m * q - 1 ≡ m * (q - 1) + (m - 1)
mask_split m zero h k = absurd (omega arith)
mask_split m (suc q) h k =
    let e = mul-suc m q in let f : suc q - 1 ≡ q = omega arith in rw f (omega (arith, e))

pow-pos : (n : ℕ) → 0 < 2 ^ n
pow-pos n = omega (arith, one-le-pow n 2 (omega arith))

-- A draw that the mask allows.
random_bits-enough :
    (n r : ℕ) (g : Rng)
    → n < 32
    → g.entropy_mask ≡ 2 ^ (n + r) - 1
    → random_bits n g
      ≡ ok (g.entropy % 2 ^ n, record { entropy = g.entropy / 2 ^ n; entropy_mask = 2 ^ r - 1 })
unfolding random_bits
random_bits-enough n r g w e =
    let m = 2 ^ n in
    let s : g.entropy_mask ≡ m * (2 ^ r - 1) + (m - 1) =
      e ∙ ap (λ t. t - 1) (pow-add n r) ∙ mask_split m (2 ^ r) (pow-pos n) (pow-pos r) in
    let p = pow-pos n in
    let valid : g.entropy_mask % m ≡ m - 1 =
      ap (λ t. t % m) s
      ∙ mul-add-mod_self_left m (2 ^ r - 1) (m - 1)
      ∙ mod-eq_of_lt (omega arith) in
    let left : g.entropy_mask / m ≡ 2 ^ r - 1 =
      ap (λ t. t / m) s
      ∙ mul-add-div p (2 ^ r - 1) (m - 1)
      ∙ ap (λ t. 2 ^ r - 1 + t) (div-eq_of_lt (omega arith))
      ∙ omega arith in
    ground (arith, valid, left)

random_bits-few :
    (n k : ℕ) (g : Rng)
    → n < 32
    → g.entropy_mask ≡ 2 ^ k - 1
    → k < n
    → random_bits n g ≡ exit insufficient_entropy
unfolding random_bits
random_bits-few n k g w e h =
    let low = pow-le-pow_right {n = 2} (omega arith) {i = suc k} {j = n} (omega arith) in
    let double = pow-suc 2 k in
    let p = pow-pos k in
    let valid : g.entropy_mask % 2 ^ n ≡ 2 ^ k - 1 =
      ap (λ t. t % 2 ^ n) e ∙ mod-eq_of_lt (omega arith) in
    ground (arith, valid)

-- The low digits, of two sizes.
mod-of_mul : (e m q : ℕ) → 0 < m → 0 < q → e % (m * q) ≡ e % m + m * (e / m % q)
mod-of_mul e m q h k =
    let b = e % m in
    let a = e / m in
    let c = a / q in
    let d = a % q in
    let f : m * a ≡ m * (q * c + d) = ap (λ t. m * t) (sym (div-add-mod a q)) in
    let whole : e ≡ m * q * c + (m * d + b) =
      omega (arith, div-add-mod e m, f, mul-add m (q * c) d, mul_assoc m q c) in
    let more : m * suc d ≤ m * q = mul-le-mul_left m (mod-lt a k) in
    let small : m * d + b < m * q = omega (arith, more, mul-suc m d, mod-lt e h) in
    ap (λ t. t % (m * q)) whole
    ∙ mul-add-mod_self_left (m * q) c (m * d + b)
    ∙ mod-eq_of_lt small
    ∙ (omega arith)

-- Draws that the mask allows: they join to the low bits.
draw-enough :
    (ns : List ℕ) (r : ℕ) (g : Rng)
    → Narrow ns
    → g.entropy_mask ≡ 2 ^ (total ns + r) - 1
    → (outputs : List ℕ) × (g' : Rng) × (draw ns g ≡ ok (outputs, g'))
      × (join ns outputs ≡ g.entropy % 2 ^ total ns)
      × (g'.entropy_mask ≡ 2 ^ r - 1)
unfolding draw join
draw-enough [] r g w e = ([], g, refl, omega arith, e ∙ ap (λ t. 2 ^ t - 1) (omega arith))
draw-enough (n ∷ ns) r g (v, w) e =
    let g₁ : Rng = record { entropy = g.entropy / 2 ^ n; entropy_mask = 2 ^ (total ns + r) - 1 } in
    let first = random_bits-enough n (total ns + r) g v (e ∙ ap (λ t. 2 ^ t - 1) (omega arith)) in
    let (outputs, g', p, q, left) = draw-enough ns r g₁ w refl in
    (
      g.entropy % 2 ^ n ∷ outputs,
      g',
      rw first (rw p refl),
      ap (λ t. g.entropy % 2 ^ n + 2 ^ n * t) q
          ∙ sym (mod-of_mul g.entropy (2 ^ n) (2 ^ total ns) (pow-pos n) (pow-pos (total ns)))
          ∙ ap (λ t. g.entropy % t) (sym (pow-add n (total ns))),
      left,
    )

draw-few :
    (ns : List ℕ) (k : ℕ) (g : Rng)
    → Narrow ns
    → g.entropy_mask ≡ 2 ^ k - 1
    → k < total ns
    → draw ns g ≡ exit insufficient_entropy
unfolding draw
draw-few [] k g w e h = absurd (omega arith)
draw-few (n ∷ ns) k g (v, w) e h = elim (dec_lt k n) [
  | yes few ↦ rw (random_bits-few n k g v e few) refl
  | no enough ↦
      let s : n + (k - n) ≡ k = omega arith in
      let g₁ : Rng = record { entropy = g.entropy / 2 ^ n; entropy_mask = 2 ^ (k - n) - 1 } in
      rw (random_bits-enough n (k - n) g v (e ∙ ap (λ t. 2 ^ t - 1) (sym s)))
        (rw (draw-few ns (k - n) g₁ w refl (omega arith)) refl)
]

-- After `rng_push_entropy` of a word, draws of fewer than 32 bits each and at most 32 together
-- succeed, and their outputs, the first as the lowest, are the low bits of the word, each bit given
-- once.
pub draws_lem :
    (ns : List ℕ) (entropy : ℕ) (g : Rng)
    → Narrow ns
    → total ns ≤ 32
    → (outputs : List ℕ) × (g' : Rng) × (draw ns (push_entropy entropy g) ≡ ok (outputs, g'))
      × (join ns outputs ≡ entropy % 2 ^ total ns)
unfolding push_entropy
draws_lem ns entropy g w h =
    let s : total ns + (32 - total ns) ≡ 32 = omega arith in
    let (outputs, g', p, q, _) =
      draw-enough ns (32 - total ns) (push_entropy entropy g) w (ap (λ t. 2 ^ t - 1) (sym s)) in
    (outputs, g', p, q)

-- Draws of fewer than 32 bits each and more than 32 together after `rng_push_entropy` fail the
-- assertion.
draws_exhausted :
    (ns : List ℕ) (entropy : ℕ) (g : Rng)
    → Narrow ns
    → 32 < total ns
    → draw ns (push_entropy entropy g) ≡ exit insufficient_entropy
unfolding push_entropy
draws_exhausted ns entropy g w h = draw-few ns 32 (push_entropy entropy g) w refl h
