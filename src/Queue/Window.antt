-- ===== src/Queue/Window.antt =====
-- Runs of consecutive slots of a circular buffer, as lists of addresses.
use native.Mathlib.Nat.{mod-add-mod, mod-eq_of_lt, mod-eq-sub-mod, add-zero}
use native.Mathlib.Nat.{mul-div_cancel}
use aideck_gap8_examples.Base.{
  Misses, Distinct, ℕ, zero, suc, ◌+◌, ◌-◌, ◌*◌, ◌/◌, ◌%◌, ◌≤◌, ◌<◌, ◌≡◌, ◌≢◌, refl, sym, ap, ap₂,
  ◌∙◌, List, [], ◌∷◌, ◌++◌, length, arith, dec_lt,
}

module _ (buffer size cap : ℕ) where
  abbrev pub address : ℕ → ℕ
  address i = buffer + i * size

  -- the `n` slots from index `h` on, going round at `cap`
  abbrev pub window : ℕ → ℕ → List ℕ
  window h zero = []
  window h (suc n) = address h ∷ window ((h + 1) % cap) n

  pub window_of_pos : (h n : ℕ) → n ≢ 0 → window h n ≡ address h ∷ window ((h + 1) % cap) (n - 1)
  window_of_pos h zero p = absurd (p refl)
  window_of_pos h (suc n) p = ap (λ k. window h (suc k)) (omega arith)

  pub length-window : (i count : ℕ) → length (window i count) ≡ count
  length-window i zero = refl
  length-window i (suc count) = ap suc (length-window ((i + 1) % cap) count)

  pub shift-mod : (i k : ℕ) → ((i + 1) % cap + k) % cap ≡ (i + suc k) % cap
  shift-mod i k = mod-add-mod (i + 1) cap k ∙ ap (λ t. t % cap) (omega arith)

  pub shift-lt : (h n : ℕ) → h < cap → (h + n) % cap < cap
  shift-lt h n hh = omega arith

  -- A window is cut in two at any place.
  pub window-append :
      (h m n : ℕ) → h < cap → window h (m + n) ≡ window h m ++ window ((h + m) % cap) n
  window-append h zero n hh = ap₂ window (sym (rw add-zero (mod-eq_of_lt hh))) (omega arith)
  window-append h (suc m) n hh =
      let e : suc m + n ≡ suc (m + n) = omega arith in
      rw e (
        ap (◌∷◌ (address h)) (
          window-append ((h + 1) % cap) m n (omega arith)
          ∙ ap (λ k. window ((h + 1) % cap) m ++ window k n) (shift-mod h m)))

  -- It grows at its end.
  pub window_snoc :
      (h n : ℕ) → h < cap → window h (n + 1) ≡ window h n ++ address ((h + n) % cap) ∷ []
  window_snoc h n hh = window-append h n 1 hh

  pub address_injective : (i j : ℕ) → 0 < size → address i ≡ address j → i ≡ j
  address_injective i j pos e =
      sym (mul-div_cancel i pos) ∙ ap (λ k. k / size) (omega arith) ∙ mul-div_cancel j pos

  -- Fewer than `cap` steps round the buffer do not come back.
  pub steps_ne : (g h k : ℕ) → g < cap → h ≡ (g + suc k) % cap → suc k < cap → g ≢ h
  steps_ne g h k hg e hk = elim (dec_lt (g + suc k) cap) [
    | yes p ↦ omega (arith, mod-eq_of_lt p)
    | no p ↦ omega (
      arith,
      mod-eq-sub-mod {n = g + suc k} {m = cap} (omega arith),
      mod-eq_of_lt {n = g + suc k - cap} {m = cap} (omega arith),
    )
  ]

  window-Misses :
      (pos : 0 < size) (g h k n : ℕ)
      → g < cap
      → h ≡ (g + suc k) % cap
      → k + n < cap
      → Misses (address g) (window h n)
  window-Misses pos g h k zero hg e hk = tt
  window-Misses pos g h k (suc n) hg e hk = (
    λ q. steps_ne g h k hg e (omega arith) (address_injective g h pos q),
    window-Misses pos g ((h + 1) % cap) (suc k) n hg
        (ap (λ t. (t + 1) % cap) e
          ∙ mod-add-mod (g + suc k) cap 1
          ∙ ap (λ t. t % cap) {x = g + suc k + 1} (omega arith))
        (omega arith),
  )

  -- The slots of a window of at most `cap` are different.
  pub window-Distinct : (pos : 0 < size) (h n : ℕ) → h < cap → n ≤ cap → Distinct (window h n)
  window-Distinct pos h zero hh hn = tt
  window-Distinct pos h (suc n) hh hn = (
    window-Misses pos h ((h + 1) % cap) 0 n hh refl (omega arith),
    window-Distinct pos ((h + 1) % cap) n (omega arith) (omega arith),
  )
