-- ===== src/WifiStreamer/HimaxTiming/Registers.antt =====
-- Setting several registers of the camera, for examples/other/wifi-img-streamer/himax_timing.c.
use aideck_gap8_examples.Base.{
  ℕ, ◌+◌, ◌/◌, ◌%◌, ◌≡◌, ◌≢◌, refl, ap₂, ◌∙◌, Bool, true, false, not, ◌&&◌, ◌==◌, List, [], ◌∷◌,
  ◌++◌, Misses, Bool-cases, inl, inr, arith,
}
use aideck_gap8_examples.WifiStreamer.HimaxTiming.{
  Camera, group_parameter_hold, set_register, or_else, set_register_pair,
}

-- Registers and the values that they are to have.
abbrev pub Cells : Type 0
Cells = List (ℕ × ℕ)

unfoldable pub addresses : Cells → List ℕ
addresses [] = []
addresses (c ∷ cells) = c.0 ∷ addresses cells

unfoldable pub matches : (ℕ → ℕ) → Cells → Bool
matches file [] = true
matches file (c ∷ cells) = (file c.0 == c.1) && matches file cells

unfoldable pub Apart : Cells → List ℕ → Type 0
Apart [] xs = Unit
Apart (c ∷ cells) xs = Misses c.0 xs × Apart cells xs

-- What the code relies on of the camera's registers: a read tells the value and changes none, a
-- write changes no other register, and the hold takes what is written to it. Whether another
-- register takes a value is left open.
pub record Registers {S : Type 0} (camera : Camera S) : Type 0 where
  pub file : S → ℕ → ℕ
  pub get_value : (a : ℕ) (s : S) → (camera.reg_get a s).0 ≡ file s a
  pub get_keeps : (a b : ℕ) (s : S) → file (camera.reg_get a s).1 b ≡ file s b
  pub set_keeps : (a v b : ℕ) (s : S) → b ≢ a → file (camera.reg_set a v s) b ≡ file s b
  pub set_hold :
      (v : ℕ) (s : S) → file (camera.reg_set group_parameter_hold v s) group_parameter_hold ≡ v

pub matches-kept :
    (before after : ℕ → ℕ) (cells : Cells) (xs : List ℕ)
    → Apart cells xs
    → ((b : ℕ) → Misses b xs → after b ≡ before b)
    → matches after cells ≡ matches before cells
unfolding matches Apart
matches-kept before after [] xs d same = refl
matches-kept before after (c ∷ cells) xs (d, e) same =
    ap₂ (λ t u. (t == c.1) && u) (same c.0 d) (matches-kept before after cells xs e same)

matches-append :
    (file : ℕ → ℕ) (c d : Cells) → matches file (c ++ d) ≡ (matches file c && matches file d)
unfolding matches
matches-append file [] d = refl
matches-append file (x ∷ c) d = let e = matches-append file c d in ground (arith, e)

Misses-left : (b : ℕ) (c d : Cells) → Misses b (addresses (c ++ d)) → Misses b (addresses c)
unfolding addresses
Misses-left b [] d m = tt
Misses-left b (x ∷ c) d (n, m) = (n, Misses-left b c d m)

Misses-right : (b : ℕ) (c d : Cells) → Misses b (addresses (c ++ d)) → Misses b (addresses d)
unfolding addresses
Misses-right b [] d m = m
Misses-right b (x ∷ c) d (n, m) = Misses-right b c d m

module _ {S : Type 0} (camera : Camera S) (r : Registers camera) where
  -- An action that tries to set registers, touches no others, and tells whether one has not got its
  -- value.
  pub record Sets (action : S → Bool × S) (cells : Cells) : Type 0 where
    pub verdict : (s : S) → (action s).0 ≡ not (matches (r.file (action s).1) cells)
    pub keeps : (s : S) (b : ℕ) → Misses b (addresses cells) → r.file (action s).1 b ≡ r.file s b

  pub set_register-Sets : (a v : ℕ) → Sets (set_register camera a v) ((a, v) ∷ [])
  unfolding set_register matches addresses
  set_register-Sets a v = record {
    verdict = λ s.
        let e = r.get_value a (camera.reg_set a v s) in
        let k = r.get_keeps a a (camera.reg_set a v s) in ground (arith, e, k);
    keeps = λ s b m. r.get_keeps a b (camera.reg_set a v s) ∙ r.set_keeps a v b s m.0;
  }

  or_else-first :
      (first second : S → Bool × S) (s : S)
      → (first s).0 ≡ true
      → or_else camera first second s ≡ (true, (first s).1)
  unfolding or_else
  or_else-first first second s e = rw (or_else, e) refl

  or_else-second :
      (first second : S → Bool × S) (s : S)
      → (first s).0 ≡ false
      → or_else camera first second s ≡ second (first s).1
  unfolding or_else
  or_else-second first second s e = rw (or_else, e) refl

  module _ (first second : S → Bool × S) (c d : Cells) (f : Sets first c) (g : Sets second d)
      (apart : Apart c (addresses d)) where
    either_keeps :
        (s : S) (b : ℕ)
        → Misses b (addresses (c ++ d))
        → r.file (or_else camera first second s).1 b ≡ r.file s b
    either_keeps s b m =
        let e = f.keeps s b (Misses-left b c d m) in
        elim (Bool-cases (first s).0) [
          | inl t ↦ rw (or_else-first first second s t) e
          | inr t ↦
              rw (or_else-second first second s t)
                (g.keeps (first s).1 b (Misses-right b c d m) ∙ e)
        ]

    either_verdict :
        (s : S)
        → (or_else camera first second s).0
          ≡ not (matches (r.file (or_else camera first second s).1) (c ++ d))
    either_verdict s =
        let e = f.verdict s in
        let two = g.verdict (first s).1 in
        let k =
          matches-kept (r.file (first s).1) (r.file (second (first s).1).1) c (addresses d) apart
            (g.keeps (first s).1) in
        elim (Bool-cases (first s).0) [
          | inl t ↦
              rw (or_else-first first second s t)
                (rw (matches-append (r.file (first s).1) c d) (ground (arith, e, t)))
          | inr t ↦ rw (or_else-second first second s t) (
              rw (matches-append (r.file (second (first s).1).1) c d)
                (ground (arith, e, t, two, k)))
        ]

    pub or_else-Sets : Sets (or_else camera first second) (c ++ d)
    or_else-Sets = record { verdict = either_verdict; keeps = either_keeps }

  pub set_register_pair-Sets :
      (a v : ℕ) → Sets (set_register_pair camera a v) ((a, v / 256 % 256) ∷ (a + 1, v % 256) ∷ [])
  unfolding set_register_pair addresses Apart
  set_register_pair-Sets a v =
      or_else-Sets (set_register camera a (v / 256 % 256)) (set_register camera (a + 1) (v % 256))
        ((a, v / 256 % 256) ∷ []) ((a + 1, v % 256) ∷ []) (set_register-Sets a (v / 256 % 256))
        (set_register-Sets (a + 1) (v % 256)) (((λ e. omega arith), tt), tt)
