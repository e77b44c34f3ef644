-- ===== src/SpiTask/Suspended.antt =====
-- A coroutine that waits for events with nanocockpit/lib/event_group.h.
use aideck_gap8_examples.Base.{
  ℕ, ◌≡◌, ◌≢◌, refl, sym, ap, ap₂, subst, ◌∙◌, ◌⊎◌, inl, inr, true, false, Bool-cases, [], ◌∷◌, ok,
  arith,
}
use aideck_gap8_examples.Spi.{null}
use aideck_gap8_examples.EventGroup.{
  Mask, either, WaitMode, Group, test, update, set, wait_begin, wait_end, wait,
}
use aideck_gap8_examples.EventGroup.Once.{test-either}

-- Nobody waits, and nothing is to be resumed.
pub record Idle (g : Group) : Type 0 where
  pub free : g.wait_ctx ≡ null
  pub nothing : g.pushed ≡ []

-- `ctx` waits for a condition, or its resumption was pushed, and the condition holds.
pub record Suspended (ctx : ℕ) (g : Group) (m : Mask) (mode : WaitMode) : Type 0 where
  pub mask_is : g.wait_mask ≡ m
  pub mode_is : g.wait_mode ≡ mode
  pub phase :
      ((g.wait_ctx ≡ ctx) × (g.pushed ≡ []))
      ⊎ ((g.wait_ctx ≡ null) × (g.pushed ≡ ctx ∷ []) × (test g.mask m mode ≡ true))

pub wait-Suspended :
    (ctx : ℕ) (g : Group) (m : Mask) (mode : WaitMode)
    → Idle g
    → (g' : Group) × (wait g ctx m mode ≡ ok g') × (g'.mask ≡ g.mask) × Suspended ctx g' m mode
unfolding wait wait_begin wait_end
wait-Suspended ctx g m mode i =
    let free = i.free in
    elim (Bool-cases (test g.mask m mode)) [
      | inl t ↦ (
        record {
          mask = g.mask;
          wait_ctx = null;
          wait_mask = m;
          wait_mode = mode;
          pushed = ctx ∷ g.pushed;
        },
        ground (arith, t, free),
        refl,
        record { mask_is = refl; mode_is = refl; phase = inr (refl, ap (◌∷◌ ctx) i.nothing, t) },
      )
      | inr t ↦ (
        record {
          mask = g.mask;
          wait_ctx = ctx;
          wait_mask = m;
          wait_mode = mode;
          pushed = g.pushed;
        },
        ground (arith, t, free),
        refl,
        record { mask_is = refl; mode_is = refl; phase = inl (refl, i.nothing) },
      )
    ]

pub set-mask : (g : Group) (c : Mask) → (set g c).mask ≡ either g.mask c
unfolding set update
set-mask g c = ground arith

set-done :
    (ctx : ℕ) (g : Group) (c : Mask)
    → ctx ≢ null
    → g.wait_ctx ≡ ctx
    → test (either g.mask c) g.wait_mask g.wait_mode ≡ true
    → set g c ≡ record g { mask = either g.mask c; wait_ctx = null; pushed = g.wait_ctx ∷ g.pushed }
unfolding set update
set-done ctx g c ne e t = ground arith

pub set-waits :
    (g : Group) (c : Mask)
    → (g.wait_ctx ≡ null) ⊎ (test (either g.mask c) g.wait_mask g.wait_mode ≡ false)
    → set g c ≡ record g { mask = either g.mask c }
unfolding set update
set-waits g c h = ground arith

pub set-Idle : (g : Group) (c : Mask) → Idle g → Idle (set g c)
set-Idle g c i =
    subst Idle (sym (set-waits g c (inl i.free))) (record { free = i.free; nothing = i.nothing })

pub set-Suspended :
    (ctx : ℕ) (g : Group) (c m : Mask) (mode : WaitMode)
    → ctx ≢ null
    → Suspended ctx g m mode
    → Suspended ctx (set g c) m mode
set-Suspended ctx g c m mode ne s = elim s.phase [
  | inl (w, p) ↦ elim (Bool-cases (test (either g.mask c) g.wait_mask g.wait_mode)) [
    | inl t ↦
        subst (λ h. Suspended ctx h m mode) (sym (set-done ctx g c ne w t))
          (record {
            mask_is = s.mask_is;
            mode_is = s.mode_is;
            phase = inr (
              refl,
              ap₂ ◌∷◌ w p,
              ap₂ (test (either g.mask c)) (sym s.mask_is) (sym s.mode_is) ∙ t,
            );
          })
    | inr t ↦
        subst (λ h. Suspended ctx h m mode) (sym (set-waits g c (inr t)))
          (record { mask_is = s.mask_is; mode_is = s.mode_is; phase = inl (w, p) })
  ]
  | inr (f, p, t) ↦
      subst (λ h. Suspended ctx h m mode) (sym (set-waits g c (inl f)))
        (record {
          mask_is = s.mask_is;
          mode_is = s.mode_is;
          phase = inr (f, p, test-either g.mask m c mode t);
        })
]
