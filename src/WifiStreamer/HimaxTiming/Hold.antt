-- ===== src/WifiStreamer/HimaxTiming/Hold.antt =====
-- What `himax_configure_frame_timing` and `himax_configure_qvga_window` of
-- examples/other/wifi-img-streamer/himax_timing.c leave in the camera's registers.
use aideck_gap8_examples.Base.{
  ℕ, ◌+◌, ◌/◌, ◌%◌, ◌≡◌, sym, ap, ◌∙◌, Bool, not, ◌==◌, [], ◌∷◌, Misses, arith,
}
use aideck_gap8_examples.WifiStreamer.HimaxTiming.{
  Camera, frame_length_lines_h, max_integration_lines_h, qvga_window_enable_reg,
  group_parameter_hold, set_register, write_register, or_else, set_register_pair,
  configure_qvga_window, configure_frame_timing,
}
use aideck_gap8_examples.WifiStreamer.HimaxTiming.Registers.{
  Cells, addresses, matches, matches-kept, Apart, Registers, Sets, set_register-Sets, or_else-Sets,
  set_register_pair-Sets,
}

-- The registers that `himax_configure_frame_timing` sets.
abbrev pub timing_cells : ℕ → ℕ → ℕ → Cells
timing_cells frame_length_lines max_integration_lines qvga_window_enable =
    (frame_length_lines_h, frame_length_lines / 256 % 256)
    ∷ (frame_length_lines_h + 1, frame_length_lines % 256)
    ∷ (max_integration_lines_h, max_integration_lines / 256 % 256)
    ∷ (max_integration_lines_h + 1, max_integration_lines % 256)
    ∷ (qvga_window_enable_reg, qvga_window_enable)
    ∷ []

module _ {S : Type 0} (camera : Camera S) (r : Registers camera) where
  -- An action between the writes to the hold.
  held-Sets :
      (action : S → Bool × S) (cells : Cells) (s : S) (b : ℕ)
      → Sets camera r action cells
      → Apart cells (group_parameter_hold ∷ [])
      → Misses b (group_parameter_hold ∷ addresses cells)
      → let (failed, u) = action (camera.reg_set group_parameter_hold 1 s) in
        let s' = camera.reg_set group_parameter_hold 0 u in
        (failed ≡ not (matches (r.file s') cells))
        × (r.file s' group_parameter_hold ≡ 0)
        × (r.file s' b ≡ r.file s b)
  held-Sets action cells s b f apart m =
      let (failed, u) = action (camera.reg_set group_parameter_hold 1 s) in
      let e =
        matches-kept (r.file u) (r.file (camera.reg_set group_parameter_hold 0 u)) cells
          (group_parameter_hold ∷ []) apart (λ b m. r.set_keeps group_parameter_hold 0 b u m.0) in
      (
        f.verdict (camera.reg_set group_parameter_hold 1 s) ∙ ap not (sym e),
        r.set_hold 0 u,
        r.set_keeps group_parameter_hold 0 b u m.0
            ∙ (f.keeps (camera.reg_set group_parameter_hold 1 s) b m.1
                ∙ r.set_keeps group_parameter_hold 1 b s m.0),
      )

  timing-Sets :
      (frame_length_lines max_integration_lines qvga_window_enable : ℕ)
      → Sets camera r
          (or_else camera
            (or_else camera
              (set_register_pair camera frame_length_lines_h frame_length_lines)
              (set_register_pair camera max_integration_lines_h max_integration_lines))
            (set_register camera qvga_window_enable_reg qvga_window_enable))
          (timing_cells frame_length_lines max_integration_lines qvga_window_enable)
  unfolding addresses Apart
  timing-Sets frame_length_lines max_integration_lines qvga_window_enable =
      let first = set_register_pair-Sets camera r frame_length_lines_h frame_length_lines in
      let second = set_register_pair-Sets camera r max_integration_lines_h max_integration_lines in
      let third = set_register-Sets camera r qvga_window_enable_reg qvga_window_enable in
      or_else-Sets camera r
        (or_else camera (set_register_pair camera frame_length_lines_h frame_length_lines)
          (set_register_pair camera max_integration_lines_h max_integration_lines))
        (set_register camera qvga_window_enable_reg qvga_window_enable) _ _
        (or_else-Sets camera r (set_register_pair camera frame_length_lines_h frame_length_lines)
          (set_register_pair camera max_integration_lines_h max_integration_lines) _ _ first second
          (
            ((λ e. omega arith), ((λ e. omega arith), tt)),
            (((λ e. omega arith), ((λ e. omega arith), tt)), tt),
          ))
        third
        (
          ((λ e. omega arith), tt),
          (((λ e. omega arith), tt), (((λ e. omega arith), tt), (((λ e. omega arith), tt), tt))),
        )

  -- `himax_configure_frame_timing` returns 0 exactly when the frame length, the integration limit,
  -- each as a high and a low byte, and the window enable stand in their registers when it returns.
  -- Failed or not, it has released the group hold, and no other register is changed. This is for a
  -- camera whose registers are read without changing any and written without changing another, and
  -- which takes what is written to the hold.
  pub configure_frame_timing_lem :
      (frame_length_lines max_integration_lines qvga_window_enable b : ℕ) (s : S)
      → let cells = timing_cells frame_length_lines max_integration_lines qvga_window_enable in
        Misses b (group_parameter_hold ∷ addresses cells)
        → let (failed, s') =
            configure_frame_timing camera frame_length_lines max_integration_lines
              qvga_window_enable s in
          (failed ≡ not (matches (r.file s') cells))
          × (r.file s' group_parameter_hold ≡ 0)
          × (r.file s' b ≡ r.file s b)
  unfolding configure_frame_timing write_register Apart addresses
  configure_frame_timing_lem frame_length_lines max_integration_lines qvga_window_enable b s m =
      held-Sets
        (or_else camera
          (or_else camera (set_register_pair camera frame_length_lines_h frame_length_lines)
            (set_register_pair camera max_integration_lines_h max_integration_lines))
          (set_register camera qvga_window_enable_reg qvga_window_enable))
        (timing_cells frame_length_lines max_integration_lines qvga_window_enable) s b
        (timing-Sets frame_length_lines max_integration_lines qvga_window_enable)
        (
          ((λ e. omega arith), tt),
          (
            ((λ e. omega arith), tt),
            (((λ e. omega arith), tt), (((λ e. omega arith), tt), (((λ e. omega arith), tt), tt))),
          ),
        )
        m

  -- The same for `himax_configure_qvga_window` and its one register.
  configure_qvga_window_lem :
      (enabled b : ℕ) (s : S)
      → Misses b (group_parameter_hold ∷ qvga_window_enable_reg ∷ [])
      → let (failed, s') = configure_qvga_window camera enabled s in
        (failed ≡ not (r.file s' qvga_window_enable_reg == enabled))
        × (r.file s' group_parameter_hold ≡ 0)
        × (r.file s' b ≡ r.file s b)
  unfolding configure_qvga_window write_register Apart addresses matches
  configure_qvga_window_lem enabled b s m =
      let (v, h, k) =
        held-Sets (set_register camera qvga_window_enable_reg enabled)
          ((qvga_window_enable_reg, enabled) ∷ []) s b
          (set_register-Sets camera r qvga_window_enable_reg enabled) (((λ e. omega arith), tt), tt)
          m in
      (ground (arith, v), h, k)
