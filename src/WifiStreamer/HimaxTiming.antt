-- ===== src/WifiStreamer/HimaxTiming.antt =====
-- examples/other/wifi-img-streamer/himax_timing.c: registers of the camera, set and read back. The
-- camera is a parameter: a state, what writing and reading a register do to it, and what waiting
-- does.
pub mod Registers
pub mod Hold
pub mod Polls
use aideck_gap8_examples.Base.{
  ℕ, zero, suc, ◌+◌, ◌-◌, ◌/◌, ◌%◌, ◌^◌, ◌≡◌, Bool, true, false, not, ◌||◌, List, [], ◌∷◌, ltb, leb,
  ◌==◌, if◌then◌else◌, Option, none, some,
}

abbrev pub frame_length_lines_h : ℕ
frame_length_lines_h = 0x0340

abbrev pub frame_count_register : ℕ
frame_count_register = 0x0005

abbrev pub max_integration_lines_h : ℕ
max_integration_lines_h = 0x2105

abbrev pub qvga_window_enable_reg : ℕ
qvga_window_enable_reg = 0x3010

abbrev pub group_parameter_hold : ℕ
group_parameter_hold = 0x0104

-- `pi_camera_reg_set`, `pi_camera_reg_get` and `pi_time_wait_us`.
pub record Camera (S : Type 0) : Type 0 where
  pub reg_set : ℕ → ℕ → S → S
  pub reg_get : ℕ → S → ℕ × S
  pub wait_us : ℕ → S → S

module _ {S : Type 0} (camera : Camera S) where
  -- `set_register`, whether it fails
  unfoldable pub set_register : ℕ → ℕ → S → Bool × S
  set_register address value s =
      let (actual, s') = camera.reg_get address (camera.reg_set address value s) in
      (not (actual == value), s')

  -- `write_register`
  unfoldable pub write_register : ℕ → ℕ → S → S
  write_register address value s = camera.reg_set address value s

  -- `a || b`
  unfoldable pub or_else : (S → Bool × S) → (S → Bool × S) → S → Bool × S
  or_else first second s =
      let (failed, s') = first s in elim failed [ true ↦ (true, s') | false ↦ second s' ]

  -- `set_register_pair`
  unfoldable pub set_register_pair : ℕ → ℕ → S → Bool × S
  unfolding or_else set_register
  set_register_pair high_address value s =
      let high = (value / 256) % 256 in
      let low = value % 256 in
      or_else (set_register high_address high) (set_register (high_address + 1) low) s

  -- `himax_configure_qvga_window`, whether it fails
  unfoldable pub configure_qvga_window : ℕ → S → Bool × S
  unfolding set_register write_register
  configure_qvga_window enabled s =
      let (failed, s') =
        set_register qvga_window_enable_reg enabled (write_register group_parameter_hold 1 s) in
      (failed, write_register group_parameter_hold 0 s')

  -- `himax_commit_pending_registers`
  unfoldable pub commit_pending_registers : S → S
  unfolding write_register
  commit_pending_registers s = write_register group_parameter_hold 0 s

  -- The loop of `himax_wait_for_frames`; out of fuel there is no result.
  unfoldable pub poll : ℕ → ℕ → ℕ → ℕ → ℕ → S → Option (Bool × S)
  poll zero initial frame_count timeout_us elapsed s = none
  poll (suc fuel) initial frame_count timeout_us elapsed s =
      let (current, s') = camera.reg_get frame_count_register (camera.wait_us 1000 s) in
      let rest = poll fuel initial frame_count timeout_us ((elapsed + 1000) % 2 ^ 32) s' in
      if ltb elapsed timeout_us
      then (if leb frame_count ((current + 256 - initial) % 256) then some (false, s') else rest)
      else some (true, s)

  -- `himax_wait_for_frames`, whether it fails
  unfoldable pub wait_for_frames : ℕ → ℕ → ℕ → S → Option (Bool × S)
  unfolding poll
  wait_for_frames fuel frame_count timeout_us s =
      let (initial, s') = camera.reg_get frame_count_register s in
      poll fuel initial frame_count timeout_us 0 s'

  -- `himax_configure_frame_timing`, whether it fails
  unfoldable pub configure_frame_timing : ℕ → ℕ → ℕ → S → Bool × S
  unfolding or_else set_register_pair set_register write_register
  configure_frame_timing frame_length_lines max_integration_lines qvga_window_enable s =
      let (failed, s') =
        or_else
          (or_else (set_register_pair frame_length_lines_h frame_length_lines)
            (set_register_pair max_integration_lines_h max_integration_lines))
          (set_register qvga_window_enable_reg qvga_window_enable)
          (write_register group_parameter_hold 1 s) in
      (failed, write_register group_parameter_hold 0 s')
