-- ===== src/WifiStreamer/HimaxTests.antt =====
-- A camera of plain registers for examples/other/wifi-img-streamer/himax_timing.c.
use aideck_gap8_examples.Base.{ℕ, ◌+◌, ◌%◌, ◌≡◌, refl, not, some, ◌==◌, if◌then◌else◌, arith, ◌==◌}
use aideck_gap8_examples.WifiStreamer.HimaxTiming.{
  Camera, frame_count_register, group_parameter_hold, configure_frame_timing, wait_for_frames,
}
use aideck_gap8_examples.WifiStreamer.HimaxTiming.Registers.{Registers, matches, addresses}
use aideck_gap8_examples.WifiStreamer.HimaxTiming.Hold.{timing_cells, configure_frame_timing_lem}
use aideck_gap8_examples.WifiStreamer.HimaxTiming.Polls.{await, wait_for_frames_lem}

-- A millisecond is a frame.
abbrev camera : Camera (ℕ → ℕ)
camera = record {
  reg_set = λ a v file i. if i == a then v else file i;
  reg_get = λ a file. (file a, file);
  wait_us = λ t file i. if i == frame_count_register then (file i + 1) % 256 else file i;
}

abbrev plain : Registers camera
plain = record {
  file = λ file. file;
  get_value = λ a s. refl;
  get_keeps = λ a b s. refl;
  set_keeps = λ a v b s h. ground arith;
  set_hold = λ v s. refl;
}

configure_frame_timing_lem_example :
    let (failed, s') = configure_frame_timing camera 0x0158 0x0156 1 (λ i. 9) in
    (failed ≡ not (matches (plain.file s') (timing_cells 0x0158 0x0156 1)))
    × (plain.file s' group_parameter_hold ≡ 0)
    × (plain.file s' 7 ≡ 9)
unfolding addresses
configure_frame_timing_lem_example =
    configure_frame_timing_lem camera plain 0x0158 0x0156 1 7 (λ i. 9)
      (
        (λ e. omega arith),
        (
          (λ e. omega arith),
          (
            (λ e. omega arith),
            ((λ e. omega arith), ((λ e. omega arith), ((λ e. omega arith), tt))),
          ),
        ),
      )

-- Two frames are seen at the second poll.
wait_for_frames_lem_example :
    wait_for_frames camera 4 2 2500 (λ i. 255) ≡ some (await camera 3 255 2 (λ i. 255))
wait_for_frames_lem_example = wait_for_frames_lem camera 2 2500 (λ i. 255) (omega arith)
