-- ===== src/WifiStreamer/HimaxTiming/Polls.antt =====
-- The loop of `himax_wait_for_frames` in examples/other/wifi-img-streamer/himax_timing.c ends.
use aideck_gap8_examples.Base.{
  ℕ, zero, suc, ◌+◌, ◌-◌, ◌/◌, ◌%◌, ◌^◌, ◌≤◌, ◌<◌, ◌≡◌, Bool, true, false, leb, if◌then◌else◌, some,
  arith,
}
use aideck_gap8_examples.WifiStreamer.HimaxTiming.{
  Camera, frame_count_register, poll, wait_for_frames,
}

module _ {S : Type 0} (camera : Camera S) where
  -- At most `polls` times, 1 ms and a look at the counter, until it has gone on by `frame_count`.
  unfoldable pub await : ℕ → ℕ → ℕ → S → Bool × S
  await zero initial frame_count s = (true, s)
  await (suc polls) initial frame_count s =
      let (current, s') = camera.reg_get frame_count_register (camera.wait_us 1000 s) in
      let rest = await polls initial frame_count s' in
      if leb frame_count ((current + 256 - initial) % 256) then (false, s') else rest

  poll-await :
      (fuel polls initial frame_count timeout_us elapsed : ℕ) (s : S)
      → timeout_us + 1000 ≤ 2 ^ 32
      → polls ≡ (timeout_us - elapsed + 999) / 1000
      → polls < fuel
      → poll camera fuel initial frame_count timeout_us elapsed s
        ≡ some (await polls initial frame_count s)
  unfolding poll await
  poll-await zero polls initial frame_count timeout_us elapsed s a e h = absurd (omega arith)
  poll-await (suc fuel) zero initial frame_count timeout_us elapsed s a e h = ground arith
  poll-await (suc fuel) (suc polls) initial frame_count timeout_us elapsed s a e h =
      let s' = (camera.reg_get frame_count_register (camera.wait_us 1000 s)).1 in
      let rest =
        poll-await fuel polls initial frame_count timeout_us ((elapsed + 1000) % 2 ^ 32) s' a
          (omega arith) (omega arith) in
      ground (arith, rest)

  -- When the timeout is at most 2^32 - 1000 microseconds, `himax_wait_for_frames` ends after at most
  -- as many polls as there are milliseconds in it, a started one counted, and each poll waits for
  -- one: it returns 0 at the first of these polls that finds the counter gone on by `frame_count` or
  -- more, modulo 256, and -1 when none does.
  pub wait_for_frames_lem :
      (frame_count timeout_us : ℕ) (s : S)
      → timeout_us + 1000 ≤ 2 ^ 32
      → let polls = (timeout_us + 999) / 1000 in
        let (initial, s') = camera.reg_get frame_count_register s in
        wait_for_frames camera (suc polls) frame_count timeout_us s
        ≡ some (await polls initial frame_count s')
  unfolding wait_for_frames
  wait_for_frames_lem frame_count timeout_us s h =
      let (initial, s') = camera.reg_get frame_count_register s in
      poll-await (suc ((timeout_us + 999) / 1000)) ((timeout_us + 999) / 1000) initial frame_count
        timeout_us 0 s' h (omega arith) (omega arith)
