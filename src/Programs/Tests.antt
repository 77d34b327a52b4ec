-- ===== src/Programs/Tests.antt =====
-- The programs with a library that counts the passes of its spinner.
use daylite.Prelude.{ℕ, ◌+◌, ◌≡◌, refl, true, false, some, [], ◌∷◌}
use daylite.Outcome.{done, failed}
use daylite.Programs.{Library, daylightd}

abbrev counting : Library ℕ
counting = record {
  create_node = λ name w. (true, w);
  start = λ host port w. (done, w);
  gateway = λ host port w. (failed "Address already in use", w);
  subscribe = λ topic w. w;
  advertise = λ topic w. (true, w);
  set_firehose = λ firehose w. w;
  publish_test = λ i w. (done, w);
  spin_once = λ w. (done, w + 1);
  usleep = λ n w. w;
  thread_sleep_duration = λ w. 1000;
  set_handler = λ w. (true, w);
}

two_passes : daylightd counting (false ∷ false ∷ true ∷ []) 5 ≡ some (0, 7)
unfolding daylightd
two_passes = refl
