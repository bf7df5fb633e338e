-- ===== src/Scheduler/Fixtures.antt =====
-- Hundredths for Python's numbers, for the tests.
use lab_gpu_server_monitor.Prelude.{ℕ, ◌+◌, ◌*◌, ◌/◌, not, [], ◌∷◌, nat_beq, ltb, leb}
use lab_gpu_server_monitor.Alerts.{Floats}

abbrev pub hundredths : Floats ℕ
hundredths = record {
  gt = λ a b. ltb b a;
  ge = λ a b. leb b a;
  lt = ltb;
  le = leb;
  plus = λ a b. a + b;
  times = λ a b. (a * b) / 100;
  over = λ a b. (a * 100) / b;
  of_int = λ n. n * 100;
  truthy = λ n. not (nat_beq n 0);
  round = λ n. n;
  floor = λ n. n / 100;
  show = λ n. b'#' ∷ [];
}
