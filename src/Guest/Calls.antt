-- ===== src/Guest/Calls.antt =====
-- The calls of an application: the entry points of the two libraries, with what each does to the
-- process. What an entry point returns is left out.
pub mod DriverCalls
pub mod RuntimeCalls
use hm_cuda.Prelude.{List, [], ◌∷◌}
use hm_cuda.Guest.{System, Process}
use DriverCalls.{DriverCall, run_driver}
use RuntimeCalls.{RuntimeCall, run_runtime}

pub data Call : Type 0 where
  driver_call : DriverCall → Call
  runtime_call : RuntimeCall → Call

unfoldable pub run : System → Call → Process → Process
unfolding run_driver run_runtime
run sys (driver_call c) p = run_driver sys c p
run sys (runtime_call c) p = run_runtime sys c p

-- A program: its calls in order.
unfoldable pub run_all : System → List Call → Process → Process
unfolding run
run_all sys [] p = p
run_all sys (c ∷ cs) p = run_all sys cs (run sys c p)
