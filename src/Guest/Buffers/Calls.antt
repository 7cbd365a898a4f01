-- ===== src/Guest/Buffers/Calls.antt =====
-- The buffers of every entry point.
pub mod DriverCalls
pub mod RuntimeCalls
use hm_cuda.Guest.{Process, System}
use hm_cuda.Guest.Calls.{Call, run, driver_call, runtime_call}
use hm_cuda.Guest.Buffers.{AllRoomy}
use DriverCalls.{IsDriverSized, run_driver-AllRoomy}
use RuntimeCalls.{IsRuntimeSized, run_runtime-AllRoomy}

-- The lengths that a call is given are in range.
abbrev pub IsSized : Call → Type 0
IsSized (driver_call c) = IsDriverSized c
IsSized (runtime_call c) = IsRuntimeSized c

-- Any entry point, called with lengths in range, keeps all buffers large enough.
pub run-AllRoomy :
    (sys : System) (c : Call) (p : Process) → IsSized c → AllRoomy p → AllRoomy (run sys c p)
unfolding run
run-AllRoomy sys (driver_call c) p z h = run_driver-AllRoomy sys c p z h
run-AllRoomy sys (runtime_call c) p z h = run_runtime-AllRoomy sys c p z h
