-- ===== src/Command/Dispatch.antt =====
-- hmcuda_dispatch_cmd of host/vhost/vhost_user_hmcuda.c, with the status that hmcuda_process_vq
-- gives a command that no library has.
use hm_cuda.Prelude.{ℕ}
use hm_cuda.Cuda.{Environment, unknown_error}
use hm_cuda.Backend.{M, pure}
use hm_cuda.Command.{Element, Request, runtime, driver, unknown, Response, status_only}
use hm_cuda.Command.Runtime.{hmcuda_runtime_handle_cmd}
use hm_cuda.Command.Driver.{hmcuda_driver_handle_cmd}

unfoldable pub hmcuda_dispatch_cmd : Environment → ℕ → ℕ → Element → Request → M Response
hmcuda_dispatch_cmd env sid vid elem (runtime r) = hmcuda_runtime_handle_cmd env sid vid elem r
hmcuda_dispatch_cmd env sid vid elem (driver r) = hmcuda_driver_handle_cmd env sid vid elem r
hmcuda_dispatch_cmd env sid vid elem (unknown cmd) = pure (status_only unknown_error)
