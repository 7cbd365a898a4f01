-- ===== src/Guest/Launch.antt =====
-- cudaLaunchKernel of guest/intercept/hmcuda_runtime.cpp, which __cudaLaunchKernel and
-- __cudaLaunchKernel_ptsz call.
use hm_cuda.Prelude.{ℕ, ◌+◌, ◌*◌, ◌%◌, ◌^◌, List, [], ◌∷◌, zero, suc, Option, none, some, take}
use hm_cuda.Command
use hm_cuda.Command.{Request, driver, runtime, MemcpyReq, HostAllocReq}
use hm_cuda.Wire.{sizeof}
use hm_cuda.Wire.Runtime.{hmcuda_launch_kernel_req}
use hm_cuda.Guest.{System, G, Done, done, ◌>>=◌, ◌>>◌, pure}
use hm_cuda.Guest.Transport.{hmcuda_transport_mark_gpu_dirty, hmcuda_transport_sync_host_mem_arg}
use hm_cuda.Guest.Runtime.{hmcuda_dispatch}
use hm_cuda.Cuda.{Dim3}
use hm_cuda.Guest.{FuncInfo}
use hm_cuda.Guest.RuntimeQueries.{invalid_device_function}

abbrev zeros : ℕ → List ℕ
zeros zero = []
zeros (suc n) = 0 ∷ zeros n

-- The arguments that are sent: 64 bits at each pointer, or zeros where `args` is NULL.
abbrev pub sent_args : Option (List ℕ) → ℕ → List ℕ
sent_args none n = zeros n
sent_args (some args) n = take n args

-- What each argument that may be a registered buffer is put through.
unfoldable pub for_args : (ℕ → G Done) → List ℕ → G Done
for_args f [] = pure done
for_args f (v ∷ vs) = do f v; for_args f vs

-- The argument pointers that are followed.
abbrev pub followed : Option (List ℕ) → ℕ → List ℕ
followed none n = []
followed (some args) n = take n args

abbrev pub launch_request : FuncInfo → Dim3 → Dim3 → Option (List ℕ) → ℕ → ℕ → Request
launch_request info grid block args shared_mem stream = runtime (
    Command.launch_kernel info.handle grid block (shared_mem % 2 ^ 32) stream
      (info.param_count * 8 % 2 ^ 32) (sent_args args info.param_count))

-- With the function found: clean buffers are brought to the host, the kernel is launched, and every
-- buffer is marked. `stream_bits` is what the stack holds where a sync leaves its stream unset.
unfoldable pub launch : System → ℕ → FuncInfo → Dim3 → Dim3 → Option (List ℕ) → ℕ → ℕ → G ℕ
unfolding for_args hmcuda_transport_sync_host_mem_arg hmcuda_transport_mark_gpu_dirty
    hmcuda_dispatch
launch sys stream_bits info grid block args shared_mem stream = do
  for_args (hmcuda_transport_sync_host_mem_arg sys stream_bits) (followed args info.param_count)
  rep ←
      hmcuda_dispatch sys (launch_request info grid block args shared_mem stream)
        (sizeof hmcuda_launch_kernel_req + info.param_count * 8 % 2 ^ 32) 0
  for_args hmcuda_transport_mark_gpu_dirty (followed args info.param_count)
  pure rep.0

-- The look-up of the function's address.
unfoldable pub launch_found :
    System → ℕ → Option FuncInfo → Dim3 → Dim3 → Option (List ℕ) → ℕ → ℕ → G ℕ
unfolding launch
launch_found sys stream_bits none grid block args shared_mem stream p =
    (invalid_device_function, record p { last_error = invalid_device_function })
launch_found sys stream_bits (some info) grid block args shared_mem stream p =
    launch sys stream_bits info grid block args shared_mem stream p

unfoldable pub cuda_launch_kernel : System → ℕ → ℕ → Dim3 → Dim3 → Option (List ℕ) → ℕ → ℕ → G ℕ
unfolding launch_found
cuda_launch_kernel sys stream_bits func grid block args shared_mem stream p =
    launch_found sys stream_bits (p.func_map func) grid block args shared_mem stream p
