-- ===== src/Guest/RuntimeQueries.antt =====
-- guest/intercept/hmcuda_runtime.cpp: error texts, attributes of functions and launch configurations.
use hm_cuda.Prelude.{ℕ, ◌+◌, Bool, true, not, List, Option, none, some, ◌==◌, ◌||◌, if◌then◌else◌}
use hm_cuda.Command
use hm_cuda.Command.{Request, driver, runtime, MemcpyReq, HostAllocReq}
use hm_cuda.Wire.{sizeof}
use hm_cuda.Wire.Runtime.{
  hmcuda_func_get_attributes_req, hmcuda_func_get_attributes_resp, hmcuda_get_error_string_req,
  hmcuda_get_error_string_resp, hmcuda_init_module_req, hmcuda_pop_call_cfg_resp,
  hmcuda_push_call_cfg_req,
}
use hm_cuda.Guest.{System, G, Done, done, Status, ◌>>=◌, ◌>>◌, pure}
use hm_cuda.Guest.Transport.{Reply}
use hm_cuda.Guest.Dispatch.{out_members, Text, unknown_text, text_of}
use hm_cuda.Guest.Runtime.{hmcuda_dispatch, rt_fwd}
use hm_cuda.Cuda.{Dim3}

-- The text of an error, or the fixed text where there is none.
abbrev pub text_or_unknown : Reply → Text
text_or_unknown (e, none) = unknown_text
text_or_unknown (e, some member) = text_of member

unfoldable pub cuda_get_error_string : System → ℕ → G Text
unfolding hmcuda_dispatch
cuda_get_error_string sys error = do
  rep ←
      hmcuda_dispatch sys (runtime (Command.get_error_string error))
        (sizeof hmcuda_get_error_string_req) (sizeof hmcuda_get_error_string_resp + 256)
  pure (text_or_unknown rep)

unfoldable pub cuda_get_error_name : System → ℕ → G Text
unfolding hmcuda_dispatch
cuda_get_error_name sys error = do
  rep ←
      hmcuda_dispatch sys (runtime (Command.get_error_name error))
        (sizeof hmcuda_get_error_string_req) (sizeof hmcuda_get_error_string_resp + 256)
  pure (text_or_unknown rep)

-- A function that was not registered: cudaErrorInvalidDeviceFunction.
abbrev pub invalid_device_function : ℕ
invalid_device_function = 98

-- The sixteen members of the attributes.
unfoldable pub cuda_func_get_attributes : System → Bool → ℕ → G (ℕ × Option (List ℕ))
unfolding hmcuda_dispatch
cuda_func_get_attributes sys given func p =
    if not given then ((1, none), p) else elim (p.func_map func) [
      | none ↦ ((invalid_device_function, none), record p { last_error = invalid_device_function })
      | some info ↦
          (do
            rep ←
                hmcuda_dispatch sys (runtime (Command.func_get_attributes info.handle))
                  (sizeof hmcuda_func_get_attributes_req) (sizeof hmcuda_func_get_attributes_resp)
            pure (out_members true 0 16 rep))
            p
    ]

unfoldable pub cuda_get_kernel : Bool → ℕ → G Status
cuda_get_kernel given host_fun p = if not given || (host_fun == 0) then ((1, none), p) else (
  elim (p.func_map host_fun) [
    | none ↦ (invalid_device_function, none)
    | some info ↦ (0, some host_fun)
  ],
  p,
)

-- `handle` is what the pointer points to, `none` for NULL.
unfoldable pub cuda_init_module : System → Option ℕ → G Done
unfolding hmcuda_dispatch
cuda_init_module sys none = pure done
cuda_init_module sys (some handle) = do
  hmcuda_dispatch sys (runtime (Command.init_module handle)) (sizeof hmcuda_init_module_req) 0
  pure done

unfoldable pub cuda_push_call_configuration : System → Dim3 → Dim3 → ℕ → ℕ → G ℕ
unfolding rt_fwd
cuda_push_call_configuration sys grid block shared_mem stream =
    rt_fwd sys (runtime (Command.push_call_cfg grid block shared_mem stream))
      hmcuda_push_call_cfg_req

-- The grid, the block, the shared memory and the stream; each pointer is tested by itself.
unfoldable pub cuda_pop_call_configuration : System → G (ℕ × Option (List ℕ))
unfolding hmcuda_dispatch
cuda_pop_call_configuration sys = do
  rep ← hmcuda_dispatch sys (runtime Command.pop_call_cfg) 0 (sizeof hmcuda_pop_call_cfg_resp)
  pure (out_members true 0 8 rep)
