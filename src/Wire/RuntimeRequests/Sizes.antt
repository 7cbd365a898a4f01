-- ===== src/Wire/RuntimeRequests/Sizes.antt =====
-- The size tables of driver/cmd_runtime.c, held against the structs of common/include.
use hm_cuda.Prelude.{◌≤◌, ◌≡◌, refl, false, arith}
use hm_cuda.Command.{
  RuntimeRequest, malloc, free, memcpy_cmd, memset, launch_kernel, stream_create,
  stream_synchronize, event_create, event_record, event_synchronize, event_elapsed_time,
  event_destroy, device_synchronize, init, register_fatbin, register_function, push_call_cfg,
  pop_call_cfg, init_module, get_device_properties, get_device_count, set_device, get_error_string,
  get_error_name, runtime_get_version, func_get_attributes,
}
use hm_cuda.Kernel.Sizes.{hmcuda_runtime_get_sizes}
use hm_cuda.Wire.{sizeof}
use hm_cuda.Wire.RuntimeRequests.{runtime_request_struct, runtime_response_struct}

-- For every command of the runtime API, the bytes that the kernel module takes in before the trailing
-- data are those of the request struct, and those that it makes room for hold the response struct.
pub runtime_sizes-structs :
    (r : RuntimeRequest)
    → ((hmcuda_runtime_get_sizes false r).req_size ≡ sizeof (runtime_request_struct r))
      × (sizeof (runtime_response_struct r) ≤ (hmcuda_runtime_get_sizes false r).resp_size)
unfolding hmcuda_runtime_get_sizes runtime_request_struct runtime_response_struct
runtime_sizes-structs (malloc _) = (refl, omega arith)
runtime_sizes-structs (free _) = (refl, omega arith)
runtime_sizes-structs (memcpy_cmd _) = (refl, omega arith)
runtime_sizes-structs (memset _ _ _) = (refl, omega arith)
runtime_sizes-structs (launch_kernel _ _ _ _ _ _ _) = (refl, omega arith)
runtime_sizes-structs (stream_create _) = (refl, omega arith)
runtime_sizes-structs (stream_synchronize _) = (refl, omega arith)
runtime_sizes-structs (event_create _) = (refl, omega arith)
runtime_sizes-structs (event_record _ _) = (refl, omega arith)
runtime_sizes-structs (event_synchronize _) = (refl, omega arith)
runtime_sizes-structs (event_elapsed_time _ _) = (refl, omega arith)
runtime_sizes-structs (event_destroy _) = (refl, omega arith)
runtime_sizes-structs device_synchronize = (refl, omega arith)
runtime_sizes-structs init = (refl, omega arith)
runtime_sizes-structs (register_fatbin _) = (refl, omega arith)
runtime_sizes-structs (register_function _ _ _) = (refl, omega arith)
runtime_sizes-structs (push_call_cfg _ _ _ _) = (refl, omega arith)
runtime_sizes-structs pop_call_cfg = (refl, omega arith)
runtime_sizes-structs (init_module _) = (refl, omega arith)
runtime_sizes-structs (get_device_properties _) = (refl, omega arith)
runtime_sizes-structs get_device_count = (refl, omega arith)
runtime_sizes-structs (set_device _) = (refl, omega arith)
runtime_sizes-structs (get_error_string _) = (refl, omega arith)
runtime_sizes-structs (get_error_name _) = (refl, omega arith)
runtime_sizes-structs runtime_get_version = (refl, omega arith)
runtime_sizes-structs (func_get_attributes _) = (refl, omega arith)
