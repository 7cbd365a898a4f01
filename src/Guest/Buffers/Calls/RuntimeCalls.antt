-- ===== src/Guest/Buffers/Calls/RuntimeCalls.antt =====
-- The buffers of the entry points of guest/intercept/hmcuda_runtime.cpp.
use hm_cuda.Prelude.{◌+◌, ◌^◌, ◌<◌, [], length, arith}
use hm_cuda.Command
use hm_cuda.Command.{runtime, driver}
use hm_cuda.Kernel.Sizes.{hmcuda_cmd_get_sizes, hmcuda_runtime_get_sizes, hmcuda_driver_get_sizes}
use hm_cuda.Wire.{sizeof}
use hm_cuda.Guest.{Process, System}
use hm_cuda.Guest.Runtime
use hm_cuda.Guest.RuntimeQueries
use hm_cuda.Guest.Properties
use hm_cuda.Guest.Registration
use hm_cuda.Guest.Launch
use hm_cuda.Guest.Calls.RuntimeCalls.{
  RuntimeCall, run_runtime, cuda_malloc, cuda_free, cuda_memcpy, cuda_memset, cuda_stream_create,
  cuda_stream_synchronize, cuda_event_create, cuda_event_record, cuda_event_synchronize,
  cuda_event_elapsed_time, cuda_event_destroy, cuda_set_device, cuda_device_synchronize,
  cuda_get_device_count, cuda_runtime_get_version, cuda_get_last_error, cuda_get_error_string,
  cuda_get_error_name, cuda_func_get_attributes, cuda_get_kernel, cuda_init_module,
  cuda_push_call_configuration, cuda_pop_call_configuration, cuda_get_device_properties,
  cuda_register_fat_binary, cuda_register_function, cuda_launch_kernel,
}
use hm_cuda.Guest.Buffers.{AllRoomy}
use hm_cuda.Guest.Buffers.Runtime.{
  dispatch-Keeps, rt_fwd-Keeps, rt_fwd_resp-Keeps, launch_kernel-Keeps, register_fat_binary-Keeps,
  register_function-Keeps, func_get_attributes-Keeps, init_module-Keeps, get_kernel-Keeps,
}
use hm_cuda.Wire.Runtime.{
  hmcuda_device_synchronize_req, hmcuda_event_create_req, hmcuda_event_create_resp,
  hmcuda_event_destroy_req, hmcuda_event_elapsed_time_req, hmcuda_event_elapsed_time_resp,
  hmcuda_event_record_req, hmcuda_event_synchronize_req, hmcuda_free_req,
  hmcuda_get_device_count_resp, hmcuda_get_device_properties_req, hmcuda_get_device_properties_resp,
  hmcuda_get_error_string_req, hmcuda_get_error_string_resp, hmcuda_malloc_req, hmcuda_malloc_resp,
  hmcuda_memcpy_req, hmcuda_memset_req, hmcuda_pop_call_cfg_resp, hmcuda_push_call_cfg_req,
  hmcuda_runtime_get_version_resp, hmcuda_set_device_req, hmcuda_stream_create_req,
  hmcuda_stream_create_resp, hmcuda_stream_synchronize_req,
}

-- A text that is sent, no longer than a 32-bit length can say.
abbrev pub IsRuntimeSized : RuntimeCall → Type 0
IsRuntimeSized (cuda_register_function demangle handle host_fun name) = length name < 2 ^ 32
IsRuntimeSized _ = Unit

-- Whatever the kernel module and the host answer, an entry point called with lengths in range hands
-- to the ioctl only buffers that hold the request that the kernel module reads from them and the
-- response that it writes to them, if that was so before.
pub run_runtime-AllRoomy :
    (sys : System) (c : RuntimeCall) (p : Process)
    → IsRuntimeSized c
    → AllRoomy p
    → AllRoomy (run_runtime sys c p)
unfolding run_runtime Runtime.cuda_malloc Runtime.cuda_free Runtime.cuda_memcpy Runtime.cuda_memset
    Runtime.cuda_stream_create Runtime.cuda_stream_synchronize Runtime.cuda_event_create
    Runtime.cuda_event_record Runtime.cuda_event_synchronize Runtime.cuda_event_elapsed_time
    Runtime.cuda_event_destroy Runtime.cuda_set_device Runtime.cuda_device_synchronize
    Runtime.cuda_get_device_count Runtime.cuda_runtime_get_version Runtime.cuda_get_last_error
    RuntimeQueries.cuda_get_error_string RuntimeQueries.cuda_get_error_name
    RuntimeQueries.cuda_func_get_attributes RuntimeQueries.cuda_get_kernel
    RuntimeQueries.cuda_init_module RuntimeQueries.cuda_push_call_configuration
    RuntimeQueries.cuda_pop_call_configuration Properties.cuda_get_device_properties
    Registration.cuda_register_fat_binary Registration.cuda_register_function
    Launch.cuda_launch_kernel hmcuda_cmd_get_sizes hmcuda_runtime_get_sizes hmcuda_driver_get_sizes
run_runtime-AllRoomy sys (cuda_malloc a b) p z h =
    rt_fwd_resp-Keeps sys (runtime (Command.malloc b)) hmcuda_malloc_req hmcuda_malloc_resp a
      (ground arith) p h
run_runtime-AllRoomy sys (cuda_free a) p z h =
    rt_fwd-Keeps sys (runtime (Command.free a)) hmcuda_free_req (ground arith) p h
run_runtime-AllRoomy sys (cuda_memcpy a b c d) p z h =
    rt_fwd-Keeps sys
      (runtime (Command.memcpy_cmd (record { dst = a; src = b; count = c; kind = d; stream = 0 })))
      hmcuda_memcpy_req (ground arith) p h
run_runtime-AllRoomy sys (cuda_memset a b c) p z h =
    rt_fwd-Keeps sys (runtime (Command.memset a b c)) hmcuda_memset_req (ground arith) p h
run_runtime-AllRoomy sys (cuda_stream_create a) p z h =
    rt_fwd_resp-Keeps sys (runtime (Command.stream_create 0)) hmcuda_stream_create_req
      hmcuda_stream_create_resp a (ground arith) p h
run_runtime-AllRoomy sys (cuda_stream_synchronize a) p z h =
    rt_fwd-Keeps sys (runtime (Command.stream_synchronize a)) hmcuda_stream_synchronize_req
      (ground arith) p h
run_runtime-AllRoomy sys (cuda_event_create a) p z h =
    rt_fwd_resp-Keeps sys (runtime (Command.event_create 0)) hmcuda_event_create_req
      hmcuda_event_create_resp a (ground arith) p h
run_runtime-AllRoomy sys (cuda_event_record a b) p z h =
    rt_fwd-Keeps sys (runtime (Command.event_record a b)) hmcuda_event_record_req (ground arith) p h
run_runtime-AllRoomy sys (cuda_event_synchronize a) p z h =
    rt_fwd-Keeps sys (runtime (Command.event_synchronize a)) hmcuda_event_synchronize_req
      (ground arith) p h
run_runtime-AllRoomy sys (cuda_event_elapsed_time a b c) p z h =
    rt_fwd_resp-Keeps sys (runtime (Command.event_elapsed_time b c)) hmcuda_event_elapsed_time_req
      hmcuda_event_elapsed_time_resp a (ground arith) p h
run_runtime-AllRoomy sys (cuda_event_destroy a) p z h =
    rt_fwd-Keeps sys (runtime (Command.event_destroy a)) hmcuda_event_destroy_req (ground arith) p h
run_runtime-AllRoomy sys (cuda_set_device a) p z h =
    rt_fwd-Keeps sys (runtime (Command.set_device a)) hmcuda_set_device_req (ground arith) p h
run_runtime-AllRoomy sys cuda_device_synchronize p z h =
    rt_fwd-Keeps sys (runtime (Command.device_synchronize)) hmcuda_device_synchronize_req
      (ground arith) p h
run_runtime-AllRoomy sys (cuda_get_device_count a) p z h =
    rt_fwd_resp-Keeps sys (runtime (Command.get_device_count)) [] hmcuda_get_device_count_resp a
      (ground arith) p h
run_runtime-AllRoomy sys (cuda_runtime_get_version a) p z h =
    rt_fwd_resp-Keeps sys (runtime (Command.runtime_get_version)) [] hmcuda_runtime_get_version_resp
      a (ground arith) p h
run_runtime-AllRoomy sys cuda_get_last_error p z h = h
run_runtime-AllRoomy sys (cuda_get_error_string a) p z h =
    dispatch-Keeps sys (runtime (Command.get_error_string a)) (sizeof hmcuda_get_error_string_req)
      (sizeof hmcuda_get_error_string_resp + 256) (ground arith) p h
run_runtime-AllRoomy sys (cuda_get_error_name a) p z h =
    dispatch-Keeps sys (runtime (Command.get_error_name a)) (sizeof hmcuda_get_error_string_req)
      (sizeof hmcuda_get_error_string_resp + 256) (ground arith) p h
run_runtime-AllRoomy sys (cuda_func_get_attributes a b) p z h =
    func_get_attributes-Keeps sys a b p h
run_runtime-AllRoomy sys (cuda_get_kernel a b) p z h = get_kernel-Keeps a b p h
run_runtime-AllRoomy sys (cuda_init_module a) p z h = init_module-Keeps sys a p h
run_runtime-AllRoomy sys (cuda_push_call_configuration a b c d) p z h =
    rt_fwd-Keeps sys (runtime (Command.push_call_cfg a b c d)) hmcuda_push_call_cfg_req
      (ground arith) p h
run_runtime-AllRoomy sys cuda_pop_call_configuration p z h =
    dispatch-Keeps sys (runtime Command.pop_call_cfg) 0 (sizeof hmcuda_pop_call_cfg_resp)
      (ground arith) p h
run_runtime-AllRoomy sys (cuda_get_device_properties a b c d) p z h =
    dispatch-Keeps sys (runtime (Command.get_device_properties d))
      (sizeof hmcuda_get_device_properties_req) (sizeof hmcuda_get_device_properties_resp)
      (ground arith) p h
run_runtime-AllRoomy sys (cuda_register_fat_binary a) p z h = register_fat_binary-Keeps sys a p h
run_runtime-AllRoomy sys (cuda_register_function a b c d) p z h =
    register_function-Keeps sys a b c d z p h
run_runtime-AllRoomy sys (cuda_launch_kernel a b c d e f g) p z h =
    launch_kernel-Keeps sys a b c d e f g p h
