-- ===== src/Command/Keeps.antt =====
-- Every command of the backend keeps what its state changes keep.
mod Loops
use hm_cuda.Prelude.{ℕ}
use hm_cuda.Cuda.{Environment}
use hm_cuda.Backend.{Backend}
use hm_cuda.Backend.Keeps.{Keeps}
use hm_cuda.Core.Sessions.{
  hmcuda_core_cu_device_primary_ctx_release, hmcuda_core_cu_ctx_set_current,
  hmcuda_core_cu_ctx_enable_peer_access, force_context, hmcuda_core_init,
}
use hm_cuda.Core.Runtime.{
  hmcuda_core_malloc, hmcuda_core_free, hmcuda_core_memset, hmcuda_core_stream_create,
  hmcuda_core_event_create, hmcuda_core_event_record, hmcuda_core_event_synchronize,
  hmcuda_core_event_elapsed_time, hmcuda_core_event_destroy, hmcuda_core_device_synchronize,
  hmcuda_core_get_device_count, hmcuda_core_set_device, hmcuda_core_runtime_get_version,
}
use hm_cuda.Core.Launch.{
  hmcuda_core_register_fatbin, hmcuda_core_register_function, hmcuda_core_init_module,
  hmcuda_core_push_call_configuration, stream_handle, hmcuda_core_pop_call_configuration,
  hmcuda_core_launch_kernel, hmcuda_core_func_get_attributes,
}
use hm_cuda.Core.Queries.{
  hmcuda_core_get_device_properties, hmcuda_core_get_error_string, hmcuda_core_get_error_name,
}
use hm_cuda.Core.Streams.{
  hmcuda_core_cu_stream_create, hmcuda_core_cu_stream_destroy, hmcuda_core_cu_stream_synchronize,
  hmcuda_core_cu_stream_query, hmcuda_core_cu_stream_wait_event, hmcuda_core_cu_stream_get_ctx,
  hmcuda_core_cu_event_create, hmcuda_core_cu_event_destroy, hmcuda_core_cu_event_record,
  hmcuda_core_cu_event_elapsed_time,
}
use hm_cuda.Core.Alloc.{
  hmcuda_core_cu_mem_alloc, hmcuda_core_cu_mem_free, hmcuda_core_cu_mem_free_host,
  hmcuda_core_cu_memset_d32,
}
use hm_cuda.Core.Copy.{
  hmcuda_core_cu_memcpy_async, hmcuda_core_cu_memcpy_htod, hmcuda_core_cu_pointer_get_attribute,
}
use hm_cuda.Core.Vmm.{
  hmcuda_core_cu_mem_create, hmcuda_core_cu_mem_release, hmcuda_core_cu_mem_map,
  hmcuda_core_cu_mem_unmap, hmcuda_core_cu_mem_address_reserve, hmcuda_core_cu_mem_address_free,
  hmcuda_core_cu_mem_set_access, hmcuda_core_cu_mem_export, hmcuda_core_cu_mem_import,
  hmcuda_core_cu_multicast_create, hmcuda_core_cu_multicast_add_device,
  hmcuda_core_cu_multicast_bind_mem, hmcuda_core_cu_multicast_unbind,
}
use hm_cuda.Core.Stable.{Stable}
use hm_cuda.Core.Stable.Reads.{read_rules}
use hm_cuda.Core.Stable.Runtime.{
  Keeps-stream_synchronize, Keeps-kernel_params, Keeps-query_attributes,
}
use hm_cuda.Core.Stable.Driver.{Keeps-retain}
use hm_cuda.Command.{
  Element, Request, runtime, driver, unknown, RuntimeRequest, init, malloc, memcpy_cmd,
  register_function, launch_kernel, func_get_attributes, pop_call_cfg, stream_synchronize,
  DriverRequest, cu_memcpy, cu_mem_host_alloc, cu_device_primary_ctx_retain, cu_mem_alloc,
  cu_mem_address_reserve,
}
use hm_cuda.Command.Runtime.{hmcuda_runtime_handle_cmd}
use hm_cuda.Command.Driver.{hmcuda_driver_handle_cmd}
use hm_cuda.Command.Dispatch.{hmcuda_dispatch_cmd}
use Loops.{Keeps-handle_memcpy, Keeps-handle_cu_memcpy, Keeps-handle_cu_mem_host_alloc}

module _ {env : Environment} {sid vid : ℕ} {P : Backend → Type 0} (k : Stable env sid vid P)
    (elem : Element) where
  Keeps-runtime : (r : RuntimeRequest) → Keeps P (hmcuda_runtime_handle_cmd env sid vid elem r)
  unfolding hmcuda_runtime_handle_cmd hmcuda_core_init force_context hmcuda_core_malloc
      hmcuda_core_free hmcuda_core_memset hmcuda_core_stream_create hmcuda_core_event_create
      hmcuda_core_event_record hmcuda_core_event_synchronize hmcuda_core_event_elapsed_time
      hmcuda_core_event_destroy hmcuda_core_device_synchronize hmcuda_core_get_device_count
      hmcuda_core_set_device hmcuda_core_runtime_get_version hmcuda_core_register_fatbin
      hmcuda_core_register_function hmcuda_core_init_module hmcuda_core_push_call_configuration
      hmcuda_core_pop_call_configuration stream_handle hmcuda_core_launch_kernel
      hmcuda_core_func_get_attributes hmcuda_core_get_device_properties hmcuda_core_get_error_string
      hmcuda_core_get_error_name
  Keeps-runtime init = let renews = k.renews in search (read_rules, k.performs) depth 16
  Keeps-runtime (malloc n) = search (read_rules, k.performs, k.adds_with_handle) depth 16
  Keeps-runtime (register_function handle fun name) =
      search (read_rules, k.performs, k.adds_with_handle) depth 16
  Keeps-runtime (memcpy_cmd req) = Keeps-handle_memcpy k elem req
  Keeps-runtime (launch_kernel f grid block shared stream n args) =
      let parameters = Keeps-kernel_params k in search (read_rules, k.performs, parameters) depth 16
  Keeps-runtime (func_get_attributes f) =
      let queries = Keeps-query_attributes k in search (read_rules, queries) depth 16
  Keeps-runtime (stream_synchronize stream) =
      let waits = Keeps-stream_synchronize k in search (read_rules, waits) depth 16
  Keeps-runtime _ = search (read_rules, k.performs, k.adds, k.removes) depth 16

  Keeps-driver : (r : DriverRequest) → Keeps P (hmcuda_driver_handle_cmd env sid vid elem r)
  unfolding hmcuda_driver_handle_cmd hmcuda_core_cu_device_primary_ctx_release
      hmcuda_core_cu_ctx_set_current hmcuda_core_cu_ctx_enable_peer_access
      hmcuda_core_cu_stream_create hmcuda_core_cu_stream_destroy hmcuda_core_cu_stream_synchronize
      hmcuda_core_cu_stream_query hmcuda_core_cu_stream_wait_event hmcuda_core_cu_stream_get_ctx
      hmcuda_core_cu_event_create hmcuda_core_cu_event_destroy hmcuda_core_cu_event_record
      hmcuda_core_cu_event_elapsed_time hmcuda_core_cu_mem_alloc hmcuda_core_cu_mem_free
      hmcuda_core_cu_mem_free_host hmcuda_core_cu_memset_d32 hmcuda_core_cu_memcpy_async
      hmcuda_core_cu_memcpy_htod hmcuda_core_cu_pointer_get_attribute hmcuda_core_cu_mem_create
      hmcuda_core_cu_mem_release hmcuda_core_cu_mem_map hmcuda_core_cu_mem_unmap
      hmcuda_core_cu_mem_address_reserve hmcuda_core_cu_mem_address_free
      hmcuda_core_cu_mem_set_access hmcuda_core_cu_mem_export hmcuda_core_cu_mem_import
      hmcuda_core_cu_multicast_create hmcuda_core_cu_multicast_add_device
      hmcuda_core_cu_multicast_bind_mem hmcuda_core_cu_multicast_unbind
  Keeps-driver (cu_memcpy req) = Keeps-handle_cu_memcpy k elem req
  Keeps-driver (cu_mem_host_alloc req) = Keeps-handle_cu_mem_host_alloc k elem req
  Keeps-driver (cu_device_primary_ctx_retain device) =
      let retains = Keeps-retain k in search (read_rules, retains) depth 16
  Keeps-driver (cu_mem_alloc n) = search (read_rules, k.performs, k.adds_with_handle) depth 16
  Keeps-driver (cu_mem_address_reserve n alignment hint flags) =
      search (read_rules, k.performs, k.adds_with_handle) depth 16
  Keeps-driver _ = search (read_rules, k.performs, k.adds, k.removes) depth 16

  pub Keeps-dispatch : (r : Request) → Keeps P (hmcuda_dispatch_cmd env sid vid elem r)
  unfolding hmcuda_dispatch_cmd
  Keeps-dispatch (runtime r) = Keeps-runtime r
  Keeps-dispatch (driver r) = Keeps-driver r
  Keeps-dispatch (unknown cmd) = search read_rules
