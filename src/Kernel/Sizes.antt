-- ===== src/Kernel/Sizes.antt =====
-- driver/cmd_runtime.c, driver/cmd_driver.c and the size lookup of driver/virtio_hmcuda_main.c: how
-- many bytes the guest's kernel module copies in and makes room for, after the header.
use hm_cuda.Prelude.{ℕ, ◌+◌, ◌*◌, Bool, Option, none, some, if◌then◌else◌, add64, length}
use hm_cuda.Core.{sign_extend}
use hm_cuda.Command.{
  RuntimeRequest, DriverRequest, Request, runtime, driver, unknown, launch_kernel, register_fatbin,
  register_function, cu_device_get_name, cu_mem_set_access, init, malloc, free, memcpy_cmd, memset,
  stream_create, stream_synchronize, event_create, event_record, event_synchronize,
  event_elapsed_time, event_destroy, device_synchronize, push_call_cfg, pop_call_cfg, init_module,
  get_device_properties, get_device_count, set_device, get_error_string, get_error_name,
  runtime_get_version, func_get_attributes, cu_init, cu_driver_get_version, cu_device_get,
  cu_device_get_count, cu_device_get_attribute, cu_device_get_uuid, cu_device_can_access_peer,
  cu_device_primary_ctx_retain, cu_device_primary_ctx_release, cu_ctx_set_current,
  cu_ctx_get_device, cu_ctx_enable_peer_access, cu_stream_create, cu_stream_destroy,
  cu_stream_synchronize, cu_stream_query, cu_stream_wait_event, cu_stream_get_ctx, cu_event_create,
  cu_event_destroy, cu_event_record, cu_event_elapsed_time, cu_mem_alloc, cu_mem_free,
  cu_mem_host_alloc, cu_mem_free_host, cu_memset_d32, cu_memcpy_async, cu_memcpy_htod, cu_memcpy,
  cu_pointer_get_attribute, cu_get_error_string, cu_get_error_name, cu_mem_create, cu_mem_release,
  cu_mem_map, cu_mem_unmap, cu_mem_address_reserve, cu_mem_address_free,
  cu_mem_get_alloc_granularity, cu_mem_export, cu_mem_import, cu_multicast_create,
  cu_multicast_get_granularity, cu_multicast_add_device, cu_multicast_bind_mem, cu_multicast_unbind,
}

-- struct hmcuda_cmd_sizes.
pub record Sizes : Type 0 where
  pub req_size : ℕ
  pub resp_size : ℕ

abbrev sizes : ℕ → ℕ → Sizes
sizes q r = record { req_size = q; resp_size = r }

-- What the trailing data adds where `req_payload` is given, that is, not NULL.
abbrev extra : Bool → ℕ → ℕ
extra given n = if given then n else 0

unfoldable pub hmcuda_runtime_get_sizes : Bool → RuntimeRequest → Sizes
hmcuda_runtime_get_sizes _ init = sizes 0 0
hmcuda_runtime_get_sizes _ (malloc _) = sizes 8 8
hmcuda_runtime_get_sizes _ (free _) = sizes 8 0
hmcuda_runtime_get_sizes _ (memcpy_cmd _) = sizes 40 0
hmcuda_runtime_get_sizes _ (memset _ _ _) = sizes 24 0
hmcuda_runtime_get_sizes _ (stream_create _) = sizes 4 8
hmcuda_runtime_get_sizes _ (stream_synchronize _) = sizes 8 0
hmcuda_runtime_get_sizes _ (event_create _) = sizes 4 8
hmcuda_runtime_get_sizes _ (event_record _ _) = sizes 16 0
hmcuda_runtime_get_sizes _ (event_synchronize _) = sizes 8 0
hmcuda_runtime_get_sizes _ (event_elapsed_time _ _) = sizes 16 4
hmcuda_runtime_get_sizes _ (event_destroy _) = sizes 8 0
hmcuda_runtime_get_sizes _ device_synchronize = sizes 4 0
hmcuda_runtime_get_sizes _ (push_call_cfg _ _ _ _) = sizes 40 0
hmcuda_runtime_get_sizes _ pop_call_cfg = sizes 0 40
hmcuda_runtime_get_sizes _ (init_module _) = sizes 8 0
hmcuda_runtime_get_sizes _ (get_device_properties _) = sizes 4 1032
hmcuda_runtime_get_sizes _ get_device_count = sizes 0 4
hmcuda_runtime_get_sizes _ (set_device _) = sizes 4 0
hmcuda_runtime_get_sizes _ (get_error_string _) = sizes 4 260
hmcuda_runtime_get_sizes _ (get_error_name _) = sizes 4 260
hmcuda_runtime_get_sizes _ runtime_get_version = sizes 0 4
hmcuda_runtime_get_sizes _ (func_get_attributes _) = sizes 8 80
hmcuda_runtime_get_sizes given (launch_kernel _ _ _ _ _ args_size _) =
    sizes (56 + extra given args_size) 0
hmcuda_runtime_get_sizes given (register_fatbin fatbin) =
    sizes (add64 8 (extra given (length fatbin))) 8
hmcuda_runtime_get_sizes given (register_function _ _ device_name) =
    sizes (24 + extra given (length device_name)) 8

unfoldable pub hmcuda_driver_get_sizes : Bool → DriverRequest → Sizes
hmcuda_driver_get_sizes _ (cu_init _) = sizes 4 0
hmcuda_driver_get_sizes _ cu_driver_get_version = sizes 0 4
hmcuda_driver_get_sizes _ (cu_device_get _) = sizes 4 4
hmcuda_driver_get_sizes _ cu_device_get_count = sizes 0 4
hmcuda_driver_get_sizes _ (cu_device_get_attribute _ _) = sizes 8 4
hmcuda_driver_get_sizes _ (cu_device_get_uuid _) = sizes 4 16
hmcuda_driver_get_sizes _ (cu_device_can_access_peer _ _) = sizes 8 4
hmcuda_driver_get_sizes _ (cu_device_primary_ctx_retain _) = sizes 4 8
hmcuda_driver_get_sizes _ (cu_device_primary_ctx_release _) = sizes 4 0
hmcuda_driver_get_sizes _ (cu_ctx_set_current _) = sizes 8 0
hmcuda_driver_get_sizes _ cu_ctx_get_device = sizes 0 4
hmcuda_driver_get_sizes _ (cu_ctx_enable_peer_access _ _) = sizes 16 0
hmcuda_driver_get_sizes _ (cu_stream_create _) = sizes 4 8
hmcuda_driver_get_sizes _ (cu_stream_destroy _) = sizes 8 0
hmcuda_driver_get_sizes _ (cu_stream_synchronize _) = sizes 8 0
hmcuda_driver_get_sizes _ (cu_stream_query _) = sizes 8 0
hmcuda_driver_get_sizes _ (cu_stream_wait_event _ _ _) = sizes 24 0
hmcuda_driver_get_sizes _ (cu_stream_get_ctx _) = sizes 8 8
hmcuda_driver_get_sizes _ (cu_event_create _) = sizes 4 8
hmcuda_driver_get_sizes _ (cu_event_destroy _) = sizes 8 0
hmcuda_driver_get_sizes _ (cu_event_record _ _) = sizes 16 0
hmcuda_driver_get_sizes _ (cu_event_elapsed_time _ _) = sizes 16 4
hmcuda_driver_get_sizes _ (cu_mem_alloc _) = sizes 8 8
hmcuda_driver_get_sizes _ (cu_mem_free _) = sizes 8 0
hmcuda_driver_get_sizes _ (cu_mem_host_alloc _) = sizes 32 0
hmcuda_driver_get_sizes _ (cu_mem_free_host _) = sizes 8 0
hmcuda_driver_get_sizes _ (cu_memset_d32 _ _ _) = sizes 24 0
hmcuda_driver_get_sizes _ (cu_memcpy_async _ _ _ _) = sizes 32 0
hmcuda_driver_get_sizes _ (cu_memcpy_htod _ _ _) = sizes 24 0
hmcuda_driver_get_sizes _ (cu_memcpy _) = sizes 40 0
hmcuda_driver_get_sizes _ (cu_pointer_get_attribute _ _) = sizes 16 8
hmcuda_driver_get_sizes _ (cu_get_error_string _) = sizes 4 4
hmcuda_driver_get_sizes _ (cu_get_error_name _) = sizes 4 4
hmcuda_driver_get_sizes _ (cu_mem_create _ _ _) = sizes 32 8
hmcuda_driver_get_sizes _ (cu_mem_release _) = sizes 8 0
hmcuda_driver_get_sizes _ (cu_mem_map _ _ _ _ _) = sizes 40 0
hmcuda_driver_get_sizes _ (cu_mem_unmap _ _) = sizes 16 0
hmcuda_driver_get_sizes _ (cu_mem_address_reserve _ _ _ _) = sizes 32 8
hmcuda_driver_get_sizes _ (cu_mem_address_free _ _) = sizes 16 0
hmcuda_driver_get_sizes _ (cu_mem_get_alloc_granularity _ _) = sizes 20 8
hmcuda_driver_get_sizes _ (cu_mem_export _ _ _) = sizes 24 64
hmcuda_driver_get_sizes _ (cu_mem_import _ _) = sizes 68 8
hmcuda_driver_get_sizes _ (cu_multicast_create _) = sizes 16 8
hmcuda_driver_get_sizes _ (cu_multicast_get_granularity _ _) = sizes 24 8
hmcuda_driver_get_sizes _ (cu_multicast_add_device _ _) = sizes 16 0
hmcuda_driver_get_sizes _ (cu_multicast_bind_mem _ _ _ _ _ _) = sizes 48 0
hmcuda_driver_get_sizes _ (cu_multicast_unbind _ _ _ _) = sizes 32 0
hmcuda_driver_get_sizes given (cu_device_get_name _ name_len) =
    sizes 8 (add64 4 (extra given (sign_extend name_len)))
hmcuda_driver_get_sizes given (cu_mem_set_access _ _ descs) =
    sizes (24 + extra given (length descs * 12)) 0

-- `none` is -EINVAL.
unfoldable pub hmcuda_cmd_get_sizes : Bool → Request → Option Sizes
unfolding hmcuda_runtime_get_sizes hmcuda_driver_get_sizes
hmcuda_cmd_get_sizes given (runtime r) = some (hmcuda_runtime_get_sizes given r)
hmcuda_cmd_get_sizes given (driver r) = some (hmcuda_driver_get_sizes given r)
hmcuda_cmd_get_sizes given (unknown cmd) = none
