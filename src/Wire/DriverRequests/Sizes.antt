-- ===== src/Wire/DriverRequests/Sizes.antt =====
-- The size tables of driver/cmd_driver.c, held against the structs of common/include.
use hm_cuda.Prelude.{◌≤◌, ◌≡◌, refl, false, arith}
use hm_cuda.Command.{
  DriverRequest, cu_init, cu_driver_get_version, cu_device_get, cu_device_get_count,
  cu_device_get_name, cu_device_get_attribute, cu_device_get_uuid, cu_device_can_access_peer,
  cu_device_primary_ctx_retain, cu_device_primary_ctx_release, cu_ctx_set_current,
  cu_ctx_get_device, cu_ctx_enable_peer_access, cu_stream_create, cu_stream_destroy,
  cu_stream_synchronize, cu_stream_query, cu_stream_wait_event, cu_stream_get_ctx, cu_event_create,
  cu_event_destroy, cu_event_record, cu_event_elapsed_time, cu_mem_alloc, cu_mem_free,
  cu_mem_host_alloc, cu_mem_free_host, cu_memset_d32, cu_memcpy_async, cu_memcpy_htod, cu_memcpy,
  cu_pointer_get_attribute, cu_get_error_string, cu_get_error_name, cu_mem_create, cu_mem_release,
  cu_mem_map, cu_mem_unmap, cu_mem_address_reserve, cu_mem_address_free, cu_mem_export,
  cu_mem_import, cu_mem_set_access, cu_mem_get_alloc_granularity, cu_multicast_create,
  cu_multicast_get_granularity, cu_multicast_add_device, cu_multicast_bind_mem, cu_multicast_unbind,
}
use hm_cuda.Kernel.Sizes.{hmcuda_driver_get_sizes}
use hm_cuda.Wire.{sizeof}
use hm_cuda.Wire.DriverRequests.{driver_request_struct, driver_response_struct}

-- For every command of the driver API, the bytes that the kernel module takes in before the trailing
-- data are those of the request struct, and those that it makes room for hold the response struct.
pub driver_sizes-structs :
    (r : DriverRequest)
    → ((hmcuda_driver_get_sizes false r).req_size ≡ sizeof (driver_request_struct r))
      × (sizeof (driver_response_struct r) ≤ (hmcuda_driver_get_sizes false r).resp_size)
unfolding hmcuda_driver_get_sizes driver_request_struct driver_response_struct
driver_sizes-structs (cu_init _) = (refl, omega arith)
driver_sizes-structs cu_driver_get_version = (refl, omega arith)
driver_sizes-structs (cu_device_get _) = (refl, omega arith)
driver_sizes-structs cu_device_get_count = (refl, omega arith)
driver_sizes-structs (cu_device_get_name _ _) = (refl, omega arith)
driver_sizes-structs (cu_device_get_attribute _ _) = (refl, omega arith)
driver_sizes-structs (cu_device_get_uuid _) = (refl, omega arith)
driver_sizes-structs (cu_device_can_access_peer _ _) = (refl, omega arith)
driver_sizes-structs (cu_device_primary_ctx_retain _) = (refl, omega arith)
driver_sizes-structs (cu_device_primary_ctx_release _) = (refl, omega arith)
driver_sizes-structs (cu_ctx_set_current _) = (refl, omega arith)
driver_sizes-structs cu_ctx_get_device = (refl, omega arith)
driver_sizes-structs (cu_ctx_enable_peer_access _ _) = (refl, omega arith)
driver_sizes-structs (cu_stream_create _) = (refl, omega arith)
driver_sizes-structs (cu_stream_destroy _) = (refl, omega arith)
driver_sizes-structs (cu_stream_synchronize _) = (refl, omega arith)
driver_sizes-structs (cu_stream_query _) = (refl, omega arith)
driver_sizes-structs (cu_stream_wait_event _ _ _) = (refl, omega arith)
driver_sizes-structs (cu_stream_get_ctx _) = (refl, omega arith)
driver_sizes-structs (cu_event_create _) = (refl, omega arith)
driver_sizes-structs (cu_event_destroy _) = (refl, omega arith)
driver_sizes-structs (cu_event_record _ _) = (refl, omega arith)
driver_sizes-structs (cu_event_elapsed_time _ _) = (refl, omega arith)
driver_sizes-structs (cu_mem_alloc _) = (refl, omega arith)
driver_sizes-structs (cu_mem_free _) = (refl, omega arith)
driver_sizes-structs (cu_mem_host_alloc _) = (refl, omega arith)
driver_sizes-structs (cu_mem_free_host _) = (refl, omega arith)
driver_sizes-structs (cu_memset_d32 _ _ _) = (refl, omega arith)
driver_sizes-structs (cu_memcpy_async _ _ _ _) = (refl, omega arith)
driver_sizes-structs (cu_memcpy_htod _ _ _) = (refl, omega arith)
driver_sizes-structs (cu_memcpy _) = (refl, omega arith)
driver_sizes-structs (cu_pointer_get_attribute _ _) = (refl, omega arith)
driver_sizes-structs (cu_get_error_string _) = (refl, omega arith)
driver_sizes-structs (cu_get_error_name _) = (refl, omega arith)
driver_sizes-structs (cu_mem_create _ _ _) = (refl, omega arith)
driver_sizes-structs (cu_mem_release _) = (refl, omega arith)
driver_sizes-structs (cu_mem_map _ _ _ _ _) = (refl, omega arith)
driver_sizes-structs (cu_mem_unmap _ _) = (refl, omega arith)
driver_sizes-structs (cu_mem_address_reserve _ _ _ _) = (refl, omega arith)
driver_sizes-structs (cu_mem_address_free _ _) = (refl, omega arith)
driver_sizes-structs (cu_mem_export _ _ _) = (refl, omega arith)
driver_sizes-structs (cu_mem_import _ _) = (refl, omega arith)
driver_sizes-structs (cu_mem_set_access _ _ _) = (refl, omega arith)
driver_sizes-structs (cu_mem_get_alloc_granularity _ _) = (refl, omega arith)
driver_sizes-structs (cu_multicast_create _) = (refl, omega arith)
driver_sizes-structs (cu_multicast_get_granularity _ _) = (refl, omega arith)
driver_sizes-structs (cu_multicast_add_device _ _) = (refl, omega arith)
driver_sizes-structs (cu_multicast_bind_mem _ _ _ _ _ _) = (refl, omega arith)
driver_sizes-structs (cu_multicast_unbind _ _ _ _) = (refl, omega arith)
