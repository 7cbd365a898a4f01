-- ===== src/Guest/Buffers/Calls/DriverCalls.antt =====
-- The buffers of the entry points of guest/intercept/hmcuda_driver.cpp.
use hm_cuda.Prelude.{◌+◌, ◌*◌, ◌%◌, ◌^◌, ◌<◌, [], take, length, length-take, add64, arith}
use hm_cuda.Core.{sign_extend}
use hm_cuda.Command
use hm_cuda.Command.{runtime, driver}
use hm_cuda.Kernel.Sizes.{hmcuda_cmd_get_sizes, hmcuda_runtime_get_sizes, hmcuda_driver_get_sizes}
use hm_cuda.Wire.{sizeof}
use hm_cuda.Guest.{Process, System, erase_handle}
use hm_cuda.Guest.Driver.{drv_fwd_resp}
use hm_cuda.Guest.Driver
use hm_cuda.Guest.DriverStreams
use hm_cuda.Guest.Memory
use hm_cuda.Guest.Copies
use hm_cuda.Guest.DriverVmm
use hm_cuda.Guest.Multicast
use hm_cuda.Guest.Calls.DriverCalls.{
  DriverCall, run_driver, cu_init, cu_driver_get_version, cu_device_get, cu_device_get_count,
  cu_device_get_name, cu_device_get_attribute, cu_device_get_uuid, cu_device_can_access_peer,
  cu_device_primary_ctx_retain, cu_device_primary_ctx_release, cu_ctx_set_current,
  cu_ctx_get_device, cu_ctx_enable_peer_access, cu_stream_create, cu_stream_destroy,
  cu_stream_synchronize, cu_stream_query, cu_stream_wait_event, cu_stream_get_ctx, cu_event_create,
  cu_event_destroy, cu_event_record, cu_event_elapsed_time, cu_mem_alloc, cu_mem_free,
  cu_mem_host_alloc, cu_mem_free_host, cu_mem_alloc_host, cu_memset_d32, cu_memcpy_async,
  cu_memcpy_htod, cu_memcpy_dtoh, cu_memcpy, cu_pointer_get_attribute, cu_get_error_string,
  cu_get_error_name, cu_mem_create, cu_mem_release, cu_mem_map, cu_mem_unmap,
  cu_mem_address_reserve, cu_mem_address_free, cu_mem_set_access, cu_mem_get_allocation_granularity,
  cu_mem_export_to_shareable_handle, cu_mem_import_from_shareable_handle, cu_multicast_create,
  cu_multicast_get_granularity, cu_multicast_add_device, cu_multicast_bind_mem, cu_multicast_unbind,
}
use hm_cuda.Guest.Buffers.{AllRoomy}
use hm_cuda.Guest.Buffers.Driver.{
  drv_dispatch-Keeps, drv_fwd-Keeps, drv_fwd_resp-Keeps, cu_init-Keeps,
}
use hm_cuda.Guest.Buffers.Memory.{
  insert_handle-Keeps, mem_host_alloc-Keeps, mem_free_host-Keeps, host_to_device-Keeps,
  device_to_host-Keeps, memcpy_async-Keeps,
}
use hm_cuda.Wire.Driver.{
  hmcuda_cu_ctx_enable_peer_access_req, hmcuda_cu_ctx_get_device_resp,
  hmcuda_cu_ctx_set_current_req, hmcuda_cu_device_can_access_peer_req,
  hmcuda_cu_device_can_access_peer_resp, hmcuda_cu_device_get_attribute_req,
  hmcuda_cu_device_get_attribute_resp, hmcuda_cu_device_get_count_resp,
  hmcuda_cu_device_get_name_req, hmcuda_cu_device_get_name_resp, hmcuda_cu_device_get_req,
  hmcuda_cu_device_get_resp, hmcuda_cu_device_get_uuid_req, hmcuda_cu_device_get_uuid_resp,
  hmcuda_cu_device_primary_ctx_release_req, hmcuda_cu_device_primary_ctx_retain_req,
  hmcuda_cu_device_primary_ctx_retain_resp, hmcuda_cu_driver_get_version_resp,
  hmcuda_cu_event_create_req, hmcuda_cu_event_create_resp, hmcuda_cu_event_destroy_req,
  hmcuda_cu_event_elapsed_time_req, hmcuda_cu_event_elapsed_time_resp, hmcuda_cu_event_record_req,
  hmcuda_cu_mem_alloc_req, hmcuda_cu_mem_alloc_resp, hmcuda_cu_mem_free_req,
  hmcuda_cu_memset_d32_req, hmcuda_cu_stream_create_req, hmcuda_cu_stream_create_resp,
  hmcuda_cu_stream_destroy_req, hmcuda_cu_stream_get_ctx_req, hmcuda_cu_stream_get_ctx_resp,
  hmcuda_cu_stream_query_req, hmcuda_cu_stream_synchronize_req, hmcuda_cu_stream_wait_event_req,
}
use hm_cuda.Wire.DriverVmm.{
  hmcuda_cu_get_error_name_req, hmcuda_cu_get_error_name_resp, hmcuda_cu_get_error_string_req,
  hmcuda_cu_get_error_string_resp, hmcuda_cu_mem_access_desc, hmcuda_cu_mem_address_free_req,
  hmcuda_cu_mem_address_reserve_req, hmcuda_cu_mem_address_reserve_resp, hmcuda_cu_mem_create_req,
  hmcuda_cu_mem_create_resp, hmcuda_cu_mem_export_req, hmcuda_cu_mem_export_resp,
  hmcuda_cu_mem_get_alloc_granularity_req, hmcuda_cu_mem_get_alloc_granularity_resp,
  hmcuda_cu_mem_import_req, hmcuda_cu_mem_import_resp, hmcuda_cu_mem_map_req,
  hmcuda_cu_mem_release_req, hmcuda_cu_mem_set_access_req, hmcuda_cu_mem_unmap_req,
  hmcuda_cu_multicast_add_device_req, hmcuda_cu_multicast_bind_mem_req,
  hmcuda_cu_multicast_create_req, hmcuda_cu_multicast_create_resp,
  hmcuda_cu_multicast_get_granularity_req, hmcuda_cu_multicast_get_granularity_resp,
  hmcuda_cu_multicast_unbind_req, hmcuda_cu_pointer_get_attribute_req,
  hmcuda_cu_pointer_get_attribute_resp,
}

-- A name's length and a number of descriptors that are what an int and a 32-bit length can say.
abbrev pub IsDriverSized : DriverCall → Type 0
IsDriverSized (cu_device_get_name given len dev) = len < 2 ^ 31
IsDriverSized (cu_mem_set_access ptr n descs) = length descs < 2 ^ 32
IsDriverSized _ = Unit

-- Whatever the kernel module and the host answer, an entry point called with lengths in range hands
-- to the ioctl only buffers that hold the request that the kernel module reads from them and the
-- response that it writes to them, if that was so before.
pub run_driver-AllRoomy :
    (sys : System) (c : DriverCall) (p : Process)
    → IsDriverSized c
    → AllRoomy p
    → AllRoomy (run_driver sys c p)
unfolding run_driver Driver.cu_init Driver.cu_driver_get_version Driver.cu_device_get
    Driver.cu_device_get_count Driver.cu_device_get_name Driver.cu_device_get_attribute
    Driver.cu_device_get_uuid Driver.cu_device_can_access_peer Driver.cu_device_primary_ctx_retain
    Driver.cu_device_primary_ctx_release DriverStreams.cu_ctx_set_current
    DriverStreams.cu_ctx_get_device DriverStreams.cu_ctx_enable_peer_access
    DriverStreams.cu_stream_create DriverStreams.cu_stream_destroy
    DriverStreams.cu_stream_synchronize DriverStreams.cu_stream_query
    DriverStreams.cu_stream_wait_event DriverStreams.cu_stream_get_ctx DriverStreams.cu_event_create
    DriverStreams.cu_event_destroy DriverStreams.cu_event_record DriverStreams.cu_event_elapsed_time
    Memory.cu_mem_alloc Memory.cu_mem_free Memory.cu_mem_host_alloc Memory.cu_mem_free_host
    Memory.cu_mem_alloc_host Memory.cu_memset_d32 Copies.cu_memcpy_async Copies.cu_memcpy_htod
    Copies.cu_memcpy_dtoh Copies.cu_memcpy DriverVmm.cu_pointer_get_attribute
    DriverVmm.cu_get_error_string DriverVmm.cu_get_error_name DriverVmm.cu_mem_create
    DriverVmm.cu_mem_release DriverVmm.cu_mem_map DriverVmm.cu_mem_unmap
    DriverVmm.cu_mem_address_reserve DriverVmm.cu_mem_address_free DriverVmm.cu_mem_set_access
    DriverVmm.cu_mem_get_allocation_granularity DriverVmm.cu_mem_export_to_shareable_handle
    DriverVmm.cu_mem_import_from_shareable_handle Multicast.cu_multicast_create
    Multicast.cu_multicast_get_granularity Multicast.cu_multicast_add_device
    Multicast.cu_multicast_bind_mem Multicast.cu_multicast_unbind hmcuda_cmd_get_sizes
    hmcuda_runtime_get_sizes hmcuda_driver_get_sizes
run_driver-AllRoomy sys (cu_init a) p z h = cu_init-Keeps sys a p h
run_driver-AllRoomy sys (cu_driver_get_version a) p z h =
    drv_fwd_resp-Keeps sys (driver (Command.cu_driver_get_version)) []
      hmcuda_cu_driver_get_version_resp a (ground arith) p h
run_driver-AllRoomy sys (cu_device_get a b) p z h =
    drv_fwd_resp-Keeps sys (driver (Command.cu_device_get b)) hmcuda_cu_device_get_req
      hmcuda_cu_device_get_resp a (ground arith) p h
run_driver-AllRoomy sys (cu_device_get_count a) p z h =
    drv_fwd_resp-Keeps sys (driver (Command.cu_device_get_count)) [] hmcuda_cu_device_get_count_resp
      a (ground arith) p h
run_driver-AllRoomy sys (cu_device_get_name a b c) p z h =
    drv_dispatch-Keeps sys (driver (Command.cu_device_get_name c b))
      (sizeof hmcuda_cu_device_get_name_req)
      (add64 (sizeof hmcuda_cu_device_get_name_resp) (sign_extend b)) (ground (arith, z)) p h
run_driver-AllRoomy sys (cu_device_get_attribute a b c) p z h =
    drv_fwd_resp-Keeps sys (driver (Command.cu_device_get_attribute b c))
      hmcuda_cu_device_get_attribute_req hmcuda_cu_device_get_attribute_resp a (ground arith) p h
run_driver-AllRoomy sys (cu_device_get_uuid a b) p z h =
    drv_dispatch-Keeps sys (driver (Command.cu_device_get_uuid b))
      (sizeof hmcuda_cu_device_get_uuid_req) (sizeof hmcuda_cu_device_get_uuid_resp) (ground arith)
      p h
run_driver-AllRoomy sys (cu_device_can_access_peer a b c) p z h =
    drv_fwd_resp-Keeps sys (driver (Command.cu_device_can_access_peer b c))
      hmcuda_cu_device_can_access_peer_req hmcuda_cu_device_can_access_peer_resp a (ground arith) p
      h
run_driver-AllRoomy sys (cu_device_primary_ctx_retain a b) p z h =
    drv_fwd_resp-Keeps sys (driver (Command.cu_device_primary_ctx_retain b))
      hmcuda_cu_device_primary_ctx_retain_req hmcuda_cu_device_primary_ctx_retain_resp a
      (ground arith) p h
run_driver-AllRoomy sys (cu_device_primary_ctx_release a) p z h =
    drv_fwd-Keeps sys (driver (Command.cu_device_primary_ctx_release a))
      hmcuda_cu_device_primary_ctx_release_req (ground arith) p h
run_driver-AllRoomy sys (cu_ctx_set_current a) p z h =
    drv_fwd-Keeps sys (driver (Command.cu_ctx_set_current a)) hmcuda_cu_ctx_set_current_req
      (ground arith) p h
run_driver-AllRoomy sys (cu_ctx_get_device a) p z h =
    drv_fwd_resp-Keeps sys (driver (Command.cu_ctx_get_device)) [] hmcuda_cu_ctx_get_device_resp a
      (ground arith) p h
run_driver-AllRoomy sys (cu_ctx_enable_peer_access a b) p z h =
    drv_fwd-Keeps sys (driver (Command.cu_ctx_enable_peer_access a b))
      hmcuda_cu_ctx_enable_peer_access_req (ground arith) p h
run_driver-AllRoomy sys (cu_stream_create a b) p z h =
    drv_fwd_resp-Keeps sys (driver (Command.cu_stream_create b)) hmcuda_cu_stream_create_req
      hmcuda_cu_stream_create_resp a (ground arith) p h
run_driver-AllRoomy sys (cu_stream_destroy a) p z h =
    drv_fwd-Keeps sys (driver (Command.cu_stream_destroy a)) hmcuda_cu_stream_destroy_req
      (ground arith) p h
run_driver-AllRoomy sys (cu_stream_synchronize a) p z h =
    drv_fwd-Keeps sys (driver (Command.cu_stream_synchronize a)) hmcuda_cu_stream_synchronize_req
      (ground arith) p h
run_driver-AllRoomy sys (cu_stream_query a) p z h =
    drv_fwd-Keeps sys (driver (Command.cu_stream_query a)) hmcuda_cu_stream_query_req (ground arith)
      p h
run_driver-AllRoomy sys (cu_stream_wait_event a b c) p z h =
    drv_fwd-Keeps sys (driver (Command.cu_stream_wait_event a b c)) hmcuda_cu_stream_wait_event_req
      (ground arith) p h
run_driver-AllRoomy sys (cu_stream_get_ctx a b) p z h =
    drv_fwd_resp-Keeps sys (driver (Command.cu_stream_get_ctx b)) hmcuda_cu_stream_get_ctx_req
      hmcuda_cu_stream_get_ctx_resp a (ground arith) p h
run_driver-AllRoomy sys (cu_event_create a b) p z h =
    drv_fwd_resp-Keeps sys (driver (Command.cu_event_create b)) hmcuda_cu_event_create_req
      hmcuda_cu_event_create_resp a (ground arith) p h
run_driver-AllRoomy sys (cu_event_destroy a) p z h =
    drv_fwd-Keeps sys (driver (Command.cu_event_destroy a)) hmcuda_cu_event_destroy_req
      (ground arith) p h
run_driver-AllRoomy sys (cu_event_record a b) p z h =
    drv_fwd-Keeps sys (driver (Command.cu_event_record a b)) hmcuda_cu_event_record_req
      (ground arith) p h
run_driver-AllRoomy sys (cu_event_elapsed_time a b c) p z h =
    drv_fwd_resp-Keeps sys (driver (Command.cu_event_elapsed_time b c))
      hmcuda_cu_event_elapsed_time_req hmcuda_cu_event_elapsed_time_resp a (ground arith) p h
run_driver-AllRoomy sys (cu_mem_alloc a b) p z h =
    insert_handle-Keeps
      (drv_fwd_resp sys (driver (Command.cu_mem_alloc b)) hmcuda_cu_mem_alloc_req
        hmcuda_cu_mem_alloc_resp a p).0
      (drv_fwd_resp sys (driver (Command.cu_mem_alloc b)) hmcuda_cu_mem_alloc_req
        hmcuda_cu_mem_alloc_resp a p).1
      (drv_fwd_resp-Keeps sys (driver (Command.cu_mem_alloc b)) hmcuda_cu_mem_alloc_req
        hmcuda_cu_mem_alloc_resp a (ground arith) p h)
run_driver-AllRoomy sys (cu_mem_free a) p z h =
    drv_fwd-Keeps sys (driver (Command.cu_mem_free a)) hmcuda_cu_mem_free_req (ground arith)
      (record p { device_handles = erase_handle a p.device_handles }) h
run_driver-AllRoomy sys (cu_mem_host_alloc a b c) p z h = mem_host_alloc-Keeps sys a b c p h
run_driver-AllRoomy sys (cu_mem_free_host a) p z h = mem_free_host-Keeps sys a p h
run_driver-AllRoomy sys (cu_mem_alloc_host a b) p z h = mem_host_alloc-Keeps sys a b 0 p h
run_driver-AllRoomy sys (cu_memset_d32 a b c) p z h =
    drv_fwd-Keeps sys (driver (Command.cu_memset_d32 a b c)) hmcuda_cu_memset_d32_req (ground arith)
      p h
run_driver-AllRoomy sys (cu_memcpy_async a b c d) p z h = memcpy_async-Keeps sys a b c d p h
run_driver-AllRoomy sys (cu_memcpy_htod a b c) p z h = host_to_device-Keeps sys a b c 0 p h
run_driver-AllRoomy sys (cu_memcpy_dtoh a b c) p z h = device_to_host-Keeps sys a b c 0 p h
run_driver-AllRoomy sys (cu_memcpy a b c) p z h = memcpy_async-Keeps sys a b c 0 p h
run_driver-AllRoomy sys (cu_pointer_get_attribute a b c) p z h =
    drv_fwd_resp-Keeps sys (driver (Command.cu_pointer_get_attribute b c))
      hmcuda_cu_pointer_get_attribute_req hmcuda_cu_pointer_get_attribute_resp a (ground arith) p h
run_driver-AllRoomy sys (cu_get_error_string a b) p z h =
    drv_dispatch-Keeps sys (driver (Command.cu_get_error_string b))
      (sizeof hmcuda_cu_get_error_string_req) (sizeof hmcuda_cu_get_error_string_resp + 256)
      (ground arith) p h
run_driver-AllRoomy sys (cu_get_error_name a b) p z h =
    drv_dispatch-Keeps sys (driver (Command.cu_get_error_name b))
      (sizeof hmcuda_cu_get_error_name_req) (sizeof hmcuda_cu_get_error_name_resp + 256)
      (ground arith) p h
run_driver-AllRoomy sys (cu_mem_create a b c d) p z h =
    drv_fwd_resp-Keeps sys (driver (Command.cu_mem_create b c d)) hmcuda_cu_mem_create_req
      hmcuda_cu_mem_create_resp a (ground arith) p h
run_driver-AllRoomy sys (cu_mem_release a) p z h =
    drv_fwd-Keeps sys (driver (Command.cu_mem_release a)) hmcuda_cu_mem_release_req (ground arith) p
      h
run_driver-AllRoomy sys (cu_mem_map a b c d e) p z h =
    drv_fwd-Keeps sys (driver (Command.cu_mem_map a b c d e)) hmcuda_cu_mem_map_req (ground arith) p
      h
run_driver-AllRoomy sys (cu_mem_unmap a b) p z h =
    drv_fwd-Keeps sys (driver (Command.cu_mem_unmap a b)) hmcuda_cu_mem_unmap_req (ground arith) p h
run_driver-AllRoomy sys (cu_mem_address_reserve a b c d e) p z h =
    insert_handle-Keeps
      (drv_fwd_resp sys (driver (Command.cu_mem_address_reserve b c d e))
        hmcuda_cu_mem_address_reserve_req hmcuda_cu_mem_address_reserve_resp a p).0
      (drv_fwd_resp sys (driver (Command.cu_mem_address_reserve b c d e))
        hmcuda_cu_mem_address_reserve_req hmcuda_cu_mem_address_reserve_resp a p).1
      (drv_fwd_resp-Keeps sys (driver (Command.cu_mem_address_reserve b c d e))
        hmcuda_cu_mem_address_reserve_req hmcuda_cu_mem_address_reserve_resp a (ground arith) p h)
run_driver-AllRoomy sys (cu_mem_address_free a b) p z h =
    drv_fwd-Keeps sys (driver (Command.cu_mem_address_free a b)) hmcuda_cu_mem_address_free_req
      (ground arith) (record p { device_handles = erase_handle a p.device_handles }) h
run_driver-AllRoomy sys (cu_mem_set_access a b c) p z h =
    drv_dispatch-Keeps sys (driver (Command.cu_mem_set_access a b (take (length c % 2 ^ 32) c)))
      (add64 (sizeof hmcuda_cu_mem_set_access_req)
        (length c * sizeof hmcuda_cu_mem_access_desc % 2 ^ 64))
      0 (ground (arith, z, length-take (length c % 2 ^ 32) c)) p h
run_driver-AllRoomy sys (cu_mem_get_allocation_granularity a b c) p z h =
    drv_fwd_resp-Keeps sys (driver (Command.cu_mem_get_alloc_granularity b c))
      hmcuda_cu_mem_get_alloc_granularity_req hmcuda_cu_mem_get_alloc_granularity_resp a
      (ground arith) p h
run_driver-AllRoomy sys (cu_mem_export_to_shareable_handle a b c d) p z h =
    drv_dispatch-Keeps sys (driver (Command.cu_mem_export b c d)) (sizeof hmcuda_cu_mem_export_req)
      (sizeof hmcuda_cu_mem_export_resp) (ground arith) p h
run_driver-AllRoomy sys (cu_mem_import_from_shareable_handle a b c) p z h =
    drv_fwd_resp-Keeps sys (driver (Command.cu_mem_import (take 64 b) c)) hmcuda_cu_mem_import_req
      hmcuda_cu_mem_import_resp a (ground arith) p h
run_driver-AllRoomy sys (cu_multicast_create a b) p z h =
    drv_fwd_resp-Keeps sys (driver (Command.cu_multicast_create b)) hmcuda_cu_multicast_create_req
      hmcuda_cu_multicast_create_resp a (ground arith) p h
run_driver-AllRoomy sys (cu_multicast_get_granularity a b c) p z h =
    drv_fwd_resp-Keeps sys (driver (Command.cu_multicast_get_granularity b c))
      hmcuda_cu_multicast_get_granularity_req hmcuda_cu_multicast_get_granularity_resp a
      (ground arith) p h
run_driver-AllRoomy sys (cu_multicast_add_device a b) p z h =
    drv_fwd-Keeps sys (driver (Command.cu_multicast_add_device a b))
      hmcuda_cu_multicast_add_device_req (ground arith) p h
run_driver-AllRoomy sys (cu_multicast_bind_mem a b c d e f) p z h =
    drv_fwd-Keeps sys (driver (Command.cu_multicast_bind_mem a b c d e f))
      hmcuda_cu_multicast_bind_mem_req (ground arith) p h
run_driver-AllRoomy sys (cu_multicast_unbind a b c d) p z h =
    drv_fwd-Keeps sys (driver (Command.cu_multicast_unbind a b c d)) hmcuda_cu_multicast_unbind_req
      (ground arith) p h
