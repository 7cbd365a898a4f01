-- ===== src/Guest/Calls/DriverCalls.antt =====
-- The entry points of guest/intercept/hmcuda_driver.cpp as one type, with what each does to the
-- process.
use hm_cuda.Prelude.{ℕ, Bool, List}
use hm_cuda.Guest.{System, Process}
use hm_cuda.Guest.Driver
use hm_cuda.Guest.DriverStreams
use hm_cuda.Guest.Memory
use hm_cuda.Guest.Copies
use hm_cuda.Guest.DriverVmm
use hm_cuda.Guest.Multicast

pub data DriverCall : Type 0 where
  cu_init : ℕ → DriverCall
  cu_driver_get_version : Bool → DriverCall
  cu_device_get : Bool → ℕ → DriverCall
  cu_device_get_count : Bool → DriverCall
  cu_device_get_name : Bool → ℕ → ℕ → DriverCall
  cu_device_get_attribute : Bool → ℕ → ℕ → DriverCall
  cu_device_get_uuid : Bool → ℕ → DriverCall
  cu_device_can_access_peer : Bool → ℕ → ℕ → DriverCall
  cu_device_primary_ctx_retain : Bool → ℕ → DriverCall
  cu_device_primary_ctx_release : ℕ → DriverCall
  cu_ctx_set_current : ℕ → DriverCall
  cu_ctx_get_device : Bool → DriverCall
  cu_ctx_enable_peer_access : ℕ → ℕ → DriverCall
  cu_stream_create : Bool → ℕ → DriverCall
  cu_stream_destroy : ℕ → DriverCall
  cu_stream_synchronize : ℕ → DriverCall
  cu_stream_query : ℕ → DriverCall
  cu_stream_wait_event : ℕ → ℕ → ℕ → DriverCall
  cu_stream_get_ctx : Bool → ℕ → DriverCall
  cu_event_create : Bool → ℕ → DriverCall
  cu_event_destroy : ℕ → DriverCall
  cu_event_record : ℕ → ℕ → DriverCall
  cu_event_elapsed_time : Bool → ℕ → ℕ → DriverCall
  cu_mem_alloc : Bool → ℕ → DriverCall
  cu_mem_free : ℕ → DriverCall
  cu_mem_host_alloc : Bool → ℕ → ℕ → DriverCall
  cu_mem_free_host : ℕ → DriverCall
  cu_mem_alloc_host : Bool → ℕ → DriverCall
  cu_memset_d32 : ℕ → ℕ → ℕ → DriverCall
  cu_memcpy_async : ℕ → ℕ → ℕ → ℕ → DriverCall
  cu_memcpy_htod : ℕ → ℕ → ℕ → DriverCall
  cu_memcpy_dtoh : ℕ → ℕ → ℕ → DriverCall
  cu_memcpy : ℕ → ℕ → ℕ → DriverCall
  cu_pointer_get_attribute : Bool → ℕ → ℕ → DriverCall
  cu_get_error_string : Bool → ℕ → DriverCall
  cu_get_error_name : Bool → ℕ → DriverCall
  cu_mem_create : Bool → ℕ → List ℕ → ℕ → DriverCall
  cu_mem_release : ℕ → DriverCall
  cu_mem_map : ℕ → ℕ → ℕ → ℕ → ℕ → DriverCall
  cu_mem_unmap : ℕ → ℕ → DriverCall
  cu_mem_address_reserve : Bool → ℕ → ℕ → ℕ → ℕ → DriverCall
  cu_mem_address_free : ℕ → ℕ → DriverCall
  cu_mem_set_access : ℕ → ℕ → List (List ℕ) → DriverCall
  cu_mem_get_allocation_granularity : Bool → List ℕ → ℕ → DriverCall
  cu_mem_export_to_shareable_handle : Bool → ℕ → ℕ → ℕ → DriverCall
  cu_mem_import_from_shareable_handle : Bool → List ℕ → ℕ → DriverCall
  cu_multicast_create : Bool → List ℕ → DriverCall
  cu_multicast_get_granularity : Bool → List ℕ → ℕ → DriverCall
  cu_multicast_add_device : ℕ → ℕ → DriverCall
  cu_multicast_bind_mem : ℕ → ℕ → ℕ → ℕ → ℕ → ℕ → DriverCall
  cu_multicast_unbind : ℕ → ℕ → ℕ → ℕ → DriverCall

unfoldable pub run_driver : System → DriverCall → Process → Process
unfolding Driver.cu_init Driver.cu_driver_get_version Driver.cu_device_get
    Driver.cu_device_get_count Driver.cu_device_get_name Driver.cu_device_get_attribute
    Driver.cu_device_get_uuid Driver.cu_device_can_access_peer Driver.cu_device_primary_ctx_retain
    Driver.cu_device_primary_ctx_release DriverStreams.cu_ctx_set_current
    DriverStreams.cu_ctx_get_device DriverStreams.cu_ctx_enable_peer_access
    DriverStreams.cu_stream_create DriverStreams.cu_stream_destroy
    DriverStreams.cu_stream_synchronize DriverStreams.cu_stream_query
    DriverStreams.cu_stream_wait_event DriverStreams.cu_stream_get_ctx DriverStreams.cu_event_create
    DriverStreams.cu_event_destroy DriverStreams.cu_event_record DriverStreams.cu_event_elapsed_time
    Memory.cu_mem_alloc Memory.cu_mem_free Memory.cu_mem_host_alloc Memory.cu_mem_free_host
    Memory.cu_mem_alloc_host Memory.cu_memset_d32 Copies.cu_memcpy_async Copies.cu_memcpy_htod
    Copies.cu_memcpy_dtoh Copies.cu_memcpy DriverVmm.cu_pointer_get_attribute
    DriverVmm.cu_get_error_string DriverVmm.cu_get_error_name DriverVmm.cu_mem_create
    DriverVmm.cu_mem_release DriverVmm.cu_mem_map DriverVmm.cu_mem_unmap
    DriverVmm.cu_mem_address_reserve DriverVmm.cu_mem_address_free DriverVmm.cu_mem_set_access
    DriverVmm.cu_mem_get_allocation_granularity DriverVmm.cu_mem_export_to_shareable_handle
    DriverVmm.cu_mem_import_from_shareable_handle Multicast.cu_multicast_create
    Multicast.cu_multicast_get_granularity Multicast.cu_multicast_add_device
    Multicast.cu_multicast_bind_mem Multicast.cu_multicast_unbind
run_driver sys (cu_init a) p = (Driver.cu_init sys a p).1
run_driver sys (cu_driver_get_version a) p = (Driver.cu_driver_get_version sys a p).1
run_driver sys (cu_device_get a b) p = (Driver.cu_device_get sys a b p).1
run_driver sys (cu_device_get_count a) p = (Driver.cu_device_get_count sys a p).1
run_driver sys (cu_device_get_name a b c) p = (Driver.cu_device_get_name sys a b c p).1
run_driver sys (cu_device_get_attribute a b c) p = (Driver.cu_device_get_attribute sys a b c p).1
run_driver sys (cu_device_get_uuid a b) p = (Driver.cu_device_get_uuid sys a b p).1
run_driver sys (cu_device_can_access_peer a b c) p =
    (Driver.cu_device_can_access_peer sys a b c p).1
run_driver sys (cu_device_primary_ctx_retain a b) p =
    (Driver.cu_device_primary_ctx_retain sys a b p).1
run_driver sys (cu_device_primary_ctx_release a) p =
    (Driver.cu_device_primary_ctx_release sys a p).1
run_driver sys (cu_ctx_set_current a) p = (DriverStreams.cu_ctx_set_current sys a p).1
run_driver sys (cu_ctx_get_device a) p = (DriverStreams.cu_ctx_get_device sys a p).1
run_driver sys (cu_ctx_enable_peer_access a b) p =
    (DriverStreams.cu_ctx_enable_peer_access sys a b p).1
run_driver sys (cu_stream_create a b) p = (DriverStreams.cu_stream_create sys a b p).1
run_driver sys (cu_stream_destroy a) p = (DriverStreams.cu_stream_destroy sys a p).1
run_driver sys (cu_stream_synchronize a) p = (DriverStreams.cu_stream_synchronize sys a p).1
run_driver sys (cu_stream_query a) p = (DriverStreams.cu_stream_query sys a p).1
run_driver sys (cu_stream_wait_event a b c) p = (DriverStreams.cu_stream_wait_event sys a b c p).1
run_driver sys (cu_stream_get_ctx a b) p = (DriverStreams.cu_stream_get_ctx sys a b p).1
run_driver sys (cu_event_create a b) p = (DriverStreams.cu_event_create sys a b p).1
run_driver sys (cu_event_destroy a) p = (DriverStreams.cu_event_destroy sys a p).1
run_driver sys (cu_event_record a b) p = (DriverStreams.cu_event_record sys a b p).1
run_driver sys (cu_event_elapsed_time a b c) p = (DriverStreams.cu_event_elapsed_time sys a b c p).1
run_driver sys (cu_mem_alloc a b) p = (Memory.cu_mem_alloc sys a b p).1
run_driver sys (cu_mem_free a) p = (Memory.cu_mem_free sys a p).1
run_driver sys (cu_mem_host_alloc a b c) p = (Memory.cu_mem_host_alloc sys a b c p).1
run_driver sys (cu_mem_free_host a) p = (Memory.cu_mem_free_host sys a p).1
run_driver sys (cu_mem_alloc_host a b) p = (Memory.cu_mem_alloc_host sys a b p).1
run_driver sys (cu_memset_d32 a b c) p = (Memory.cu_memset_d32 sys a b c p).1
run_driver sys (cu_memcpy_async a b c d) p = (Copies.cu_memcpy_async sys a b c d p).1
run_driver sys (cu_memcpy_htod a b c) p = (Copies.cu_memcpy_htod sys a b c p).1
run_driver sys (cu_memcpy_dtoh a b c) p = (Copies.cu_memcpy_dtoh sys a b c p).1
run_driver sys (cu_memcpy a b c) p = (Copies.cu_memcpy sys a b c p).1
run_driver sys (cu_pointer_get_attribute a b c) p =
    (DriverVmm.cu_pointer_get_attribute sys a b c p).1
run_driver sys (cu_get_error_string a b) p = (DriverVmm.cu_get_error_string sys a b p).1
run_driver sys (cu_get_error_name a b) p = (DriverVmm.cu_get_error_name sys a b p).1
run_driver sys (cu_mem_create a b c d) p = (DriverVmm.cu_mem_create sys a b c d p).1
run_driver sys (cu_mem_release a) p = (DriverVmm.cu_mem_release sys a p).1
run_driver sys (cu_mem_map a b c d e) p = (DriverVmm.cu_mem_map sys a b c d e p).1
run_driver sys (cu_mem_unmap a b) p = (DriverVmm.cu_mem_unmap sys a b p).1
run_driver sys (cu_mem_address_reserve a b c d e) p =
    (DriverVmm.cu_mem_address_reserve sys a b c d e p).1
run_driver sys (cu_mem_address_free a b) p = (DriverVmm.cu_mem_address_free sys a b p).1
run_driver sys (cu_mem_set_access a b c) p = (DriverVmm.cu_mem_set_access sys a b c p).1
run_driver sys (cu_mem_get_allocation_granularity a b c) p =
    (DriverVmm.cu_mem_get_allocation_granularity sys a b c p).1
run_driver sys (cu_mem_export_to_shareable_handle a b c d) p =
    (DriverVmm.cu_mem_export_to_shareable_handle sys a b c d p).1
run_driver sys (cu_mem_import_from_shareable_handle a b c) p =
    (DriverVmm.cu_mem_import_from_shareable_handle sys a b c p).1
run_driver sys (cu_multicast_create a b) p = (Multicast.cu_multicast_create sys a b p).1
run_driver sys (cu_multicast_get_granularity a b c) p =
    (Multicast.cu_multicast_get_granularity sys a b c p).1
run_driver sys (cu_multicast_add_device a b) p = (Multicast.cu_multicast_add_device sys a b p).1
run_driver sys (cu_multicast_bind_mem a b c d e f) p =
    (Multicast.cu_multicast_bind_mem sys a b c d e f p).1
run_driver sys (cu_multicast_unbind a b c d) p = (Multicast.cu_multicast_unbind sys a b c d p).1
