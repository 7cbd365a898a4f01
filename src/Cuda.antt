-- ===== src/Cuda.antt =====
-- What the backend calls and does not implement: the CUDA driver and runtime libraries, libvhost-user's
-- address translation, and malloc where the source tests its result. A call is a value; an `Environment` answers it from the calls
-- made before it and the host memory, so that any library that behaves as a function of its past is
-- one. Nothing else is assumed of it here.
use hm_cuda.Prelude.{ℕ, suc, zero, ◌+◌, List, [], ◌∷◌, Option, ◌==◌, if◌then◌else◌}

-- Bytes of the backend's address space.
abbrev pub Memory : Type 0
Memory = ℕ → ℕ

unfoldable pub read_bytes : Memory → ℕ → ℕ → List ℕ
read_bytes m p zero = []
read_bytes m p (suc n) = m p ∷ read_bytes m (p + 1) n

unfoldable pub write_bytes : Memory → ℕ → List ℕ → Memory
write_bytes m p [] = m
write_bytes m p (b ∷ bs) = write_bytes (λ a. if a == p then b else m a) (p + 1) bs

-- Where a host-to-device copy reads: the address that a caller names, or a private buffer, whose
-- bytes are written out.
pub data Source : Type 0 where
  at : ℕ → Source
  staged : List ℕ → Source

pub record Dim3 : Type 0 where
  pub x : ℕ
  pub y : ℕ
  pub z : ℕ

pub record Launch : Type 0 where
  pub func : ℕ
  pub grid : Dim3
  pub block : Dim3
  pub shared_mem : ℕ
  pub stream : ℕ
  pub params : Option (List ℕ)

-- Arguments stand in the order of the library's functions, out-parameters left out.
pub data Call : Type 0 where
  host_malloc : ℕ → Call
  cu_init : ℕ → Call
  cu_device_primary_ctx_retain cu_device_primary_ctx_release : ℕ → Call
  cuda_device_reset cuda_device_synchronize : Call
  cuda_set_device cuda_get_device_properties : ℕ → Call
  cuda_get_device_count cuda_runtime_get_version : Call
  cu_ctx_set_current : ℕ → Call
  cu_ctx_enable_peer_access : ℕ → ℕ → Call
  cu_mem_host_register : ℕ → ℕ → Call
  cu_stream_create cu_stream_destroy cu_stream_synchronize cu_stream_query : ℕ → Call
  cu_stream_wait_event : ℕ → ℕ → ℕ → Call
  cu_stream_get_ctx : ℕ → Call
  cu_event_create cu_event_destroy : ℕ → Call
  cu_event_record cu_event_elapsed_time : ℕ → ℕ → Call
  cu_mem_alloc cu_mem_free : ℕ → Call
  cu_mem_host_alloc : ℕ → ℕ → Call
  cu_mem_host_get_device_pointer cu_mem_free_host : ℕ → Call
  cu_memset_d32 : ℕ → ℕ → ℕ → Call
  cu_memcpy_async : ℕ → ℕ → ℕ → ℕ → Call
  cu_memcpy_htod_async : ℕ → Source → ℕ → ℕ → Call
  cu_memcpy_dtoh_async : ℕ → ℕ → ℕ → ℕ → Call
  cu_memcpy_htod cu_memcpy_dtoh : ℕ → ℕ → ℕ → Call
  cu_pointer_get_attribute : ℕ → ℕ → Call
  cu_mem_create : ℕ → List ℕ → ℕ → Call
  cu_mem_release : ℕ → Call
  cu_mem_map : ℕ → ℕ → ℕ → ℕ → ℕ → Call
  cu_mem_unmap : ℕ → ℕ → Call
  cu_mem_address_reserve : ℕ → ℕ → ℕ → ℕ → Call
  cu_mem_address_free : ℕ → ℕ → Call
  cu_mem_set_access : ℕ → ℕ → List (List ℕ) → Call
  cu_mem_export_to_shareable_handle : ℕ → ℕ → ℕ → Call
  cu_mem_import_from_shareable_handle : List ℕ → ℕ → Call
  cu_multicast_create : List ℕ → Call
  cu_multicast_add_device : ℕ → ℕ → Call
  cu_multicast_bind_mem : ℕ → ℕ → ℕ → ℕ → ℕ → ℕ → Call
  cu_multicast_unbind : ℕ → ℕ → ℕ → ℕ → Call
  cu_module_load_data : List ℕ → Call
  cu_module_get_function : ℕ → List ℕ → Call
  cu_func_get_attribute : ℕ → ℕ → Call
  cu_launch_kernel : Launch → Call
  cuda_malloc cuda_free : ℕ → Call
  cuda_memset : ℕ → ℕ → ℕ → Call
  cuda_stream_create_with_flags cuda_stream_synchronize cuda_stream_destroy : ℕ → Call
  cuda_event_create_with_flags cuda_event_synchronize cuda_event_destroy : ℕ → Call
  cuda_event_record cuda_event_elapsed_time : ℕ → ℕ → Call
  push_call_configuration : Dim3 → Dim3 → ℕ → ℕ → Call
  pop_call_configuration : Call
  cu_driver_get_version cu_device_get_count cu_ctx_get_device : Call
  cu_device_get cu_device_get_uuid : ℕ → Call
  cu_device_get_name cu_device_get_attribute cu_device_can_access_peer : ℕ → ℕ → Call
  cu_mem_get_allocation_granularity cu_multicast_get_granularity : List ℕ → ℕ → Call
  cuda_get_error_string cuda_get_error_name cu_get_error_string cu_get_error_name : ℕ → Call
  vu_gpa_to_va : ℕ → ℕ → Call

-- The status returned, the out-parameters by position, a string that the call gives (NULL is `none`,
-- the closing NUL is left out), and host memory after the call.
pub record Reply : Type 0 where
  pub status : ℕ
  pub out : ℕ → ℕ
  pub text : Option (List ℕ)
  pub memory : Memory

-- The calls already made stand newest first.
abbrev pub Environment : Type 0
Environment = List Call → Memory → Call → Reply

-- Values of cuda.h and driver_types.h.
abbrev pub cuda_success : ℕ
cuda_success = 0

abbrev pub cuda_error_invalid_value : ℕ
cuda_error_invalid_value = 1

abbrev pub cuda_error_out_of_memory : ℕ
cuda_error_out_of_memory = 2

abbrev pub cuda_error_not_initialized : ℕ
cuda_error_not_initialized = 3

-- cudaErrorInitializationError
abbrev pub cuda_error_initialization_error : ℕ
cuda_error_initialization_error = 3

abbrev pub cuda_error_invalid_device_function : ℕ
cuda_error_invalid_device_function = 98

abbrev pub cuda_error_invalid_handle : ℕ
cuda_error_invalid_handle = 400

abbrev pub cuda_error_launch_failure : ℕ
cuda_error_launch_failure = 719

-- The literal 999 of core_runtime.c and vhost_user_hmcuda.c.
abbrev pub unknown_error : ℕ
unknown_error = 999

abbrev pub cu_stream_legacy : ℕ
cu_stream_legacy = 1

abbrev pub cu_stream_per_thread : ℕ
cu_stream_per_thread = 2
