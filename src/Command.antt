-- ===== src/Command.antt =====
-- host/vhost/cmd_dispatch.h and the requests of common/include: what a command handler is given and
-- gives back. A request is the decoded payload of its command, its fields in the order of the struct,
-- trailing data last.
pub mod Loops
pub mod Runtime
pub mod Driver
pub mod Dispatch
pub mod Keeps
pub mod Isolation
pub mod Chunks
use hm_cuda.Prelude.{
  ℕ, ◌+◌, Bool, true, false, List, [], ◌∷◌, ◌++◌, map, Option, none, some, sum, length,
}
use hm_cuda.Cuda.{Dim3}

-- struct iovec.
pub record Iov : Type 0 where
  pub base : ℕ
  pub len : ℕ

-- The scatter lists of a VuVirtqElement: what the guest sends, and where it wants the answer.
pub record Element : Type 0 where
  pub out_sg : List Iov
  pub in_sg : List Iov

abbrev pub total : List Iov → ℕ
total [] = 0
total (v ∷ vs) = v.len + total vs

-- struct hmcuda_memcpy_req.
pub record MemcpyReq : Type 0 where
  pub dst : ℕ
  pub src : ℕ
  pub count : ℕ
  pub kind : ℕ
  pub stream : ℕ

-- struct hmcuda_cu_mem_host_alloc_req.
pub record HostAllocReq : Type 0 where
  pub bytesize : ℕ
  pub flags : ℕ
  pub guest_va : ℕ
  pub byte_offset : ℕ

-- HMCUDA_CMD_*, 0x00001 to 0x0FFFF.
pub data RuntimeRequest : Type 0 where
  init : RuntimeRequest
  malloc free : ℕ → RuntimeRequest
  memcpy_cmd : MemcpyReq → RuntimeRequest
  memset : ℕ → ℕ → ℕ → RuntimeRequest
  launch_kernel : ℕ → Dim3 → Dim3 → ℕ → ℕ → ℕ → List ℕ → RuntimeRequest
  stream_create stream_synchronize event_create : ℕ → RuntimeRequest
  event_record : ℕ → ℕ → RuntimeRequest
  event_synchronize : ℕ → RuntimeRequest
  event_elapsed_time : ℕ → ℕ → RuntimeRequest
  event_destroy : ℕ → RuntimeRequest
  device_synchronize : RuntimeRequest
  push_call_cfg : Dim3 → Dim3 → ℕ → ℕ → RuntimeRequest
  pop_call_cfg : RuntimeRequest
  init_module get_device_properties : ℕ → RuntimeRequest
  get_device_count : RuntimeRequest
  set_device get_error_string get_error_name : ℕ → RuntimeRequest
  register_fatbin : List ℕ → RuntimeRequest
  register_function : ℕ → ℕ → List ℕ → RuntimeRequest
  runtime_get_version : RuntimeRequest
  func_get_attributes : ℕ → RuntimeRequest

-- HMCUDA_CMD_CU_*, 0x10001 to 0x1FFFF.
pub data DriverRequest : Type 0 where
  cu_init : ℕ → DriverRequest
  cu_driver_get_version : DriverRequest
  cu_device_get : ℕ → DriverRequest
  cu_device_get_count : DriverRequest
  cu_device_get_name cu_device_get_attribute : ℕ → ℕ → DriverRequest
  cu_device_get_uuid : ℕ → DriverRequest
  cu_device_can_access_peer : ℕ → ℕ → DriverRequest
  cu_device_primary_ctx_retain cu_device_primary_ctx_release cu_ctx_set_current : ℕ → DriverRequest
  cu_ctx_get_device : DriverRequest
  cu_ctx_enable_peer_access : ℕ → ℕ → DriverRequest
  cu_stream_create cu_stream_destroy cu_stream_synchronize cu_stream_query : ℕ → DriverRequest
  cu_stream_wait_event : ℕ → ℕ → ℕ → DriverRequest
  cu_stream_get_ctx cu_event_create cu_event_destroy : ℕ → DriverRequest
  cu_event_record cu_event_elapsed_time : ℕ → ℕ → DriverRequest
  cu_mem_alloc cu_mem_free : ℕ → DriverRequest
  cu_mem_host_alloc : HostAllocReq → DriverRequest
  cu_mem_free_host : ℕ → DriverRequest
  cu_memset_d32 : ℕ → ℕ → ℕ → DriverRequest
  cu_memcpy_async : ℕ → ℕ → ℕ → ℕ → DriverRequest
  cu_memcpy_htod : ℕ → ℕ → ℕ → DriverRequest
  cu_memcpy : MemcpyReq → DriverRequest
  cu_pointer_get_attribute : ℕ → ℕ → DriverRequest
  cu_get_error_string cu_get_error_name : ℕ → DriverRequest
  cu_mem_create : ℕ → List ℕ → ℕ → DriverRequest
  cu_mem_release : ℕ → DriverRequest
  cu_mem_map : ℕ → ℕ → ℕ → ℕ → ℕ → DriverRequest
  cu_mem_unmap : ℕ → ℕ → DriverRequest
  cu_mem_address_reserve : ℕ → ℕ → ℕ → ℕ → DriverRequest
  cu_mem_address_free : ℕ → ℕ → DriverRequest
  cu_mem_set_access : ℕ → ℕ → List (List ℕ) → DriverRequest
  cu_mem_get_alloc_granularity : List ℕ → ℕ → DriverRequest
  cu_mem_export : ℕ → ℕ → ℕ → DriverRequest
  cu_mem_import : List ℕ → ℕ → DriverRequest
  cu_multicast_create : List ℕ → DriverRequest
  cu_multicast_get_granularity : List ℕ → ℕ → DriverRequest
  cu_multicast_add_device : ℕ → ℕ → DriverRequest
  cu_multicast_bind_mem : ℕ → ℕ → ℕ → ℕ → ℕ → ℕ → DriverRequest
  cu_multicast_unbind : ℕ → ℕ → ℕ → ℕ → DriverRequest

-- A command number that neither library has is `unknown`.
pub data Request : Type 0 where
  runtime : RuntimeRequest → Request
  driver : DriverRequest → Request
  unknown : ℕ → Request

-- Bytes of a response: `none` where nothing was written and the stack shows through.
pub record Field : Type 0 where
  pub width : ℕ
  pub value : Option ℕ

-- What a handler leaves in its struct hmcuda_vhost_cmd_ctx.
pub record Response : Type 0 where
  pub cuda_error : ℕ
  pub payload : List Field
  pub d2h_virtqueue : Bool

-- resp_payload_len.
abbrev pub payload_len : List Field → ℕ
payload_len [] = 0
payload_len (f ∷ fs) = f.width + payload_len fs

abbrev pub u32_field : Option ℕ → Field
u32_field v = record { width = 4; value = v }

abbrev pub u64_field : Option ℕ → Field
u64_field v = record { width = 8; value = v }

abbrev pub byte_fields : List ℕ → List Field
byte_fields [] = []
byte_fields (b ∷ bs) = record { width = 1; value = some b } ∷ byte_fields bs

abbrev pub status_only : ℕ → Response
status_only e = record { cuda_error = e; payload = []; d2h_virtqueue = false }

abbrev pub answer : ℕ → List Field → Response
answer e fs = record { cuda_error = e; payload = fs; d2h_virtqueue = false }

-- A status with one out-parameter of eight, or of four, bytes.
abbrev pub answer_u64 : ℕ × Option ℕ → Response
answer_u64 r = answer r.0 (u64_field r.1 ∷ [])

abbrev pub answer_u32 : ℕ × Option ℕ → Response
answer_u32 r = answer r.0 (u32_field r.1 ∷ [])
