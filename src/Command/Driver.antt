-- ===== src/Command/Driver.antt =====
-- hmcuda_driver_handle_cmd of host/vhost/cmd_driver.c, command by command. A name with `library_`
-- is the call of the CUDA library, which the command of the same name makes.
use hm_cuda.Prelude.{
  ℕ, ◌+◌, ◌*◌, ◌%◌, ◌^◌, List, [], ◌∷◌, ◌++◌, Option, none, some, ◌==◌, ◌&&◌, ltb, if◌then◌else◌,
  length,
}
use hm_cuda.Cuda.{
  Environment, Reply, host_malloc, cuda_success, cuda_error_out_of_memory,
  cu_init as library_cu_init, cu_driver_get_version as library_cu_driver_get_version,
  cu_device_get as library_cu_device_get, cu_device_get_count as library_cu_device_get_count,
  cu_device_get_name as library_cu_device_get_name,
  cu_device_get_attribute as library_cu_device_get_attribute,
  cu_device_get_uuid as library_cu_device_get_uuid,
  cu_device_can_access_peer as library_cu_device_can_access_peer,
  cu_ctx_get_device as library_cu_ctx_get_device,
  cu_get_error_string as library_cu_get_error_string,
  cu_get_error_name as library_cu_get_error_name,
  cu_mem_get_allocation_granularity as library_cu_mem_get_allocation_granularity,
  cu_multicast_get_granularity as library_cu_multicast_get_granularity,
}
use hm_cuda.Backend.{M, pure, ◌>>=◌, perform}
use hm_cuda.Core.Sessions.{
  hmcuda_core_cu_device_primary_ctx_retain, hmcuda_core_cu_device_primary_ctx_release,
  hmcuda_core_cu_ctx_set_current, hmcuda_core_cu_ctx_enable_peer_access,
}
use hm_cuda.Core.Streams.{
  hmcuda_core_cu_stream_create, hmcuda_core_cu_stream_destroy, hmcuda_core_cu_stream_synchronize,
  hmcuda_core_cu_stream_query, hmcuda_core_cu_stream_wait_event, hmcuda_core_cu_stream_get_ctx,
  hmcuda_core_cu_event_create, hmcuda_core_cu_event_destroy, hmcuda_core_cu_event_record,
  hmcuda_core_cu_event_elapsed_time,
}
use hm_cuda.Core.Alloc.{
  hmcuda_core_cu_mem_alloc, hmcuda_core_cu_mem_free, hmcuda_core_cu_mem_free_host,
  hmcuda_core_cu_memset_d32,
}
use hm_cuda.Core.Copy.{
  hmcuda_core_cu_memcpy_async, hmcuda_core_cu_memcpy_htod, hmcuda_core_cu_pointer_get_attribute,
}
use hm_cuda.Core.Vmm.{
  hmcuda_core_cu_mem_create, hmcuda_core_cu_mem_release, hmcuda_core_cu_mem_map,
  hmcuda_core_cu_mem_unmap, hmcuda_core_cu_mem_address_reserve, hmcuda_core_cu_mem_address_free,
  hmcuda_core_cu_mem_set_access, hmcuda_core_cu_mem_export, hmcuda_core_cu_mem_import,
  hmcuda_core_cu_multicast_create, hmcuda_core_cu_multicast_add_device,
  hmcuda_core_cu_multicast_bind_mem, hmcuda_core_cu_multicast_unbind,
}
use hm_cuda.Command.{
  u32_field, u64_field, byte_fields, status_only, answer, answer_u64, answer_u32, Element,
  DriverRequest, Field, Response, cu_init, cu_driver_get_version, cu_device_get,
  cu_device_get_count, cu_device_get_name, cu_device_get_attribute, cu_device_get_uuid,
  cu_device_can_access_peer, cu_device_primary_ctx_retain, cu_device_primary_ctx_release,
  cu_ctx_set_current, cu_ctx_get_device, cu_ctx_enable_peer_access, cu_stream_create,
  cu_stream_destroy, cu_stream_synchronize, cu_stream_query, cu_stream_wait_event,
  cu_stream_get_ctx, cu_event_create, cu_event_destroy, cu_event_record, cu_event_elapsed_time,
  cu_mem_alloc, cu_mem_free, cu_mem_host_alloc, cu_mem_free_host, cu_memset_d32, cu_memcpy_async,
  cu_memcpy_htod, cu_memcpy, cu_pointer_get_attribute, cu_get_error_string, cu_get_error_name,
  cu_mem_create, cu_mem_release, cu_mem_map, cu_mem_unmap, cu_mem_address_reserve,
  cu_mem_address_free, cu_mem_set_access, cu_mem_get_alloc_granularity, cu_mem_export,
  cu_mem_import, cu_multicast_create, cu_multicast_get_granularity, cu_multicast_add_device,
  cu_multicast_bind_mem, cu_multicast_unbind,
}
use hm_cuda.Command.Loops.{handle_cu_memcpy, handle_cu_mem_host_alloc}

-- `name_len` is an int32_t, kept as its 32 bits.
abbrev pub name_capacity : ℕ → ℕ
name_capacity name_len = if ltb 0 name_len && ltb name_len (2 ^ 31) then name_len else 256

-- A string in the zeroed buffer, empty where the library writes none, with its length and its NUL.
unfoldable pub text_bytes : List ℕ → List Field
text_bytes text = u32_field (some ((length text + 1) % 2 ^ 32)) ∷ byte_fields (text ++ 0 ∷ [])

unfoldable pub name_fields : Reply → List Field
unfolding text_bytes
name_fields r = elim r.text [ none ↦ text_bytes [] | some text ↦ text_bytes text ]

unfoldable pub error_fields : Option (List ℕ) → List Field
unfolding text_bytes
error_fields none = u32_field (some 0) ∷ []
error_fields (some text) = text_bytes text

unfoldable pub word_fields : List ℕ → List Field
word_fields [] = []
word_fields (w ∷ ws) = u64_field (some w) ∷ word_fields ws

-- 64 bytes, cleared before the call.
unfoldable pub shareable_fields : Option (List ℕ) → List Field
unfolding word_fields
shareable_fields none = word_fields (0 ∷ 0 ∷ 0 ∷ 0 ∷ 0 ∷ 0 ∷ 0 ∷ 0 ∷ [])
shareable_fields (some ws) = word_fields ws

module _ (env : Environment) (sid vid : ℕ) (elem : Element) where
  unfoldable pub hmcuda_driver_handle_cmd : DriverRequest → M Response
  unfolding name_fields error_fields shareable_fields
  hmcuda_driver_handle_cmd (cu_init flags) = do
    r ← perform env (library_cu_init flags)
    pure (status_only r.status)
  hmcuda_driver_handle_cmd cu_driver_get_version = do
    r ← perform env library_cu_driver_get_version
    pure (answer_u32 (r.status, some (r.out 0)))
  hmcuda_driver_handle_cmd (cu_device_get ordinal) = do
    r ← perform env (library_cu_device_get ordinal)
    pure (answer_u32 (r.status, some (r.out 0)))
  hmcuda_driver_handle_cmd cu_device_get_count = do
    r ← perform env library_cu_device_get_count
    pure (answer_u32 (r.status, some (r.out 0)))
  hmcuda_driver_handle_cmd (cu_device_get_name device name_len) = do
    m ← perform env (host_malloc (name_capacity name_len))
    if m.status == cuda_success
        then (do
          r ← perform env (library_cu_device_get_name device (name_capacity name_len))
          pure (answer r.status (name_fields r)))
        else pure (status_only cuda_error_out_of_memory)
  hmcuda_driver_handle_cmd (cu_device_get_attribute attrib device) = do
    r ← perform env (library_cu_device_get_attribute attrib device)
    pure (answer_u32 (r.status, some (r.out 0)))
  hmcuda_driver_handle_cmd (cu_device_get_uuid device) = do
    r ← perform env (library_cu_device_get_uuid device)
    pure (answer r.status (record { width = 16; value = some (r.out 0) } ∷ []))
  hmcuda_driver_handle_cmd (cu_device_can_access_peer device peer) = do
    r ← perform env (library_cu_device_can_access_peer device peer)
    pure (answer_u32 (r.status, some (r.out 0)))
  hmcuda_driver_handle_cmd (cu_device_primary_ctx_retain device) = do
    r ← hmcuda_core_cu_device_primary_ctx_retain env sid vid device
    pure (answer_u64 r)
  hmcuda_driver_handle_cmd (cu_device_primary_ctx_release device) = do
    e ← hmcuda_core_cu_device_primary_ctx_release env sid vid device
    pure (status_only e)
  hmcuda_driver_handle_cmd (cu_ctx_set_current context) = do
    e ← hmcuda_core_cu_ctx_set_current env sid vid context
    pure (status_only e)
  hmcuda_driver_handle_cmd cu_ctx_get_device = do
    r ← perform env library_cu_ctx_get_device
    pure (answer_u32 (r.status, some (r.out 0)))
  hmcuda_driver_handle_cmd (cu_ctx_enable_peer_access peer flags) = do
    e ← hmcuda_core_cu_ctx_enable_peer_access env sid vid peer flags
    pure (status_only e)
  hmcuda_driver_handle_cmd (cu_stream_create flags) = do
    r ← hmcuda_core_cu_stream_create env sid vid flags
    pure (answer_u64 r)
  hmcuda_driver_handle_cmd (cu_stream_destroy stream) = do
    e ← hmcuda_core_cu_stream_destroy env sid vid stream
    pure (status_only e)
  hmcuda_driver_handle_cmd (cu_stream_synchronize stream) = do
    e ← hmcuda_core_cu_stream_synchronize env sid vid stream
    pure (status_only e)
  hmcuda_driver_handle_cmd (cu_stream_query stream) = do
    e ← hmcuda_core_cu_stream_query env sid vid stream
    pure (status_only e)
  hmcuda_driver_handle_cmd (cu_stream_wait_event stream event flags) = do
    e ← hmcuda_core_cu_stream_wait_event env sid vid stream event flags
    pure (status_only e)
  hmcuda_driver_handle_cmd (cu_stream_get_ctx stream) = do
    r ← hmcuda_core_cu_stream_get_ctx env sid vid stream
    pure (answer_u64 r)
  hmcuda_driver_handle_cmd (cu_event_create flags) = do
    r ← hmcuda_core_cu_event_create env sid vid flags
    pure (answer_u64 r)
  hmcuda_driver_handle_cmd (cu_event_destroy event) = do
    e ← hmcuda_core_cu_event_destroy env sid vid event
    pure (status_only e)
  hmcuda_driver_handle_cmd (cu_event_record event stream) = do
    e ← hmcuda_core_cu_event_record env sid vid event stream
    pure (status_only e)
  hmcuda_driver_handle_cmd (cu_event_elapsed_time start end) = do
    r ← hmcuda_core_cu_event_elapsed_time env sid vid start end
    pure (answer_u32 r)
  hmcuda_driver_handle_cmd (cu_mem_alloc bytesize) = do
    r ← hmcuda_core_cu_mem_alloc env sid vid bytesize
    pure (answer_u64 r)
  hmcuda_driver_handle_cmd (cu_mem_free dptr) = do
    e ← hmcuda_core_cu_mem_free env sid vid dptr
    pure (status_only e)
  hmcuda_driver_handle_cmd (cu_mem_host_alloc req) = handle_cu_mem_host_alloc env sid vid elem req
  hmcuda_driver_handle_cmd (cu_mem_free_host guest_va) = do
    e ← hmcuda_core_cu_mem_free_host env sid vid guest_va
    pure (status_only e)
  hmcuda_driver_handle_cmd (cu_memset_d32 dptr value count) = do
    e ← hmcuda_core_cu_memset_d32 env sid vid dptr value count
    pure (status_only e)
  hmcuda_driver_handle_cmd (cu_memcpy_async dst src bytesize stream) = do
    e ← hmcuda_core_cu_memcpy_async env sid vid dst src bytesize stream
    pure (status_only e)
  hmcuda_driver_handle_cmd (cu_memcpy_htod dst src bytesize) = do
    e ← hmcuda_core_cu_memcpy_htod env sid vid dst src bytesize
    pure (status_only e)
  hmcuda_driver_handle_cmd (cu_memcpy req) = handle_cu_memcpy env sid vid elem req
  hmcuda_driver_handle_cmd (cu_pointer_get_attribute attrib ptr) = do
    r ← hmcuda_core_cu_pointer_get_attribute env sid vid attrib ptr
    pure (answer_u64 r)
  hmcuda_driver_handle_cmd (cu_get_error_string error) = do
    r ← perform env (library_cu_get_error_string error)
    pure (answer r.status (error_fields r.text))
  hmcuda_driver_handle_cmd (cu_get_error_name error) = do
    r ← perform env (library_cu_get_error_name error)
    pure (answer r.status (error_fields r.text))
  hmcuda_driver_handle_cmd (cu_mem_create size prop flags) = do
    r ← hmcuda_core_cu_mem_create env sid vid size prop flags
    pure (answer_u64 r)
  hmcuda_driver_handle_cmd (cu_mem_release handle) = do
    e ← hmcuda_core_cu_mem_release env sid vid handle
    pure (status_only e)
  hmcuda_driver_handle_cmd (cu_mem_map ptr size offset handle flags) = do
    e ← hmcuda_core_cu_mem_map env sid vid ptr size offset handle flags
    pure (status_only e)
  hmcuda_driver_handle_cmd (cu_mem_unmap ptr size) = do
    e ← hmcuda_core_cu_mem_unmap env sid vid ptr size
    pure (status_only e)
  hmcuda_driver_handle_cmd (cu_mem_address_reserve size alignment addr flags) = do
    r ← hmcuda_core_cu_mem_address_reserve env sid vid size alignment addr flags
    pure (answer_u64 r)
  hmcuda_driver_handle_cmd (cu_mem_address_free ptr size) = do
    e ← hmcuda_core_cu_mem_address_free env sid vid ptr size
    pure (status_only e)
  hmcuda_driver_handle_cmd (cu_mem_set_access ptr size descs) = do
    m ← perform env (host_malloc (length descs * 12))
    if m.status == cuda_success
        then (do e ← hmcuda_core_cu_mem_set_access env sid vid ptr size descs; pure (status_only e))
        else pure (status_only cuda_error_out_of_memory)
  hmcuda_driver_handle_cmd (cu_mem_get_alloc_granularity prop option) = do
    r ← perform env (library_cu_mem_get_allocation_granularity prop option)
    pure (answer_u64 (r.status, some (r.out 0)))
  hmcuda_driver_handle_cmd (cu_mem_export handle handle_type flags) = do
    r ← hmcuda_core_cu_mem_export env sid vid handle handle_type flags
    pure (answer r.0 (shareable_fields r.1))
  hmcuda_driver_handle_cmd (cu_mem_import shareable handle_type) = do
    r ← hmcuda_core_cu_mem_import env sid vid shareable handle_type
    pure (answer_u64 r)
  hmcuda_driver_handle_cmd (cu_multicast_create prop) = do
    r ← hmcuda_core_cu_multicast_create env sid vid prop
    pure (answer_u64 r)
  hmcuda_driver_handle_cmd (cu_multicast_get_granularity prop option) = do
    r ← perform env (library_cu_multicast_get_granularity prop option)
    pure (answer_u64 (r.status, some (r.out 0)))
  hmcuda_driver_handle_cmd (cu_multicast_add_device handle device) = do
    e ← hmcuda_core_cu_multicast_add_device env sid vid handle device
    pure (status_only e)
  hmcuda_driver_handle_cmd (cu_multicast_bind_mem mc mc_offset mem mem_offset size flags) = do
    e ← hmcuda_core_cu_multicast_bind_mem env sid vid mc mc_offset mem mem_offset size flags
    pure (status_only e)
  hmcuda_driver_handle_cmd (cu_multicast_unbind handle device mc_offset size) = do
    e ← hmcuda_core_cu_multicast_unbind env sid vid handle device mc_offset size
    pure (status_only e)
