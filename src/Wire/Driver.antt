-- ===== src/Wire/Driver.antt =====
-- The structs of common/include/hmcuda_cmd_driver.h, up to the copies of memory.
use hm_cuda.Prelude.{[], ◌∷◌}
use hm_cuda.Wire.{Struct, byte, int32, uint32, float32, uint64, array}

abbrev pub hmcuda_cu_init_req : Struct
hmcuda_cu_init_req = uint32 ∷ []

abbrev pub hmcuda_cu_driver_get_version_resp : Struct
hmcuda_cu_driver_get_version_resp = int32 ∷ []

abbrev pub hmcuda_cu_device_get_req : Struct
hmcuda_cu_device_get_req = int32 ∷ []

abbrev pub hmcuda_cu_device_get_resp : Struct
hmcuda_cu_device_get_resp = int32 ∷ []

abbrev pub hmcuda_cu_device_get_count_resp : Struct
hmcuda_cu_device_get_count_resp = int32 ∷ []

abbrev pub hmcuda_cu_device_get_name_req : Struct
hmcuda_cu_device_get_name_req = int32 ∷ int32 ∷ []

abbrev pub hmcuda_cu_device_get_name_resp : Struct
hmcuda_cu_device_get_name_resp = int32 ∷ []

abbrev pub hmcuda_cu_device_get_attribute_req : Struct
hmcuda_cu_device_get_attribute_req = int32 ∷ int32 ∷ []

abbrev pub hmcuda_cu_device_get_attribute_resp : Struct
hmcuda_cu_device_get_attribute_resp = int32 ∷ []

abbrev pub hmcuda_cu_device_get_uuid_req : Struct
hmcuda_cu_device_get_uuid_req = int32 ∷ []

abbrev pub hmcuda_cu_device_get_uuid_resp : Struct
hmcuda_cu_device_get_uuid_resp = array 16 byte

abbrev pub hmcuda_cu_device_can_access_peer_req : Struct
hmcuda_cu_device_can_access_peer_req = int32 ∷ int32 ∷ []

abbrev pub hmcuda_cu_device_can_access_peer_resp : Struct
hmcuda_cu_device_can_access_peer_resp = int32 ∷ []

abbrev pub hmcuda_cu_device_primary_ctx_retain_req : Struct
hmcuda_cu_device_primary_ctx_retain_req = int32 ∷ []

abbrev pub hmcuda_cu_device_primary_ctx_retain_resp : Struct
hmcuda_cu_device_primary_ctx_retain_resp = uint64 ∷ []

abbrev pub hmcuda_cu_device_primary_ctx_release_req : Struct
hmcuda_cu_device_primary_ctx_release_req = int32 ∷ []

abbrev pub hmcuda_cu_ctx_set_current_req : Struct
hmcuda_cu_ctx_set_current_req = uint64 ∷ []

abbrev pub hmcuda_cu_ctx_get_device_resp : Struct
hmcuda_cu_ctx_get_device_resp = int32 ∷ []

abbrev pub hmcuda_cu_ctx_enable_peer_access_req : Struct
hmcuda_cu_ctx_enable_peer_access_req = uint64 ∷ uint32 ∷ []

abbrev pub hmcuda_cu_stream_create_req : Struct
hmcuda_cu_stream_create_req = uint32 ∷ []

abbrev pub hmcuda_cu_stream_create_resp : Struct
hmcuda_cu_stream_create_resp = uint64 ∷ []

abbrev pub hmcuda_cu_stream_destroy_req : Struct
hmcuda_cu_stream_destroy_req = uint64 ∷ []

abbrev pub hmcuda_cu_stream_synchronize_req : Struct
hmcuda_cu_stream_synchronize_req = uint64 ∷ []

abbrev pub hmcuda_cu_stream_query_req : Struct
hmcuda_cu_stream_query_req = uint64 ∷ []

abbrev pub hmcuda_cu_stream_wait_event_req : Struct
hmcuda_cu_stream_wait_event_req = uint64 ∷ uint64 ∷ uint32 ∷ []

abbrev pub hmcuda_cu_stream_get_ctx_req : Struct
hmcuda_cu_stream_get_ctx_req = uint64 ∷ []

abbrev pub hmcuda_cu_stream_get_ctx_resp : Struct
hmcuda_cu_stream_get_ctx_resp = uint64 ∷ []

abbrev pub hmcuda_cu_event_create_req : Struct
hmcuda_cu_event_create_req = uint32 ∷ []

abbrev pub hmcuda_cu_event_create_resp : Struct
hmcuda_cu_event_create_resp = uint64 ∷ []

abbrev pub hmcuda_cu_event_destroy_req : Struct
hmcuda_cu_event_destroy_req = uint64 ∷ []

abbrev pub hmcuda_cu_event_record_req : Struct
hmcuda_cu_event_record_req = uint64 ∷ uint64 ∷ []

abbrev pub hmcuda_cu_event_elapsed_time_req : Struct
hmcuda_cu_event_elapsed_time_req = uint64 ∷ uint64 ∷ []

abbrev pub hmcuda_cu_event_elapsed_time_resp : Struct
hmcuda_cu_event_elapsed_time_resp = float32 ∷ []

abbrev pub hmcuda_cu_mem_alloc_req : Struct
hmcuda_cu_mem_alloc_req = uint64 ∷ []

abbrev pub hmcuda_cu_mem_alloc_resp : Struct
hmcuda_cu_mem_alloc_resp = uint64 ∷ []

abbrev pub hmcuda_cu_mem_free_req : Struct
hmcuda_cu_mem_free_req = uint64 ∷ []

abbrev pub hmcuda_cu_mem_host_alloc_req : Struct
hmcuda_cu_mem_host_alloc_req = uint64 ∷ uint32 ∷ uint64 ∷ uint64 ∷ []

abbrev pub hmcuda_cu_mem_free_host_req : Struct
hmcuda_cu_mem_free_host_req = uint64 ∷ []

abbrev pub hmcuda_cu_memset_d32_req : Struct
hmcuda_cu_memset_d32_req = uint64 ∷ uint32 ∷ uint64 ∷ []

abbrev pub hmcuda_cu_memcpy_async_req : Struct
hmcuda_cu_memcpy_async_req = uint64 ∷ uint64 ∷ uint64 ∷ uint64 ∷ []

abbrev pub hmcuda_cu_memcpy_htod_req : Struct
hmcuda_cu_memcpy_htod_req = uint64 ∷ uint64 ∷ uint64 ∷ []
