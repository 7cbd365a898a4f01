-- ===== src/Wire/Runtime.antt =====
-- The structs of common/include/hmcuda_cmd_runtime.h.
use hm_cuda.Prelude.{[], ◌∷◌, ◌++◌}
use hm_cuda.Wire.{Struct, byte, int32, uint32, float32, uint64, array}
use hm_cuda.Wire.Types.{hmcuda_dim3}

abbrev pub hmcuda_malloc_req : Struct
hmcuda_malloc_req = uint64 ∷ []

abbrev pub hmcuda_malloc_resp : Struct
hmcuda_malloc_resp = uint64 ∷ []

abbrev pub hmcuda_free_req : Struct
hmcuda_free_req = uint64 ∷ []

abbrev pub hmcuda_memcpy_req : Struct
hmcuda_memcpy_req = uint64 ∷ uint64 ∷ uint64 ∷ uint32 ∷ uint32 ∷ uint64 ∷ []

abbrev pub hmcuda_memset_req : Struct
hmcuda_memset_req = uint64 ∷ int32 ∷ uint64 ∷ []

abbrev pub hmcuda_launch_kernel_req : Struct
hmcuda_launch_kernel_req = uint64 ∷ hmcuda_dim3 ++ hmcuda_dim3 ++ uint32 ∷ uint64 ∷ uint32 ∷ []

abbrev pub hmcuda_stream_create_req : Struct
hmcuda_stream_create_req = uint32 ∷ []

abbrev pub hmcuda_stream_create_resp : Struct
hmcuda_stream_create_resp = uint64 ∷ []

abbrev pub hmcuda_stream_synchronize_req : Struct
hmcuda_stream_synchronize_req = uint64 ∷ []

abbrev pub hmcuda_event_create_req : Struct
hmcuda_event_create_req = uint32 ∷ []

abbrev pub hmcuda_event_create_resp : Struct
hmcuda_event_create_resp = uint64 ∷ []

abbrev pub hmcuda_event_record_req : Struct
hmcuda_event_record_req = uint64 ∷ uint64 ∷ []

abbrev pub hmcuda_event_destroy_req : Struct
hmcuda_event_destroy_req = uint64 ∷ []

abbrev pub hmcuda_event_synchronize_req : Struct
hmcuda_event_synchronize_req = uint64 ∷ []

abbrev pub hmcuda_event_elapsed_time_req : Struct
hmcuda_event_elapsed_time_req = uint64 ∷ uint64 ∷ []

abbrev pub hmcuda_event_elapsed_time_resp : Struct
hmcuda_event_elapsed_time_resp = float32 ∷ []

abbrev pub hmcuda_device_synchronize_req : Struct
hmcuda_device_synchronize_req = uint32 ∷ []

abbrev pub hmcuda_register_fatbin_req : Struct
hmcuda_register_fatbin_req = uint64 ∷ []

abbrev pub hmcuda_register_fatbin_resp : Struct
hmcuda_register_fatbin_resp = uint64 ∷ []

abbrev pub hmcuda_register_function_req : Struct
hmcuda_register_function_req = uint64 ∷ uint64 ∷ uint32 ∷ []

abbrev pub hmcuda_register_function_resp : Struct
hmcuda_register_function_resp = uint32 ∷ uint32 ∷ []

abbrev pub hmcuda_push_call_cfg_req : Struct
hmcuda_push_call_cfg_req = hmcuda_dim3 ++ hmcuda_dim3 ++ uint64 ∷ uint64 ∷ []

abbrev pub hmcuda_pop_call_cfg_resp : Struct
hmcuda_pop_call_cfg_resp = hmcuda_dim3 ++ hmcuda_dim3 ++ uint64 ∷ uint64 ∷ []

abbrev pub hmcuda_init_module_req : Struct
hmcuda_init_module_req = uint64 ∷ []

abbrev pub hmcuda_get_device_properties_req : Struct
hmcuda_get_device_properties_req = int32 ∷ []

abbrev pub hmcuda_device_prop : Struct
hmcuda_device_prop =
    array 256 byte
    ++ array 16 byte
    ++ array 8 byte
    ++ uint32 ∷ uint64 ∷ uint64 ∷ int32 ∷ int32 ∷ uint64 ∷ int32 ∷ array 3 int32
    ++ array 3 int32
    ++ int32
      ∷ uint64
      ∷ int32
      ∷ int32
      ∷ uint64
      ∷ uint64
      ∷ int32
      ∷ int32
      ∷ int32
      ∷ int32
      ∷ int32
      ∷ int32
      ∷ int32
      ∷ int32
      ∷ int32
      ∷ array 2 int32
    ++ array 2 int32
    ++ array 3 int32
    ++ array 2 int32
    ++ array 3 int32
    ++ array 3 int32
    ++ int32 ∷ array 2 int32
    ++ array 3 int32
    ++ array 2 int32
    ++ int32 ∷ array 2 int32
    ++ array 3 int32
    ++ array 2 int32
    ++ array 3 int32
    ++ int32 ∷ array 2 int32
    ++ uint64
      ∷ int32
      ∷ int32
      ∷ int32
      ∷ int32
      ∷ int32
      ∷ int32
      ∷ int32
      ∷ int32
      ∷ int32
      ∷ int32
      ∷ int32
      ∷ int32
      ∷ int32
      ∷ int32
      ∷ int32
      ∷ int32
      ∷ uint64
      ∷ int32
      ∷ int32
      ∷ int32
      ∷ int32
      ∷ int32
      ∷ int32
      ∷ int32
      ∷ int32
      ∷ int32
      ∷ int32
      ∷ int32
      ∷ int32
      ∷ uint64
      ∷ int32
      ∷ int32
      ∷ int32
      ∷ int32
      ∷ uint64
      ∷ int32
      ∷ int32
      ∷ int32
      ∷ int32
      ∷ int32
      ∷ int32
      ∷ uint32
      ∷ int32
      ∷ uint32
      ∷ int32
      ∷ int32
      ∷ int32
      ∷ int32
      ∷ array 2 int32
    ++ array 61 int32

abbrev pub hmcuda_get_device_properties_resp : Struct
hmcuda_get_device_properties_resp = hmcuda_device_prop

abbrev pub hmcuda_get_device_count_resp : Struct
hmcuda_get_device_count_resp = int32 ∷ []

abbrev pub hmcuda_set_device_req : Struct
hmcuda_set_device_req = int32 ∷ []

abbrev pub hmcuda_get_error_string_req : Struct
hmcuda_get_error_string_req = uint32 ∷ []

abbrev pub hmcuda_get_error_string_resp : Struct
hmcuda_get_error_string_resp = uint32 ∷ []

abbrev pub hmcuda_runtime_get_version_resp : Struct
hmcuda_runtime_get_version_resp = int32 ∷ []

abbrev pub hmcuda_func_get_attributes_req : Struct
hmcuda_func_get_attributes_req = uint64 ∷ []

abbrev pub hmcuda_func_attributes : Struct
hmcuda_func_attributes =
    uint64 ∷ uint64 ∷ uint64 ∷ int32 ∷ int32 ∷ int32 ∷ int32 ∷ int32 ∷ int32 ∷ int32 ∷ int32 ∷ int32
    ∷ int32 ∷ int32 ∷ int32 ∷ int32 ∷ []

abbrev pub hmcuda_func_get_attributes_resp : Struct
hmcuda_func_get_attributes_resp = hmcuda_func_attributes
