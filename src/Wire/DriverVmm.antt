-- ===== src/Wire/DriverVmm.antt =====
-- The structs of common/include/hmcuda_cmd_driver.h, from the pointer attributes on.
use hm_cuda.Prelude.{[], ◌∷◌, ◌++◌}
use hm_cuda.Wire.{Struct, byte, int32, uint32, uint64, array}

abbrev pub hmcuda_cu_pointer_get_attribute_req : Struct
hmcuda_cu_pointer_get_attribute_req = uint32 ∷ uint64 ∷ []

abbrev pub hmcuda_cu_pointer_get_attribute_resp : Struct
hmcuda_cu_pointer_get_attribute_resp = uint64 ∷ []

abbrev pub hmcuda_cu_get_error_string_req : Struct
hmcuda_cu_get_error_string_req = uint32 ∷ []

abbrev pub hmcuda_cu_get_error_string_resp : Struct
hmcuda_cu_get_error_string_resp = uint32 ∷ []

abbrev pub hmcuda_cu_get_error_name_req : Struct
hmcuda_cu_get_error_name_req = uint32 ∷ []

abbrev pub hmcuda_cu_get_error_name_resp : Struct
hmcuda_cu_get_error_name_resp = uint32 ∷ []

abbrev pub hmcuda_cu_mem_alloc_prop : Struct
hmcuda_cu_mem_alloc_prop = uint32 ∷ uint32 ∷ int32 ∷ uint32 ∷ []

abbrev pub hmcuda_cu_mem_create_req : Struct
hmcuda_cu_mem_create_req = uint64 ∷ hmcuda_cu_mem_alloc_prop ++ uint64 ∷ []

abbrev pub hmcuda_cu_mem_create_resp : Struct
hmcuda_cu_mem_create_resp = uint64 ∷ []

abbrev pub hmcuda_cu_mem_release_req : Struct
hmcuda_cu_mem_release_req = uint64 ∷ []

abbrev pub hmcuda_cu_mem_map_req : Struct
hmcuda_cu_mem_map_req = uint64 ∷ uint64 ∷ uint64 ∷ uint64 ∷ uint64 ∷ []

abbrev pub hmcuda_cu_mem_unmap_req : Struct
hmcuda_cu_mem_unmap_req = uint64 ∷ uint64 ∷ []

abbrev pub hmcuda_cu_mem_address_reserve_req : Struct
hmcuda_cu_mem_address_reserve_req = uint64 ∷ uint64 ∷ uint64 ∷ uint64 ∷ []

abbrev pub hmcuda_cu_mem_address_reserve_resp : Struct
hmcuda_cu_mem_address_reserve_resp = uint64 ∷ []

abbrev pub hmcuda_cu_mem_address_free_req : Struct
hmcuda_cu_mem_address_free_req = uint64 ∷ uint64 ∷ []

abbrev pub hmcuda_cu_mem_access_desc : Struct
hmcuda_cu_mem_access_desc = uint32 ∷ int32 ∷ uint32 ∷ []

abbrev pub hmcuda_cu_mem_set_access_req : Struct
hmcuda_cu_mem_set_access_req = uint64 ∷ uint64 ∷ uint32 ∷ []

abbrev pub hmcuda_cu_mem_get_alloc_granularity_req : Struct
hmcuda_cu_mem_get_alloc_granularity_req = hmcuda_cu_mem_alloc_prop ++ uint32 ∷ []

abbrev pub hmcuda_cu_mem_get_alloc_granularity_resp : Struct
hmcuda_cu_mem_get_alloc_granularity_resp = uint64 ∷ []

abbrev pub hmcuda_cu_mem_export_req : Struct
hmcuda_cu_mem_export_req = uint64 ∷ uint32 ∷ uint64 ∷ []

abbrev pub hmcuda_cu_mem_export_resp : Struct
hmcuda_cu_mem_export_resp = array 64 byte

abbrev pub hmcuda_cu_mem_import_req : Struct
hmcuda_cu_mem_import_req = array 64 byte ++ uint32 ∷ []

abbrev pub hmcuda_cu_mem_import_resp : Struct
hmcuda_cu_mem_import_resp = uint64 ∷ []

abbrev pub hmcuda_cu_multicast_prop : Struct
hmcuda_cu_multicast_prop = uint32 ∷ uint32 ∷ uint64 ∷ []

abbrev pub hmcuda_cu_multicast_create_req : Struct
hmcuda_cu_multicast_create_req = hmcuda_cu_multicast_prop

abbrev pub hmcuda_cu_multicast_create_resp : Struct
hmcuda_cu_multicast_create_resp = uint64 ∷ []

abbrev pub hmcuda_cu_multicast_get_granularity_req : Struct
hmcuda_cu_multicast_get_granularity_req = hmcuda_cu_multicast_prop ++ uint32 ∷ []

abbrev pub hmcuda_cu_multicast_get_granularity_resp : Struct
hmcuda_cu_multicast_get_granularity_resp = uint64 ∷ []

abbrev pub hmcuda_cu_multicast_add_device_req : Struct
hmcuda_cu_multicast_add_device_req = uint64 ∷ int32 ∷ []

abbrev pub hmcuda_cu_multicast_bind_mem_req : Struct
hmcuda_cu_multicast_bind_mem_req = uint64 ∷ uint64 ∷ uint64 ∷ uint64 ∷ uint64 ∷ uint64 ∷ []

abbrev pub hmcuda_cu_multicast_unbind_req : Struct
hmcuda_cu_multicast_unbind_req = uint64 ∷ int32 ∷ uint64 ∷ uint64 ∷ []
