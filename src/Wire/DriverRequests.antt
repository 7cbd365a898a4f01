-- ===== src/Wire/DriverRequests.antt =====
-- The commands of the driver API: their numbers, in the order of enum hmcuda_command_type of
-- common/include/hmcuda_types.h, their structs, and the members of a request.
pub mod Decode
pub mod Sizes
pub mod RoundTrip
use hm_cuda.Prelude.{ℕ, ◌+◌, [], ◌∷◌, ◌++◌, List, length, take, drop, ◌==◌, ◌<◌, Option, none, some}
use hm_cuda.Command.{
  DriverRequest, cu_init, cu_driver_get_version, cu_device_get, cu_device_get_count,
  cu_device_get_name, cu_device_get_attribute, cu_device_get_uuid, cu_device_can_access_peer,
  cu_device_primary_ctx_retain, cu_device_primary_ctx_release, cu_ctx_set_current,
  cu_ctx_get_device, cu_ctx_enable_peer_access, cu_stream_create, cu_stream_destroy,
  cu_stream_synchronize, cu_stream_query, cu_stream_wait_event, cu_stream_get_ctx, cu_event_create,
  cu_event_destroy, cu_event_record, cu_event_elapsed_time, cu_mem_alloc, cu_mem_free,
  cu_mem_host_alloc, cu_mem_free_host, cu_memset_d32, cu_memcpy_async, cu_memcpy_htod, cu_memcpy,
  cu_pointer_get_attribute, cu_get_error_string, cu_get_error_name, cu_mem_create, cu_mem_release,
  cu_mem_map, cu_mem_unmap, cu_mem_address_reserve, cu_mem_address_free, cu_mem_export,
  cu_mem_import, cu_mem_set_access, cu_mem_get_alloc_granularity, cu_multicast_create,
  cu_multicast_get_granularity, cu_multicast_add_device, cu_multicast_bind_mem, cu_multicast_unbind,
}
use hm_cuda.Wire.{Struct}
use hm_cuda.Wire.Bytes.{desc_bytes}
use hm_cuda.Wire.Runtime.{hmcuda_memcpy_req}
use hm_cuda.Wire.Driver.{
  hmcuda_cu_ctx_enable_peer_access_req, hmcuda_cu_ctx_get_device_resp,
  hmcuda_cu_ctx_set_current_req, hmcuda_cu_device_can_access_peer_req,
  hmcuda_cu_device_can_access_peer_resp, hmcuda_cu_device_get_attribute_req,
  hmcuda_cu_device_get_attribute_resp, hmcuda_cu_device_get_count_resp,
  hmcuda_cu_device_get_name_req, hmcuda_cu_device_get_name_resp, hmcuda_cu_device_get_req,
  hmcuda_cu_device_get_resp, hmcuda_cu_device_get_uuid_req, hmcuda_cu_device_get_uuid_resp,
  hmcuda_cu_device_primary_ctx_release_req, hmcuda_cu_device_primary_ctx_retain_req,
  hmcuda_cu_device_primary_ctx_retain_resp, hmcuda_cu_driver_get_version_resp,
  hmcuda_cu_event_create_req, hmcuda_cu_event_create_resp, hmcuda_cu_event_destroy_req,
  hmcuda_cu_event_elapsed_time_req, hmcuda_cu_event_elapsed_time_resp, hmcuda_cu_event_record_req,
  hmcuda_cu_init_req, hmcuda_cu_mem_alloc_req, hmcuda_cu_mem_alloc_resp,
  hmcuda_cu_mem_free_host_req, hmcuda_cu_mem_free_req, hmcuda_cu_mem_host_alloc_req,
  hmcuda_cu_memcpy_async_req, hmcuda_cu_memcpy_htod_req, hmcuda_cu_memset_d32_req,
  hmcuda_cu_stream_create_req, hmcuda_cu_stream_create_resp, hmcuda_cu_stream_destroy_req,
  hmcuda_cu_stream_get_ctx_req, hmcuda_cu_stream_get_ctx_resp, hmcuda_cu_stream_query_req,
  hmcuda_cu_stream_synchronize_req, hmcuda_cu_stream_wait_event_req,
}
use hm_cuda.Wire.DriverVmm.{
  hmcuda_cu_get_error_name_req, hmcuda_cu_get_error_name_resp, hmcuda_cu_get_error_string_req,
  hmcuda_cu_get_error_string_resp, hmcuda_cu_mem_address_free_req,
  hmcuda_cu_mem_address_reserve_req, hmcuda_cu_mem_address_reserve_resp, hmcuda_cu_mem_create_req,
  hmcuda_cu_mem_create_resp, hmcuda_cu_mem_export_req, hmcuda_cu_mem_export_resp,
  hmcuda_cu_mem_get_alloc_granularity_req, hmcuda_cu_mem_get_alloc_granularity_resp,
  hmcuda_cu_mem_import_req, hmcuda_cu_mem_import_resp, hmcuda_cu_mem_map_req,
  hmcuda_cu_mem_release_req, hmcuda_cu_mem_set_access_req, hmcuda_cu_mem_unmap_req,
  hmcuda_cu_multicast_add_device_req, hmcuda_cu_multicast_bind_mem_req,
  hmcuda_cu_multicast_create_req, hmcuda_cu_multicast_create_resp,
  hmcuda_cu_multicast_get_granularity_req, hmcuda_cu_multicast_get_granularity_resp,
  hmcuda_cu_multicast_unbind_req, hmcuda_cu_pointer_get_attribute_req,
  hmcuda_cu_pointer_get_attribute_resp,
}

unfoldable pub driver_cmd_type : DriverRequest → ℕ
driver_cmd_type (cu_init _) = 0x10001
driver_cmd_type cu_driver_get_version = 0x10002
driver_cmd_type (cu_device_get _) = 0x10003
driver_cmd_type cu_device_get_count = 0x10004
driver_cmd_type (cu_device_get_name _ _) = 0x10005
driver_cmd_type (cu_device_get_attribute _ _) = 0x10006
driver_cmd_type (cu_device_get_uuid _) = 0x10007
driver_cmd_type (cu_device_can_access_peer _ _) = 0x10008
driver_cmd_type (cu_device_primary_ctx_retain _) = 0x10009
driver_cmd_type (cu_device_primary_ctx_release _) = 0x1000a
driver_cmd_type (cu_ctx_set_current _) = 0x1000b
driver_cmd_type cu_ctx_get_device = 0x1000c
driver_cmd_type (cu_ctx_enable_peer_access _ _) = 0x1000d
driver_cmd_type (cu_stream_create _) = 0x1000e
driver_cmd_type (cu_stream_destroy _) = 0x1000f
driver_cmd_type (cu_stream_synchronize _) = 0x10010
driver_cmd_type (cu_stream_query _) = 0x10011
driver_cmd_type (cu_stream_wait_event _ _ _) = 0x10012
driver_cmd_type (cu_stream_get_ctx _) = 0x10013
driver_cmd_type (cu_event_create _) = 0x10014
driver_cmd_type (cu_event_destroy _) = 0x10015
driver_cmd_type (cu_event_record _ _) = 0x10016
driver_cmd_type (cu_event_elapsed_time _ _) = 0x10017
driver_cmd_type (cu_mem_alloc _) = 0x10018
driver_cmd_type (cu_mem_free _) = 0x10019
driver_cmd_type (cu_mem_host_alloc _) = 0x1001a
driver_cmd_type (cu_mem_free_host _) = 0x1001b
driver_cmd_type (cu_memset_d32 _ _ _) = 0x1001c
driver_cmd_type (cu_memcpy_async _ _ _ _) = 0x1001d
driver_cmd_type (cu_memcpy_htod _ _ _) = 0x1001e
driver_cmd_type (cu_memcpy _) = 0x1001f
driver_cmd_type (cu_pointer_get_attribute _ _) = 0x10020
driver_cmd_type (cu_get_error_string _) = 0x10021
driver_cmd_type (cu_get_error_name _) = 0x10022
driver_cmd_type (cu_mem_create _ _ _) = 0x10023
driver_cmd_type (cu_mem_release _) = 0x10024
driver_cmd_type (cu_mem_map _ _ _ _ _) = 0x10025
driver_cmd_type (cu_mem_unmap _ _) = 0x10026
driver_cmd_type (cu_mem_address_reserve _ _ _ _) = 0x10027
driver_cmd_type (cu_mem_address_free _ _) = 0x10028
driver_cmd_type (cu_mem_export _ _ _) = 0x10029
driver_cmd_type (cu_mem_import _ _) = 0x1002a
driver_cmd_type (cu_mem_set_access _ _ _) = 0x1002b
driver_cmd_type (cu_mem_get_alloc_granularity _ _) = 0x1002c
driver_cmd_type (cu_multicast_create _) = 0x1002d
driver_cmd_type (cu_multicast_get_granularity _ _) = 0x1002e
driver_cmd_type (cu_multicast_add_device _ _) = 0x1002f
driver_cmd_type (cu_multicast_bind_mem _ _ _ _ _ _) = 0x10030
driver_cmd_type (cu_multicast_unbind _ _ _ _) = 0x10031

unfoldable pub driver_request_struct : DriverRequest → Struct
driver_request_struct (cu_init _) = hmcuda_cu_init_req
driver_request_struct cu_driver_get_version = []
driver_request_struct (cu_device_get _) = hmcuda_cu_device_get_req
driver_request_struct cu_device_get_count = []
driver_request_struct (cu_device_get_name _ _) = hmcuda_cu_device_get_name_req
driver_request_struct (cu_device_get_attribute _ _) = hmcuda_cu_device_get_attribute_req
driver_request_struct (cu_device_get_uuid _) = hmcuda_cu_device_get_uuid_req
driver_request_struct (cu_device_can_access_peer _ _) = hmcuda_cu_device_can_access_peer_req
driver_request_struct (cu_device_primary_ctx_retain _) = hmcuda_cu_device_primary_ctx_retain_req
driver_request_struct (cu_device_primary_ctx_release _) = hmcuda_cu_device_primary_ctx_release_req
driver_request_struct (cu_ctx_set_current _) = hmcuda_cu_ctx_set_current_req
driver_request_struct cu_ctx_get_device = []
driver_request_struct (cu_ctx_enable_peer_access _ _) = hmcuda_cu_ctx_enable_peer_access_req
driver_request_struct (cu_stream_create _) = hmcuda_cu_stream_create_req
driver_request_struct (cu_stream_destroy _) = hmcuda_cu_stream_destroy_req
driver_request_struct (cu_stream_synchronize _) = hmcuda_cu_stream_synchronize_req
driver_request_struct (cu_stream_query _) = hmcuda_cu_stream_query_req
driver_request_struct (cu_stream_wait_event _ _ _) = hmcuda_cu_stream_wait_event_req
driver_request_struct (cu_stream_get_ctx _) = hmcuda_cu_stream_get_ctx_req
driver_request_struct (cu_event_create _) = hmcuda_cu_event_create_req
driver_request_struct (cu_event_destroy _) = hmcuda_cu_event_destroy_req
driver_request_struct (cu_event_record _ _) = hmcuda_cu_event_record_req
driver_request_struct (cu_event_elapsed_time _ _) = hmcuda_cu_event_elapsed_time_req
driver_request_struct (cu_mem_alloc _) = hmcuda_cu_mem_alloc_req
driver_request_struct (cu_mem_free _) = hmcuda_cu_mem_free_req
driver_request_struct (cu_mem_host_alloc _) = hmcuda_cu_mem_host_alloc_req
driver_request_struct (cu_mem_free_host _) = hmcuda_cu_mem_free_host_req
driver_request_struct (cu_memset_d32 _ _ _) = hmcuda_cu_memset_d32_req
driver_request_struct (cu_memcpy_async _ _ _ _) = hmcuda_cu_memcpy_async_req
driver_request_struct (cu_memcpy_htod _ _ _) = hmcuda_cu_memcpy_htod_req
driver_request_struct (cu_memcpy _) = hmcuda_memcpy_req
driver_request_struct (cu_pointer_get_attribute _ _) = hmcuda_cu_pointer_get_attribute_req
driver_request_struct (cu_get_error_string _) = hmcuda_cu_get_error_string_req
driver_request_struct (cu_get_error_name _) = hmcuda_cu_get_error_name_req
driver_request_struct (cu_mem_create _ _ _) = hmcuda_cu_mem_create_req
driver_request_struct (cu_mem_release _) = hmcuda_cu_mem_release_req
driver_request_struct (cu_mem_map _ _ _ _ _) = hmcuda_cu_mem_map_req
driver_request_struct (cu_mem_unmap _ _) = hmcuda_cu_mem_unmap_req
driver_request_struct (cu_mem_address_reserve _ _ _ _) = hmcuda_cu_mem_address_reserve_req
driver_request_struct (cu_mem_address_free _ _) = hmcuda_cu_mem_address_free_req
driver_request_struct (cu_mem_export _ _ _) = hmcuda_cu_mem_export_req
driver_request_struct (cu_mem_import _ _) = hmcuda_cu_mem_import_req
driver_request_struct (cu_mem_set_access _ _ _) = hmcuda_cu_mem_set_access_req
driver_request_struct (cu_mem_get_alloc_granularity _ _) = hmcuda_cu_mem_get_alloc_granularity_req
driver_request_struct (cu_multicast_create _) = hmcuda_cu_multicast_create_req
driver_request_struct (cu_multicast_get_granularity _ _) = hmcuda_cu_multicast_get_granularity_req
driver_request_struct (cu_multicast_add_device _ _) = hmcuda_cu_multicast_add_device_req
driver_request_struct (cu_multicast_bind_mem _ _ _ _ _ _) = hmcuda_cu_multicast_bind_mem_req
driver_request_struct (cu_multicast_unbind _ _ _ _) = hmcuda_cu_multicast_unbind_req

unfoldable pub driver_response_struct : DriverRequest → Struct
driver_response_struct (cu_init _) = []
driver_response_struct cu_driver_get_version = hmcuda_cu_driver_get_version_resp
driver_response_struct (cu_device_get _) = hmcuda_cu_device_get_resp
driver_response_struct cu_device_get_count = hmcuda_cu_device_get_count_resp
driver_response_struct (cu_device_get_name _ _) = hmcuda_cu_device_get_name_resp
driver_response_struct (cu_device_get_attribute _ _) = hmcuda_cu_device_get_attribute_resp
driver_response_struct (cu_device_get_uuid _) = hmcuda_cu_device_get_uuid_resp
driver_response_struct (cu_device_can_access_peer _ _) = hmcuda_cu_device_can_access_peer_resp
driver_response_struct (cu_device_primary_ctx_retain _) = hmcuda_cu_device_primary_ctx_retain_resp
driver_response_struct (cu_device_primary_ctx_release _) = []
driver_response_struct (cu_ctx_set_current _) = []
driver_response_struct cu_ctx_get_device = hmcuda_cu_ctx_get_device_resp
driver_response_struct (cu_ctx_enable_peer_access _ _) = []
driver_response_struct (cu_stream_create _) = hmcuda_cu_stream_create_resp
driver_response_struct (cu_stream_destroy _) = []
driver_response_struct (cu_stream_synchronize _) = []
driver_response_struct (cu_stream_query _) = []
driver_response_struct (cu_stream_wait_event _ _ _) = []
driver_response_struct (cu_stream_get_ctx _) = hmcuda_cu_stream_get_ctx_resp
driver_response_struct (cu_event_create _) = hmcuda_cu_event_create_resp
driver_response_struct (cu_event_destroy _) = []
driver_response_struct (cu_event_record _ _) = []
driver_response_struct (cu_event_elapsed_time _ _) = hmcuda_cu_event_elapsed_time_resp
driver_response_struct (cu_mem_alloc _) = hmcuda_cu_mem_alloc_resp
driver_response_struct (cu_mem_free _) = []
driver_response_struct (cu_mem_host_alloc _) = []
driver_response_struct (cu_mem_free_host _) = []
driver_response_struct (cu_memset_d32 _ _ _) = []
driver_response_struct (cu_memcpy_async _ _ _ _) = []
driver_response_struct (cu_memcpy_htod _ _ _) = []
driver_response_struct (cu_memcpy _) = []
driver_response_struct (cu_pointer_get_attribute _ _) = hmcuda_cu_pointer_get_attribute_resp
driver_response_struct (cu_get_error_string _) = hmcuda_cu_get_error_string_resp
driver_response_struct (cu_get_error_name _) = hmcuda_cu_get_error_name_resp
driver_response_struct (cu_mem_create _ _ _) = hmcuda_cu_mem_create_resp
driver_response_struct (cu_mem_release _) = []
driver_response_struct (cu_mem_map _ _ _ _ _) = []
driver_response_struct (cu_mem_unmap _ _) = []
driver_response_struct (cu_mem_address_reserve _ _ _ _) = hmcuda_cu_mem_address_reserve_resp
driver_response_struct (cu_mem_address_free _ _) = []
driver_response_struct (cu_mem_export _ _ _) = hmcuda_cu_mem_export_resp
driver_response_struct (cu_mem_import _ _) = hmcuda_cu_mem_import_resp
driver_response_struct (cu_mem_set_access _ _ _) = []
driver_response_struct (cu_mem_get_alloc_granularity _ _) = hmcuda_cu_mem_get_alloc_granularity_resp
driver_response_struct (cu_multicast_create _) = hmcuda_cu_multicast_create_resp
driver_response_struct (cu_multicast_get_granularity _ _) = hmcuda_cu_multicast_get_granularity_resp
driver_response_struct (cu_multicast_add_device _ _) = []
driver_response_struct (cu_multicast_bind_mem _ _ _ _ _ _) = []
driver_response_struct (cu_multicast_unbind _ _ _ _) = []

-- The members in the order of the struct.
unfoldable pub driver_members : DriverRequest → List ℕ
driver_members (cu_init a) = a ∷ []
driver_members cu_driver_get_version = []
driver_members (cu_device_get a) = a ∷ []
driver_members cu_device_get_count = []
driver_members (cu_device_get_name a b) = a ∷ b ∷ []
driver_members (cu_device_get_attribute a b) = a ∷ b ∷ []
driver_members (cu_device_get_uuid a) = a ∷ []
driver_members (cu_device_can_access_peer a b) = a ∷ b ∷ []
driver_members (cu_device_primary_ctx_retain a) = a ∷ []
driver_members (cu_device_primary_ctx_release a) = a ∷ []
driver_members (cu_ctx_set_current a) = a ∷ []
driver_members cu_ctx_get_device = []
driver_members (cu_ctx_enable_peer_access a b) = a ∷ b ∷ []
driver_members (cu_stream_create a) = a ∷ []
driver_members (cu_stream_destroy a) = a ∷ []
driver_members (cu_stream_synchronize a) = a ∷ []
driver_members (cu_stream_query a) = a ∷ []
driver_members (cu_stream_wait_event a b c) = a ∷ b ∷ c ∷ []
driver_members (cu_stream_get_ctx a) = a ∷ []
driver_members (cu_event_create a) = a ∷ []
driver_members (cu_event_destroy a) = a ∷ []
driver_members (cu_event_record a b) = a ∷ b ∷ []
driver_members (cu_event_elapsed_time a b) = a ∷ b ∷ []
driver_members (cu_mem_alloc a) = a ∷ []
driver_members (cu_mem_free a) = a ∷ []
driver_members (cu_mem_host_alloc r) = r.bytesize ∷ r.flags ∷ r.guest_va ∷ r.byte_offset ∷ []
driver_members (cu_mem_free_host a) = a ∷ []
driver_members (cu_memset_d32 a b c) = a ∷ b ∷ c ∷ []
driver_members (cu_memcpy_async a b c d) = a ∷ b ∷ c ∷ d ∷ []
driver_members (cu_memcpy_htod a b c) = a ∷ b ∷ c ∷ []
driver_members (cu_memcpy r) = r.dst ∷ r.src ∷ r.count ∷ r.kind ∷ 0 ∷ r.stream ∷ []
driver_members (cu_pointer_get_attribute a b) = a ∷ b ∷ []
driver_members (cu_get_error_string a) = a ∷ []
driver_members (cu_get_error_name a) = a ∷ []
driver_members (cu_mem_create n p f) = n ∷ p ++ f ∷ []
driver_members (cu_mem_release a) = a ∷ []
driver_members (cu_mem_map a b c d e) = a ∷ b ∷ c ∷ d ∷ e ∷ []
driver_members (cu_mem_unmap a b) = a ∷ b ∷ []
driver_members (cu_mem_address_reserve a b c d) = a ∷ b ∷ c ∷ d ∷ []
driver_members (cu_mem_address_free a b) = a ∷ b ∷ []
driver_members (cu_mem_export a b c) = a ∷ b ∷ c ∷ []
driver_members (cu_mem_import h t) = h ++ t ∷ []
driver_members (cu_mem_set_access p n ds) = p ∷ n ∷ length ds ∷ []
driver_members (cu_mem_get_alloc_granularity p o) = p ++ o ∷ []
driver_members (cu_multicast_create p) = p
driver_members (cu_multicast_get_granularity p o) = p ++ o ∷ []
driver_members (cu_multicast_add_device a b) = a ∷ b ∷ []
driver_members (cu_multicast_bind_mem a b c d e f) = a ∷ b ∷ c ∷ d ∷ e ∷ f ∷ []
driver_members (cu_multicast_unbind a b c d) = a ∷ b ∷ c ∷ d ∷ []

-- What follows the struct.
unfoldable pub driver_trailing : DriverRequest → List ℕ
driver_trailing (cu_mem_set_access p n ds) = desc_bytes ds
driver_trailing _ = []
