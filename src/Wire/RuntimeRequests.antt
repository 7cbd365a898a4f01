-- ===== src/Wire/RuntimeRequests.antt =====
-- The commands of the runtime API: their numbers, in the order of enum hmcuda_command_type of
-- common/include/hmcuda_types.h, their structs, and the members of a request.
pub mod Decode
pub mod Sizes
pub mod RoundTrip
use hm_cuda.Prelude.{ℕ, ◌+◌, [], ◌∷◌, ◌++◌, List, length, take, drop, ◌==◌, ◌<◌, Option, none, some}
use hm_cuda.Command.{
  RuntimeRequest, malloc, free, memcpy_cmd, memset, launch_kernel, stream_create,
  stream_synchronize, event_create, event_record, event_synchronize, event_elapsed_time,
  event_destroy, device_synchronize, init, register_fatbin, register_function, push_call_cfg,
  pop_call_cfg, init_module, get_device_properties, get_device_count, set_device, get_error_string,
  get_error_name, runtime_get_version, func_get_attributes,
}
use hm_cuda.Wire.{Struct}
use hm_cuda.Wire.Bytes.{word_bytes}
use hm_cuda.Wire.Runtime.{
  hmcuda_device_synchronize_req, hmcuda_event_create_req, hmcuda_event_create_resp,
  hmcuda_event_destroy_req, hmcuda_event_elapsed_time_req, hmcuda_event_elapsed_time_resp,
  hmcuda_event_record_req, hmcuda_event_synchronize_req, hmcuda_free_req,
  hmcuda_func_get_attributes_req, hmcuda_func_get_attributes_resp, hmcuda_get_device_count_resp,
  hmcuda_get_device_properties_req, hmcuda_get_device_properties_resp, hmcuda_get_error_string_req,
  hmcuda_get_error_string_resp, hmcuda_init_module_req, hmcuda_launch_kernel_req, hmcuda_malloc_req,
  hmcuda_malloc_resp, hmcuda_memcpy_req, hmcuda_memset_req, hmcuda_pop_call_cfg_resp,
  hmcuda_push_call_cfg_req, hmcuda_register_fatbin_req, hmcuda_register_fatbin_resp,
  hmcuda_register_function_req, hmcuda_register_function_resp, hmcuda_runtime_get_version_resp,
  hmcuda_set_device_req, hmcuda_stream_create_req, hmcuda_stream_create_resp,
  hmcuda_stream_synchronize_req,
}

unfoldable pub runtime_cmd_type : RuntimeRequest → ℕ
runtime_cmd_type (malloc _) = 1
runtime_cmd_type (free _) = 2
runtime_cmd_type (memcpy_cmd _) = 3
runtime_cmd_type (memset _ _ _) = 4
runtime_cmd_type (launch_kernel _ _ _ _ _ _ _) = 5
runtime_cmd_type (stream_create _) = 6
runtime_cmd_type (stream_synchronize _) = 7
runtime_cmd_type (event_create _) = 8
runtime_cmd_type (event_record _ _) = 9
runtime_cmd_type (event_synchronize _) = 10
runtime_cmd_type (event_elapsed_time _ _) = 11
runtime_cmd_type (event_destroy _) = 12
runtime_cmd_type device_synchronize = 13
runtime_cmd_type init = 14
runtime_cmd_type (register_fatbin _) = 15
runtime_cmd_type (register_function _ _ _) = 16
runtime_cmd_type (push_call_cfg _ _ _ _) = 17
runtime_cmd_type pop_call_cfg = 18
runtime_cmd_type (init_module _) = 19
runtime_cmd_type (get_device_properties _) = 20
runtime_cmd_type get_device_count = 21
runtime_cmd_type (set_device _) = 22
runtime_cmd_type (get_error_string _) = 23
runtime_cmd_type (get_error_name _) = 24
runtime_cmd_type runtime_get_version = 25
runtime_cmd_type (func_get_attributes _) = 26

unfoldable pub runtime_request_struct : RuntimeRequest → Struct
runtime_request_struct (malloc _) = hmcuda_malloc_req
runtime_request_struct (free _) = hmcuda_free_req
runtime_request_struct (memcpy_cmd _) = hmcuda_memcpy_req
runtime_request_struct (memset _ _ _) = hmcuda_memset_req
runtime_request_struct (launch_kernel _ _ _ _ _ _ _) = hmcuda_launch_kernel_req
runtime_request_struct (stream_create _) = hmcuda_stream_create_req
runtime_request_struct (stream_synchronize _) = hmcuda_stream_synchronize_req
runtime_request_struct (event_create _) = hmcuda_event_create_req
runtime_request_struct (event_record _ _) = hmcuda_event_record_req
runtime_request_struct (event_synchronize _) = hmcuda_event_synchronize_req
runtime_request_struct (event_elapsed_time _ _) = hmcuda_event_elapsed_time_req
runtime_request_struct (event_destroy _) = hmcuda_event_destroy_req
runtime_request_struct device_synchronize = hmcuda_device_synchronize_req
runtime_request_struct init = []
runtime_request_struct (register_fatbin _) = hmcuda_register_fatbin_req
runtime_request_struct (register_function _ _ _) = hmcuda_register_function_req
runtime_request_struct (push_call_cfg _ _ _ _) = hmcuda_push_call_cfg_req
runtime_request_struct pop_call_cfg = []
runtime_request_struct (init_module _) = hmcuda_init_module_req
runtime_request_struct (get_device_properties _) = hmcuda_get_device_properties_req
runtime_request_struct get_device_count = []
runtime_request_struct (set_device _) = hmcuda_set_device_req
runtime_request_struct (get_error_string _) = hmcuda_get_error_string_req
runtime_request_struct (get_error_name _) = hmcuda_get_error_string_req
runtime_request_struct runtime_get_version = []
runtime_request_struct (func_get_attributes _) = hmcuda_func_get_attributes_req

unfoldable pub runtime_response_struct : RuntimeRequest → Struct
runtime_response_struct (malloc _) = hmcuda_malloc_resp
runtime_response_struct (free _) = []
runtime_response_struct (memcpy_cmd _) = []
runtime_response_struct (memset _ _ _) = []
runtime_response_struct (launch_kernel _ _ _ _ _ _ _) = []
runtime_response_struct (stream_create _) = hmcuda_stream_create_resp
runtime_response_struct (stream_synchronize _) = []
runtime_response_struct (event_create _) = hmcuda_event_create_resp
runtime_response_struct (event_record _ _) = []
runtime_response_struct (event_synchronize _) = []
runtime_response_struct (event_elapsed_time _ _) = hmcuda_event_elapsed_time_resp
runtime_response_struct (event_destroy _) = []
runtime_response_struct device_synchronize = []
runtime_response_struct init = []
runtime_response_struct (register_fatbin _) = hmcuda_register_fatbin_resp
runtime_response_struct (register_function _ _ _) = hmcuda_register_function_resp
runtime_response_struct (push_call_cfg _ _ _ _) = []
runtime_response_struct pop_call_cfg = hmcuda_pop_call_cfg_resp
runtime_response_struct (init_module _) = []
runtime_response_struct (get_device_properties _) = hmcuda_get_device_properties_resp
runtime_response_struct get_device_count = hmcuda_get_device_count_resp
runtime_response_struct (set_device _) = []
runtime_response_struct (get_error_string _) = hmcuda_get_error_string_resp
runtime_response_struct (get_error_name _) = hmcuda_get_error_string_resp
runtime_response_struct runtime_get_version = hmcuda_runtime_get_version_resp
runtime_response_struct (func_get_attributes _) = hmcuda_func_get_attributes_resp

-- The members in the order of the struct.
unfoldable pub runtime_members : RuntimeRequest → List ℕ
runtime_members (malloc a) = a ∷ []
runtime_members (free a) = a ∷ []
runtime_members (memcpy_cmd r) = r.dst ∷ r.src ∷ r.count ∷ r.kind ∷ 0 ∷ r.stream ∷ []
runtime_members (memset a b c) = a ∷ b ∷ c ∷ []
runtime_members (launch_kernel f g b m h n args) =
    f ∷ g.x ∷ g.y ∷ g.z ∷ b.x ∷ b.y ∷ b.z ∷ m ∷ h ∷ n ∷ []
runtime_members (stream_create a) = a ∷ []
runtime_members (stream_synchronize a) = a ∷ []
runtime_members (event_create a) = a ∷ []
runtime_members (event_record a b) = a ∷ b ∷ []
runtime_members (event_synchronize a) = a ∷ []
runtime_members (event_elapsed_time a b) = a ∷ b ∷ []
runtime_members (event_destroy a) = a ∷ []
runtime_members device_synchronize = 0 ∷ []
runtime_members init = []
runtime_members (register_fatbin fatbin) = length fatbin ∷ []
runtime_members (register_function h f name) = h ∷ f ∷ length name ∷ []
runtime_members (push_call_cfg g b m h) = g.x ∷ g.y ∷ g.z ∷ b.x ∷ b.y ∷ b.z ∷ m ∷ h ∷ []
runtime_members pop_call_cfg = []
runtime_members (init_module a) = a ∷ []
runtime_members (get_device_properties a) = a ∷ []
runtime_members get_device_count = []
runtime_members (set_device a) = a ∷ []
runtime_members (get_error_string a) = a ∷ []
runtime_members (get_error_name a) = a ∷ []
runtime_members runtime_get_version = []
runtime_members (func_get_attributes a) = a ∷ []

-- What follows the struct.
unfoldable pub runtime_trailing : RuntimeRequest → List ℕ
runtime_trailing (launch_kernel f g b m h n args) = word_bytes args
runtime_trailing (register_fatbin fatbin) = fatbin
runtime_trailing (register_function h f name) = name
runtime_trailing _ = []
