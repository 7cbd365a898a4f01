-- ===== src/Command/Runtime.antt =====
-- hmcuda_runtime_handle_cmd of host/vhost/cmd_runtime.c, command by command.
use hm_cuda.Prelude.{
  ℕ, ◌+◌, ◌%◌, ◌^◌, List, [], ◌∷◌, ◌++◌, Option, none, some, leb, if◌then◌else◌, length,
}
use hm_cuda.Core.Queries.{
  hmcuda_core_get_device_properties, hmcuda_core_get_error_string, hmcuda_core_get_error_name,
}
use hm_cuda.Cuda.{Environment}
use hm_cuda.Backend.{M, pure, ◌>>=◌}
use hm_cuda.Core.{sign_extend}
use hm_cuda.Core.Sessions.{hmcuda_core_init}
use hm_cuda.Core.Runtime.{
  hmcuda_core_malloc, hmcuda_core_free, hmcuda_core_memset, hmcuda_core_stream_create,
  hmcuda_core_stream_synchronize, hmcuda_core_event_create, hmcuda_core_event_record,
  hmcuda_core_event_synchronize, hmcuda_core_event_elapsed_time, hmcuda_core_event_destroy,
  hmcuda_core_device_synchronize, hmcuda_core_get_device_count, hmcuda_core_set_device,
  hmcuda_core_runtime_get_version,
}
use hm_cuda.Core.Launch.{
  CallConfiguration, hmcuda_core_register_fatbin, hmcuda_core_register_function,
  hmcuda_core_init_module, hmcuda_core_push_call_configuration, hmcuda_core_pop_call_configuration,
  hmcuda_core_launch_kernel, hmcuda_core_func_get_attributes,
}
use hm_cuda.Command.{
  u32_field, u64_field, byte_fields, status_only, answer, answer_u64, answer_u32, Element,
  RuntimeRequest, Field, Response, init, malloc, free, memcpy_cmd, memset, launch_kernel,
  stream_create, stream_synchronize, event_create, event_record, event_synchronize,
  event_elapsed_time, event_destroy, device_synchronize, push_call_cfg, pop_call_cfg, init_module,
  get_device_properties, get_device_count, set_device, get_error_string, get_error_name,
  register_fatbin, register_function, runtime_get_version, func_get_attributes,
}
use hm_cuda.Command.Loops.{handle_memcpy}

-- sizeof(resp_payload) of host/vhost/vhost_user_hmcuda.c.
abbrev pub resp_payload_cap : ℕ
resp_payload_cap = 2048

-- The dim3, size and stream of a struct hmcuda_pop_call_cfg_resp.
unfoldable pub configuration_fields : Option CallConfiguration → List Field
configuration_fields none = record { width = 40; value = none } ∷ []
configuration_fields (some c) =
    u32_field (some c.grid.x)
    ∷ u32_field (some c.grid.y)
    ∷ u32_field (some c.grid.z)
    ∷ u32_field (some c.block.x)
    ∷ u32_field (some c.block.y)
    ∷ u32_field (some c.block.z)
    ∷ u64_field (some c.shared_mem)
    ∷ u64_field (some c.stream)
    ∷ []

unfoldable pub count_fields : Option (ℕ × ℕ) → List Field
count_fields none = u32_field none ∷ u32_field none ∷ []
count_fields (some c) = u32_field (some c.0) ∷ u32_field (some c.1) ∷ []

unfoldable pub u32_fields : List ℕ → List Field
u32_fields [] = []
u32_fields (v ∷ vs) = u32_field (some v) ∷ u32_fields vs

-- Three 64-bit sizes, the rest ints, and the padding of the struct.
unfoldable pub attribute_fields : Option (List ℕ) → List Field
unfolding u32_fields
attribute_fields (some (a ∷ b ∷ c ∷ vs)) =
    u64_field (some (sign_extend a))
      ∷ u64_field (some (sign_extend b))
      ∷ u64_field (some (sign_extend c))
      ∷ u32_fields vs
    ++ u32_field none ∷ []
attribute_fields _ = record { width = 80; value = none } ∷ []

-- The length that is written out counts the NUL, and the string is left out if it does not fit.
unfoldable pub text_fields : Option (List ℕ) → List Field
text_fields none = []
text_fields (some text) =
    u32_field (some ((length text + 1) % 2 ^ 32))
    ∷ (if leb (length text + 1 + 4) resp_payload_cap
        then byte_fields (text ++ 0 ∷ [])
        else record { width = length text + 1; value = none } ∷ [])

-- Nothing is written for NULL.
unfoldable pub answer_text : ℕ × Option (List ℕ) → Response
unfolding text_fields
answer_text r = answer r.0 (text_fields r.1)

-- The properties are one block of bytes, written if the query succeeds.
unfoldable pub properties_fields : Option ℕ → List Field
properties_fields v = record { width = 1032; value = v } ∷ []

module _ (env : Environment) (sid vid : ℕ) (elem : Element) where
  unfoldable pub hmcuda_runtime_handle_cmd : RuntimeRequest → M Response
  unfolding configuration_fields count_fields attribute_fields answer_text properties_fields
  hmcuda_runtime_handle_cmd init = do e ← hmcuda_core_init env sid vid; pure (status_only e)
  hmcuda_runtime_handle_cmd (malloc size) = do
    r ← hmcuda_core_malloc env sid vid size
    pure (answer_u64 r)
  hmcuda_runtime_handle_cmd (free dev_ptr) = do
    e ← hmcuda_core_free env sid vid dev_ptr
    pure (status_only e)
  hmcuda_runtime_handle_cmd (memcpy_cmd req) = handle_memcpy env sid vid elem req
  hmcuda_runtime_handle_cmd (memset dev_ptr value count) = do
    e ← hmcuda_core_memset env sid vid dev_ptr value count
    pure (status_only e)
  hmcuda_runtime_handle_cmd (launch_kernel func grid block shared_mem stream args_size args) = do
    e ← hmcuda_core_launch_kernel env sid vid func grid block shared_mem stream args args_size
    pure (status_only e)
  hmcuda_runtime_handle_cmd (stream_create flags) = do
    r ← hmcuda_core_stream_create env sid vid flags
    pure (answer_u64 r)
  hmcuda_runtime_handle_cmd (stream_synchronize stream) = do
    e ← hmcuda_core_stream_synchronize env sid vid stream
    pure (status_only e)
  hmcuda_runtime_handle_cmd (event_create flags) = do
    r ← hmcuda_core_event_create env sid vid flags
    pure (answer_u64 r)
  hmcuda_runtime_handle_cmd (event_record event stream) = do
    e ← hmcuda_core_event_record env sid vid event stream
    pure (status_only e)
  hmcuda_runtime_handle_cmd (event_synchronize event) = do
    e ← hmcuda_core_event_synchronize env sid vid event
    pure (status_only e)
  hmcuda_runtime_handle_cmd (event_elapsed_time start end) = do
    r ← hmcuda_core_event_elapsed_time env sid vid start end
    pure (answer_u32 r)
  hmcuda_runtime_handle_cmd (event_destroy event) = do
    e ← hmcuda_core_event_destroy env sid vid event
    pure (status_only e)
  hmcuda_runtime_handle_cmd device_synchronize = do
    e ← hmcuda_core_device_synchronize env
    pure (status_only e)
  hmcuda_runtime_handle_cmd (push_call_cfg grid block shared_mem stream) = do
    e ← hmcuda_core_push_call_configuration env sid vid grid block shared_mem stream
    pure (status_only e)
  hmcuda_runtime_handle_cmd pop_call_cfg = do
    r ← hmcuda_core_pop_call_configuration env sid vid
    pure (answer r.0 (configuration_fields r.1))
  hmcuda_runtime_handle_cmd (init_module handle) = do
    e ← hmcuda_core_init_module env sid vid handle
    pure (status_only e)
  hmcuda_runtime_handle_cmd (get_device_properties device) = do
    r ← hmcuda_core_get_device_properties env device
    pure (answer r.0 (properties_fields r.1))
  hmcuda_runtime_handle_cmd get_device_count = do
    r ← hmcuda_core_get_device_count env
    pure (answer_u32 r)
  hmcuda_runtime_handle_cmd (set_device device) = do
    e ← hmcuda_core_set_device env device
    pure (status_only e)
  hmcuda_runtime_handle_cmd (get_error_string error) = do
    r ← hmcuda_core_get_error_string env error
    pure (answer_text r)
  hmcuda_runtime_handle_cmd (get_error_name error) = do
    r ← hmcuda_core_get_error_name env error
    pure (answer_text r)
  hmcuda_runtime_handle_cmd (register_fatbin fatbin) = do
    r ← hmcuda_core_register_fatbin env sid vid fatbin
    pure (answer_u64 r)
  hmcuda_runtime_handle_cmd (register_function handle host_fun device_name) = do
    r ← hmcuda_core_register_function env sid vid handle host_fun device_name
    pure (answer r.0 (count_fields r.1))
  hmcuda_runtime_handle_cmd runtime_get_version = do
    r ← hmcuda_core_runtime_get_version env
    pure (answer_u32 r)
  hmcuda_runtime_handle_cmd (func_get_attributes func) = do
    r ← hmcuda_core_func_get_attributes env sid vid func
    pure (answer r.0 (attribute_fields r.1))
