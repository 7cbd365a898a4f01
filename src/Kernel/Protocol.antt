-- ===== src/Kernel/Protocol.antt =====
-- The lengths that driver/cmd_runtime.c and cmd_driver.c make room for against those that
-- host/vhost/cmd_runtime.c and cmd_driver.c send.
use hm_cuda.Prelude.{
  ℕ, ◌≡◌, refl, Bool, true, false, Option, none, some, if◌then◌else◌, ◌==◌, arith, Bool-cases,
  Option-cases, inl, inr, length, leb, ◌*◌,
}
use hm_cuda.Cuda.{Environment, host_malloc}
use hm_cuda.Backend.{res_function, res_generic_alloc, Backend, M, ◌>>=◌, perform}
use hm_cuda.Resource.{hmcuda_ctx_get, hmcuda_res_get}
use hm_cuda.Core.{with_ctx}
use hm_cuda.Core.Launch.{CallConfiguration, hmcuda_core_func_get_attributes, query_attributes}
use hm_cuda.Core.Vmm.{hmcuda_core_cu_mem_export}
use hm_cuda.Core.Queries.{hmcuda_core_get_device_properties}
use hm_cuda.Command.{
  RuntimeRequest, DriverRequest, Element, Response, payload_len, memcpy_cmd, get_error_string,
  get_error_name, pop_call_cfg, register_function, func_get_attributes, cu_memcpy,
  cu_mem_host_alloc, cu_get_error_string, cu_get_error_name, cu_device_get_name, cu_mem_export,
  cu_mem_set_access,
}
use hm_cuda.Command.Runtime.{
  hmcuda_runtime_handle_cmd, configuration_fields, count_fields, attribute_fields,
  properties_fields,
}
use hm_cuda.Command.Driver.{hmcuda_driver_handle_cmd, shareable_fields}
use hm_cuda.Command.Loops.{handle_memcpy, handle_cu_memcpy, handle_cu_mem_host_alloc}
use hm_cuda.Kernel.Sizes.{hmcuda_runtime_get_sizes, hmcuda_driver_get_sizes}

-- The commands whose response ends in a string.
abbrev pub runtime_text : RuntimeRequest → Bool
runtime_text (get_error_string _) = true
runtime_text (get_error_name _) = true
runtime_text _ = false

abbrev pub driver_text : DriverRequest → Bool
driver_text (cu_get_error_string _) = true
driver_text (cu_get_error_name _) = true
driver_text (cu_device_get_name _ _) = true
driver_text _ = false

-- The length of the payload that an action's response has.
abbrev sent : M Response → Backend → ℕ
sent m s = payload_len (m s).0.payload

sent-if :
    (b : Bool) (m n : M Response) (s : Backend) (len : ℕ)
    → sent m s ≡ len
    → sent n s ≡ len
    → sent (if b then m else n) s ≡ len
sent-if true m n s len em en = em
sent-if false m n s len em en = en

configuration_len : (c : Option CallConfiguration) → payload_len (configuration_fields c) ≡ 40
unfolding configuration_fields
configuration_len none = refl
configuration_len (some c) = refl

count_len : (c : Option (ℕ × ℕ)) → payload_len (count_fields c) ≡ 8
unfolding count_fields
count_len none = refl
count_len (some c) = refl

attributes_len :
    (env : Environment) (sid vid f : ℕ) (s : Backend)
    → payload_len (attribute_fields (hmcuda_core_func_get_attributes env sid vid f s).0.1) ≡ 80
unfolding hmcuda_core_func_get_attributes query_attributes attribute_fields with_ctx ◌>>=◌
attributes_len env sid vid f s = elim (Option-cases (hmcuda_ctx_get sid vid s.contexts)) [
  | inl e ↦ rw (e, with_ctx)
  | inr (c, e) ↦
      rw (e, with_ctx)
        (elim (Bool-cases ((hmcuda_res_get sid vid res_function f s).0 == 0)) [
          | inl null ↦ rw null
          | inr found ↦ rw found
        ])
]

shareable_len :
    (env : Environment) (sid vid h t n : ℕ) (s : Backend)
    → payload_len (shareable_fields (hmcuda_core_cu_mem_export env sid vid h t n s).0.1) ≡ 64
unfolding hmcuda_core_cu_mem_export shareable_fields with_ctx ◌>>=◌
shareable_len env sid vid h t n s = elim (Option-cases (hmcuda_ctx_get sid vid s.contexts)) [
  | inl e ↦ rw (e, with_ctx)
  | inr (c, e) ↦
      rw (e, with_ctx)
        (elim (Bool-cases ((hmcuda_res_get sid vid res_generic_alloc h s).0 == 0)) [
          | inl null ↦ rw null
          | inr found ↦ rw found
        ])
]

module _ (env : Environment) (sid vid : ℕ) (elem : Element) where
  sent-handle_memcpy : (req : _) (s : Backend) → sent (handle_memcpy env sid vid elem req) s ≡ 0
  unfolding handle_memcpy ◌>>=◌
  sent-handle_memcpy req s =
      sent-if (req.kind == 1) _ _ s 0 refl (sent-if (req.kind == 2) _ _ s 0 refl refl)

  sent-handle_cu_memcpy :
      (req : _) (s : Backend) → sent (handle_cu_memcpy env sid vid elem req) s ≡ 0
  unfolding handle_cu_memcpy ◌>>=◌
  sent-handle_cu_memcpy req s =
      sent-if (req.kind == 1) _ _ s 0 refl (sent-if (req.kind == 2) _ _ s 0 refl refl)

  sent-handle_cu_mem_host_alloc :
      (req : _) (s : Backend) → sent (handle_cu_mem_host_alloc env sid vid elem req) s ≡ 0
  unfolding handle_cu_mem_host_alloc ◌>>=◌
  sent-handle_cu_mem_host_alloc req s = sent-if (leb 2 (length elem.out_sg)) _ _ s 0 refl refl

  -- A runtime command with no string in its response sends as many bytes after the header as the
  -- guest's kernel module has made room for, on success and on every error.
  pub sent-runtime :
      (r : RuntimeRequest) (s : Backend)
      → runtime_text r ≡ false
      → payload_len (hmcuda_runtime_handle_cmd env sid vid elem r s).0.payload
        ≡ (hmcuda_runtime_get_sizes true r).resp_size
  unfolding hmcuda_runtime_handle_cmd hmcuda_runtime_get_sizes ◌>>=◌ properties_fields
      hmcuda_core_get_device_properties
  sent-runtime (memcpy_cmd req) s t = sent-handle_memcpy req s
  sent-runtime pop_call_cfg s t = configuration_len _
  sent-runtime (register_function h f n) s t = count_len _
  sent-runtime (func_get_attributes f) s t = attributes_len env sid vid f s
  sent-runtime (get_error_string e) s t = ground arith
  sent-runtime (get_error_name e) s t = ground arith
  sent-runtime _ s t = refl

  -- A driver command with no string in its response sends as many bytes after the header as the
  -- guest's kernel module has made room for, on success and on every error.
  pub sent-driver :
      (r : DriverRequest) (s : Backend)
      → driver_text r ≡ false
      → payload_len (hmcuda_driver_handle_cmd env sid vid elem r s).0.payload
        ≡ (hmcuda_driver_get_sizes true r).resp_size
  unfolding hmcuda_driver_handle_cmd hmcuda_driver_get_sizes ◌>>=◌
  sent-driver (cu_memcpy req) s t = sent-handle_cu_memcpy req s
  sent-driver (cu_mem_host_alloc req) s t = sent-handle_cu_mem_host_alloc req s
  sent-driver (cu_mem_export h k n) s t = shareable_len env sid vid h k n s
  sent-driver (cu_mem_set_access p n descs) s t =
      sent-if ((perform env (host_malloc (length descs * 12)) s).0.status == 0) _ _ _ 0 refl refl
  sent-driver (cu_get_error_string e) s t = ground arith
  sent-driver (cu_get_error_name e) s t = ground arith
  sent-driver (cu_device_get_name d n) s t = ground arith
  sent-driver _ s t = refl
