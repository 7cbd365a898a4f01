-- ===== src/Core/Vmm.antt =====
-- host/vhost/core_driver.c, virtual memory management and multicast objects.
use hm_cuda.Prelude.{ℕ, List, [], ◌∷◌, Option, none, some, ◌==◌, ◌||◌, if◌then◌else◌}
use hm_cuda.Cuda.{
  Environment, cu_mem_create, cu_mem_release, cu_mem_map, cu_mem_unmap, cu_mem_address_reserve,
  cu_mem_address_free, cu_mem_set_access, cu_mem_export_to_shareable_handle,
  cu_mem_import_from_shareable_handle, cu_multicast_create, cu_multicast_add_device,
  cu_multicast_bind_mem, cu_multicast_unbind, cuda_success, cuda_error_not_initialized,
  cuda_error_invalid_value,
}
use hm_cuda.Backend.{res_mem, res_generic_alloc, M, pure, ◌>>=◌, ◌>>◌, perform}
use hm_cuda.Resource.{hmcuda_res_add, hmcuda_res_add_with_handle, hmcuda_res_get, hmcuda_res_remove}
use hm_cuda.Core.{with_ctx}

module _ (env : Environment) (sid vid : ℕ) where
  -- A property record is passed through as the list of its fields.
  unfoldable pub hmcuda_core_cu_mem_create : ℕ → List ℕ → ℕ → M (ℕ × Option ℕ)
  hmcuda_core_cu_mem_create size prop flags =
      with_ctx sid vid (cuda_error_not_initialized, none)
        do
          r ← perform env (cu_mem_create size prop flags)
          if r.status == cuda_success
              then (do
                h ← hmcuda_res_add sid vid res_generic_alloc (r.out 0) size
                pure (r.status, some h))
              else pure (r.status, none)

  unfoldable pub hmcuda_core_cu_mem_release : ℕ → M ℕ
  hmcuda_core_cu_mem_release handle = with_ctx sid vid cuda_error_not_initialized do
    raw ← hmcuda_res_get sid vid res_generic_alloc handle
    if raw == 0 then pure cuda_error_invalid_value else do
      r ← perform env (cu_mem_release raw)
      hmcuda_res_remove sid vid res_generic_alloc handle
      pure r.status

  unfoldable pub hmcuda_core_cu_mem_map : ℕ → ℕ → ℕ → ℕ → ℕ → M ℕ
  hmcuda_core_cu_mem_map va_handle size offset alloc_handle flags =
      with_ctx sid vid cuda_error_not_initialized do
        va ← hmcuda_res_get sid vid res_mem va_handle
        alloc ← hmcuda_res_get sid vid res_generic_alloc alloc_handle
        if va == 0
            then pure cuda_error_invalid_value
            else do r ← perform env (cu_mem_map va size offset alloc flags); pure r.status

  unfoldable pub hmcuda_core_cu_mem_unmap : ℕ → ℕ → M ℕ
  hmcuda_core_cu_mem_unmap va_handle size = with_ctx sid vid cuda_error_not_initialized do
    va ← hmcuda_res_get sid vid res_mem va_handle
    if va == 0
        then pure cuda_error_invalid_value
        else do r ← perform env (cu_mem_unmap va size); pure r.status

  unfoldable pub hmcuda_core_cu_mem_address_reserve : ℕ → ℕ → ℕ → ℕ → M (ℕ × Option ℕ)
  hmcuda_core_cu_mem_address_reserve size alignment addr_hint flags =
      with_ctx sid vid (cuda_error_not_initialized, none)
        do
          r ← perform env (cu_mem_address_reserve size alignment addr_hint flags)
          if r.status == cuda_success
              then (do
                hmcuda_res_add_with_handle sid vid res_mem (r.out 0) size (r.out 0)
                pure (r.status, some (r.out 0)))
              else pure (r.status, none)

  unfoldable pub hmcuda_core_cu_mem_address_free : ℕ → ℕ → M ℕ
  hmcuda_core_cu_mem_address_free va_handle size = with_ctx sid vid cuda_error_not_initialized do
    va ← hmcuda_res_get sid vid res_mem va_handle
    if va == 0 then pure cuda_error_invalid_value else do
      r ← perform env (cu_mem_address_free va size)
      hmcuda_res_remove sid vid res_mem va_handle
      pure r.status

  unfoldable pub hmcuda_core_cu_mem_set_access : ℕ → ℕ → List (List ℕ) → M ℕ
  hmcuda_core_cu_mem_set_access va_handle size descs =
      with_ctx sid vid cuda_error_not_initialized do
        va ← hmcuda_res_get sid vid res_mem va_handle
        if va == 0
            then pure cuda_error_invalid_value
            else do r ← perform env (cu_mem_set_access va size descs); pure r.status

  -- The library writes the shareable handle: eight words of the 64 bytes.
  unfoldable pub hmcuda_core_cu_mem_export : ℕ → ℕ → ℕ → M (ℕ × Option (List ℕ))
  hmcuda_core_cu_mem_export alloc_handle handle_type flags =
      with_ctx sid vid (cuda_error_not_initialized, none)
        do
          raw ← hmcuda_res_get sid vid res_generic_alloc alloc_handle
          if raw == 0 then pure (cuda_error_invalid_value, none) else do
            r ← perform env (cu_mem_export_to_shareable_handle raw handle_type flags)
            pure (
              r.status,
              some (
                  r.out 0
                  ∷ r.out 1
                  ∷ r.out 2
                  ∷ r.out 3
                  ∷ r.out 4
                  ∷ r.out 5
                  ∷ r.out 6
                  ∷ r.out 7
                  ∷ []),
            )

  unfoldable pub hmcuda_core_cu_mem_import : List ℕ → ℕ → M (ℕ × Option ℕ)
  hmcuda_core_cu_mem_import shareable_handle handle_type =
      with_ctx sid vid (cuda_error_not_initialized, none)
        do
          r ← perform env (cu_mem_import_from_shareable_handle shareable_handle handle_type)
          if r.status == cuda_success
              then (do
                h ← hmcuda_res_add sid vid res_generic_alloc (r.out 0) 0
                pure (r.status, some h))
              else pure (r.status, none)

  unfoldable pub hmcuda_core_cu_multicast_create : List ℕ → M (ℕ × Option ℕ)
  hmcuda_core_cu_multicast_create prop =
      with_ctx sid vid (cuda_error_not_initialized, none)
        do
          r ← perform env (cu_multicast_create prop)
          if r.status == cuda_success
              then (do
                h ← hmcuda_res_add sid vid res_generic_alloc (r.out 0) 0
                pure (r.status, some h))
              else pure (r.status, none)

  unfoldable pub hmcuda_core_cu_multicast_add_device : ℕ → ℕ → M ℕ
  hmcuda_core_cu_multicast_add_device mc_handle device =
      with_ctx sid vid cuda_error_not_initialized do
        raw ← hmcuda_res_get sid vid res_generic_alloc mc_handle
        if raw == 0
            then pure cuda_error_invalid_value
            else do r ← perform env (cu_multicast_add_device raw device); pure r.status

  unfoldable pub hmcuda_core_cu_multicast_bind_mem : ℕ → ℕ → ℕ → ℕ → ℕ → ℕ → M ℕ
  hmcuda_core_cu_multicast_bind_mem mc_handle mc_offset mem_handle mem_offset size flags =
      with_ctx sid vid cuda_error_not_initialized do
        mc_raw ← hmcuda_res_get sid vid res_generic_alloc mc_handle
        mem_raw ← hmcuda_res_get sid vid res_generic_alloc mem_handle
        if mc_raw == 0 || mem_raw == 0 then pure cuda_error_invalid_value else do
          r ← perform env (cu_multicast_bind_mem mc_raw mc_offset mem_raw mem_offset size flags)
          pure r.status

  unfoldable pub hmcuda_core_cu_multicast_unbind : ℕ → ℕ → ℕ → ℕ → M ℕ
  hmcuda_core_cu_multicast_unbind mc_handle device mc_offset size =
      with_ctx sid vid cuda_error_not_initialized do
        mc_raw ← hmcuda_res_get sid vid res_generic_alloc mc_handle
        if mc_raw == 0 then pure cuda_error_invalid_value else do
          r ← perform env (cu_multicast_unbind mc_raw device mc_offset size)
          pure r.status
