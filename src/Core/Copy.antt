-- ===== src/Core/Copy.antt =====
-- host/vhost/core_driver.c, memory copies and pointer queries.
use hm_cuda.Prelude.{ℕ, Bool, ◌||◌, List, Option, none, some, ◌==◌, if◌then◌else◌}
use hm_cuda.Cuda.{
  Environment, at, host_malloc, cu_memcpy_async, cu_memcpy_htod_async, cu_memcpy_dtoh_async,
  cu_memcpy_htod, cu_memcpy_dtoh, cu_pointer_get_attribute, cuda_success,
  cuda_error_not_initialized, cuda_error_invalid_value, cuda_error_out_of_memory,
}
use hm_cuda.Backend.{
  res_mem, res_stream, res_host_mem, M, pure, ◌>>=◌, ◌>>◌, perform, memcpy, memcpy_buffer, load,
}
use hm_cuda.Resource.{hmcuda_res_get, resources_of}
use hm_cuda.Resource.Patch.{hmcuda_buffer_needs_host_ptr_patch, hmcuda_patch_embedded_host_ptrs}
use hm_cuda.Core.{with_ctx, resolve_any_mem, resolve_stream}

module _ (env : Environment) (sid vid : ℕ) where
  -- The two functions of resource.c that scan a buffer at a host address.
  unfoldable pub needs_patch : ℕ → ℕ → M Bool
  needs_patch host_ptr bytesize s = (
    hmcuda_buffer_needs_host_ptr_patch (resources_of sid vid res_host_mem s)
        (load host_ptr bytesize s).0,
    s,
  )

  unfoldable pub patched : ℕ → ℕ → M (List ℕ)
  patched host_ptr bytesize s = (
    hmcuda_patch_embedded_host_ptrs (resources_of sid vid res_host_mem s)
        (load host_ptr bytesize s).0,
    s,
  )

  unfoldable pub hmcuda_core_cu_memcpy_async : ℕ → ℕ → ℕ → ℕ → M ℕ
  hmcuda_core_cu_memcpy_async dst_handle src_handle bytesize stream_handle =
      with_ctx sid vid cuda_error_not_initialized do
        dst ← resolve_any_mem sid vid dst_handle
        src ← resolve_any_mem sid vid src_handle
        stream ← hmcuda_res_get sid vid res_stream stream_handle
        if dst == 0 || src == 0
            then pure cuda_error_invalid_value
            else do r ← perform env (cu_memcpy_async dst src bytesize stream); pure r.status

  -- A copy into pinned host memory, whose embedded guest pointers are translated first.
  unfoldable pub fill_pinned : ℕ → ℕ → ℕ → M ℕ
  fill_pinned dst host_ptr bytesize = do
    needs ← needs_patch host_ptr bytesize
    if needs
        then (do
          m ← perform env (host_malloc bytesize)
          if m.status == cuda_success
              then (do
                bytes ← patched host_ptr bytesize
                memcpy_buffer dst bytes
                pure cuda_success)
              else pure cuda_error_out_of_memory)
        else memcpy dst host_ptr bytesize >> pure cuda_success

  -- Device memory first, then pinned host memory.
  unfoldable pub hmcuda_core_cu_memcpy_htod_vq : ℕ → ℕ → ℕ → ℕ → M ℕ
  unfolding fill_pinned needs_patch patched
  hmcuda_core_cu_memcpy_htod_vq dst_handle host_ptr bytesize stream_handle =
      with_ctx sid vid cuda_error_not_initialized (
        if host_ptr == 0 then pure cuda_error_invalid_value else do
          stream ← resolve_stream sid vid stream_handle
          dst ← hmcuda_res_get sid vid res_mem dst_handle
          if dst == 0
              then (do
                pinned ← hmcuda_res_get sid vid res_host_mem dst_handle
                if pinned == 0
                    then pure cuda_error_invalid_value
                    else fill_pinned pinned host_ptr bytesize)
              else (do
                r ← perform env (cu_memcpy_htod_async dst (at host_ptr) bytesize stream)
                pure r.status))

  -- NULL (0) where the session or the allocation is missing.
  unfoldable pub hmcuda_core_get_host_mem_staging : ℕ → M ℕ
  hmcuda_core_get_host_mem_staging guest_dst_va =
      with_ctx sid vid 0 (hmcuda_res_get sid vid res_host_mem guest_dst_va)

  unfoldable pub hmcuda_core_cu_memcpy_dtoh_staged : ℕ → ℕ → ℕ → ℕ → M ℕ
  hmcuda_core_cu_memcpy_dtoh_staged src_handle staging_ptr bytesize stream_handle =
      with_ctx sid vid cuda_error_not_initialized do
        stream ← resolve_stream sid vid stream_handle
        src ← hmcuda_res_get sid vid res_mem src_handle
        if src == 0 || staging_ptr == 0 then pure cuda_error_invalid_value else do
          r ← perform env (cu_memcpy_dtoh_async staging_ptr src bytesize stream)
          pure r.status

  unfoldable pub hmcuda_core_cu_memcpy_dtoh_staged_sync : ℕ → ℕ → ℕ → M ℕ
  hmcuda_core_cu_memcpy_dtoh_staged_sync src_handle staging_ptr bytesize =
      with_ctx sid vid cuda_error_not_initialized do
        src ← hmcuda_res_get sid vid res_mem src_handle
        if src == 0 || staging_ptr == 0
            then pure cuda_error_invalid_value
            else do r ← perform env (cu_memcpy_dtoh staging_ptr src bytesize); pure r.status

  unfoldable pub hmcuda_core_cu_memcpy_dtoh_vq : ℕ → ℕ → ℕ → ℕ → M ℕ
  hmcuda_core_cu_memcpy_dtoh_vq src_handle host_ptr bytesize stream_handle =
      with_ctx sid vid cuda_error_not_initialized do
        stream ← resolve_stream sid vid stream_handle
        device ← hmcuda_res_get sid vid res_mem src_handle
        src ← resolve_any_mem sid vid src_handle
        if src == 0 || host_ptr == 0
            then pure cuda_error_invalid_value
            else if device == 0
            then memcpy host_ptr src bytesize >> pure cuda_success
            else (do
              r ← perform env (cu_memcpy_dtoh_async host_ptr src bytesize stream)
              pure r.status)

  unfoldable pub hmcuda_core_cu_memcpy_htod : ℕ → ℕ → ℕ → M ℕ
  hmcuda_core_cu_memcpy_htod dst_handle src_handle bytesize =
      with_ctx sid vid cuda_error_not_initialized do
        dst ← hmcuda_res_get sid vid res_mem dst_handle
        src ← hmcuda_res_get sid vid res_host_mem src_handle
        if dst == 0 || src == 0
            then pure cuda_error_invalid_value
            else do r ← perform env (cu_memcpy_htod dst src bytesize); pure r.status

  unfoldable pub hmcuda_core_cu_pointer_get_attribute : ℕ → ℕ → M (ℕ × Option ℕ)
  hmcuda_core_cu_pointer_get_attribute attrib ptr_handle =
      with_ctx sid vid (cuda_error_not_initialized, none)
        do
          real_ptr ← resolve_any_mem sid vid ptr_handle
          if real_ptr == 0 then pure (cuda_error_invalid_value, none) else do
            r ← perform env (cu_pointer_get_attribute attrib real_ptr)
            pure (r.status, some (r.out 0))
