-- ===== src/Core/Alloc.antt =====
-- host/vhost/core_driver.c, memory allocation.
use Prim.Native.Nat.{bit_or}
use hm_cuda.Prelude.{ℕ, Option, none, some, ◌==◌, if◌then◌else◌, add64}
use hm_cuda.Cuda.{
  Environment, cu_mem_alloc, cu_mem_free, cu_mem_host_alloc, cu_mem_host_get_device_pointer,
  cu_mem_free_host, cu_memset_d32, cuda_success, cuda_error_not_initialized,
  cuda_error_invalid_value,
}
use hm_cuda.Backend.{res_mem, res_host_mem, res_host_dev_ptr, M, pure, ◌>>=◌, ◌>>◌, perform, memcpy}
use hm_cuda.Resource.{hmcuda_res_add_with_handle, hmcuda_res_get, hmcuda_res_remove}
use hm_cuda.Core.{with_ctx}

-- CU_MEMHOSTALLOC_DEVICEMAP
abbrev pub devicemap : ℕ
devicemap = 2

module _ (env : Environment) (sid vid : ℕ) where
  -- The handle of a device allocation is its device address.
  unfoldable pub hmcuda_core_cu_mem_alloc : ℕ → M (ℕ × Option ℕ)
  hmcuda_core_cu_mem_alloc bytesize =
      with_ctx sid vid (cuda_error_not_initialized, none)
        do
          r ← perform env (cu_mem_alloc bytesize)
          if r.status == cuda_success
              then (do
                hmcuda_res_add_with_handle sid vid res_mem (r.out 0) bytesize (r.out 0)
                pure (r.status, some (r.out 0)))
              else pure (r.status, none)

  unfoldable pub hmcuda_core_cu_mem_free : ℕ → M ℕ
  hmcuda_core_cu_mem_free handle = with_ctx sid vid cuda_error_not_initialized do
    real_ptr ← hmcuda_res_get sid vid res_mem handle
    if real_ptr == 0 then pure cuda_error_invalid_value else do
      r ← perform env (cu_mem_free real_ptr)
      hmcuda_res_remove sid vid res_mem handle
      pure r.status

  -- Copies one batch to its place in the pinned buffer.
  unfoldable pub copy_batch : ℕ → ℕ → ℕ → ℕ → M ℕ
  copy_batch guest_va byte_offset host_ptr batch_size = do
    real_ptr ← hmcuda_res_get sid vid res_host_mem guest_va
    if real_ptr == 0
        then pure cuda_error_invalid_value
        else do memcpy (add64 real_ptr byte_offset) host_ptr batch_size; pure cuda_success

  -- Registers a new pinned buffer under the guest's address, and its device pointer if there is one.
  unfoldable pub register_pinned : ℕ → ℕ → ℕ → M ℕ
  register_pinned real_ptr bytesize guest_va = do
    hmcuda_res_add_with_handle sid vid res_host_mem real_ptr bytesize guest_va
    r ← perform env (cu_mem_host_get_device_pointer real_ptr)
    if r.status == cuda_success
        then hmcuda_res_add_with_handle sid vid res_host_dev_ptr (r.out 0) bytesize guest_va
        else pure 0

  -- The first batch, at offset 0, allocates.
  unfoldable pub hmcuda_core_cu_mem_host_alloc_vq : ℕ → ℕ → ℕ → ℕ → ℕ → ℕ → M ℕ
  unfolding copy_batch register_pinned
  hmcuda_core_cu_mem_host_alloc_vq bytesize flags guest_va byte_offset host_ptr batch_size =
      with_ctx sid vid cuda_error_not_initialized (
        if byte_offset == 0
        then (do
          r ← perform env (cu_mem_host_alloc bytesize (bit_or flags devicemap))
          if r.status == cuda_success
              then (do
                register_pinned (r.out 0) bytesize guest_va
                copy_batch guest_va byte_offset host_ptr batch_size)
              else pure r.status)
        else copy_batch guest_va byte_offset host_ptr batch_size)

  unfoldable pub hmcuda_core_cu_mem_free_host : ℕ → M ℕ
  hmcuda_core_cu_mem_free_host guest_va = with_ctx sid vid cuda_error_not_initialized do
    real_ptr ← hmcuda_res_get sid vid res_host_mem guest_va
    if real_ptr == 0 then pure cuda_error_invalid_value else do
      r ← perform env (cu_mem_free_host real_ptr)
      hmcuda_res_remove sid vid res_host_mem guest_va
      hmcuda_res_remove sid vid res_host_dev_ptr guest_va
      pure r.status

  unfoldable pub hmcuda_core_cu_memset_d32 : ℕ → ℕ → ℕ → M ℕ
  hmcuda_core_cu_memset_d32 dptr_handle value count = with_ctx sid vid cuda_error_not_initialized do
    real_ptr ← hmcuda_res_get sid vid res_mem dptr_handle
    if real_ptr == 0
        then pure cuda_error_invalid_value
        else do r ← perform env (cu_memset_d32 real_ptr value count); pure r.status
