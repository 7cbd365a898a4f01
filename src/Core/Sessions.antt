-- ===== src/Core/Sessions.antt =====
-- host/vhost/core_driver.c, context management, and hmcuda_core_init of core_runtime.c. A function
-- with an out-parameter returns the status and what it wrote there, `none` if nothing.
use hm_cuda.Prelude.{ℕ, Option, none, some, ◌==◌, if◌then◌else◌}
use hm_cuda.Cuda.{
  Environment, Reply, cu_init, cuda_set_device, cuda_free, cuda_device_reset,
  cu_device_primary_ctx_retain, cu_device_primary_ctx_release, cu_ctx_set_current,
  cu_ctx_enable_peer_access, cu_get_error_string, cuda_success, cuda_error_not_initialized,
  cuda_error_initialization_error,
}
use hm_cuda.Backend.{res_context, M, pure, ◌>>=◌, ◌>>◌, perform}
use hm_cuda.Resource.{hmcuda_res_add, hmcuda_res_get}
use hm_cuda.Core.{with_ctx, renew_session, sign_extend, hmcuda_register_guest_memory}

module _ (env : Environment) (sid vid : ℕ) where
  -- The device ordinal stands in the size field.
  unfoldable pub keep_primary : ℕ → Reply → M (ℕ × Option ℕ)
  keep_primary device r = do
    handle ← hmcuda_res_add sid vid res_context (r.out 0) (sign_extend device)
    hmcuda_register_guest_memory env
    pure (r.status, some handle)

  unfoldable pub retry_retain : ℕ → M (ℕ × Option ℕ)
  unfolding keep_primary
  retry_retain device = do
    perform env cuda_device_reset
    renew_session env sid vid
    r ← perform env (cu_device_primary_ctx_retain device)
    if r.status == cuda_success then keep_primary device r else pure (r.status, none)

  -- After a failed retain the device is reset, the session's tables are thrown away, and the retain
  -- is tried once more.
  unfoldable pub hmcuda_core_cu_device_primary_ctx_retain : ℕ → M (ℕ × Option ℕ)
  unfolding keep_primary retry_retain
  hmcuda_core_cu_device_primary_ctx_retain device =
      with_ctx sid vid (cuda_error_not_initialized, none)
        do
          r ← perform env (cu_device_primary_ctx_retain device)
          if r.status == cuda_success then keep_primary device r else retry_retain device

  unfoldable pub hmcuda_core_cu_device_primary_ctx_release : ℕ → M ℕ
  hmcuda_core_cu_device_primary_ctx_release device = do
    r ← perform env (cu_device_primary_ctx_release device)
    pure r.status

  unfoldable pub hmcuda_core_cu_ctx_set_current : ℕ → M ℕ
  hmcuda_core_cu_ctx_set_current ctx_handle = with_ctx sid vid cuda_error_not_initialized do
    real_ctx ← hmcuda_res_get sid vid res_context ctx_handle
    r ← perform env (cu_ctx_set_current real_ctx)
    pure r.status

  unfoldable pub hmcuda_core_cu_ctx_enable_peer_access : ℕ → ℕ → M ℕ
  hmcuda_core_cu_ctx_enable_peer_access peer_ctx_handle flags =
      with_ctx sid vid cuda_error_not_initialized do
        peer ← hmcuda_res_get sid vid res_context peer_ctx_handle
        r ← perform env (cu_ctx_enable_peer_access peer flags)
        pure r.status

  -- The first cudaFree(0) forces the context; if it fails the device is reset and set again, once.
  unfoldable pub force_context : M ℕ
  force_context = do
    r ← perform env (cuda_free 0)
    if r.status == cuda_success then pure r.status else do
      perform env cuda_device_reset
      d ← perform env (cuda_set_device 0)
      if d.status == cuda_success
          then (do f ← perform env (cuda_free 0); pure f.status)
          else pure d.status

  unfoldable pub hmcuda_core_init : M ℕ
  unfolding force_context
  hmcuda_core_init = do
    renew_session env sid vid
    i ← perform env (cu_init 0)
    if i.status == cuda_success
        then (do
          d ← perform env (cuda_set_device 0)
          if d.status == cuda_success then force_context else pure d.status)
        else (do perform env (cu_get_error_string i.status); pure cuda_error_initialization_error)
