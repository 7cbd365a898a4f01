-- ===== src/Core/Streams.antt =====
-- host/vhost/core_driver.c, streams and events.
use hm_cuda.Prelude.{ℕ, Option, none, some, ◌==◌, if◌then◌else◌}
use hm_cuda.Cuda.{
  Environment, cu_stream_create, cu_stream_destroy, cu_stream_synchronize, cu_stream_query,
  cu_stream_wait_event, cu_stream_get_ctx, cu_event_create, cu_event_destroy, cu_event_record,
  cu_event_elapsed_time, cuda_success, cuda_error_not_initialized, cuda_error_invalid_handle,
}
use hm_cuda.Backend.{res_context, res_stream, res_event, M, pure, ◌>>=◌, ◌>>◌, perform}
use hm_cuda.Resource.{hmcuda_res_add, hmcuda_res_get, hmcuda_res_remove, hmcuda_res_get_handle}
use hm_cuda.Core.{with_ctx, resolve_stream}

module _ (env : Environment) (sid vid : ℕ) where
  unfoldable pub hmcuda_core_cu_stream_create : ℕ → M (ℕ × Option ℕ)
  hmcuda_core_cu_stream_create flags =
      with_ctx sid vid (cuda_error_not_initialized, none)
        do
          r ← perform env (cu_stream_create flags)
          if r.status == cuda_success
              then (do h ← hmcuda_res_add sid vid res_stream (r.out 0) 0; pure (r.status, some h))
              else pure (r.status, none)

  unfoldable pub hmcuda_core_cu_stream_destroy : ℕ → M ℕ
  hmcuda_core_cu_stream_destroy stream_handle = with_ctx sid vid cuda_error_not_initialized do
    stream ← hmcuda_res_get sid vid res_stream stream_handle
    if stream == 0 then pure cuda_error_invalid_handle else do
      r ← perform env (cu_stream_destroy stream)
      hmcuda_res_remove sid vid res_stream stream_handle
      pure r.status

  unfoldable pub hmcuda_core_cu_stream_synchronize : ℕ → M ℕ
  hmcuda_core_cu_stream_synchronize stream_handle = with_ctx sid vid cuda_error_not_initialized do
    stream ← resolve_stream sid vid stream_handle
    r ← perform env (cu_stream_synchronize stream)
    pure r.status

  unfoldable pub hmcuda_core_cu_stream_query : ℕ → M ℕ
  hmcuda_core_cu_stream_query stream_handle = with_ctx sid vid cuda_error_not_initialized do
    stream ← hmcuda_res_get sid vid res_stream stream_handle
    r ← perform env (cu_stream_query stream)
    pure r.status

  unfoldable pub hmcuda_core_cu_stream_wait_event : ℕ → ℕ → ℕ → M ℕ
  hmcuda_core_cu_stream_wait_event stream_handle event_handle flags =
      with_ctx sid vid cuda_error_not_initialized do
        stream ← hmcuda_res_get sid vid res_stream stream_handle
        event ← hmcuda_res_get sid vid res_event event_handle
        r ← perform env (cu_stream_wait_event stream event flags)
        pure r.status

  -- A context that is not tracked yet is added.
  unfoldable pub hmcuda_core_cu_stream_get_ctx : ℕ → M (ℕ × Option ℕ)
  hmcuda_core_cu_stream_get_ctx stream_handle =
      with_ctx sid vid (cuda_error_not_initialized, none)
        do
          stream ← hmcuda_res_get sid vid res_stream stream_handle
          r ← perform env (cu_stream_get_ctx stream)
          if r.status == cuda_success
              then (do
                known ← hmcuda_res_get_handle sid vid res_context (r.out 0)
                if known == 0
                    then (do
                      h ← hmcuda_res_add sid vid res_context (r.out 0) 0
                      pure (r.status, some h))
                    else pure (r.status, some known))
              else pure (r.status, none)

  unfoldable pub hmcuda_core_cu_event_create : ℕ → M (ℕ × Option ℕ)
  hmcuda_core_cu_event_create flags =
      with_ctx sid vid (cuda_error_not_initialized, none)
        do
          r ← perform env (cu_event_create flags)
          if r.status == cuda_success
              then (do h ← hmcuda_res_add sid vid res_event (r.out 0) 0; pure (r.status, some h))
              else pure (r.status, none)

  unfoldable pub hmcuda_core_cu_event_destroy : ℕ → M ℕ
  hmcuda_core_cu_event_destroy event_handle = with_ctx sid vid cuda_error_not_initialized do
    event ← hmcuda_res_get sid vid res_event event_handle
    if event == 0 then pure cuda_error_invalid_handle else do
      r ← perform env (cu_event_destroy event)
      hmcuda_res_remove sid vid res_event event_handle
      pure r.status

  unfoldable pub hmcuda_core_cu_event_record : ℕ → ℕ → M ℕ
  hmcuda_core_cu_event_record event_handle stream_handle =
      with_ctx sid vid cuda_error_not_initialized do
        event ← hmcuda_res_get sid vid res_event event_handle
        stream ← hmcuda_res_get sid vid res_stream stream_handle
        r ← perform env (cu_event_record event stream)
        pure r.status

  -- What the library leaves in `*ms` is its bit pattern.
  unfoldable pub hmcuda_core_cu_event_elapsed_time : ℕ → ℕ → M (ℕ × Option ℕ)
  hmcuda_core_cu_event_elapsed_time start_handle end_handle =
      with_ctx sid vid (cuda_error_not_initialized, none)
        do
          start ← hmcuda_res_get sid vid res_event start_handle
          end ← hmcuda_res_get sid vid res_event end_handle
          r ← perform env (cu_event_elapsed_time start end)
          pure (r.status, some (r.out 0))
