-- ===== src/Core/Runtime.antt =====
-- host/vhost/core_runtime.c: memory, streams, events and devices of the runtime API. Its code for a
-- missing session is 999, but for the copies.
use hm_cuda.Prelude.{ℕ, Option, none, some, ◌==◌, if◌then◌else◌}
use hm_cuda.Cuda.{
  Environment, Source, at, staged, host_malloc, cuda_malloc, cuda_free, cuda_memset,
  cu_memcpy_htod_async, cu_memcpy_dtoh_async, cu_memcpy_async, cu_stream_synchronize,
  cuda_stream_create_with_flags, cuda_stream_synchronize, cuda_event_create_with_flags,
  cuda_event_record, cuda_event_synchronize, cuda_event_elapsed_time, cuda_event_destroy,
  cuda_device_synchronize, cuda_get_device_count, cuda_set_device, cuda_runtime_get_version,
  cuda_success, cuda_error_invalid_value, cuda_error_not_initialized, cuda_error_out_of_memory,
  unknown_error,
}
use hm_cuda.Backend.{res_mem, res_stream, res_event, M, pure, ◌>>=◌, ◌>>◌, perform}
use hm_cuda.Resource.{hmcuda_res_add, hmcuda_res_add_with_handle, hmcuda_res_get, hmcuda_res_remove}
use hm_cuda.Core.{with_ctx, resolve_stream}
use hm_cuda.Core.Copy.{needs_patch, patched}

module _ (env : Environment) (sid vid : ℕ) where
  unfoldable pub hmcuda_core_malloc : ℕ → M (ℕ × Option ℕ)
  hmcuda_core_malloc size =
      with_ctx sid vid (unknown_error, none)
        do
          r ← perform env (cuda_malloc size)
          if r.status == cuda_success
              then (do
                hmcuda_res_add_with_handle sid vid res_mem (r.out 0) size (r.out 0)
                pure (r.status, some (r.out 0)))
              else pure (r.status, some 0)

  unfoldable pub hmcuda_core_free : ℕ → M ℕ
  hmcuda_core_free dev_ptr = with_ctx sid vid unknown_error do
    real_ptr ← hmcuda_res_get sid vid res_mem dev_ptr
    if real_ptr == 0 then pure cuda_error_invalid_value else do
      r ← perform env (cuda_free real_ptr)
      hmcuda_res_remove sid vid res_mem dev_ptr
      pure r.status

  -- A copy and, if it was accepted, a wait for the stream.
  unfoldable pub send_and_wait : ℕ → Source → ℕ → ℕ → M ℕ
  send_and_wait real_dst source count stream = do
    r ← perform env (cu_memcpy_htod_async real_dst source count stream)
    if r.status == cuda_success
        then (do w ← perform env (cu_stream_synchronize stream); pure w.status)
        else pure r.status

  unfoldable pub memcpy_to_device : ℕ → ℕ → ℕ → ℕ → M ℕ
  unfolding send_and_wait
  memcpy_to_device dst count host_ptr stream = do
    real_dst ← hmcuda_res_get sid vid res_mem dst
    if real_dst == 0
        then pure cuda_error_invalid_value
        else if host_ptr == 0
        then pure cuda_error_invalid_value
        else do
          needs ← needs_patch env sid vid host_ptr count
          if needs
              then (do
                m ← perform env (host_malloc count)
                if m.status == cuda_success
                    then (do
                      bytes ← patched env sid vid host_ptr count
                      send_and_wait real_dst (staged bytes) count stream)
                    else pure cuda_error_out_of_memory)
              else send_and_wait real_dst (at host_ptr) count stream

  unfoldable pub memcpy_to_host : ℕ → ℕ → ℕ → ℕ → M ℕ
  memcpy_to_host src count host_ptr stream = do
    real_src ← hmcuda_res_get sid vid res_mem src
    if real_src == 0
        then pure cuda_error_invalid_value
        else if host_ptr == 0
        then pure cuda_error_invalid_value
        else do r ← perform env (cu_memcpy_dtoh_async host_ptr real_src count stream); pure r.status

  unfoldable pub memcpy_on_device : ℕ → ℕ → ℕ → ℕ → M ℕ
  memcpy_on_device dst src count stream = do
    real_dst ← hmcuda_res_get sid vid res_mem dst
    if real_dst == 0 then pure cuda_error_invalid_value else do
      real_src ← hmcuda_res_get sid vid res_mem src
      if real_src == 0
          then pure cuda_error_invalid_value
          else do r ← perform env (cu_memcpy_async real_dst real_src count stream); pure r.status

  -- The kinds are 1, host to device, 2, device to host, and 3, device to device.
  unfoldable pub hmcuda_core_memcpy : ℕ → ℕ → ℕ → ℕ → ℕ → ℕ → M ℕ
  unfolding memcpy_to_device memcpy_to_host memcpy_on_device
  hmcuda_core_memcpy dst src count kind host_ptr stream_handle =
      with_ctx sid vid cuda_error_not_initialized do
        stream ← resolve_stream sid vid stream_handle
        if kind == 1
            then memcpy_to_device dst count host_ptr stream
            else if kind == 2
            then memcpy_to_host src count host_ptr stream
            else if kind == 3
            then memcpy_on_device dst src count stream
            else pure cuda_error_invalid_value

  unfoldable pub hmcuda_core_runtime_memcpy_htod_vq : ℕ → ℕ → ℕ → ℕ → M ℕ
  hmcuda_core_runtime_memcpy_htod_vq dst host_ptr count stream_handle =
      with_ctx sid vid cuda_error_not_initialized (
        if host_ptr == 0 then pure cuda_error_invalid_value else do
          stream ← resolve_stream sid vid stream_handle
          real_dst ← hmcuda_res_get sid vid res_mem dst
          if real_dst == 0 then pure cuda_error_invalid_value else do
            r ← perform env (cu_memcpy_htod_async real_dst (at host_ptr) count stream)
            pure r.status)

  unfoldable pub hmcuda_core_memset : ℕ → ℕ → ℕ → M ℕ
  hmcuda_core_memset dev_ptr value count = with_ctx sid vid unknown_error do
    real_ptr ← hmcuda_res_get sid vid res_mem dev_ptr
    if real_ptr == 0
        then pure cuda_error_invalid_value
        else do r ← perform env (cuda_memset real_ptr value count); pure r.status

  unfoldable pub hmcuda_core_stream_create : ℕ → M (ℕ × Option ℕ)
  hmcuda_core_stream_create flags =
      with_ctx sid vid (unknown_error, none)
        do
          r ← perform env (cuda_stream_create_with_flags flags)
          if r.status == cuda_success
              then (do h ← hmcuda_res_add sid vid res_stream (r.out 0) 0; pure (r.status, some h))
              else pure (r.status, some 0)

  unfoldable pub hmcuda_core_stream_synchronize : ℕ → M ℕ
  hmcuda_core_stream_synchronize stream = with_ctx sid vid unknown_error do
    real_stream ← resolve_stream sid vid stream
    r ← perform env (cuda_stream_synchronize real_stream)
    pure r.status

  unfoldable pub hmcuda_core_event_create : ℕ → M (ℕ × Option ℕ)
  hmcuda_core_event_create flags =
      with_ctx sid vid (unknown_error, none)
        do
          r ← perform env (cuda_event_create_with_flags flags)
          if r.status == cuda_success
              then (do h ← hmcuda_res_add sid vid res_event (r.out 0) 0; pure (r.status, some h))
              else pure (r.status, some 0)

  unfoldable pub hmcuda_core_event_record : ℕ → ℕ → M ℕ
  hmcuda_core_event_record event stream = with_ctx sid vid unknown_error do
    real_event ← hmcuda_res_get sid vid res_event event
    real_stream ← resolve_stream sid vid stream
    r ← perform env (cuda_event_record real_event real_stream)
    pure r.status

  unfoldable pub hmcuda_core_event_synchronize : ℕ → M ℕ
  hmcuda_core_event_synchronize event = with_ctx sid vid unknown_error do
    real_event ← hmcuda_res_get sid vid res_event event
    r ← perform env (cuda_event_synchronize real_event)
    pure r.status

  unfoldable pub hmcuda_core_event_elapsed_time : ℕ → ℕ → M (ℕ × Option ℕ)
  hmcuda_core_event_elapsed_time start end =
      with_ctx sid vid (unknown_error, none)
        do
          real_start ← hmcuda_res_get sid vid res_event start
          real_end ← hmcuda_res_get sid vid res_event end
          r ← perform env (cuda_event_elapsed_time real_start real_end)
          pure (r.status, some (r.out 0))

  unfoldable pub hmcuda_core_event_destroy : ℕ → M ℕ
  hmcuda_core_event_destroy event = with_ctx sid vid unknown_error do
    real_event ← hmcuda_res_get sid vid res_event event
    if real_event == 0 then pure cuda_error_invalid_value else do
      r ← perform env (cuda_event_destroy real_event)
      hmcuda_res_remove sid vid res_event event
      pure r.status

-- These do not look at the session.
module _ (env : Environment) where
  unfoldable pub hmcuda_core_device_synchronize : M ℕ
  hmcuda_core_device_synchronize = do r ← perform env cuda_device_synchronize; pure r.status

  unfoldable pub hmcuda_core_get_device_count : M (ℕ × Option ℕ)
  hmcuda_core_get_device_count = do
    r ← perform env cuda_get_device_count
    pure (r.status, some (r.out 0))

  unfoldable pub hmcuda_core_set_device : ℕ → M ℕ
  hmcuda_core_set_device device = do r ← perform env (cuda_set_device device); pure r.status

  unfoldable pub hmcuda_core_runtime_get_version : M (ℕ × Option ℕ)
  hmcuda_core_runtime_get_version = do
    r ← perform env cuda_runtime_get_version
    pure (r.status, some (r.out 0))
