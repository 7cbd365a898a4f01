-- ===== src/Guest/Runtime.antt =====
-- guest/intercept/hmcuda_runtime.cpp: dispatching, memory, streams, events and devices.
use hm_cuda.Prelude.{ℕ, Bool, []}
use hm_cuda.Command
use hm_cuda.Command.{Request, driver, runtime, MemcpyReq, HostAllocReq}
use hm_cuda.Wire.{Struct}
use hm_cuda.Wire.Runtime.{
  hmcuda_device_synchronize_req, hmcuda_event_create_req, hmcuda_event_create_resp,
  hmcuda_event_destroy_req, hmcuda_event_elapsed_time_req, hmcuda_event_elapsed_time_resp,
  hmcuda_event_record_req, hmcuda_event_synchronize_req, hmcuda_free_req,
  hmcuda_get_device_count_resp, hmcuda_malloc_req, hmcuda_malloc_resp, hmcuda_memcpy_req,
  hmcuda_memset_req, hmcuda_runtime_get_version_resp, hmcuda_set_device_req,
  hmcuda_stream_create_req, hmcuda_stream_create_resp, hmcuda_stream_synchronize_req,
}
use hm_cuda.Guest.{System, G, Done, done, Status, ◌>>=◌, ◌>>◌, pure, modify}
use hm_cuda.Guest.Transport.{
  Reply, hmcuda_transport_init, hmcuda_transport_fini, hmcuda_transport_dispatch,
}
use hm_cuda.Guest.Dispatch.{hmcuda_forward, hmcuda_forward_resp}

abbrev pub set_last_error : ℕ → G Done
set_last_error e = modify (λ p. record p { last_error = e })

unfoldable pub hmcuda_dispatch : System → Request → ℕ → ℕ → G Reply
unfolding hmcuda_transport_dispatch
hmcuda_dispatch sys r req_len resp_len = do
  rep ← hmcuda_transport_dispatch sys r req_len resp_len
  set_last_error rep.0
  pure rep

unfoldable pub rt_fwd : System → Request → Struct → G ℕ
unfolding hmcuda_forward hmcuda_dispatch
rt_fwd sys = hmcuda_forward (hmcuda_dispatch sys)

unfoldable pub rt_fwd_resp : System → Request → Struct → Struct → Bool → G Status
unfolding hmcuda_forward_resp hmcuda_dispatch
rt_fwd_resp sys = hmcuda_forward_resp (hmcuda_dispatch sys)

unfoldable pub hmcuda_runtime_init : System → G Done
unfolding hmcuda_transport_init rt_fwd
hmcuda_runtime_init sys = do
  hmcuda_transport_init sys
  rt_fwd sys (runtime Command.init) []
  pure done

unfoldable pub hmcuda_runtime_fini : G Done
unfolding hmcuda_transport_fini
hmcuda_runtime_fini = hmcuda_transport_fini

unfoldable pub cuda_malloc : System → Bool → ℕ → G Status
unfolding rt_fwd_resp
cuda_malloc sys given n =
    rt_fwd_resp sys (runtime (Command.malloc n)) hmcuda_malloc_req hmcuda_malloc_resp given

unfoldable pub cuda_free : System → ℕ → G ℕ
unfolding rt_fwd
cuda_free sys dev_ptr = rt_fwd sys (runtime (Command.free dev_ptr)) hmcuda_free_req

unfoldable pub cuda_memcpy : System → ℕ → ℕ → ℕ → ℕ → G ℕ
unfolding rt_fwd
cuda_memcpy sys dst src count kind =
    rt_fwd sys
      (runtime (
        Command.memcpy_cmd
          (record { dst = dst; src = src; count = count; kind = kind; stream = 0 })))
      hmcuda_memcpy_req

unfoldable pub cuda_memset : System → ℕ → ℕ → ℕ → G ℕ
unfolding rt_fwd
cuda_memset sys dev_ptr value count =
    rt_fwd sys (runtime (Command.memset dev_ptr value count)) hmcuda_memset_req

unfoldable pub cuda_stream_create : System → Bool → G Status
unfolding rt_fwd_resp
cuda_stream_create sys given =
    rt_fwd_resp sys (runtime (Command.stream_create 0)) hmcuda_stream_create_req
      hmcuda_stream_create_resp given

unfoldable pub cuda_stream_synchronize : System → ℕ → G ℕ
unfolding rt_fwd
cuda_stream_synchronize sys stream =
    rt_fwd sys (runtime (Command.stream_synchronize stream)) hmcuda_stream_synchronize_req

unfoldable pub cuda_event_create : System → Bool → G Status
unfolding rt_fwd_resp
cuda_event_create sys given =
    rt_fwd_resp sys (runtime (Command.event_create 0)) hmcuda_event_create_req
      hmcuda_event_create_resp given

unfoldable pub cuda_event_record : System → ℕ → ℕ → G ℕ
unfolding rt_fwd
cuda_event_record sys event stream =
    rt_fwd sys (runtime (Command.event_record event stream)) hmcuda_event_record_req

unfoldable pub cuda_event_synchronize : System → ℕ → G ℕ
unfolding rt_fwd
cuda_event_synchronize sys event =
    rt_fwd sys (runtime (Command.event_synchronize event)) hmcuda_event_synchronize_req

unfoldable pub cuda_event_elapsed_time : System → Bool → ℕ → ℕ → G Status
unfolding rt_fwd_resp
cuda_event_elapsed_time sys given start end =
    rt_fwd_resp sys (runtime (Command.event_elapsed_time start end)) hmcuda_event_elapsed_time_req
      hmcuda_event_elapsed_time_resp given

unfoldable pub cuda_event_destroy : System → ℕ → G ℕ
unfolding rt_fwd
cuda_event_destroy sys event =
    rt_fwd sys (runtime (Command.event_destroy event)) hmcuda_event_destroy_req

unfoldable pub cuda_set_device : System → ℕ → G ℕ
unfolding rt_fwd
cuda_set_device sys device = rt_fwd sys (runtime (Command.set_device device)) hmcuda_set_device_req

unfoldable pub cuda_device_synchronize : System → G ℕ
unfolding rt_fwd
cuda_device_synchronize sys =
    rt_fwd sys (runtime (Command.device_synchronize)) hmcuda_device_synchronize_req

unfoldable pub cuda_get_device_count : System → Bool → G Status
unfolding rt_fwd_resp
cuda_get_device_count sys given =
    rt_fwd_resp sys (runtime (Command.get_device_count)) [] hmcuda_get_device_count_resp given

unfoldable pub cuda_runtime_get_version : System → Bool → G Status
unfolding rt_fwd_resp
cuda_runtime_get_version sys given =
    rt_fwd_resp sys (runtime (Command.runtime_get_version)) [] hmcuda_runtime_get_version_resp given

unfoldable pub cuda_get_last_error : G ℕ
cuda_get_last_error p = (p.last_error, record p { last_error = 0 })
