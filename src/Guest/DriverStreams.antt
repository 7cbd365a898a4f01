-- ===== src/Guest/DriverStreams.antt =====
-- guest/intercept/hmcuda_driver.cpp: contexts, streams and events.
use hm_cuda.Prelude.{ℕ, Bool, []}
use hm_cuda.Command
use hm_cuda.Command.{Request, driver, runtime, MemcpyReq, HostAllocReq}
use hm_cuda.Wire.Driver.{
  hmcuda_cu_ctx_enable_peer_access_req, hmcuda_cu_ctx_get_device_resp,
  hmcuda_cu_ctx_set_current_req, hmcuda_cu_event_create_req, hmcuda_cu_event_create_resp,
  hmcuda_cu_event_destroy_req, hmcuda_cu_event_elapsed_time_req, hmcuda_cu_event_elapsed_time_resp,
  hmcuda_cu_event_record_req, hmcuda_cu_stream_create_req, hmcuda_cu_stream_create_resp,
  hmcuda_cu_stream_destroy_req, hmcuda_cu_stream_get_ctx_req, hmcuda_cu_stream_get_ctx_resp,
  hmcuda_cu_stream_query_req, hmcuda_cu_stream_synchronize_req, hmcuda_cu_stream_wait_event_req,
}
use hm_cuda.Guest.{System, G, Status}
use hm_cuda.Guest.Driver.{drv_fwd, drv_fwd_resp}

unfoldable pub cu_ctx_set_current : System → ℕ → G ℕ
unfolding drv_fwd
cu_ctx_set_current sys ctx =
    drv_fwd sys (driver (Command.cu_ctx_set_current ctx)) hmcuda_cu_ctx_set_current_req

unfoldable pub cu_ctx_get_device : System → Bool → G Status
unfolding drv_fwd_resp
cu_ctx_get_device sys given =
    drv_fwd_resp sys (driver (Command.cu_ctx_get_device)) [] hmcuda_cu_ctx_get_device_resp given

unfoldable pub cu_ctx_enable_peer_access : System → ℕ → ℕ → G ℕ
unfolding drv_fwd
cu_ctx_enable_peer_access sys peer flags =
    drv_fwd sys (driver (Command.cu_ctx_enable_peer_access peer flags))
      hmcuda_cu_ctx_enable_peer_access_req

unfoldable pub cu_stream_create : System → Bool → ℕ → G Status
unfolding drv_fwd_resp
cu_stream_create sys given flags =
    drv_fwd_resp sys (driver (Command.cu_stream_create flags)) hmcuda_cu_stream_create_req
      hmcuda_cu_stream_create_resp given

unfoldable pub cu_stream_destroy : System → ℕ → G ℕ
unfolding drv_fwd
cu_stream_destroy sys stream =
    drv_fwd sys (driver (Command.cu_stream_destroy stream)) hmcuda_cu_stream_destroy_req

unfoldable pub cu_stream_synchronize : System → ℕ → G ℕ
unfolding drv_fwd
cu_stream_synchronize sys stream =
    drv_fwd sys (driver (Command.cu_stream_synchronize stream)) hmcuda_cu_stream_synchronize_req

unfoldable pub cu_stream_query : System → ℕ → G ℕ
unfolding drv_fwd
cu_stream_query sys stream =
    drv_fwd sys (driver (Command.cu_stream_query stream)) hmcuda_cu_stream_query_req

unfoldable pub cu_stream_wait_event : System → ℕ → ℕ → ℕ → G ℕ
unfolding drv_fwd
cu_stream_wait_event sys stream event flags =
    drv_fwd sys (driver (Command.cu_stream_wait_event stream event flags))
      hmcuda_cu_stream_wait_event_req

unfoldable pub cu_stream_get_ctx : System → Bool → ℕ → G Status
unfolding drv_fwd_resp
cu_stream_get_ctx sys given stream =
    drv_fwd_resp sys (driver (Command.cu_stream_get_ctx stream)) hmcuda_cu_stream_get_ctx_req
      hmcuda_cu_stream_get_ctx_resp given

unfoldable pub cu_event_create : System → Bool → ℕ → G Status
unfolding drv_fwd_resp
cu_event_create sys given flags =
    drv_fwd_resp sys (driver (Command.cu_event_create flags)) hmcuda_cu_event_create_req
      hmcuda_cu_event_create_resp given

unfoldable pub cu_event_destroy : System → ℕ → G ℕ
unfolding drv_fwd
cu_event_destroy sys event =
    drv_fwd sys (driver (Command.cu_event_destroy event)) hmcuda_cu_event_destroy_req

unfoldable pub cu_event_record : System → ℕ → ℕ → G ℕ
unfolding drv_fwd
cu_event_record sys event stream =
    drv_fwd sys (driver (Command.cu_event_record event stream)) hmcuda_cu_event_record_req

unfoldable pub cu_event_elapsed_time : System → Bool → ℕ → ℕ → G Status
unfolding drv_fwd_resp
cu_event_elapsed_time sys given start end =
    drv_fwd_resp sys (driver (Command.cu_event_elapsed_time start end))
      hmcuda_cu_event_elapsed_time_req hmcuda_cu_event_elapsed_time_resp given
