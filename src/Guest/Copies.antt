-- ===== src/Guest/Copies.antt =====
-- guest/intercept/hmcuda_driver.cpp: copies, whose direction is told by the handles that were handed
-- out.
use hm_cuda.Prelude.{ℕ, not, ◌&&◌, ◌==◌, if◌then◌else◌}
use hm_cuda.Command
use hm_cuda.Command.{Request, driver, runtime, MemcpyReq, HostAllocReq}
use hm_cuda.Wire.Runtime.{hmcuda_memcpy_req}
use hm_cuda.Wire.Driver.{hmcuda_cu_memcpy_async_req}
use hm_cuda.Guest.{System, G, done, ◌>>=◌, ◌>>◌, pure}
use hm_cuda.Guest.Transport.{hmcuda_transport_is_gpu_dirty, hmcuda_transport_clear_gpu_dirty}
use hm_cuda.Guest.Driver.{drv_fwd}

abbrev pub copy_request : ℕ → ℕ → ℕ → ℕ → ℕ → Request
copy_request kind dst src n stream =
    driver
      (Command.cu_memcpy (record { dst = dst; src = src; count = n; kind = kind; stream = stream }))

unfoldable pub hmcuda_sync_dirty_host_src_to_guest : System → ℕ → ℕ → ℕ → G ℕ
unfolding drv_fwd hmcuda_transport_clear_gpu_dirty
hmcuda_sync_dirty_host_src_to_guest sys host_ptr bytesize stream = do
  res ← drv_fwd sys (copy_request 2 host_ptr host_ptr bytesize stream) hmcuda_memcpy_req
  if res == 0 then hmcuda_transport_clear_gpu_dirty host_ptr else pure done
  pure res

-- Host to device; a source that the device may have written is brought back first.
unfoldable pub host_to_device : System → ℕ → ℕ → ℕ → ℕ → G ℕ
unfolding hmcuda_transport_is_gpu_dirty hmcuda_sync_dirty_host_src_to_guest drv_fwd
host_to_device sys dst src n stream = do
  dirty ← hmcuda_transport_is_gpu_dirty src
  err ← (if dirty then hmcuda_sync_dirty_host_src_to_guest sys src n stream else pure 0)
  if err == 0 then drv_fwd sys (copy_request 1 dst src n stream) hmcuda_memcpy_req else pure err

-- Device to host; the flag is cleared whatever comes back.
unfoldable pub device_to_host : System → ℕ → ℕ → ℕ → ℕ → G ℕ
unfolding drv_fwd hmcuda_transport_clear_gpu_dirty
device_to_host sys dst src n stream = do
  res ← drv_fwd sys (copy_request 2 dst src n stream) hmcuda_memcpy_req
  hmcuda_transport_clear_gpu_dirty dst
  pure res

unfoldable pub device_to_device : System → ℕ → ℕ → ℕ → ℕ → G ℕ
unfolding drv_fwd
device_to_device sys dst src n stream =
    drv_fwd sys (driver (Command.cu_memcpy_async dst src n stream)) hmcuda_cu_memcpy_async_req

unfoldable pub cu_memcpy_async : System → ℕ → ℕ → ℕ → ℕ → G ℕ
unfolding host_to_device device_to_host device_to_device
cu_memcpy_async sys dst src n stream p =
    let src_is_device = p.device_handles src in
    let dst_is_device = p.device_handles dst in
    if not src_is_device && dst_is_device
    then host_to_device sys dst src n stream p
    else if src_is_device && not dst_is_device
    then device_to_host sys dst src n stream p
    else device_to_device sys dst src n stream p

unfoldable pub cu_memcpy_htod : System → ℕ → ℕ → ℕ → G ℕ
unfolding host_to_device
cu_memcpy_htod sys dst src n = host_to_device sys dst src n 0

unfoldable pub cu_memcpy_dtoh : System → ℕ → ℕ → ℕ → G ℕ
unfolding device_to_host
cu_memcpy_dtoh sys dst src n = device_to_host sys dst src n 0

unfoldable pub cu_memcpy : System → ℕ → ℕ → ℕ → G ℕ
unfolding cu_memcpy_async
cu_memcpy sys dst src n = cu_memcpy_async sys dst src n 0
