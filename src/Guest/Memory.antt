-- ===== src/Guest/Memory.antt =====
-- guest/intercept/hmcuda_driver.cpp: device memory, and memory of the process that is pinned on the
-- host.
use hm_cuda.Prelude.{ℕ, Bool, not, none, some, ◌==◌, if◌then◌else◌}
use hm_cuda.Command
use hm_cuda.Command.{Request, driver, runtime, MemcpyReq, HostAllocReq}
use hm_cuda.Wire.Driver.{
  hmcuda_cu_mem_alloc_req, hmcuda_cu_mem_alloc_resp, hmcuda_cu_mem_free_host_req,
  hmcuda_cu_mem_free_req, hmcuda_cu_mem_host_alloc_req, hmcuda_cu_memset_d32_req,
}
use hm_cuda.Guest.{
  System, G, Done, done, Status, ◌>>=◌, ◌>>◌, pure, modify, add_handle, erase_handle,
}
use hm_cuda.Guest.Transport.{
  hmcuda_transport_host_mem_register, hmcuda_transport_host_mem_unregister,
  hmcuda_transport_host_mem_size,
}
use hm_cuda.Guest.Driver.{drv_fwd, drv_fwd_resp}
use hm_cuda.Guest.DriverVmm.{insert_handle}

unfoldable pub cu_mem_alloc : System → Bool → ℕ → G Status
unfolding drv_fwd_resp
cu_mem_alloc sys given bytesize = do
  out ←
      drv_fwd_resp sys (driver (Command.cu_mem_alloc bytesize)) hmcuda_cu_mem_alloc_req
        hmcuda_cu_mem_alloc_resp given
  insert_handle out

unfoldable pub cu_mem_free : System → ℕ → G ℕ
unfolding drv_fwd
cu_mem_free sys dptr = do
  modify (λ p. record p { device_handles = erase_handle dptr p.device_handles })
  drv_fwd sys (driver (Command.cu_mem_free dptr)) hmcuda_cu_mem_free_req

-- malloc and free.
abbrev pub allocate : System → ℕ → G ℕ
allocate sys n p =
    let va = sys.malloc p.sent n in
    (va, if va == 0 then p else record p { heap = add_handle va p.heap })

abbrev pub release : ℕ → G Done
release va p = (done, record p { heap = erase_handle va p.heap })

abbrev pub host_alloc_request : ℕ → ℕ → ℕ → Request
host_alloc_request bytesize flags va = driver (
    Command.cu_mem_host_alloc
      (record { bytesize = bytesize; flags = flags; guest_va = va; byte_offset = 0 }))

-- With the memory of the process: pinning it on the host, and keeping it if that succeeds.
unfoldable pub pin_block : System → ℕ → ℕ → ℕ → G Status
unfolding drv_fwd hmcuda_transport_host_mem_register
pin_block sys bytesize flags va = do
  err ← drv_fwd sys (host_alloc_request bytesize flags va) hmcuda_cu_mem_host_alloc_req
  if err == 0
      then (do hmcuda_transport_host_mem_register va bytesize; pure (0, some va))
      else (do release va; pure (err, none))

unfoldable pub cu_mem_host_alloc : System → Bool → ℕ → ℕ → G Status
unfolding pin_block
cu_mem_host_alloc sys given bytesize flags = if not given then pure (1, none) else (do
  va ← allocate sys bytesize
  if va == 0 then pure (2, none) else pin_block sys bytesize flags va)

unfoldable pub unpin_block : System → ℕ → G ℕ
unfolding drv_fwd hmcuda_transport_host_mem_unregister
unpin_block sys va = do
  hmcuda_transport_host_mem_unregister va
  err ← drv_fwd sys (driver (Command.cu_mem_free_host va)) hmcuda_cu_mem_free_host_req
  release va
  pure err

unfoldable pub cu_mem_free_host : System → ℕ → G ℕ
unfolding hmcuda_transport_host_mem_size unpin_block
cu_mem_free_host sys va = do
  bytesize ← hmcuda_transport_host_mem_size va
  if bytesize == 0 then pure 1 else unpin_block sys va

unfoldable pub cu_mem_alloc_host : System → Bool → ℕ → G Status
unfolding cu_mem_host_alloc
cu_mem_alloc_host sys given bytesize = cu_mem_host_alloc sys given bytesize 0

unfoldable pub cu_memset_d32 : System → ℕ → ℕ → ℕ → G ℕ
unfolding drv_fwd
cu_memset_d32 sys dst ui n =
    drv_fwd sys (driver (Command.cu_memset_d32 dst ui n)) hmcuda_cu_memset_d32_req
