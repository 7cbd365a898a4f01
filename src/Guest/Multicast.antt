-- ===== src/Guest/Multicast.antt =====
-- guest/intercept/hmcuda_driver.cpp: multicast memory.
use hm_cuda.Prelude.{ℕ, Bool, List}
use hm_cuda.Command
use hm_cuda.Command.{Request, driver, runtime, MemcpyReq, HostAllocReq}
use hm_cuda.Wire.DriverVmm.{
  hmcuda_cu_multicast_add_device_req, hmcuda_cu_multicast_bind_mem_req,
  hmcuda_cu_multicast_create_req, hmcuda_cu_multicast_create_resp,
  hmcuda_cu_multicast_get_granularity_req, hmcuda_cu_multicast_get_granularity_resp,
  hmcuda_cu_multicast_unbind_req,
}
use hm_cuda.Guest.{System, G, Status}
use hm_cuda.Guest.Driver.{drv_fwd, drv_fwd_resp}

unfoldable pub cu_multicast_create : System → Bool → List ℕ → G Status
unfolding drv_fwd_resp
cu_multicast_create sys given prop =
    drv_fwd_resp sys (driver (Command.cu_multicast_create prop)) hmcuda_cu_multicast_create_req
      hmcuda_cu_multicast_create_resp given

unfoldable pub cu_multicast_get_granularity : System → Bool → List ℕ → ℕ → G Status
unfolding drv_fwd_resp
cu_multicast_get_granularity sys given prop option =
    drv_fwd_resp sys (driver (Command.cu_multicast_get_granularity prop option))
      hmcuda_cu_multicast_get_granularity_req hmcuda_cu_multicast_get_granularity_resp given

unfoldable pub cu_multicast_add_device : System → ℕ → ℕ → G ℕ
unfolding drv_fwd
cu_multicast_add_device sys mc_handle dev =
    drv_fwd sys (driver (Command.cu_multicast_add_device mc_handle dev))
      hmcuda_cu_multicast_add_device_req

unfoldable pub cu_multicast_bind_mem : System → ℕ → ℕ → ℕ → ℕ → ℕ → ℕ → G ℕ
unfolding drv_fwd
cu_multicast_bind_mem sys mc_handle mc_offset mem_handle mem_offset n flags =
    drv_fwd sys
      (driver (Command.cu_multicast_bind_mem mc_handle mc_offset mem_handle mem_offset n flags))
      hmcuda_cu_multicast_bind_mem_req

unfoldable pub cu_multicast_unbind : System → ℕ → ℕ → ℕ → ℕ → G ℕ
unfolding drv_fwd
cu_multicast_unbind sys mc_handle dev mc_offset n =
    drv_fwd sys (driver (Command.cu_multicast_unbind mc_handle dev mc_offset n))
      hmcuda_cu_multicast_unbind_req
