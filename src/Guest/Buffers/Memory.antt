-- ===== src/Guest/Buffers/Memory.antt =====
-- The buffers of the entry points for memory and copies.
use hm_cuda.Prelude.{
  Option, none, some, ℕ, Bool, true, false, not, ◌&&◌, ◌==◌, if◌then◌else◌, arith,
}
use hm_cuda.Command
use hm_cuda.Command.{driver, Request}
use hm_cuda.Kernel.Sizes.{hmcuda_cmd_get_sizes, hmcuda_driver_get_sizes}
use hm_cuda.Wire.{sizeof}
use hm_cuda.Wire.Runtime.{hmcuda_memcpy_req}
use hm_cuda.Wire.Driver.{
  hmcuda_cu_mem_host_alloc_req, hmcuda_cu_mem_free_host_req, hmcuda_cu_memcpy_async_req,
}
use hm_cuda.Guest.{HostMemEntry, Process, System, Status, pure, done, ◌>>◌, add_handle}
use hm_cuda.Guest.Transport.{
  set_flag, set_gpu_dirty, hmcuda_transport_host_mem_register, hmcuda_transport_host_mem_unregister,
  hmcuda_transport_host_mem_size, hmcuda_transport_is_gpu_dirty, hmcuda_transport_clear_gpu_dirty,
}
use hm_cuda.Guest.Driver.{drv_fwd}
use hm_cuda.Guest.DriverVmm.{insert_handle}
use hm_cuda.Guest.Memory.{
  release, host_alloc_request, pin_block, unpin_block, cu_mem_host_alloc, cu_mem_free_host,
}
use hm_cuda.Guest.Copies.{
  copy_request, hmcuda_sync_dirty_host_src_to_guest, host_to_device, device_to_host,
  device_to_device, cu_memcpy_async,
}
use hm_cuda.Guest.Buffers.{HasRoom, AllRoomy, Keeps, branch-Keeps, either-AllRoomy}
use hm_cuda.Guest.Buffers.Driver.{drv_fwd-Keeps}

pub insert_handle-Keeps : (out : Status) → Keeps (insert_handle out)
insert_handle-Keeps (e, none) p h = h
insert_handle-Keeps (e, some x) p h = h

-- malloc and free make no ioctl.
allocated-AllRoomy :
    (va : ℕ) (p : Process)
    → AllRoomy p
    → AllRoomy (if va == 0 then p else record p { heap = add_handle va p.heap })
allocated-AllRoomy va p h = ground (arith, h)

set_flag-AllRoomy :
    (b : Bool) (va : ℕ) (o : Option HostMemEntry) (p : Process)
    → AllRoomy p
    → AllRoomy (set_flag b va o p)
unfolding set_flag
set_flag-AllRoomy b va none p h = h
set_flag-AllRoomy b va (some e) p h = h

pub set_gpu_dirty-AllRoomy :
    (b : Bool) (va : ℕ) (p : Process) → AllRoomy p → AllRoomy (set_gpu_dirty b va p)
unfolding set_gpu_dirty
set_gpu_dirty-AllRoomy b va p h = set_flag-AllRoomy b va (p.host_mem va) p h

copy_lem :
    (kind dst src n stream : ℕ)
    → HasRoom (copy_request kind dst src n stream) (sizeof hmcuda_memcpy_req) 0
unfolding hmcuda_cmd_get_sizes hmcuda_driver_get_sizes
copy_lem kind dst src n stream = ground arith

copy-Keeps :
    (sys : System) (kind dst src n stream : ℕ)
    → Keeps (drv_fwd sys (copy_request kind dst src n stream) hmcuda_memcpy_req)
copy-Keeps sys kind dst src n stream =
    drv_fwd-Keeps sys (copy_request kind dst src n stream) hmcuda_memcpy_req
      (copy_lem kind dst src n stream)

sync_dirty-Keeps :
    (sys : System) (va n stream : ℕ) → Keeps (hmcuda_sync_dirty_host_src_to_guest sys va n stream)
unfolding hmcuda_sync_dirty_host_src_to_guest hmcuda_transport_clear_gpu_dirty
sync_dirty-Keeps sys va n stream p h =
    let called = drv_fwd sys (copy_request 2 va va n stream) hmcuda_memcpy_req p in
    branch-Keeps (called.0 == 0) (hmcuda_transport_clear_gpu_dirty va) (pure done)
      (set_gpu_dirty-AllRoomy false va) (λ p h. h) called.1 (copy-Keeps sys 2 va va n stream p h)

pub host_to_device-Keeps :
    (sys : System) (dst src n stream : ℕ) → Keeps (host_to_device sys dst src n stream)
unfolding host_to_device hmcuda_transport_is_gpu_dirty
host_to_device-Keeps sys dst src n stream p h =
    let dirty = (hmcuda_transport_is_gpu_dirty src p).0 in
    let synced = if dirty then hmcuda_sync_dirty_host_src_to_guest sys src n stream else pure 0 in
    branch-Keeps ((synced p).0 == 0)
      (drv_fwd sys (copy_request 1 dst src n stream) hmcuda_memcpy_req) (pure (synced p).0)
      (copy-Keeps sys 1 dst src n stream) (λ p h. h) (synced p).1
      (branch-Keeps dirty (hmcuda_sync_dirty_host_src_to_guest sys src n stream) (pure 0)
        (sync_dirty-Keeps sys src n stream) (λ p h. h) p h)

pub device_to_host-Keeps :
    (sys : System) (dst src n stream : ℕ) → Keeps (device_to_host sys dst src n stream)
unfolding device_to_host hmcuda_transport_clear_gpu_dirty
device_to_host-Keeps sys dst src n stream p h =
    set_gpu_dirty-AllRoomy false dst
      (drv_fwd sys (copy_request 2 dst src n stream) hmcuda_memcpy_req p).1
      (copy-Keeps sys 2 dst src n stream p h)

device_to_device-Keeps :
    (sys : System) (dst src n stream : ℕ) → Keeps (device_to_device sys dst src n stream)
unfolding device_to_device hmcuda_cmd_get_sizes hmcuda_driver_get_sizes
device_to_device-Keeps sys dst src n stream =
    drv_fwd-Keeps sys (driver (Command.cu_memcpy_async dst src n stream)) hmcuda_cu_memcpy_async_req
      (ground arith)

pub memcpy_async-Keeps :
    (sys : System) (dst src n stream : ℕ) → Keeps (cu_memcpy_async sys dst src n stream)
unfolding cu_memcpy_async
memcpy_async-Keeps sys dst src n stream p h =
    either-AllRoomy (not (p.device_handles src) && p.device_handles dst)
      (host_to_device sys dst src n stream p)
      (if p.device_handles src && not (p.device_handles dst)
        then device_to_host sys dst src n stream p
        else device_to_device sys dst src n stream p)
      (host_to_device-Keeps sys dst src n stream p h)
      (either-AllRoomy (p.device_handles src && not (p.device_handles dst))
        (device_to_host sys dst src n stream p) (device_to_device sys dst src n stream p)
        (device_to_host-Keeps sys dst src n stream p h)
        (device_to_device-Keeps sys dst src n stream p h))

pin_block-Keeps : (sys : System) (n flags va : ℕ) → Keeps (pin_block sys n flags va)
unfolding pin_block hmcuda_transport_host_mem_register hmcuda_cmd_get_sizes hmcuda_driver_get_sizes
pin_block-Keeps sys n flags va p h =
    let r = host_alloc_request n flags va in
    let called = drv_fwd sys r hmcuda_cu_mem_host_alloc_req p in
    branch-Keeps (called.0 == 0) _ (release va >> pure (called.0, none)) (λ p h. h) (λ p h. h)
      called.1 (drv_fwd-Keeps sys r hmcuda_cu_mem_host_alloc_req (ground arith) p h)

pub mem_host_alloc-Keeps :
    (sys : System) (given : Bool) (n flags : ℕ) → Keeps (cu_mem_host_alloc sys given n flags)
unfolding cu_mem_host_alloc
mem_host_alloc-Keeps sys false n flags p h = h
mem_host_alloc-Keeps sys true n flags p h =
    let va = sys.malloc p.sent n in
    branch-Keeps (va == 0) (pure (2, none)) (pin_block sys n flags va) (λ p h. h)
      (pin_block-Keeps sys n flags va) _ (allocated-AllRoomy va p h)

pub mem_free_host-Keeps : (sys : System) (va : ℕ) → Keeps (cu_mem_free_host sys va)
unfolding cu_mem_free_host unpin_block hmcuda_transport_host_mem_unregister hmcuda_cmd_get_sizes
    hmcuda_driver_get_sizes
mem_free_host-Keeps sys va p =
    branch-Keeps ((hmcuda_transport_host_mem_size va p).0 == 0) (pure 1) (unpin_block sys va)
      (λ p h. h)
      (λ p h.
        drv_fwd-Keeps sys (driver (Command.cu_mem_free_host va)) hmcuda_cu_mem_free_host_req
          (ground arith) _ h)
      _
