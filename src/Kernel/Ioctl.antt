-- ===== src/Kernel/Ioctl.antt =====
-- hmcuda_build_req_buf, hmcuda_do_simple_cmd and hmcuda_ioctl of driver/virtio_hmcuda_main.c.
pub mod Returns
use hm_cuda.Prelude.{
  ℕ, Bool, true, false, Option, none, some, ltb, not, ◌&&◌, ◌==◌, if◌then◌else◌, add64,
}
use hm_cuda.Command.{Request, runtime, driver, memcpy_cmd, cu_memcpy, cu_mem_host_alloc}
use hm_cuda.Wire.{sizeof}
use hm_cuda.Wire.Types.{hmcuda_req_header, hmcuda_resp_header}
use hm_cuda.Kernel.Requests.{Result, ok, fail, Errno, einval, enomem, efault, hmcuda_get_req_sizes}
use hm_cuda.Kernel.Memcpy.{
  CopyRequest, copies, allocates, hmcuda_parse_memcpy_args, hmcuda_do_memcpy_gup, Outcome,
  completed, unanswered, out_of_fuel, cuda_failed, failed,
}
use hm_cuda.Kernel.Requests
use hm_cuda.Kernel.Memcpy

-- _IOWR('k', 1, struct hmcuda_req_header).
abbrev pub hm_cuda_ioc_req : ℕ
hm_cuda_ioc_req = 0xC0086B01

-- The rest of the kernel, in one ioctl: the copies from and to user space, the allocations of the two
-- buffers, the virtqueue for a command that carries no pages (`none` if it took the entry, else its
-- error number), whether the host completes that command, and what the lookup of the sizes and the page copies use.
pub record IoctlServices : Type 0 where
  pub copy_header : Bool
  pub sizes : Requests.Services
  pub kzalloc_req : ℕ → Bool
  pub kzalloc_resp : ℕ → Bool
  pub copy_payload : ℕ → Bool
  pub virtqueue_add_sgs : Option ℕ
  pub host_completes : Bool
  pub gup : Memcpy.Services
  pub copy_to_user : ℕ → Bool

-- What an ioctl comes to: 0 with so many bytes copied to the user's buffer, a negative error number
-- with none, or no return.
pub data Returned : Type 0 where
  wrote error : ℕ → Returned
  no_return : Returned

abbrev pub errno_value : Errno → ℕ
errno_value einval = 22
errno_value enomem = 12
errno_value efault = 14

-- The lengths of the buffers, headers included.
unfoldable pub hmcuda_build_req_buf : IoctlServices → ℕ → ℕ → Result (ℕ × ℕ)
hmcuda_build_req_buf k req_len resp_len =
    let total_req = add64 (sizeof hmcuda_req_header) req_len in
    let total_resp = add64 (sizeof hmcuda_resp_header) resp_len in
    if k.kzalloc_req total_req
    then (if k.kzalloc_resp total_resp
        then (if ltb 0 req_len && not (k.copy_payload req_len)
            then fail efault
            else ok (total_req, total_resp))
        else fail enomem)
    else fail enomem

-- The return value of a command: 0, an error number, or none, where it waits for good.
pub data Ret : Type 0 where
  success stuck : Ret
  failure : ℕ → Ret

unfoldable pub hmcuda_do_simple_cmd : IoctlServices → Ret
hmcuda_do_simple_cmd k = elim k.virtqueue_add_sgs [
  | none ↦ if k.host_completes then success else stuck
  | some e ↦ failure e
]

-- The commands that carry user pages.
unfoldable pub copy_of : Request → Option CopyRequest
copy_of (runtime (memcpy_cmd r)) = some (copies r)
copy_of (driver (cu_memcpy r)) = some (copies r)
copy_of (driver (cu_mem_host_alloc r)) = some (allocates r)
copy_of _ = none

-- A CUDA error is in the response, and the ioctl succeeds.
abbrev pub ret_of : Outcome → Ret
ret_of completed = success
ret_of (cuda_failed e) = success
ret_of (failed e) = failure e
ret_of unanswered = stuck
ret_of out_of_fuel = stuck

unfoldable pub run_command : IoctlServices → Option CopyRequest → Ret
unfolding hmcuda_do_simple_cmd hmcuda_parse_memcpy_args hmcuda_do_memcpy_gup
run_command k none = hmcuda_do_simple_cmd k
run_command k (some c) = ret_of (hmcuda_do_memcpy_gup k.gup c (hmcuda_parse_memcpy_args c)).0

-- After the command: the response goes to the user only behind a 0.
unfoldable pub finish : IoctlServices → ℕ → Ret → Returned
finish k total_resp success =
    if k.copy_to_user total_resp then wrote total_resp else error (errno_value efault)
finish k total_resp (failure e) = error e
finish k total_resp stuck = no_return

unfoldable pub with_buffers : IoctlServices → Request → Result (ℕ × ℕ) → Returned
unfolding finish run_command copy_of
with_buffers k r (fail e) = error (errno_value e)
with_buffers k r (ok totals) = finish k totals.1 (run_command k (copy_of r))

unfoldable pub with_sizes : IoctlServices → Request → Result (ℕ × ℕ) → Returned
unfolding with_buffers hmcuda_build_req_buf
with_sizes k r (fail e) = error (errno_value e)
with_sizes k r (ok lens) = with_buffers k r (hmcuda_build_req_buf k lens.0 lens.1)

unfoldable pub hmcuda_ioctl : IoctlServices → ℕ → Request → Returned
unfolding with_sizes hmcuda_get_req_sizes
hmcuda_ioctl k cmd r =
    if not (cmd == hm_cuda_ioc_req)
    then error (errno_value einval)
    else if k.copy_header
    then with_sizes k r (hmcuda_get_req_sizes k.sizes r)
    else error (errno_value efault)
