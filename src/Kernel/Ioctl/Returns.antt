-- ===== src/Kernel/Ioctl/Returns.antt =====
-- What an ioctl comes to.
use hm_cuda.Prelude.{
  ℕ, ◌≤◌, Bool, true, false, Option, none, some, not, ◌==◌, if◌then◌else◌, ◌+◌, arith, ◌≡◌,
}
use hm_cuda.Command.{Request, runtime, driver, unknown}
use hm_cuda.Kernel.Sizes.{Sizes, hmcuda_cmd_get_sizes}
use hm_cuda.Kernel.Requests
use hm_cuda.Kernel.Requests.{
  Result, ok, fail, Errno, einval, enomem, efault, hmcuda_get_req_sizes, second_pass,
}
use hm_cuda.Kernel.Memcpy.{CopyRequest, hmcuda_parse_memcpy_args, hmcuda_do_memcpy_gup}
use hm_cuda.Kernel.Memcpy.Batches.{Waiting, IsUserRange}
use hm_cuda.Kernel.Ioctl.{
  IoctlServices, Returned, wrote, error, no_return, Ret, success, stuck, failure, copy_of,
  hmcuda_build_req_buf, run_command, finish, with_buffers, with_sizes, hmcuda_ioctl,
  hm_cuda_ioc_req,
}

-- The user's range of a copy ends more than a page below 2^64.
abbrev pub CopiesUser : Option CopyRequest → Type 0
CopiesUser none = Unit
CopiesUser (some c) = IsUserRange (hmcuda_parse_memcpy_args c)

-- What an ioctl was given to the virtqueue that the host never completes: the command, or the newest
-- part of a copy.
abbrev pub WaitsFor : IoctlServices → Option CopyRequest → Type 0
WaitsFor k none = (k.virtqueue_add_sgs ≡ none) × (k.host_completes ≡ false)
WaitsFor k (some c) = Waiting k.gup (hmcuda_do_memcpy_gup k.gup c (hmcuda_parse_memcpy_args c)).1

-- The bytes that an ioctl writes to the user's buffer.
abbrev pub written : Returned → ℕ
written (wrote n) = n
written (error e) = 0
written no_return = 0

abbrev pub response_len : Option Sizes → ℕ
response_len none = 0
response_len (some z) = z.resp_size

abbrev response_of : Result (ℕ × ℕ) → ℕ
response_of (fail e) = 0
response_of (ok lens) = lens.1

second_pass-response :
    (k : Requests.Services) (r : Request) (first : Sizes)
    → response_of (second_pass k r first) ≤ first.resp_size
unfolding second_pass
second_pass-response k r first = ground arith

get_req_sizes-response :
    (k : Requests.Services) (r : Request)
    → response_of (hmcuda_get_req_sizes k r) ≤ response_len (hmcuda_cmd_get_sizes false r)
unfolding hmcuda_get_req_sizes hmcuda_cmd_get_sizes
get_req_sizes-response k (runtime q) = second_pass-response k (runtime q) _
get_req_sizes-response k (driver q) = second_pass-response k (driver q) _
get_req_sizes-response k (unknown cmd) = omega arith

written-finish : (k : IoctlServices) (n : ℕ) (o : Ret) → written (finish k n o) ≤ n
unfolding finish
written-finish k n success = ground arith
written-finish k n (failure e) = ground arith
written-finish k n stuck = ground arith

-- The totals of the buffers that were built.
abbrev total_of : Result (ℕ × ℕ) → ℕ
total_of (fail e) = 0
total_of (ok totals) = totals.1

written-with_buffers :
    (k : IoctlServices) (r : Request) (o : Result (ℕ × ℕ))
    → written (with_buffers k r o) ≤ total_of o
unfolding with_buffers
written-with_buffers k r (fail e) = omega arith
written-with_buffers k r (ok totals) = written-finish k totals.1 (run_command k (copy_of r))

total-build_req_buf : (k : IoctlServices) (q m : ℕ) → total_of (hmcuda_build_req_buf k q m) ≤ 8 + m
unfolding hmcuda_build_req_buf
total-build_req_buf k q m = ground arith

written-with_sizes :
    (k : IoctlServices) (r : Request) (o : Result (ℕ × ℕ))
    → written (with_sizes k r o) ≤ 8 + response_of o
unfolding with_sizes
written-with_sizes k r (fail e) = omega arith
written-with_sizes k r (ok lens) = omega (
  arith,
  written-with_buffers k r (hmcuda_build_req_buf k lens.0 lens.1),
  total-build_req_buf k lens.0 lens.1,
)

written-if :
    (b : Bool) (x y : Returned) (n : ℕ)
    → written x ≤ n
    → written y ≤ n
    → written (if b then x else y) ≤ n
written-if true x y n hx hy = hx
written-if false x y n hx hy = hy

-- Whatever the kernel and the host answer, an ioctl writes no more to the user's buffer than the
-- header and the response that the size tables say without trailing data, and nothing if it fails.
pub written-ioctl :
    (k : IoctlServices) (cmd : ℕ) (r : Request)
    → written (hmcuda_ioctl k cmd r) ≤ 8 + response_len (hmcuda_cmd_get_sizes false r)
unfolding hmcuda_ioctl
written-ioctl k cmd r =
    let n = 8 + response_len (hmcuda_cmd_get_sizes false r) in
    let o = hmcuda_get_req_sizes k.sizes r in
    let some_bytes : written (with_sizes k r o) ≤ n =
      omega (arith, written-with_sizes k r o, get_req_sizes-response k.sizes r) in
    written-if (not (cmd == hm_cuda_ioc_req)) (error 22)
      (if k.copy_header then with_sizes k r o else error 14) n (omega arith)
      (written-if k.copy_header (with_sizes k r o) (error 14) n some_bytes (omega arith))
