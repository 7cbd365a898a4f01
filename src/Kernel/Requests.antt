-- ===== src/Kernel/Requests.antt =====
-- hmcuda_get_req_sizes of driver/virtio_hmcuda_main.c: the two passes over the size lookup.
pub mod Lengths
use hm_cuda.Prelude.{
  ℕ, ◌≡◌, refl, Bool, true, false, Option, none, some, ltb, if◌then◌else◌, arith, Bool-cases, inl,
  inr,
}
use hm_cuda.Command.{
  Request, runtime, driver, unknown, RuntimeRequest, DriverRequest, launch_kernel, register_fatbin,
  register_function, cu_mem_set_access,
}
use hm_cuda.Kernel.Sizes.{
  Sizes, hmcuda_runtime_get_sizes, hmcuda_driver_get_sizes, hmcuda_cmd_get_sizes,
}

pub data Errno : Type 0 where
  einval enomem efault : Errno

-- Kernel functions return 0 with their out-parameters, or a negative error number.
pub data Result {ℓ} (A : Type ℓ) : Type ℓ where
  ok : A → Result A
  fail : Errno → Result A

-- Whether the kernel's allocations and the copies from user space of a size succeed.
pub record Services : Type 0 where
  pub kmalloc : ℕ → Bool
  pub copy_from_user : ℕ → Bool

unfoldable pub second_pass : Services → Request → Sizes → Result (ℕ × ℕ)
second_pass k r first =
    if ltb 0 first.req_size
    then (if k.kmalloc first.req_size
        then (if k.copy_from_user first.req_size
            then elim (hmcuda_cmd_get_sizes true r) [
              | none ↦ fail einval
              | some second ↦ ok (second.req_size, first.resp_size)
            ]
            else fail efault)
        else fail enomem)
    else ok (first.req_size, first.resp_size)

-- The request's length, then the response's, both without their headers.
unfoldable pub hmcuda_get_req_sizes : Services → Request → Result (ℕ × ℕ)
unfolding second_pass
hmcuda_get_req_sizes k r = elim (hmcuda_cmd_get_sizes false r) [
  | none ↦ fail einval
  | some first ↦ second_pass k r first
]

-- A command without a fixed request has no trailing data either.
pub runtime_empty :
    (q : RuntimeRequest)
    → (hmcuda_runtime_get_sizes false q).req_size ≡ 0
    → (hmcuda_runtime_get_sizes true q).req_size ≡ 0
unfolding hmcuda_runtime_get_sizes
runtime_empty (launch_kernel f g b m h n args) e = ground arith
runtime_empty (register_fatbin fatbin) e = ground arith
runtime_empty (register_function h f name) e = ground arith
runtime_empty _ e = e

pub driver_empty :
    (q : DriverRequest)
    → (hmcuda_driver_get_sizes false q).req_size ≡ 0
    → (hmcuda_driver_get_sizes true q).req_size ≡ 0
unfolding hmcuda_driver_get_sizes
driver_empty (cu_mem_set_access p n descs) e = ground arith
driver_empty _ e = e

pub granted_pass :
    (k : Services) (r : Request) (first second : Sizes)
    → ((n : ℕ) → k.kmalloc n ≡ true)
    → ((n : ℕ) → k.copy_from_user n ≡ true)
    → hmcuda_cmd_get_sizes true r ≡ some second
    → (first.req_size ≡ 0 → second.req_size ≡ 0)
    → second_pass k r first ≡ ok (second.req_size, first.resp_size)
unfolding second_pass
granted_pass k r first second granted readable e empty = elim (Bool-cases (ltb 0 first.req_size)) [
  | inl more ↦ rw (more, granted first.req_size, readable first.req_size, e)
  | inr none_there ↦ let z : first.req_size ≡ 0 = ground arith in rw (none_there, z, empty z)
]
