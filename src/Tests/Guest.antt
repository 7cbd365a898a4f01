-- ===== src/Tests/Guest.antt =====
-- A process of the guest, and its calls.
use hm_cuda.Prelude.{
  ℕ, ◌≡◌, refl, true, false, List, [], ◌∷◌, Option, none, some, ◌==◌, if◌then◌else◌, All, arith,
}
use hm_cuda.Cuda.{Dim3}
use hm_cuda.Command.{MemcpyReq}
use hm_cuda.Kernel.Memcpy.{pinned}
use hm_cuda.Kernel.Ioctl.{IoctlServices, hm_cuda_ioc_req}
use hm_cuda.Guest.{transport_virtio, HostMemEntry, FuncInfo, insert, Process, System}
use hm_cuda.Guest.Transport.{dirty_of}
use hm_cuda.Guest.Params.{count_params}
use hm_cuda.Guest.Params.Names.{
  TypeText, ended, char, angled, IsParam, demangled, count_params-demangled,
}
use hm_cuda.Guest.Memory.{cu_mem_host_alloc, cu_mem_free_host}
use hm_cuda.Guest.Copies.{cu_memcpy_async}
use hm_cuda.Guest.Launch.{cuda_launch_kernel}
use hm_cuda.Guest.Runtime.{cuda_get_last_error}
use hm_cuda.Guest.Calls.{Call, run_all, driver_call, runtime_call}
use hm_cuda.Guest.Calls.DriverCalls.{cu_init}
use hm_cuda.Guest.Calls.RuntimeCalls.{cuda_malloc, cuda_launch_kernel as launch_call}
use hm_cuda.Guest.Marks.{connected}
use hm_cuda.Guest.HostMem.{alloc_submission, free_submission, free_host-host_alloc}
use hm_cuda.Guest.Routes.{route, sync_error, memcpy_async-route}
use hm_cuda.Guest.LastError.{get_last_error-launch_kernel}
use hm_cuda.Wire.Properties.{Properties, clock_rate, warp_size, name}
use hm_cuda.Core.Queries.{to_device_prop}
use hm_cuda.Guest.Properties.{hmcuda_prop_to_cuda}
use hm_cuda.Guest.Properties.Agreement.{prop_to_cuda-to_device_prop}
use hm_cuda.Guest.Buffers.Ioctl.{StaysIn, run_all-StaysIn}
use hm_cuda.Tests.Transport.{granting}

-- Every ioctl succeeds and gives 8192 in each member; malloc gives 512.
abbrev willing : System
willing = record {
  rpc_wanted = false;
  open_device = λ past. some 3;
  ioctl = λ past sub. some (record { cuda_error = 0; member = λ i. 8192 });
  malloc = λ past n. 512;
}

abbrev clean : HostMemEntry
clean = record { size = 64; gpu_dirty = false }

abbrev written_to : HostMemEntry
written_to = record { size = 32; gpu_dirty = true }

abbrev kernel_info : FuncInfo
kernel_info = record { handle = 7; param_count = 3; param_total_size = 24 }

-- Two buffers, of which the device may have written the second, and one kernel.
abbrev application : Process
application = record {
  transport = transport_virtio;
  fd = none;
  host_mem = insert 100 clean (insert 200 written_to (λ a. none));
  device_handles = λ h. h == 4096;
  driver_initialized = false;
  func_map = λ f. if f == 77 then some kernel_info else none;
  last_error = 0;
  heap = λ a. false;
  sent = [];
}

abbrev one_block : Dim3
one_block = record { x = 1; y = 1; z = 1 }

-- Both buffers and a number.
abbrev three_args : Option (List ℕ)
three_args = some (200 ∷ 100 ∷ 5 ∷ [])

get_last_error-launch_kernel_example :
    let q = cuda_launch_kernel willing 9 78 one_block one_block three_args 0 0 application in
    let r = cuda_get_last_error q.1 in (r.0 ≡ q.0) × ((cuda_get_last_error r.1).0 ≡ 0)
get_last_error-launch_kernel_example =
    get_last_error-launch_kernel willing 9 78 one_block one_block three_args 0 0 application

-- From the buffer that the device may have written.
memcpy_async-route_example :
    (cu_memcpy_async willing 4096 200 16 0 (connected 3 application)).1.sent
    ≡ route 4096 200 16 0
        (application.device_handles 200)
        (application.device_handles 4096)
        (dirty_of (application.host_mem 200))
        (sync_error willing 200 16 0 application)
        []
memcpy_async-route_example = memcpy_async-route willing 4096 200 16 0 3 application

free_host-host_alloc_example :
    let q = cu_mem_host_alloc willing true 48 0 (connected 3 application) in
    let r = (cu_mem_free_host willing 512 q.1).1 in
    (q.0 ≡ (0, some 512))
    × ((a : ℕ) → r.host_mem a ≡ application.host_mem a)
    × ((a : ℕ) → r.heap a ≡ application.heap a)
    × (r.sent ≡ free_submission 512 ∷ alloc_submission 48 0 512 ∷ [])
free_host-host_alloc_example =
    free_host-host_alloc willing 3 48 0 512 (λ i. 8192) application refl (λ e. omega (arith, e))
      (λ e. omega (arith, e)) refl refl refl

-- "k(fl*, T<a,b>)".
abbrev pointer_param : TypeText
pointer_param = char 102 (char 108 (char 42 ended))

abbrev template_param : TypeText
template_param = char 84 (angled (char 97 (char 44 (char 98 ended))) ended)

is_pointer_param : IsParam pointer_param
is_pointer_param = ground arith

is_template_param : IsParam template_param
is_template_param = ground arith

count_params-demangled_example :
    count_params (demangled (107 ∷ []) (pointer_param ∷ template_param ∷ [])) ≡ 2
count_params-demangled_example =
    count_params-demangled (107 ∷ []) (pointer_param ∷ template_param ∷ [])
      ((λ e. omega (arith, e)), tt) (is_pointer_param, (is_template_param, tt))

-- A kernel that grants everything but pinned pages.
abbrev granting_ioctl : IoctlServices
granting_ioctl = record {
  copy_header = true;
  sizes = granting;
  kzalloc_req = λ n. true;
  kzalloc_resp = λ n. true;
  copy_payload = λ n. true;
  virtqueue_add_sgs = none;
  host_completes = true;
  gup = record {
    kvmalloc_arrays = true;
    pin_user_pages_fast = λ past addr pages. pinned [];
    virtqueue_add_sgs = λ past sub. none;
    respond = λ past sub. some 0;
  };
  copy_to_user = λ n. true;
}

-- The same, but with one page pinned at a time and a host that completes nothing.
abbrev silent_ioctl : IoctlServices
silent_ioctl = record granting_ioctl {
  host_completes = false;
  gup = record {
    kvmalloc_arrays = true;
    pin_user_pages_fast = λ past addr pages. pinned (5 ∷ []);
    virtqueue_add_sgs = λ past sub. none;
    respond = λ past sub. none;
  };
}

abbrev small_copy : MemcpyReq
small_copy = record { dst = 4096; src = 200; count = 16; kind = 1; stream = 0 }

-- An initialization, an allocation and a launch.
abbrev program : List Call
program =
    driver_call (cu_init 0)
    ∷ runtime_call (cuda_malloc true 64)
    ∷ runtime_call (launch_call 9 77 one_block one_block three_args 0 0)
    ∷ []

run_all-StaysIn_example :
    All (StaysIn granting_ioctl hm_cuda_ioc_req) (run_all willing program application).sent
run_all-StaysIn_example =
    run_all-StaysIn willing granting_ioctl hm_cuda_ioc_req program application (tt, (tt, (tt, tt)))
      tt

abbrev some_device : Properties
some_device clock_rate = 1410000 ∷ []
some_device warp_size = 32 ∷ []
some_device name = 71 ∷ 80 ∷ 85 ∷ 0 ∷ []
some_device _ = 7 ∷ []

-- A guest of the older version on a host of the newer gets no clock rate.
prop_to_cuda-to_device_prop_example :
    hmcuda_prop_to_cuda true (to_device_prop false some_device) clock_rate ≡ 0 ∷ []
prop_to_cuda-to_device_prop_example = prop_to_cuda-to_device_prop true false some_device clock_rate
