-- ===== src/Guest/LastError.antt =====
-- cudaGetLastError after a launch.
use hm_cuda.Prelude.{ℕ, true, ◌+◌, ◌*◌, ◌%◌, ◌^◌, ◌≡◌, refl, ◌∙◌, List, [], ◌∷◌, Option, none, some}
use hm_cuda.Cuda.{Dim3}
use hm_cuda.Guest.{HostMemEntry, FuncInfo, Process, System}
use hm_cuda.Guest.Transport.{
  set_flag, set_gpu_dirty, hmcuda_transport_mark_gpu_dirty, hmcuda_transport_sync_host_mem_arg,
}
use hm_cuda.Guest.Runtime.{hmcuda_dispatch, cuda_get_last_error}
use hm_cuda.Wire.{sizeof}
use hm_cuda.Wire.Runtime.{hmcuda_launch_kernel_req}
use hm_cuda.Guest.Launch.{
  for_args, followed, launch_request, launch, launch_found, cuda_launch_kernel,
}

last_error-set_flag :
    (v : ℕ) (o : Option HostMemEntry) (p : Process)
    → (set_flag true v o p).last_error ≡ p.last_error
unfolding set_flag
last_error-set_flag v none p = refl
last_error-set_flag v (some e) p = refl

last_error-for_args :
    (vs : List ℕ) (p : Process)
    → (for_args hmcuda_transport_mark_gpu_dirty vs p).1.last_error ≡ p.last_error
unfolding for_args hmcuda_transport_mark_gpu_dirty set_gpu_dirty
last_error-for_args [] p = refl
last_error-for_args (v ∷ vs) p =
    last_error-for_args vs (set_flag true v (p.host_mem v) p)
    ∙ last_error-set_flag v (p.host_mem v) p

last_error-found :
    (sys : System) (bits : ℕ) (o : Option FuncInfo) (grid block : Dim3) (args : Option (List ℕ))
    (m stream : ℕ) (p : Process)
    → (launch_found sys bits o grid block args m stream p).1.last_error
      ≡ (launch_found sys bits o grid block args m stream p).0
unfolding launch_found launch hmcuda_dispatch
last_error-found sys bits none grid block args m stream p = refl
last_error-found sys bits (some info) grid block args m stream p =
    let vs = followed args info.param_count in
    last_error-for_args vs
      (hmcuda_dispatch sys (launch_request info grid block args m stream)
        (sizeof hmcuda_launch_kernel_req + info.param_count * 8 % 2 ^ 32) 0
        (for_args (hmcuda_transport_sync_host_mem_arg sys bits) vs p).1).1

-- Whatever happens in a launch, on an unknown function too, cudaGetLastError behind it gives what the
-- launch returned, and 0 when it is called again.
pub get_last_error-launch_kernel :
    (sys : System) (bits func : ℕ) (grid block : Dim3) (args : Option (List ℕ)) (m stream : ℕ)
    (p : Process)
    → let q = cuda_launch_kernel sys bits func grid block args m stream p in
      let r = cuda_get_last_error q.1 in (r.0 ≡ q.0) × ((cuda_get_last_error r.1).0 ≡ 0)
unfolding cuda_launch_kernel cuda_get_last_error
get_last_error-launch_kernel sys bits func grid block args m stream p =
    (last_error-found sys bits (p.func_map func) grid block args m stream p, refl)
