-- ===== src/Guest/Buffers/Driver.antt =====
-- The buffers of libcuda's entry points.
use hm_cuda.Prelude.{ℕ, Bool, true, [], ◌==◌, if◌then◌else◌, arith}
use hm_cuda.Command
use hm_cuda.Command.{runtime, driver, Request}
use hm_cuda.Kernel.Sizes.{hmcuda_runtime_get_sizes, hmcuda_cmd_get_sizes, hmcuda_driver_get_sizes}
use hm_cuda.Wire.Driver.{hmcuda_cu_init_req}
use hm_cuda.Wire.{Struct, sizeof}
use hm_cuda.Guest.{System, pure, Done, done, ◌>>=◌, ◌>>◌}
use hm_cuda.Guest.Transport.{hmcuda_transport_ready, hmcuda_transport_init}
use hm_cuda.Guest.Driver.{
  hmcuda_drv_dispatch, drv_fwd, drv_fwd_resp, first_init, hmcuda_driver_ensure_initialized, cu_init,
  set_initialized,
}
use hm_cuda.Guest.Buffers.{
  HasRoom, branch-Keeps, either-AllRoomy, Keeps, transport_dispatch-Keeps, transport_init-Keeps,
  forward-Keeps, forward_resp-Keeps,
}

init_unless-Keeps :
    (b : Bool) (sys : System) → Keeps (if b then pure Done.done else hmcuda_transport_init sys)
init_unless-Keeps b sys =
    branch-Keeps b (pure Done.done) (hmcuda_transport_init sys) (λ p h. h)
      (transport_init-Keeps sys)

pub drv_dispatch-Keeps :
    (sys : System) (r : Request) (q m : ℕ) → HasRoom r q m → Keeps (hmcuda_drv_dispatch sys r q m)
unfolding hmcuda_drv_dispatch
drv_dispatch-Keeps sys r q m room p h =
    transport_dispatch-Keeps sys r q m room _
      (init_unless-Keeps (hmcuda_transport_ready p).0 sys p h)

pub drv_fwd-Keeps :
    (sys : System) (r : Request) (req : Struct)
    → HasRoom r (sizeof req) 0
    → Keeps (drv_fwd sys r req)
unfolding drv_fwd
drv_fwd-Keeps sys = forward-Keeps (hmcuda_drv_dispatch sys) (drv_dispatch-Keeps sys)

pub drv_fwd_resp-Keeps :
    (sys : System) (r : Request) (req resp : Struct) (given : Bool)
    → HasRoom r (sizeof req) (sizeof resp)
    → Keeps (drv_fwd_resp sys r req resp given)
unfolding drv_fwd_resp
drv_fwd_resp-Keeps sys = forward_resp-Keeps (hmcuda_drv_dispatch sys) (drv_dispatch-Keeps sys)

init_lem : (flags : ℕ) → HasRoom (driver (Command.cu_init flags)) (sizeof hmcuda_cu_init_req) 0
unfolding hmcuda_cmd_get_sizes hmcuda_driver_get_sizes
init_lem flags = ground arith

-- A call of cuInit, and its success remembered.
remember-Keeps :
    (sys : System) (flags : ℕ) (err : ℕ)
    → Keeps (
        if err == 0
        then (do
          err' ← drv_fwd sys (driver (Command.cu_init flags)) hmcuda_cu_init_req
          set_initialized err'
          pure err')
        else pure err)
remember-Keeps sys flags err =
    branch-Keeps (err == 0) _ (pure err)
      (λ p h.
        let r = driver (Command.cu_init flags) in
        let called = drv_fwd sys r hmcuda_cu_init_req p in
        either-AllRoomy {A = Done} (called.0 == 0)
          (done, record called.1 { driver_initialized = true }) (done, called.1)
          (drv_fwd-Keeps sys r hmcuda_cu_init_req (init_lem flags) p h)
          (drv_fwd-Keeps sys r hmcuda_cu_init_req (init_lem flags) p h))
      (λ p h. h)

first_init-Keeps : (sys : System) → Keeps (first_init sys)
unfolding first_init hmcuda_cmd_get_sizes hmcuda_runtime_get_sizes
first_init-Keeps sys p h = remember-Keeps sys 0 _ _ (
    drv_fwd-Keeps sys (runtime Command.init) [] (ground arith) _
      (init_unless-Keeps (hmcuda_transport_ready p).0 sys p h))

ensure_initialized-Keeps : (sys : System) → Keeps (hmcuda_driver_ensure_initialized sys)
unfolding hmcuda_driver_ensure_initialized
ensure_initialized-Keeps sys p h =
    either-AllRoomy p.driver_initialized (0, p) (first_init sys p) h (first_init-Keeps sys p h)

pub cu_init-Keeps : (sys : System) (flags : ℕ) → Keeps (cu_init sys flags)
unfolding cu_init
cu_init-Keeps sys flags p h = remember-Keeps sys flags _ _ (ensure_initialized-Keeps sys p h)
