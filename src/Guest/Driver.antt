-- ===== src/Guest/Driver.antt =====
-- guest/intercept/hmcuda_driver.cpp: dispatching, initialization and devices. A pointer that the entry
-- point writes through is a Bool, whether it is not NULL.
use hm_cuda.Prelude.{
  ℕ, ◌+◌, ◌%◌, ◌^◌, Bool, true, List, [], ◌∷◌, ◌++◌, Option, none, some, ltb, ◌==◌, if◌then◌else◌,
  add64,
}
use hm_cuda.Command
use hm_cuda.Command.{Request, driver, runtime, MemcpyReq, HostAllocReq}
use hm_cuda.Wire.{Struct, sizeof}
use hm_cuda.Wire.Driver.{
  hmcuda_cu_device_can_access_peer_req, hmcuda_cu_device_can_access_peer_resp,
  hmcuda_cu_device_get_attribute_req, hmcuda_cu_device_get_attribute_resp,
  hmcuda_cu_device_get_count_resp, hmcuda_cu_device_get_name_req, hmcuda_cu_device_get_name_resp,
  hmcuda_cu_device_get_req, hmcuda_cu_device_get_resp, hmcuda_cu_device_get_uuid_req,
  hmcuda_cu_device_get_uuid_resp, hmcuda_cu_device_primary_ctx_release_req,
  hmcuda_cu_device_primary_ctx_retain_req, hmcuda_cu_device_primary_ctx_retain_resp,
  hmcuda_cu_driver_get_version_resp, hmcuda_cu_init_req,
}
use hm_cuda.Guest.{System, G, Done, done, Status, ◌>>=◌, ◌>>◌, pure}
use hm_cuda.Guest.Transport.{
  Reply, hmcuda_transport_init, hmcuda_transport_ready, hmcuda_transport_fini,
  hmcuda_transport_dispatch,
}
use hm_cuda.Guest.Dispatch.{hmcuda_forward, hmcuda_forward_resp, members, out_members}
use hm_cuda.Core.{sign_extend}

unfoldable pub hmcuda_drv_dispatch : System → Request → ℕ → ℕ → G Reply
unfolding hmcuda_transport_ready hmcuda_transport_init hmcuda_transport_dispatch
hmcuda_drv_dispatch sys r req_len resp_len = do
  ready ← hmcuda_transport_ready
  if ready then pure done else hmcuda_transport_init sys
  hmcuda_transport_dispatch sys r req_len resp_len

unfoldable pub drv_fwd : System → Request → Struct → G ℕ
unfolding hmcuda_forward
drv_fwd sys = hmcuda_forward (hmcuda_drv_dispatch sys)

unfoldable pub drv_fwd_resp : System → Request → Struct → Struct → Bool → G Status
unfolding hmcuda_forward_resp
drv_fwd_resp sys = hmcuda_forward_resp (hmcuda_drv_dispatch sys)

-- Remembers a success of cuInit.
abbrev pub set_initialized : ℕ → G Done
set_initialized e p = if e == 0 then (done, record p { driver_initialized = true }) else (done, p)

-- HMCUDA_CMD_INIT, and if that succeeds HMCUDA_CMD_CU_INIT.
unfoldable pub first_init : System → G ℕ
unfolding hmcuda_transport_ready hmcuda_transport_init drv_fwd
first_init sys = do
  ready ← hmcuda_transport_ready
  if ready then pure done else hmcuda_transport_init sys
  err ← drv_fwd sys (runtime Command.init) []
  if err == 0
      then (do
        err' ← drv_fwd sys (driver (Command.cu_init 0)) hmcuda_cu_init_req
        set_initialized err'
        pure err')
      else pure err

unfoldable pub hmcuda_driver_ensure_initialized : System → G ℕ
unfolding first_init
hmcuda_driver_ensure_initialized sys p = if p.driver_initialized then (0, p) else first_init sys p

unfoldable pub hmcuda_driver_init : System → G Done
unfolding hmcuda_transport_init hmcuda_driver_ensure_initialized
hmcuda_driver_init sys = do
  hmcuda_transport_init sys
  hmcuda_driver_ensure_initialized sys
  pure done

unfoldable pub hmcuda_driver_fini : G Done
hmcuda_driver_fini = hmcuda_transport_fini

unfoldable pub cu_init : System → ℕ → G ℕ
unfolding hmcuda_driver_ensure_initialized drv_fwd
cu_init sys flags = do
  err ← hmcuda_driver_ensure_initialized sys
  if err == 0
      then (do
        err' ← drv_fwd sys (driver (Command.cu_init flags)) hmcuda_cu_init_req
        set_initialized err'
        pure err')
      else pure err

unfoldable pub cu_driver_get_version : System → Bool → G Status
unfolding drv_fwd_resp
cu_driver_get_version sys given =
    drv_fwd_resp sys (driver (Command.cu_driver_get_version)) [] hmcuda_cu_driver_get_version_resp
      given

unfoldable pub cu_device_get : System → Bool → ℕ → G Status
unfolding drv_fwd_resp
cu_device_get sys given ordinal =
    drv_fwd_resp sys (driver (Command.cu_device_get ordinal)) hmcuda_cu_device_get_req
      hmcuda_cu_device_get_resp given

unfoldable pub cu_device_get_count : System → Bool → G Status
unfolding drv_fwd_resp
cu_device_get_count sys given =
    drv_fwd_resp sys (driver (Command.cu_device_get_count)) [] hmcuda_cu_device_get_count_resp given

-- Signed comparison of two 32-bit numbers.
abbrev ltb_i32 : ℕ → ℕ → Bool
ltb_i32 a b = ltb ((a + 2 ^ 31) % 2 ^ 32) ((b + 2 ^ 31) % 2 ^ 32)

-- What is written at `name`: the bytes, and a NUL if it fits.
abbrev copied_name : ℕ → (ℕ → ℕ) → List ℕ
copied_name len member =
    let copy_len = if ltb_i32 (member 0) len then member 0 else len in
    members 1 (sign_extend copy_len) member ++ (if ltb_i32 copy_len len then 0 ∷ [] else [])

abbrev out_name : Bool → ℕ → Reply → ℕ × Option (List ℕ)
out_name given len (e, none) = (e, none)
out_name given len (e, some member) = (e, if given then some (copied_name len member) else none)

unfoldable pub cu_device_get_name : System → Bool → ℕ → ℕ → G (ℕ × Option (List ℕ))
unfolding hmcuda_drv_dispatch
cu_device_get_name sys given len dev = do
  rep ←
      hmcuda_drv_dispatch sys (driver (Command.cu_device_get_name dev len))
        (sizeof hmcuda_cu_device_get_name_req)
        (add64 (sizeof hmcuda_cu_device_get_name_resp) (sign_extend len))
  pure (out_name given len rep)

unfoldable pub cu_device_get_attribute : System → Bool → ℕ → ℕ → G Status
unfolding drv_fwd_resp
cu_device_get_attribute sys given attrib dev =
    drv_fwd_resp sys (driver (Command.cu_device_get_attribute attrib dev))
      hmcuda_cu_device_get_attribute_req hmcuda_cu_device_get_attribute_resp given

unfoldable pub cu_device_get_uuid : System → Bool → ℕ → G (ℕ × Option (List ℕ))
unfolding hmcuda_drv_dispatch
cu_device_get_uuid sys given dev = do
  rep ←
      hmcuda_drv_dispatch sys (driver (Command.cu_device_get_uuid dev))
        (sizeof hmcuda_cu_device_get_uuid_req) (sizeof hmcuda_cu_device_get_uuid_resp)
  pure (out_members given 0 16 rep)

unfoldable pub cu_device_can_access_peer : System → Bool → ℕ → ℕ → G Status
unfolding drv_fwd_resp
cu_device_can_access_peer sys given dev peer_dev =
    drv_fwd_resp sys (driver (Command.cu_device_can_access_peer dev peer_dev))
      hmcuda_cu_device_can_access_peer_req hmcuda_cu_device_can_access_peer_resp given

unfoldable pub cu_device_primary_ctx_retain : System → Bool → ℕ → G Status
unfolding drv_fwd_resp
cu_device_primary_ctx_retain sys given dev =
    drv_fwd_resp sys (driver (Command.cu_device_primary_ctx_retain dev))
      hmcuda_cu_device_primary_ctx_retain_req hmcuda_cu_device_primary_ctx_retain_resp given

unfoldable pub cu_device_primary_ctx_release : System → ℕ → G ℕ
unfolding drv_fwd
cu_device_primary_ctx_release sys dev =
    drv_fwd sys (driver (Command.cu_device_primary_ctx_release dev))
      hmcuda_cu_device_primary_ctx_release_req
