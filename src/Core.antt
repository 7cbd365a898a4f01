-- ===== src/Core.antt =====
-- host/vhost/core_driver.c and core_runtime.c: one function for each CUDA entry point. Each finds
-- its session, turns the guest's handles into real pointers, calls the library, and keeps the
-- session's tables. The modules below hold them by subject; these are the parts that they share.
pub mod Sessions
pub mod Streams
pub mod Alloc
pub mod Copy
pub mod Vmm
pub mod Runtime
pub mod Launch
pub mod Queries
pub mod Stable
pub mod Renewal
pub mod MallocFree
pub mod LaunchArgs
use hm_cuda.Prelude.{
  ℕ, ◌+◌, ◌-◌, ◌^◌, List, [], ◌∷◌, Option, none, some, Bool, true, ltb, ◌==◌, ◌||◌, if◌then◌else◌,
}
use hm_cuda.Cuda.{Environment, cu_mem_host_register, cu_stream_legacy, cu_stream_per_thread}
use hm_cuda.Backend.{
  Done, done, res_mem, res_stream, res_host_mem, Region, Backend, M, pure, ◌>>=◌, ◌>>◌, perform,
}
use hm_cuda.Resource.{hmcuda_ctx_get, hmcuda_ctx_create, hmcuda_ctx_destroy, hmcuda_res_get}

-- `Context *ctx = hmcuda_ctx_get(sid, vid); if (!ctx) return missing;`
unfoldable pub with_ctx : {A : Type 0} → ℕ → ℕ → A → M A → M A
with_ctx sid vid missing body s = elim (hmcuda_ctx_get sid vid s.contexts) [
  | none ↦ (missing, s)
  | some _ ↦ body s
]

-- Destroys the session if there is one.
unfoldable pub destroy_session : Environment → ℕ → ℕ → M Done
destroy_session env sid vid s = elim (hmcuda_ctx_get sid vid s.contexts) [
  | none ↦ (done, s)
  | some ctx ↦ hmcuda_ctx_destroy env ctx s
]

-- hmcuda_ctx_destroy and hmcuda_ctx_create, as both callers pair them.
unfoldable pub renew_session : Environment → ℕ → ℕ → M Done
unfolding destroy_session
renew_session env sid vid = destroy_session env sid vid >> hmcuda_ctx_create sid vid

-- (uint64_t) of an int32_t, which is kept as its 32 bits.
abbrev pub sign_extend : ℕ → ℕ
sign_extend d = if ltb d (2 ^ 31) then d else d + 2 ^ 64 - 2 ^ 32

unfoldable pub register_regions : Environment → List Region → M Done
register_regions env [] = pure done
register_regions env (r ∷ rs) = do
  if r.ptr == 0 || r.size == 0
      then pure done
      else perform env (cu_mem_host_register r.ptr r.size) >> pure done
  register_regions env rs

unfoldable pub mark_registered : M Done
mark_registered s = (done, record s { registered = true })

unfoldable pub register_device : Environment → Option (List Region) → Bool → M Done
register_device env none registered = pure done
register_device env (some regions) true = pure done
register_device env (some regions) _ = register_regions env regions >> mark_registered

unfoldable pub hmcuda_register_guest_memory : Environment → M Done
hmcuda_register_guest_memory env s = register_device env s.device s.registered s

unfoldable pub resolve_any_mem : ℕ → ℕ → ℕ → M ℕ
resolve_any_mem sid vid handle = do
  ptr ← hmcuda_res_get sid vid res_mem handle
  if ptr == 0 then hmcuda_res_get sid vid res_host_mem handle else pure ptr

-- resolve_stream of core_driver.c; resolve_runtime_stream of core_runtime.c has the same body.
unfoldable pub resolve_stream : ℕ → ℕ → ℕ → M ℕ
resolve_stream sid vid handle =
    if handle == 0
    then pure 0
    else if handle == cu_stream_legacy
    then pure cu_stream_legacy
    else if handle == cu_stream_per_thread
    then pure cu_stream_per_thread
    else hmcuda_res_get sid vid res_stream handle
