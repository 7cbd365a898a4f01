-- ===== src/Core/Stable.antt =====
-- What every operation of the backend keeps: the interface that an invariant fills, for the few
-- actions that change the state, and the theorem's parts, one file for each part of the core.
pub mod Reads
pub mod Driver
pub mod Runtime
use hm_cuda.Prelude.{ℕ, List}
use hm_cuda.Cuda.{Environment, Call}
use hm_cuda.Backend.{ResourceType, Backend, perform, memcpy, memcpy_buffer}
use hm_cuda.Backend.Keeps.{Keeps}
use hm_cuda.Resource.{hmcuda_res_add, hmcuda_res_add_with_handle, hmcuda_res_remove}
use hm_cuda.Core.{renew_session, mark_registered}

pub record Stable (env : Environment) (sid vid : ℕ) (P : Backend → Type 0) : Type 0 where
  pub performs : (c : Call) → Keeps P (perform env c)
  pub copies : (dst src n : ℕ) → Keeps P (memcpy dst src n)
  pub copies_buffer : (dst : ℕ) (bytes : List ℕ) → Keeps P (memcpy_buffer dst bytes)
  pub marks : Keeps P mark_registered
  pub adds : (type : ResourceType) (p n : ℕ) → Keeps P (hmcuda_res_add sid vid type p n)
  pub adds_with_handle :
      (type : ResourceType) (p n h : ℕ) → Keeps P (hmcuda_res_add_with_handle sid vid type p n h)
  pub removes : (type : ResourceType) (h : ℕ) → Keeps P (hmcuda_res_remove sid vid type h)
  pub renews : Keeps P (renew_session env sid vid)
