-- ===== src/Backend.antt =====
-- The state of the vhost-user backend (host/vhost/resource.c, core_driver.c) and the actions that
-- its functions are made of.
pub mod Keeps
use hm_cuda.Prelude.{ℕ, Bool, List, ◌∷◌, Option}
use hm_cuda.Cuda.{Call, Memory, Environment, Reply, read_bytes, write_bytes}

pub data ResourceType : Type 0 where
  res_mem res_stream res_event res_module res_function res_context res_host_mem : ResourceType
  res_host_dev_ptr res_generic_alloc : ResourceType

pub record Resource : Type 0 where
  pub handle : ℕ
  pub real_ptr : ℕ
  pub size : ℕ

-- `resources` is the array of lists, indexed by type; the field `next` is the order of a list.
pub record Context : Type 0 where
  pub session_id : ℕ
  pub vm_id : ℕ
  pub resources : ResourceType → List Resource

-- A region of guest memory that vhost-user has mapped.
pub record Region : Type 0 where
  pub ptr : ℕ
  pub size : ℕ

-- `contexts` is g_ctx_list, `next_handle` g_next_handle, `registered` g_guest_mem_registered, and
-- `device` what hmcuda_vu_dev_get returns. `calls` records the calls made, newest first; no
-- function reads it, the environment alone does.
pub record Backend : Type 0 where
  pub contexts : List Context
  pub next_handle : ℕ
  pub registered : Bool
  pub device : Option (List Region)
  pub memory : Memory
  pub calls : List Call

-- What a void function returns.
pub data Done : Type 0 where
  done : Done

abbrev pub M : Type 0 → Type 0
M A = Backend → A × Backend

unfoldable pub pure : {A : Type 0} → A → M A
pure a s = (a, s)

infixl 5 ◌>>=◌ ◌>>◌
unfoldable pub ◌>>◌ : {A B : Type 0} → M A → M B → M B
◌>>◌ m n s = let (a, t) = m s in n t

-- Opening this opens `pure` and `◌>>◌` too.
unfoldable pub ◌>>=◌ : {A B : Type 0} → M A → (A → M B) → M B
unfolding pure ◌>>◌
◌>>=◌ m f s = let (a, t) = m s in f a t

-- A call of the environment.
unfoldable pub perform : Environment → Call → M Reply
perform env c s =
    let r = env s.calls s.memory c in (r, record s { memory = r.memory; calls = c ∷ s.calls })

-- memcpy(dst, src, n)
unfoldable pub memcpy : ℕ → ℕ → ℕ → M Done
memcpy dst src n s =
    (done, record s { memory = write_bytes s.memory dst (read_bytes s.memory src n) })

-- memcpy(dst, buf, n) from a private buffer
unfoldable pub memcpy_buffer : ℕ → List ℕ → M Done
memcpy_buffer dst bytes s = (done, record s { memory = write_bytes s.memory dst bytes })

-- The bytes at a host address.
abbrev pub load : ℕ → ℕ → M (List ℕ)
load p n s = (read_bytes s.memory p n, s)
