-- ===== src/Core/MallocFree.antt =====
-- hmcuda_core_malloc and hmcuda_core_free of host/vhost/core_runtime.c, one after the other.
use hm_cuda.Prelude.{
  ℕ, ◌+◌, ◌^◌, ◌<◌, ◌≡◌, ◌≢◌, refl, ◌∙◌, sym, subst, List, ◌∷◌, some, arith, ==_refl, ==_ne,
  if◌then◌else◌,
}
use hm_cuda.Cuda.{Environment, Call, cuda_malloc, cuda_free}
use hm_cuda.Backend.{ResourceType, res_mem, Resource, Context, Backend, ◌>>=◌, perform}
use hm_cuda.Resource.{
  hmcuda_ctx_get, push_resource, hmcuda_res_add_with_handle, hmcuda_res_get, hmcuda_res_remove,
  remove_first, resources_of, same_type,
}
use hm_cuda.Resource.Lookup.{view, view-add, resources-remove, resources-get}
use hm_cuda.Resource.Sessions.{get-update_self}
use hm_cuda.Core.{with_ctx}
use hm_cuda.Core.Runtime.{hmcuda_core_malloc, hmcuda_core_free}

-- The state after a call, and what it answered.
abbrev pub called : Environment → Call → Backend → Backend
called env c s = record s { memory = (env s.calls s.memory c).memory; calls = c ∷ s.calls }

module _ (env : Environment) (sid vid : ℕ) (s : Backend) (ctx : Context)
    (exists : hmcuda_ctx_get sid vid s.contexts ≡ some ctx) where
  -- If the library allocates, malloc adds one entry, under the device address that it returns.
  malloc_success :
      (n p : ℕ)
      → (env s.calls s.memory (cuda_malloc n)).status ≡ 0
      → (env s.calls s.memory (cuda_malloc n)).out 0 ≡ p
      → hmcuda_core_malloc env sid vid n s ≡ (
        (0, some p),
        (hmcuda_res_add_with_handle sid vid res_mem p n p (called env (cuda_malloc n) s)).1,
      )
  unfolding hmcuda_core_malloc ◌>>=◌ with_ctx perform
  malloc_success n p ok address = rw (exists, with_ctx, ok, address)

  free_known :
      (v p : ℕ)
      → view sid vid s res_mem v ≡ p
      → p ≢ 0
      → (hmcuda_core_free env sid vid v s).1
        ≡ (hmcuda_res_remove sid vid res_mem v (called env (cuda_free p) s)).1
  unfolding hmcuda_core_free view hmcuda_res_get ◌>>=◌ with_ctx perform
  free_known v p found ne = rw (exists, with_ctx, found, ==_ne p 0 ne)

-- The other tables of a session whose first table is put back.
put_back :
    (type : ResourceType) (table : ResourceType → List Resource) (l : List Resource)
    → (if same_type res_mem type
        then table res_mem
        else if same_type res_mem type
        then l
        else table type)
      ≡ table type
put_back res_mem table l = refl
put_back _ table l = refl

module _ (env : Environment) (sid vid : ℕ) (s : Backend) (ctx : Context) (n p : ℕ)
    (exists : hmcuda_ctx_get sid vid s.contexts ≡ some ctx) (ne : p ≢ 0) (some_bytes : 0 < n)
    (fits : p + n < 2 ^ 64) where
  added : Backend
  added = (hmcuda_res_add_with_handle sid vid res_mem p n p (called env (cuda_malloc n) s)).1

  added_ctx : Context
  added_ctx = push_resource res_mem (record { handle = p; real_ptr = p; size = n }) ctx

  get-added : hmcuda_ctx_get sid vid added.contexts ≡ some added_ctx
  unfolding added added_ctx hmcuda_res_add_with_handle
  get-added =
      get-update_self sid vid _ s.contexts (record { session = λ c. refl; vm = λ c. refl })
      ∙ rw exists

  view-added : view sid vid added res_mem p ≡ p
  unfolding added
  view-added =
      view-add sid vid res_mem res_mem p n p p (called env (cuda_malloc n) s) ctx exists
      ∙ ground arith

  freed : Backend
  freed = (hmcuda_res_remove sid vid res_mem p (called env (cuda_free p) added)).1

  resources-freed :
      (type : ResourceType) → resources_of sid vid type freed ≡ resources_of sid vid type s
  unfolding freed added_ctx remove_first
  resources-freed type =
      resources-remove sid vid res_mem type p (called env (cuda_free p) added) added_ctx get-added
      ∙ rw (resources-get sid vid type s ctx exists, ==_refl p)
          (put_back type ctx.resources
            (record { handle = p; real_ptr = p; size = n } ∷ ctx.resources res_mem))

  free-added :
      (env s.calls s.memory (cuda_malloc n)).status ≡ 0
      → (env s.calls s.memory (cuda_malloc n)).out 0 ≡ p
      → (hmcuda_core_free env sid vid p (hmcuda_core_malloc env sid vid n s).1).1 ≡ freed
  unfolding freed added
  free-added ok address =
      rw (malloc_success env sid vid s ctx exists n p ok address)
        (free_known env sid vid added added_ctx get-added p p view-added ne)

  calls-freed : freed.calls ≡ cuda_free p ∷ cuda_malloc n ∷ s.calls
  unfolding freed added hmcuda_res_remove hmcuda_res_add_with_handle
  calls-freed = refl

  -- In a session that exists, if the library allocates n > 0 bytes at an address p other than NULL
  -- whose range does not wrap, freeing p calls cudaFree on it and gives every table of the session
  -- back as it was before the allocation.
  pub free-malloc :
      (env s.calls s.memory (cuda_malloc n)).status ≡ 0
      → (env s.calls s.memory (cuda_malloc n)).out 0 ≡ p
      → let after = (hmcuda_core_free env sid vid p (hmcuda_core_malloc env sid vid n s).1).1 in
        (after.calls ≡ cuda_free p ∷ cuda_malloc n ∷ s.calls)
        × ((type : ResourceType) → resources_of sid vid type after ≡ resources_of sid vid type s)
  free-malloc ok address =
      subst
        (λ t.
          (t.calls ≡ cuda_free p ∷ cuda_malloc n ∷ s.calls)
          × ((type : ResourceType) → resources_of sid vid type t ≡ resources_of sid vid type s))
        (sym (free-added ok address)) (calls-freed, resources-freed)
