-- ===== src/Core/Stable/Reads.antt =====
-- Actions that only look at the state, and the parts that the operations share.
use hm_cuda.Prelude.{
  ℕ, Bool, true, false, List, [], ◌∷◌, Option, none, some, Option-cases, inl, inr,
}
use hm_cuda.Cuda.{Environment}
use hm_cuda.Backend.{ResourceType, Region, Backend, M}
use hm_cuda.Backend.Keeps.{Keeps, keeps_rules}
use hm_cuda.Resource.{hmcuda_ctx_get, hmcuda_res_get, hmcuda_res_get_handle}
use hm_cuda.Core.{
  with_ctx, register_regions, register_device, hmcuda_register_guest_memory, resolve_any_mem,
  resolve_stream,
}
use hm_cuda.Core.Copy.{needs_patch, patched}
use hm_cuda.Core.Stable.{Stable}

module _ {P : Backend → Type 0} where
  pub Keeps-with_ctx :
      {A : Type 0} (sid vid : ℕ) (missing : A) (body : M A)
      → Keeps P body
      → Keeps P (with_ctx sid vid missing body)
  unfolding with_ctx
  Keeps-with_ctx sid vid missing body k = record {
    at = λ s h. elim (Option-cases (hmcuda_ctx_get sid vid s.contexts)) [
      | inl e ↦ rw (e, with_ctx) h
      | inr (c, e) ↦ rw (e, with_ctx) (k.at s h)
    ];
  }

  pub Keeps-res_get :
      (sid vid : ℕ) (type : ResourceType) (h : ℕ) → Keeps P (hmcuda_res_get sid vid type h)
  unfolding hmcuda_res_get
  Keeps-res_get sid vid type h = record { at = λ s p. p }

  pub Keeps-res_get_handle :
      (sid vid : ℕ) (type : ResourceType) (p : ℕ) → Keeps P (hmcuda_res_get_handle sid vid type p)
  unfolding hmcuda_res_get_handle
  Keeps-res_get_handle sid vid type p = record { at = λ s h. h }

  pub Keeps-needs_patch :
      (env : Environment) (sid vid p n : ℕ) → Keeps P (needs_patch env sid vid p n)
  unfolding needs_patch
  Keeps-needs_patch env sid vid p n = record { at = λ s h. h }

  pub Keeps-patched : (env : Environment) (sid vid p n : ℕ) → Keeps P (patched env sid vid p n)
  unfolding patched
  Keeps-patched env sid vid p n = record { at = λ s h. h }

pub ruleset reads = (
  keeps_rules, Keeps-with_ctx, Keeps-res_get, Keeps-res_get_handle, Keeps-needs_patch,
  Keeps-patched,
)

module _ {P : Backend → Type 0} where
  pub Keeps-resolve_any_mem : (sid vid h : ℕ) → Keeps P (resolve_any_mem sid vid h)
  unfolding resolve_any_mem
  Keeps-resolve_any_mem sid vid h = search reads

  pub Keeps-resolve_stream : (sid vid h : ℕ) → Keeps P (resolve_stream sid vid h)
  unfolding resolve_stream
  Keeps-resolve_stream sid vid h = search reads

pub ruleset read_rules = (reads, Keeps-resolve_any_mem, Keeps-resolve_stream)

module _ {env : Environment} {sid vid : ℕ} {P : Backend → Type 0} (k : Stable env sid vid P) where
  Keeps-register_regions : (rs : List Region) → Keeps P (register_regions env rs)
  unfolding register_regions
  Keeps-register_regions [] = search read_rules
  Keeps-register_regions (r ∷ rs) =
      let rest = Keeps-register_regions rs in search (read_rules, k.performs) depth 8

  pub Keeps-register_guest_memory : Keeps P (hmcuda_register_guest_memory env)
  unfolding hmcuda_register_guest_memory register_device
  Keeps-register_guest_memory = record { at = λ s h. (go s.device s.registered).at s h }
    where
      go : (d : Option (List Region)) (b : Bool) → Keeps P (register_device env d b)
      go none b = search read_rules
      go (some rs) true = search read_rules
      go (some rs) false =
          let regions = Keeps-register_regions rs in
          let marks = k.marks in search read_rules depth 8
