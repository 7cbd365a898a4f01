-- ===== src/Resource/Destroy.antt =====
-- hmcuda_ctx_destroy of host/vhost/resource.c: what it releases, and what it leaves.
use mathlib.Core.List.{reverse, reverse-append, append_assoc, append-nil}
use hm_cuda.Prelude.{
  ℕ, ◌≡◌, refl, ap, sym, ◌∙◌, List, [], ◌∷◌, ◌++◌, ◌==◌, if◌then◌else◌, Bool-cases, inl, inr,
}
use hm_cuda.Cuda.{
  Environment, Call, cuda_free, cuda_stream_destroy, cuda_event_destroy, cu_mem_free_host,
  cu_mem_release,
}
use hm_cuda.Backend.{
  done, ResourceType, res_mem, res_stream, res_event, res_host_mem, res_generic_alloc, res_module,
  res_function, res_context, res_host_dev_ptr, Resource, Context, Backend, pure, ◌>>=◌, perform,
}
use hm_cuda.Resource.{
  free_resource, free_resource_list, free_all, all_types, hmcuda_ctx_destroy, unlink,
}

-- The releases that the entries of a table are owed, oldest call first.
abbrev pub owed : ResourceType → ℕ → List Call
owed res_mem p = cuda_free p ∷ []
owed res_stream p = cuda_stream_destroy p ∷ []
owed res_event p = cuda_event_destroy p ∷ []
owed res_host_mem p = cu_mem_free_host p ∷ []
owed res_generic_alloc p = cu_mem_release p ∷ []
owed _ p = []

unfoldable pub owed_list : ResourceType → List Resource → List Call
owed_list type [] = []
owed_list type (r ∷ l) = (if r.real_ptr == 0 then [] else owed type r.real_ptr) ++ owed_list type l

unfoldable pub owed_all : Context → List ResourceType → List Call
owed_all ctx [] = []
owed_all ctx (t ∷ ts) = owed_list t (ctx.resources t) ++ owed_all ctx ts

calls-free_resource :
    (env : Environment) (type : ResourceType) (p : ℕ) (s : Backend)
    → (free_resource env type p s).1.calls ≡ reverse (owed type p) ++ s.calls
unfolding free_resource perform ◌>>=◌
calls-free_resource env res_mem p s = refl
calls-free_resource env res_stream p s = refl
calls-free_resource env res_event p s = refl
calls-free_resource env res_host_mem p s = refl
calls-free_resource env res_generic_alloc p s = refl
calls-free_resource env _ p s = refl

calls-step :
    (env : Environment) (r : Resource) (type : ResourceType) (s : Backend)
    → ((if r.real_ptr == 0 then pure done else free_resource env type r.real_ptr) s).1.calls
      ≡ reverse (if r.real_ptr == 0 then [] else owed type r.real_ptr) ++ s.calls
unfolding pure
calls-step env r type s = elim (Bool-cases (r.real_ptr == 0)) [
  | inl null ↦ rw null
  | inr ptr ↦ rw ptr (calls-free_resource env type r.real_ptr s)
]

-- Two batches of calls, one after the other.
batches :
    (xs ys old new newer : List Call)
    → new ≡ reverse xs ++ old
    → newer ≡ reverse ys ++ new
    → newer ≡ reverse (xs ++ ys) ++ old
batches xs ys old new newer e f =
    f
    ∙ ap (λ l. reverse ys ++ l) e
    ∙ sym (append_assoc (reverse ys) (reverse xs) old)
    ∙ ap (λ l. l ++ old) (sym (reverse-append xs ys))

calls-free_resource_list :
    (env : Environment) (l : List Resource) (type : ResourceType) (s : Backend)
    → (free_resource_list env l type s).1.calls ≡ reverse (owed_list type l) ++ s.calls
unfolding free_resource_list owed_list ◌>>=◌
calls-free_resource_list env [] type s = refl
calls-free_resource_list env (r ∷ l) type s =
    batches (if r.real_ptr == 0 then [] else owed type r.real_ptr) (owed_list type l) s.calls _ _
      (calls-step env r type s) (calls-free_resource_list env l type _)

calls-free_all :
    (env : Environment) (ctx : Context) (ts : List ResourceType) (s : Backend)
    → (free_all env ctx ts s).1.calls ≡ reverse (owed_all ctx ts) ++ s.calls
unfolding free_all owed_all ◌>>=◌
calls-free_all env ctx [] s = refl
calls-free_all env ctx (t ∷ ts) s =
    batches (owed_list t (ctx.resources t)) (owed_all ctx ts) s.calls _ _
      (calls-free_resource_list env (ctx.resources t) t s) (calls-free_all env ctx ts _)

owed-none :
    (type : ResourceType) (l : List Resource) → ((p : ℕ) → owed type p ≡ []) → owed_list type l ≡ []
unfolding owed_list
owed-none type [] h = refl
owed-none type (r ∷ l) h = elim (Bool-cases (r.real_ptr == 0)) [
  | inl null ↦ rw (null, owed-none type l h)
  | inr ptr ↦ rw (ptr, h r.real_ptr, owed-none type l h)
]

-- Destroying a session calls the library once for each resource with a pointer that is device memory,
-- a stream, an event, pinned memory or an allocation of cuMemCreate, with the release of its type:
-- these types in this order, newest first within a type; it makes no other call.
pub calls-ctx_destroy :
    (env : Environment) (ctx : Context) (s : Backend)
    → (hmcuda_ctx_destroy env ctx s).1.calls
      ≡ reverse (
          owed_list res_mem (ctx.resources res_mem)
          ++ (owed_list res_stream (ctx.resources res_stream)
              ++ (owed_list res_event (ctx.resources res_event)
                  ++ (owed_list res_host_mem (ctx.resources res_host_mem)
                      ++ owed_list res_generic_alloc (ctx.resources res_generic_alloc)))))
        ++ s.calls
unfolding hmcuda_ctx_destroy owed_all
calls-ctx_destroy env ctx s =
    calls-free_all env ctx all_types _
    ∙ rw (
      owed-none res_module (ctx.resources res_module) (λ p. refl),
      owed-none res_function (ctx.resources res_function) (λ p. refl),
      owed-none res_context (ctx.resources res_context) (λ p. refl),
      owed-none res_host_dev_ptr (ctx.resources res_host_dev_ptr) (λ p. refl),
      append-nil (owed_list res_generic_alloc (ctx.resources res_generic_alloc)),
    )

contexts-free_resource :
    (env : Environment) (r : Resource) (type : ResourceType) (s : Backend)
    → ((if r.real_ptr == 0 then pure done else free_resource env type r.real_ptr) s).1.contexts
      ≡ s.contexts
unfolding free_resource perform ◌>>=◌
contexts-free_resource env r type s = elim (Bool-cases (r.real_ptr == 0)) [
  | inl null ↦ rw null
  | inr ptr ↦ rw ptr (go type)
]
  where
    go : (t : ResourceType) → (free_resource env t r.real_ptr s).1.contexts ≡ s.contexts
    go res_mem = refl
    go res_stream = refl
    go res_event = refl
    go res_host_mem = refl
    go res_generic_alloc = refl
    go _ = refl

contexts-free_resource_list :
    (env : Environment) (l : List Resource) (type : ResourceType) (s : Backend)
    → (free_resource_list env l type s).1.contexts ≡ s.contexts
unfolding free_resource_list ◌>>=◌
contexts-free_resource_list env [] type s = refl
contexts-free_resource_list env (r ∷ l) type s =
    contexts-free_resource_list env l type _ ∙ contexts-free_resource env r type s

contexts-free_all :
    (env : Environment) (ctx : Context) (ts : List ResourceType) (s : Backend)
    → (free_all env ctx ts s).1.contexts ≡ s.contexts
unfolding free_all ◌>>=◌
contexts-free_all env ctx [] s = refl
contexts-free_all env ctx (t ∷ ts) s =
    contexts-free_all env ctx ts _ ∙ contexts-free_resource_list env (ctx.resources t) t s

pub contexts-ctx_destroy :
    (env : Environment) (ctx : Context) (s : Backend)
    → (hmcuda_ctx_destroy env ctx s).1.contexts ≡ unlink ctx.session_id ctx.vm_id s.contexts
unfolding hmcuda_ctx_destroy
contexts-ctx_destroy env ctx s = contexts-free_all env ctx all_types _
