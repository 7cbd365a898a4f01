-- ===== src/Resource/Lookup.antt =====
-- Lookup in a session's tables after an entry is added or removed (host/vhost/resource.c).
use hm_cuda.Prelude.{
  ℕ, ◌+◌, ◌-◌, ◌^◌, ◌<◌, ◌≡◌, ◌∙◌, Bool, true, ◌&&◌, List, ◌∷◌, some, ◌==◌, ==_refl, if◌then◌else◌,
  add64, arith, Bool-cases, inl, inr,
}
use hm_cuda.Backend.{ResourceType, Resource, Context, Backend}
use hm_cuda.Resource.{
  same_type, type_index, by_range, in_range, hmcuda_ctx_get, resources_of, search_list,
  remove_first, hmcuda_res_add_with_handle, hmcuda_res_get, hmcuda_res_remove,
}
use hm_cuda.Resource.Sessions.{resources-update}

-- Whether a lookup of `v` stops at the entry, and what it then gives.
abbrev pub covers : ResourceType → ℕ → Resource → Bool
covers type v r = if by_range type then in_range v r else r.handle == v

abbrev pub offset_in : ResourceType → ℕ → Resource → ℕ
offset_in type v r = if by_range type then add64 r.real_ptr (v - r.handle) else r.real_ptr

pub search-cons :
    (type : ResourceType) (v : ℕ) (r : Resource) (l : List Resource)
    → search_list type v (r ∷ l)
      ≡ (if covers type v r then offset_in type v r else search_list type v l)
unfolding search_list
search-cons type v r l = ground arith

pub same_type-eq : (a b : ResourceType) → same_type a b ≡ true → a ≡ b
same_type-eq a b h = ground arith

-- A table of a session as it is read: the pointer that each guest value resolves to.
unfoldable pub view : ℕ → ℕ → Backend → ResourceType → ℕ → ℕ
view sid vid s type v = (hmcuda_res_get sid vid type v s).0

pub resources-add :
    (sid vid : ℕ) (type other : ResourceType) (p n h : ℕ) (s : Backend) (ctx : Context)
    → hmcuda_ctx_get sid vid s.contexts ≡ some ctx
    → resources_of sid vid other (hmcuda_res_add_with_handle sid vid type p n h s).1 ≡ (
        if same_type type other
        then record { handle = h; real_ptr = p; size = n } ∷ ctx.resources type
        else ctx.resources other)
unfolding resources_of hmcuda_res_add_with_handle
resources-add sid vid type other p n h s ctx e =
    resources-update sid vid type other
      (λ c. record { handle = h; real_ptr = p; size = n } ∷ c.resources type) s ctx e

pub resources-remove :
    (sid vid : ℕ) (type other : ResourceType) (h : ℕ) (s : Backend) (ctx : Context)
    → hmcuda_ctx_get sid vid s.contexts ≡ some ctx
    → resources_of sid vid other (hmcuda_res_remove sid vid type h s).1
      ≡ (if same_type type other then remove_first h (ctx.resources type) else ctx.resources other)
unfolding resources_of hmcuda_res_remove
resources-remove sid vid type other h s ctx e =
    resources-update sid vid type other (λ c. remove_first h (c.resources type)) s ctx e

pub resources-get :
    (sid vid : ℕ) (type : ResourceType) (s : Backend) (ctx : Context)
    → hmcuda_ctx_get sid vid s.contexts ≡ some ctx
    → resources_of sid vid type s ≡ ctx.resources type
unfolding resources_of
resources-get sid vid type s ctx e = rw e

-- In a session that exists, an entry added under a handle is what that table then answers for every
-- value that the entry covers (a range for allocations, the handle for other types), whatever older
-- entries cover it too; all other values, and all other tables, resolve as before.
pub view-add :
    (sid vid : ℕ) (type other : ResourceType) (p n h v : ℕ) (s : Backend) (ctx : Context)
    → hmcuda_ctx_get sid vid s.contexts ≡ some ctx
    → view sid vid (hmcuda_res_add_with_handle sid vid type p n h s).1 other v ≡ (
        let r : Resource = record { handle = h; real_ptr = p; size = n } in
        if same_type type other && covers type v r
        then offset_in type v r
        else view sid vid s other v)
unfolding view hmcuda_res_get
view-add sid vid type other p n h v s ctx e =
    let r : Resource = record { handle = h; real_ptr = p; size = n } in
    rw (resources-add sid vid type other p n h s ctx e, resources-get sid vid other s ctx e)
      (elim (Bool-cases (same_type type other)) [
        | inl same ↦
            rw (same_type-eq type other same, ==_refl (type_index other))
              (search-cons other v r (ctx.resources other))
        | inr differ ↦ rw differ
      ])

-- In a session that exists, an allocation that does not wrap is found at each of its bytes, at the
-- same offset into its real memory.
pub view-add_inside :
    (sid vid : ℕ) (type : ResourceType) (p n h i : ℕ) (s : Backend) (ctx : Context)
    → hmcuda_ctx_get sid vid s.contexts ≡ some ctx
    → by_range type ≡ true
    → h + n < 2 ^ 64
    → i < n
    → view sid vid (hmcuda_res_add_with_handle sid vid type p n h s).1 type (h + i) ≡ add64 p i
view-add_inside sid vid type p n h i s ctx e range fits inside =
    view-add sid vid type type p n h (h + i) s ctx e ∙ ground arith
