-- ===== src/Resource.antt =====
-- host/vhost/resource.c: sessions, and the tables that map a guest's handles to real pointers.
-- A pointer to a session is used only until the session list next changes, so it is written as the
-- session's two ids, which find the first node that has them, as hmcuda_ctx_get does.
pub mod Patch
pub mod Lookup
pub mod Handles
pub mod Sessions
pub mod Destroy
use hm_cuda.Prelude.{
  ℕ, ◌-◌, Bool, false, ◌&&◌, ◌||◌, List, [], ◌∷◌, Option, none, some, ltb, leb, ◌==◌, if◌then◌else◌,
  add64,
}
use hm_cuda.Cuda.{
  Environment, cuda_free, cuda_stream_destroy, cuda_event_destroy, cu_mem_free_host, cu_mem_release,
}
use hm_cuda.Backend.{
  Done, done, ResourceType, res_mem, res_stream, res_event, res_module, res_function, res_context,
  res_host_mem, res_host_dev_ptr, res_generic_alloc, Resource, Context, Backend, M, pure, ◌>>=◌,
  ◌>>◌, perform,
}

-- The position of a type in `enum ResourceType`.
abbrev pub type_index : ResourceType → ℕ
type_index res_mem = 0
type_index res_stream = 1
type_index res_event = 2
type_index res_module = 3
type_index res_function = 4
type_index res_context = 5
type_index res_host_mem = 6
type_index res_host_dev_ptr = 7
type_index res_generic_alloc = 8

abbrev pub same_type : ResourceType → ResourceType → Bool
same_type a b = type_index a == type_index b

abbrev pub has_ids : ℕ → ℕ → Context → Bool
has_ids sid vid c = c.session_id == sid && c.vm_id == vid

unfoldable pub hmcuda_ctx_get : ℕ → ℕ → List Context → Option Context
hmcuda_ctx_get sid vid [] = none
hmcuda_ctx_get sid vid (c ∷ cs) = if has_ids sid vid c then some c else hmcuda_ctx_get sid vid cs

unfoldable pub hmcuda_ctx_create : ℕ → ℕ → M Done
hmcuda_ctx_create sid vid s = (done, record s { contexts = fresh ∷ s.contexts })
  where
    fresh : Context
    fresh = record { session_id = sid; vm_id = vid; resources = λ _. [] }

-- The release that a resource of each type gets; NULL pointers are skipped.
unfoldable pub free_resource : Environment → ResourceType → ℕ → M Done
free_resource env res_mem p = perform env (cuda_free p) >> pure done
free_resource env res_stream p = perform env (cuda_stream_destroy p) >> pure done
free_resource env res_event p = perform env (cuda_event_destroy p) >> pure done
free_resource env res_host_mem p = perform env (cu_mem_free_host p) >> pure done
free_resource env res_generic_alloc p = perform env (cu_mem_release p) >> pure done
free_resource env _ p = pure done

unfoldable pub free_resource_list : Environment → List Resource → ResourceType → M Done
free_resource_list env [] type = pure done
free_resource_list env (cur ∷ next) type = do
  if cur.real_ptr == 0 then pure done else free_resource env type cur.real_ptr
  free_resource_list env next type

-- Unlinks the first node with these ids.
unfoldable pub unlink : ℕ → ℕ → List Context → List Context
unlink sid vid [] = []
unlink sid vid (c ∷ cs) = if has_ids sid vid c then cs else c ∷ unlink sid vid cs

abbrev pub all_types : List ResourceType
all_types =
    res_mem ∷ res_stream ∷ res_event ∷ res_module ∷ res_function ∷ res_context ∷ res_host_mem
    ∷ res_host_dev_ptr ∷ res_generic_alloc ∷ []

unfoldable pub free_all : Environment → Context → List ResourceType → M Done
free_all env ctx [] = pure done
free_all env ctx (t ∷ ts) = do free_resource_list env (ctx.resources t) t; free_all env ctx ts

-- Unlinks the node, then releases its resources, type by type.
unfoldable pub hmcuda_ctx_destroy : Environment → Context → M Done
hmcuda_ctx_destroy env ctx s = free_all env ctx all_types unlinked
  where
    unlinked : Backend
    unlinked = record s { contexts = unlink ctx.session_id ctx.vm_id s.contexts }

-- Applies a change to the node that hmcuda_ctx_get finds.
unfoldable pub update_context : ℕ → ℕ → (Context → Context) → List Context → List Context
update_context sid vid f [] = []
update_context sid vid f (c ∷ cs) =
    if has_ids sid vid c then f c ∷ cs else c ∷ update_context sid vid f cs

abbrev pub set_list : ResourceType → List Resource → Context → Context
set_list type l c = record c { resources = λ t. if same_type type t then l else c.resources t }

abbrev pub push_resource : ResourceType → Resource → Context → Context
push_resource type r c = set_list type (r ∷ c.resources type) c

-- ctx->resources[type] as it stands.
abbrev pub list_of : ResourceType → Option Context → List Resource
list_of type none = []
list_of type (some c) = c.resources type

unfoldable pub resources_of : ℕ → ℕ → ResourceType → Backend → List Resource
resources_of sid vid type s = list_of type (hmcuda_ctx_get sid vid s.contexts)

unfoldable pub hmcuda_res_add_with_handle : ℕ → ℕ → ResourceType → ℕ → ℕ → ℕ → M ℕ
hmcuda_res_add_with_handle sid vid type real_ptr size handle s =
    (handle, record s { contexts = update_context sid vid (push_resource type res) s.contexts })
  where
    res : Resource
    res = record { handle = handle; real_ptr = real_ptr; size = size }

-- `++g_next_handle` is the handle; a device allocation moves the counter on by its size.
unfoldable pub hmcuda_res_add : ℕ → ℕ → ResourceType → ℕ → ℕ → M ℕ
unfolding hmcuda_res_add_with_handle
hmcuda_res_add sid vid type real_ptr size s =
    hmcuda_res_add_with_handle sid vid type real_ptr size next (record s { next_handle = after })
  where
    next : ℕ
    next = add64 s.next_handle 1

    after : ℕ
    after = if same_type type res_mem && ltb 0 size then add64 next size else next

-- Allocations are looked up by range, all else by handle.
abbrev pub by_range : ResourceType → Bool
by_range type = same_type type res_mem || same_type type res_host_mem

abbrev pub in_range : ℕ → Resource → Bool
in_range v r = leb r.handle v && ltb v (add64 r.handle r.size)

unfoldable pub search_list : ResourceType → ℕ → List Resource → ℕ
search_list type handle [] = 0
search_list type handle (cur ∷ next) =
    let rest = search_list type handle next in
    if by_range type
    then (if in_range handle cur then add64 cur.real_ptr (handle - cur.handle) else rest)
    else (if cur.handle == handle then cur.real_ptr else rest)

-- 0 is NULL.
unfoldable pub hmcuda_res_get : ℕ → ℕ → ResourceType → ℕ → M ℕ
hmcuda_res_get sid vid type handle s = (search_list type handle (resources_of sid vid type s), s)

unfoldable pub remove_first : ℕ → List Resource → List Resource
remove_first handle [] = []
remove_first handle (cur ∷ next) =
    if cur.handle == handle then next else cur ∷ remove_first handle next

unfoldable pub has_handle : ℕ → List Resource → Bool
has_handle handle [] = false
has_handle handle (cur ∷ next) = cur.handle == handle || has_handle handle next

-- 1 if an entry with this very handle was there to remove.
unfoldable pub hmcuda_res_remove : ℕ → ℕ → ResourceType → ℕ → M ℕ
hmcuda_res_remove sid vid type handle s = (
  if has_handle handle (resources_of sid vid type s) then 1 else 0,
  record s { contexts = update_context sid vid drop_entry s.contexts },
)
  where
    drop_entry : Context → Context
    drop_entry c = set_list type (remove_first handle (c.resources type)) c

unfoldable pub search_ptr : ℕ → List Resource → ℕ
search_ptr real_ptr [] = 0
search_ptr real_ptr (cur ∷ next) =
    if cur.real_ptr == real_ptr then cur.handle else search_ptr real_ptr next

unfoldable pub hmcuda_res_get_handle : ℕ → ℕ → ResourceType → ℕ → M ℕ
hmcuda_res_get_handle sid vid type real_ptr s =
    (if real_ptr == 0 then 0 else search_ptr real_ptr (resources_of sid vid type s), s)
