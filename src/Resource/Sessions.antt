-- ===== src/Resource/Sessions.antt =====
-- The session list of host/vhost/resource.c: how lookup, creation, unlinking and a change of one
-- session's tables act on each other.
use mathlib.Core.Option
use hm_cuda.Prelude.{
  ℕ, ◌≡◌, refl, false, ◌&&◌, List, [], ◌∷◌, none, some, ◌==◌, if◌then◌else◌, arith, Bool-cases, inl,
  inr,
}
use hm_cuda.Backend.{ResourceType, Resource, Context, Backend}
use hm_cuda.Resource.{has_ids, hmcuda_ctx_get, unlink, update_context, same_type, set_list, list_of}

-- Another session than (sid, vid).
abbrev pub Other : ℕ → ℕ → ℕ → ℕ → Type 0
Other sid vid a b = (sid == a && vid == b) ≡ false

-- A change that leaves the two ids alone.
pub record KeepsIds (f : Context → Context) : Type 0 where
  pub session : (c : Context) → (f c).session_id ≡ c.session_id
  pub vm : (c : Context) → (f c).vm_id ≡ c.vm_id

pub set_list-KeepsIds :
    (type : ResourceType) (l : Context → List Resource) → KeepsIds (λ c. set_list type (l c) c)
set_list-KeepsIds type l = record { session = λ c. refl; vm = λ c. refl }

pub get-update_self :
    (sid vid : ℕ) (f : Context → Context) (cs : List Context)
    → KeepsIds f
    → hmcuda_ctx_get sid vid (update_context sid vid f cs)
      ≡ Option.map f (hmcuda_ctx_get sid vid cs)
unfolding hmcuda_ctx_get update_context
get-update_self sid vid f [] k = refl
get-update_self sid vid f (c ∷ cs) k =
    ground (arith, k.session c, k.vm c, get-update_self sid vid f cs k)

pub get-update-Other :
    (sid vid a b : ℕ) (f : Context → Context) (cs : List Context)
    → KeepsIds f
    → Other sid vid a b
    → hmcuda_ctx_get a b (update_context sid vid f cs) ≡ hmcuda_ctx_get a b cs
unfolding hmcuda_ctx_get update_context
get-update-Other sid vid a b f [] k o = refl
get-update-Other sid vid a b f (c ∷ cs) k o =
    ground (arith, k.session c, k.vm c, get-update-Other sid vid a b f cs k o)

pub get-unlink-Other :
    (sid vid a b : ℕ) (cs : List Context)
    → Other sid vid a b
    → hmcuda_ctx_get a b (unlink sid vid cs) ≡ hmcuda_ctx_get a b cs
unfolding hmcuda_ctx_get unlink
get-unlink-Other sid vid a b [] o = refl
get-unlink-Other sid vid a b (c ∷ cs) o = ground (arith, get-unlink-Other sid vid a b cs o)

-- No two nodes have the same ids.
abbrev pub UniqueIds : List Context → Type 0
UniqueIds [] = Unit {0}
UniqueIds (c ∷ cs) = (hmcuda_ctx_get c.session_id c.vm_id cs ≡ none) × UniqueIds cs

pub get-unlink_self :
    (sid vid : ℕ) (cs : List Context)
    → UniqueIds cs
    → hmcuda_ctx_get sid vid (unlink sid vid cs) ≡ none
unfolding hmcuda_ctx_get unlink
get-unlink_self sid vid [] u = refl
get-unlink_self sid vid (c ∷ cs) u = elim (Bool-cases (has_ids sid vid c)) [
  | inl here ↦ ground (arith, u.0)
  | inr later ↦ ground (arith, get-unlink_self sid vid cs u.1)
]

get-unlink-none :
    (sid vid a b : ℕ) (cs : List Context)
    → hmcuda_ctx_get a b cs ≡ none
    → hmcuda_ctx_get a b (unlink sid vid cs) ≡ none
unfolding hmcuda_ctx_get unlink
get-unlink-none sid vid a b [] e = refl
get-unlink-none sid vid a b (c ∷ cs) e = ground (arith, get-unlink-none sid vid a b cs)

pub unlink-UniqueIds :
    (sid vid : ℕ) (cs : List Context) → UniqueIds cs → UniqueIds (unlink sid vid cs)
unfolding unlink
unlink-UniqueIds sid vid [] u = tt
unlink-UniqueIds sid vid (c ∷ cs) u =
    ground
      (arith, unlink-UniqueIds sid vid cs u.1, get-unlink-none sid vid c.session_id c.vm_id cs u.0)

get-update_none :
    (sid vid a b : ℕ) (f : Context → Context) (cs : List Context)
    → KeepsIds f
    → hmcuda_ctx_get a b cs ≡ none
    → hmcuda_ctx_get a b (update_context sid vid f cs) ≡ none
unfolding hmcuda_ctx_get update_context
get-update_none sid vid a b f [] k e = refl
get-update_none sid vid a b f (c ∷ cs) k e =
    ground (arith, k.session c, k.vm c, get-update_none sid vid a b f cs k)

pub update-UniqueIds :
    (sid vid : ℕ) (f : Context → Context) (cs : List Context)
    → KeepsIds f
    → UniqueIds cs
    → UniqueIds (update_context sid vid f cs)
unfolding update_context
update-UniqueIds sid vid f [] k u = tt
update-UniqueIds sid vid f (c ∷ cs) k u = elim (Bool-cases (has_ids sid vid c)) [
  | inl here ↦ rw here (rw (k.session c, k.vm c) u.0, u.1)
  | inr later ↦
      rw later (
        get-update_none sid vid c.session_id c.vm_id f cs k u.0,
        update-UniqueIds sid vid f cs k u.1,
      )
]

pub get-ids :
    (sid vid : ℕ) (cs : List Context) (c : Context)
    → hmcuda_ctx_get sid vid cs ≡ some c
    → (c.session_id ≡ sid) × (c.vm_id ≡ vid)
unfolding hmcuda_ctx_get
get-ids sid vid [] c e = ground arith
get-ids sid vid (d ∷ cs) c e = elim (Bool-cases (has_ids sid vid d)) [
  | inl here ↦ ground arith
  | inr later ↦ get-ids sid vid cs c (rw later at e)
]

pub unlink_absent :
    (sid vid : ℕ) (cs : List Context) → hmcuda_ctx_get sid vid cs ≡ none → unlink sid vid cs ≡ cs
unfolding hmcuda_ctx_get unlink
unlink_absent sid vid [] e = refl
unlink_absent sid vid (c ∷ cs) e = ground (arith, unlink_absent sid vid cs)

pub resources-update :
    (sid vid : ℕ) (type other : ResourceType) (l : Context → List Resource) (s : Backend)
    (ctx : Context)
    → hmcuda_ctx_get sid vid s.contexts ≡ some ctx
    → list_of other
        (hmcuda_ctx_get sid vid (update_context sid vid (λ c. set_list type (l c) c) s.contexts))
      ≡ (if same_type type other then l ctx else ctx.resources other)
resources-update sid vid type other l s ctx e =
    rw (
      get-update_self sid vid (λ c. set_list type (l c) c) s.contexts (set_list-KeepsIds type l),
      e,
    )
