-- ===== src/Core/Renewal.antt =====
-- The session list after hmcuda_ctx_destroy and hmcuda_ctx_create, as hmcuda_core_init and the
-- retried retain of host/vhost/core_driver.c pair them.
use hm_cuda.Prelude.{
  ℕ, ◌≡◌, refl, ap, ◌∙◌, sym, false, ◌&&◌, ◌==◌, List, [], ◌∷◌, ◌++◌, All, Option, none, some,
  Option-cases, inl, inr, arith,
}
use hm_cuda.Cuda.{Environment}
use hm_cuda.Backend.{Backend, Context, ◌>>◌}
use hm_cuda.Resource.{hmcuda_ctx_get, hmcuda_ctx_create, unlink}
use hm_cuda.Resource.Sessions.{get-ids, unlink_absent}
use hm_cuda.Resource.Destroy.{contexts-ctx_destroy}
use hm_cuda.Core.{destroy_session, renew_session}

-- A session that owns nothing.
abbrev pub empty_session : ℕ → ℕ → Context
empty_session sid vid = record { session_id = sid; vm_id = vid; resources = λ t. [] }

contexts-destroy_session :
    (env : Environment) (sid vid : ℕ) (s : Backend)
    → (destroy_session env sid vid s).1.contexts ≡ unlink sid vid s.contexts
unfolding destroy_session
contexts-destroy_session env sid vid s = elim (Option-cases (hmcuda_ctx_get sid vid s.contexts)) [
  | inl e ↦ rw (e, destroy_session) (sym (unlink_absent sid vid s.contexts e))
  | inr (c, e) ↦
      let ids = get-ids sid vid s.contexts c e in
      rw (e, destroy_session) (contexts-ctx_destroy env c s ∙ rw (ids.0, ids.1) refl)
]

pub contexts-renew_session-unlink :
    (env : Environment) (sid vid : ℕ) (s : Backend)
    → (renew_session env sid vid s).1.contexts ≡ empty_session sid vid ∷ unlink sid vid s.contexts
unfolding renew_session hmcuda_ctx_create ◌>>◌
contexts-renew_session-unlink env sid vid s =
    ap (λ cs. empty_session sid vid ∷ cs) (contexts-destroy_session env sid vid s)

-- Not a node of the session.
abbrev pub IsApart : ℕ → ℕ → Context → Type 0
IsApart sid vid c = (sid == c.session_id && vid == c.vm_id) ≡ false

-- The node of the session and what stands behind it, or no node and nothing behind.
abbrev pub from_node : Option Context → List Context → List Context
from_node none after = after
from_node (some c) after = c ∷ after

abbrev pub IsNode : ℕ → ℕ → Option Context → List Context → Type 0
IsNode sid vid none after = after ≡ []
IsNode sid vid (some c) after = (c.session_id ≡ sid) × (c.vm_id ≡ vid)

unlink-node :
    (sid vid : ℕ) (before after : List Context) (o : Option Context)
    → All (IsApart sid vid) before
    → IsNode sid vid o after
    → unlink sid vid (before ++ from_node o after) ≡ before ++ after
unfolding unlink
unlink-node sid vid [] after none h e = rw e refl
unlink-node sid vid [] after (some c) h e = ground (arith, e.0, e.1)
unlink-node sid vid (b ∷ bs) after o h e =
    let rest = unlink-node sid vid bs after o h.1 e in ground (arith, h.0, rest)

-- Renewing a session puts an empty one in front of the list and takes its old node out, the first
-- with its ids, with all other nodes left as they were and in their order; where it has no node, all
-- are left.
pub contexts-renew_session :
    (env : Environment) (sid vid : ℕ) (s : Backend) (before after : List Context)
    (o : Option Context)
    → s.contexts ≡ before ++ from_node o after
    → All (IsApart sid vid) before
    → IsNode sid vid o after
    → (renew_session env sid vid s).1.contexts ≡ empty_session sid vid ∷ (before ++ after)
contexts-renew_session env sid vid s before after o e h n =
    contexts-renew_session-unlink env sid vid s
    ∙ ap (λ cs. empty_session sid vid ∷ cs)
        (ap (unlink sid vid) e ∙ unlink-node sid vid before after o h n)
