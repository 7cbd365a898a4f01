-- ===== src/Command/Isolation.antt =====
-- What one session's command leaves alone: the other sessions of the list in
-- host/vhost/resource.c, and the shape of the list itself.
use hm_cuda.Prelude.{
  ℕ, ◌≡◌, ◌≢◌, refl, ◌∙◌, sym, subst, List, ◌∷◌, none, arith, Option-cases, inl, inr,
}
use hm_cuda.Cuda.{Environment}
use hm_cuda.Backend.{Context, Backend, perform, memcpy, memcpy_buffer}
use hm_cuda.Resource.{
  hmcuda_ctx_get, hmcuda_res_add, hmcuda_res_add_with_handle, hmcuda_res_remove, unlink,
  update_context,
}
use hm_cuda.Resource.Sessions.{
  Other, KeepsIds, UniqueIds, get-update-Other, get-update_self, get-unlink-Other, get-unlink_self,
  unlink-UniqueIds, update-UniqueIds,
}
use hm_cuda.Core.{mark_registered}
use hm_cuda.Core.Renewal.{empty_session, contexts-renew_session-unlink}
use hm_cuda.Core.Stable.{Stable}
use hm_cuda.Command.{Element, Request}
use hm_cuda.Command.Dispatch.{hmcuda_dispatch_cmd}
use hm_cuda.Command.Keeps.{Keeps-dispatch}

-- A property of the session list that a change of one session's tables keeps, and its renewal.
Stable-contexts :
    (env : Environment) (sid vid : ℕ) (Q : List Context → Type 0)
    → ((f : Context → Context)
        → KeepsIds f
        → (cs : List Context) → Q cs
        → Q (update_context sid vid f cs))
    → ((cs : List Context) → Q cs → Q (empty_session sid vid ∷ unlink sid vid cs))
    → Stable env sid vid (λ s. Q s.contexts)
unfolding perform memcpy memcpy_buffer mark_registered hmcuda_res_add hmcuda_res_add_with_handle
    hmcuda_res_remove
Stable-contexts env sid vid Q updates renews = record {
  performs = λ c. record { at = λ s h. h };
  copies = λ dst src n. record { at = λ s h. h };
  copies_buffer = λ dst bytes. record { at = λ s h. h };
  marks = record { at = λ s h. h };
  adds = λ type p n. record {
    at = λ s h. updates _ (record { session = λ c. refl; vm = λ c. refl }) s.contexts h;
  };
  adds_with_handle = λ type p n v. record {
    at = λ s h. updates _ (record { session = λ c. refl; vm = λ c. refl }) s.contexts h;
  };
  removes = λ type v. record {
    at = λ s h. updates _ (record { session = λ c. refl; vm = λ c. refl }) s.contexts h;
  };
  renews = record {
    at = λ s h. subst Q (sym (contexts-renew_session-unlink env sid vid s)) (renews s.contexts h);
  };
}

get-renewed-Other :
    (sid vid a b : ℕ) (cs : List Context)
    → Other sid vid a b
    → hmcuda_ctx_get a b (empty_session sid vid ∷ unlink sid vid cs) ≡ hmcuda_ctx_get a b cs
unfolding hmcuda_ctx_get
get-renewed-Other sid vid a b cs o = ground (arith, get-unlink-Other sid vid a b cs o)

-- Whatever command a session runs, and whatever the library answers, every other session is left as
-- it was: the same tables, or still none.
pub get-dispatch-Other :
    (env : Environment) (sid vid a b : ℕ) (elem : Element) (r : Request) (s : Backend)
    → Other sid vid a b
    → hmcuda_ctx_get a b (hmcuda_dispatch_cmd env sid vid elem r s).1.contexts
      ≡ hmcuda_ctx_get a b s.contexts
get-dispatch-Other env sid vid a b elem r s o = (Keeps-dispatch stable elem r).at s refl
  where
    stable : Stable env sid vid (λ t. hmcuda_ctx_get a b t.contexts ≡ hmcuda_ctx_get a b s.contexts)
    stable =
        Stable-contexts env sid vid (λ cs. hmcuda_ctx_get a b cs ≡ hmcuda_ctx_get a b s.contexts)
          (λ f k cs e. get-update-Other sid vid a b f cs k o ∙ e)
          (λ cs e. get-renewed-Other sid vid a b cs o ∙ e)

renew-UniqueIds :
    (sid vid : ℕ) (cs : List Context)
    → UniqueIds cs
    → UniqueIds (empty_session sid vid ∷ unlink sid vid cs)
renew-UniqueIds sid vid cs u = (get-unlink_self sid vid cs u, unlink-UniqueIds sid vid cs u)

-- If no two sessions have the same ids before a command, none have after it.
pub dispatch-UniqueIds :
    (env : Environment) (sid vid : ℕ) (elem : Element) (r : Request) (s : Backend)
    → UniqueIds s.contexts
    → UniqueIds (hmcuda_dispatch_cmd env sid vid elem r s).1.contexts
dispatch-UniqueIds env sid vid elem r s u =
    (Keeps-dispatch
        (Stable-contexts env sid vid UniqueIds (λ f k cs. update-UniqueIds sid vid f cs k)
          (renew-UniqueIds sid vid))
        elem r).at
      s u

-- The session is in the list.
abbrev pub Exists : ℕ → ℕ → List Context → Type 0
Exists sid vid cs = hmcuda_ctx_get sid vid cs ≢ none

update-Exists :
    (sid vid : ℕ) (f : Context → Context) (cs : List Context)
    → KeepsIds f
    → Exists sid vid cs
    → Exists sid vid (update_context sid vid f cs)
update-Exists sid vid f cs k there = elim (Option-cases (hmcuda_ctx_get sid vid cs)) [
  | inl e ↦ absurd (there e)
  | inr (c, e) ↦ rw (get-update_self sid vid f cs k, e) (λ q. ground (arith, q))
]

renew-Exists :
    (sid vid : ℕ) (cs : List Context) → Exists sid vid (empty_session sid vid ∷ unlink sid vid cs)
unfolding hmcuda_ctx_get
renew-Exists sid vid cs e = ground (arith, e)

-- A session that exists when a command of its own starts exists when it ends.
pub dispatch-Exists :
    (env : Environment) (sid vid : ℕ) (elem : Element) (r : Request) (s : Backend)
    → hmcuda_ctx_get sid vid s.contexts ≢ none
    → hmcuda_ctx_get sid vid (hmcuda_dispatch_cmd env sid vid elem r s).1.contexts ≢ none
dispatch-Exists env sid vid elem r s there =
    (Keeps-dispatch
        (Stable-contexts env sid vid (Exists sid vid) (λ f k cs. update-Exists sid vid f cs k)
          (λ cs h. renew-Exists sid vid cs))
        elem r).at
      s there
