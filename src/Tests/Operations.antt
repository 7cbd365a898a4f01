-- ===== src/Tests/Operations.antt =====
-- Operations of the core and commands, at concrete states.
use hm_cuda.Prelude.{◌≡◌, ◌≢◌, refl, [], ◌∷◌, none, some, arith}
use hm_cuda.Cuda.{Dim3, cuda_malloc, cuda_free, cu_launch_kernel}
use hm_cuda.Backend.{ResourceType}
use hm_cuda.Resource.{hmcuda_ctx_get, hmcuda_res_get, resources_of, search_list}
use hm_cuda.Resource.Lookup.{view}
use hm_cuda.Resource.Sessions.{UniqueIds}
use hm_cuda.Core.{renew_session}
use hm_cuda.Core.Renewal.{empty_session, contexts-renew_session}
use hm_cuda.Core.Runtime.{hmcuda_core_malloc, hmcuda_core_free}
use hm_cuda.Core.Launch.{hmcuda_core_launch_kernel}
use hm_cuda.Core.MallocFree.{free-malloc}
use hm_cuda.Core.LaunchArgs.{calls-launch_kernel}
use hm_cuda.Command.{runtime, init, malloc}
use hm_cuda.Command.Dispatch.{hmcuda_dispatch_cmd}
use hm_cuda.Command.Isolation.{get-dispatch-Other, dispatch-UniqueIds, dispatch-Exists}
use hm_cuda.Tests.Backends.{first_session, second_session, two_sessions, succeeding, two_way}

-- The second session's init leaves the first as it was.
get-dispatch-Other_example :
    hmcuda_ctx_get 1 2
      (hmcuda_dispatch_cmd succeeding 3 2 two_way (runtime init) two_sessions).1.contexts
    ≡ some first_session
unfolding hmcuda_ctx_get
get-dispatch-Other_example =
    get-dispatch-Other succeeding 3 2 1 2 two_way (runtime init) two_sessions refl

dispatch-UniqueIds_example :
    UniqueIds (hmcuda_dispatch_cmd succeeding 3 2 two_way (runtime init) two_sessions).1.contexts
unfolding hmcuda_ctx_get
dispatch-UniqueIds_example =
    dispatch-UniqueIds succeeding 3 2 two_way (runtime init) two_sessions (refl, (refl, tt))

dispatch-Exists_example :
    hmcuda_ctx_get 3 2
      (hmcuda_dispatch_cmd succeeding 3 2 two_way (runtime (malloc 16)) two_sessions).1.contexts
    ≢ none
unfolding hmcuda_ctx_get
dispatch-Exists_example =
    dispatch-Exists succeeding 3 2 two_way (runtime (malloc 16)) two_sessions
      (λ e. ground (arith, e))

contexts-renew_session_example :
    (renew_session succeeding 3 2 two_sessions).1.contexts ≡ empty_session 3 2 ∷ first_session ∷ []
contexts-renew_session_example =
    contexts-renew_session succeeding 3 2 two_sessions (first_session ∷ []) [] (some second_session)
      refl (refl, tt) (refl, refl)

free-malloc_example :
    let after =
      (hmcuda_core_free succeeding 1 2 8192
        (hmcuda_core_malloc succeeding 1 2 32 two_sessions).1).1 in
    (after.calls ≡ cuda_free 8192 ∷ cuda_malloc 32 ∷ [])
    × ((type : ResourceType) → resources_of 1 2 type after ≡ resources_of 1 2 type two_sessions)
unfolding hmcuda_ctx_get
free-malloc_example =
    free-malloc succeeding 1 2 two_sessions first_session 32 8192 refl (λ e. omega (arith, e))
      (omega arith) (omega arith) refl refl

one : Dim3
one = record { x = 1; y = 1; z = 1 }

-- A device address, a pinned address and a number.
calls-launch_kernel_example :
    (hmcuda_core_launch_kernel succeeding 1 2 7 one one 0 5
      (104 ∷ 1001 ∷ 42 ∷ [])
      24
      two_sessions).1.calls
    ≡ cu_launch_kernel (record {
      func = 700;
      grid = one;
      block = one;
      shared_mem = 0;
      stream = 500;
      params = some (904 ∷ 2001 ∷ 42 ∷ []);
    })
      ∷ []
unfolding hmcuda_ctx_get view hmcuda_res_get resources_of search_list
calls-launch_kernel_example =
    calls-launch_kernel succeeding 1 2 7 0 5 24 700 one one (104 ∷ 1001 ∷ 42 ∷ []) two_sessions
      first_session refl refl (λ e. omega (arith, e))
