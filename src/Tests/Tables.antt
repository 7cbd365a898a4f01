-- ===== src/Tests/Tables.antt =====
-- The tables of a session, at concrete entries.
use hm_cuda.Prelude.{◌≡◌, refl, [], ◌∷◌, arith, ◌<◌, inr}
use hm_cuda.Cuda.{cuda_free, cuda_stream_destroy, cu_mem_free_host}
use hm_cuda.Backend.{res_mem, res_stream, res_host_mem}
use hm_cuda.Resource.{
  hmcuda_ctx_get, hmcuda_ctx_destroy, hmcuda_res_add, hmcuda_res_add_with_handle, hmcuda_res_remove,
  hmcuda_res_get_handle, resources_of, has_handle, search_ptr,
}
use hm_cuda.Resource.Lookup.{view, view-add, view-add_inside}
use hm_cuda.Resource.Handles.{
  IsTable, IsBelow, entry_covers, view-remove, view-remove_absent, res_add-IsTable,
  view-res_get_handle,
}
use hm_cuda.Resource.Patch.{
  hmcuda_patch_embedded_host_ptrs, hmcuda_buffer_needs_host_ptr_patch, is_host_ptr, words_of,
  tail_of, translate, words-patch, patch_unneeded,
}
use hm_cuda.Resource.Destroy.{owed_list, calls-ctx_destroy}
use hm_cuda.Tests.Backends.{entry, first_session, two_sessions, succeeding}

view-add_example :
    view 1 2 (hmcuda_res_add_with_handle 1 2 res_mem 5000 32 96 two_sessions).1 res_mem 101 ≡ 5005
unfolding hmcuda_ctx_get
view-add_example = view-add 1 2 res_mem res_mem 5000 32 96 101 two_sessions first_session refl

view-add_inside_example :
    view 1 2
      (hmcuda_res_add_with_handle 1 2 res_host_mem 5000 32 96 two_sessions).1
      res_host_mem
      105
    ≡ 5009
unfolding hmcuda_ctx_get
view-add_inside_example =
    view-add_inside 1 2 res_host_mem 5000 32 96 9 two_sessions first_session refl refl (omega arith)
      (omega arith)

view-remove_example : view 1 2 (hmcuda_res_remove 1 2 res_mem 4096 two_sessions).1 res_mem 4100 ≡ 0
unfolding hmcuda_ctx_get entry_covers
view-remove_example =
    view-remove 1 2 res_mem two_sessions first_session refl res_mem 4096 4100
      (omega arith, (inr (omega arith), tt), (omega arith, tt, tt))

view-remove_absent_example :
    ((hmcuda_res_remove 1 2 res_mem 4100 two_sessions).0 ≡ 0)
    × (view 1 2 (hmcuda_res_remove 1 2 res_mem 4100 two_sessions).1 res_mem 4100
        ≡ view 1 2 two_sessions res_mem 4100)
unfolding hmcuda_ctx_get has_handle
view-remove_absent_example =
    view-remove_absent 1 2 res_mem two_sessions first_session refl res_mem 4100 4100 refl

res_add-IsTable_example :
    let t = (hmcuda_res_add 1 2 res_stream 800 0 two_sessions).1 in
    IsTable res_stream (resources_of 1 2 res_stream t)
    × IsBelow res_stream t.next_handle (resources_of 1 2 res_stream t)
    × (8 < t.next_handle)
unfolding hmcuda_ctx_get
res_add-IsTable_example =
    res_add-IsTable 1 2 res_stream 800 0 two_sessions first_session refl refl (omega arith)
      (omega arith, (inr (omega arith), tt), (omega arith, tt, tt)) (omega arith, (omega arith, tt))

view-res_get_handle_example :
    view 1 2 two_sessions res_stream (hmcuda_res_get_handle 1 2 res_stream 300 two_sessions).0 ≡ 300
unfolding hmcuda_ctx_get resources_of hmcuda_res_get_handle search_ptr
view-res_get_handle_example =
    view-res_get_handle 1 2 res_stream 300 two_sessions refl
      (omega arith, (inr (omega arith), tt), (omega arith, tt, tt)) (λ e. omega (arith, e))

-- One guest pointer, eight bytes into a pinned allocation, and one trailing byte.
words-patch_example :
    (words_of (
        hmcuda_patch_embedded_host_ptrs
          (entry 1000 2000 16 ∷ [])
          (240 ∷ 3 ∷ 0 ∷ 0 ∷ 0 ∷ 0 ∷ 0 ∷ 0 ∷ 9 ∷ []))
      ≡ 2008 ∷ [])
    × (tail_of (
          hmcuda_patch_embedded_host_ptrs
            (entry 1000 2000 16 ∷ [])
            (240 ∷ 3 ∷ 0 ∷ 0 ∷ 0 ∷ 0 ∷ 0 ∷ 0 ∷ 9 ∷ []))
        ≡ 9 ∷ [])
unfolding words_of tail_of translate
words-patch_example =
    words-patch (entry 1000 2000 16 ∷ []) (240 ∷ 3 ∷ 0 ∷ 0 ∷ 0 ∷ 0 ∷ 0 ∷ 0 ∷ 9 ∷ [])

patch_unneeded_example :
    hmcuda_patch_embedded_host_ptrs
      (entry 1000 2000 16 ∷ [])
      (5 ∷ 0 ∷ 0 ∷ 0 ∷ 0 ∷ 0 ∷ 0 ∷ 0 ∷ 9 ∷ [])
    ≡ 5 ∷ 0 ∷ 0 ∷ 0 ∷ 0 ∷ 0 ∷ 0 ∷ 0 ∷ 9 ∷ []
unfolding hmcuda_buffer_needs_host_ptr_patch is_host_ptr
patch_unneeded_example =
    patch_unneeded (entry 1000 2000 16 ∷ []) (5 ∷ 0 ∷ 0 ∷ 0 ∷ 0 ∷ 0 ∷ 0 ∷ 0 ∷ 9 ∷ []) refl

calls-ctx_destroy_example :
    (hmcuda_ctx_destroy succeeding first_session two_sessions).1.calls
    ≡ cu_mem_free_host 2000
      ∷ cuda_stream_destroy 300
      ∷ cuda_stream_destroy 500
      ∷ cuda_free 900
      ∷ cuda_free 4096
      ∷ []
unfolding owed_list
calls-ctx_destroy_example = calls-ctx_destroy succeeding first_session two_sessions
