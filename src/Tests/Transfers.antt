-- ===== src/Tests/Transfers.antt =====
-- The copy loops of the kernel module and of the backend, at concrete copies.
use hm_cuda.Prelude.{
  some, ◌/◌, length, ap, sym, ◌∙◌, ℕ, zero, suc, ◌+◌, ◌≡◌, ◌≢◌, refl, true, List, [], ◌∷◌, none,
  arith, ◌<◌, ◌≤◌, ◌*◌, ◌-◌,
}
use hm_cuda.Backend.{M, pure}
use hm_cuda.Command.Loops.{copy_loop}
use hm_cuda.Command.Chunks.{pieces, run, copy_loop-pieces}
use hm_cuda.Kernel.Memcpy.{
  CopyRequest, copies, MemcpyArgs, next_batch, coalesce, Submission, Services, pinned, out_of_fuel,
  hmcuda_do_memcpy_gup, page_size, new_entry, add_page, gup_loop, turn, use_pages, submit,
  submission_of, update_request, wait_for_completion, Pinned, refused,
}
use hm_cuda.Kernel.Memcpy.Batches.{next_batch_bounds}
use hm_cuda.Kernel.Memcpy.UserRange.{frames, PinsPages}
use hm_cuda.Kernel.Memcpy.Pages.{addresses, user_bytes, addresses-coalesce}
use hm_cuda.Kernel.Memcpy.Copies.{Tiled, do_memcpy_gup_ends, do_memcpy_gup-Tiled}
use hm_cuda.Vhost.Iov.{iov_to_buf, buf_to_iov, iov_to_buf-buf_to_iov, count-buf_to_iov}
use hm_cuda.Tests.Backends.{two_sessions, two_entries}
use hm_cuda.Prelude.{inl}

-- A call that always succeeds.
agree : ℕ → ℕ → ℕ → M ℕ
agree a p n = pure 0

-- Five bytes in entries of three and four.
copy_loop-pieces_example :
    copy_loop agree 100 5 0 two_entries two_sessions
    ≡ run agree 100
        (record { offset = 0; base = 10; len = 3 } ∷ record { offset = 3; base = 20; len = 2 } ∷ [])
        two_sessions
unfolding pieces
copy_loop-pieces_example =
    copy_loop-pieces agree 100 5 0 two_entries two_sessions (omega arith) (omega arith)

-- 5,000 bytes from byte 100 of a page on.
abbrev to_device : MemcpyArgs
to_device = record { user_addr_start = 8292; total_count = 5000; dev_ptr = 4096; kind = 1 }

abbrev request : CopyRequest
request = copies (record { dst = 4096; src = 8292; count = 5000; kind = 1; stream = 0 })

-- Each page lies 38 frames above its number.
abbrev shifted : ℕ → ℕ
shifted page = page + 38

-- Grants all, and the host answers without error.
abbrev willing : Services
willing = record {
  kvmalloc_arrays = true;
  pin_user_pages_fast = λ past addr n. pinned (frames shifted (addr / page_size) n);
  virtqueue_add_sgs = λ past sub. none;
  respond = λ past sub. some 0;
}

abbrev sent : Submission
sent = record {
  request = copies (record { dst = 4096; src = 0; count = 5000; kind = 1; stream = 0 });
  data_pages = new_entry 40 100 5000 ∷ [];
  host_reads = true;
}

next_batch_bounds_example :
    let b = next_batch to_device 0 in
    (0 < b.count)
    × (b.count ≤ 5000 - 0)
    × (b.pages ≤ 512)
    × (b.page_off + b.count ≤ b.pages * page_size)
    × ((b.pages - 1) * page_size < b.page_off + b.count)
next_batch_bounds_example = next_batch_bounds to_device 0 (omega arith) (omega arith)

do_memcpy_gup_ends_example : (hmcuda_do_memcpy_gup willing request to_device).0 ≢ out_of_fuel
do_memcpy_gup_ends_example = do_memcpy_gup_ends to_device (omega arith) willing request

length-frames : (page n : ℕ) → length (frames shifted page n) ≡ n
unfolding frames
length-frames page zero = refl
length-frames page (suc n) = ap suc (length-frames (page + 1) n)

abbrev unpinned : Pinned → List ℕ
unpinned (pinned pfns) = pfns
unpinned (refused e) = []

willing-PinsPages : PinsPages shifted willing
willing-PinsPages h addr n pfns e =
    let page = addr / page_size in
    let same : frames shifted page n ≡ pfns = ap unpinned e in
    sym same ∙ ap (frames shifted page) (sym (length-frames page n) ∙ ap length same)

do_memcpy_gup-Tiled_example : Tiled shifted to_device 5000 (sent ∷ [])
unfolding hmcuda_do_memcpy_gup gup_loop turn use_pages submit wait_for_completion submission_of
    update_request coalesce add_page next_batch frames
do_memcpy_gup-Tiled_example =
    do_memcpy_gup-Tiled to_device (omega arith) willing shifted request (sent ∷ [])
      willing-PinsPages refl

-- Two neighbouring frames and one apart, from the last two bytes of the first on.
addresses-coalesce_example :
    addresses (coalesce 0 4094 4100 (7 ∷ 8 ∷ 20 ∷ []) []) ≡ user_bytes 4094 4100 (7 ∷ 8 ∷ 20 ∷ [])
addresses-coalesce_example = addresses-coalesce 4094 4100 (7 ∷ 8 ∷ 20 ∷ []) (omega arith)

iov_to_buf-buf_to_iov_example :
    iov_to_buf (buf_to_iov two_entries (1 ∷ 2 ∷ 3 ∷ 4 ∷ 5 ∷ []) (λ a. 0)).1 two_entries 5
    ≡ 1 ∷ 2 ∷ 3 ∷ 4 ∷ 5 ∷ []
iov_to_buf-buf_to_iov_example =
    iov_to_buf-buf_to_iov two_entries (1 ∷ 2 ∷ 3 ∷ 4 ∷ 5 ∷ []) (λ a. 0)
      ((inl (omega arith), tt), (tt, tt))

count-buf_to_iov_example :
    (buf_to_iov two_entries (1 ∷ 2 ∷ 3 ∷ 4 ∷ 5 ∷ 6 ∷ 7 ∷ 8 ∷ 9 ∷ []) (λ a. 0)).0 ≡ 7
count-buf_to_iov_example =
    count-buf_to_iov two_entries (1 ∷ 2 ∷ 3 ∷ 4 ∷ 5 ∷ 6 ∷ 7 ∷ 8 ∷ 9 ∷ []) (λ a. 0)
