-- ===== src/Kernel/Memcpy.antt =====
-- hmcuda_parse_memcpy_args and hmcuda_do_memcpy_gup of driver/virtio_hmcuda_main.c: the commands that
-- carry user pages, cut into batches of pinned pages.
pub mod Batches
pub mod Pages
pub mod UserRange
pub mod Copies
use hm_cuda.Prelude.{
  ℕ, zero, suc, ◌+◌, ◌-◌, ◌*◌, ◌/◌, ◌%◌, ◌^◌, Bool, true, false, List, [], ◌∷◌, Option, none, some,
  ltb, ◌==◌, if◌then◌else◌, length, add64, sub64,
}
use hm_cuda.Command.{MemcpyReq, HostAllocReq}

abbrev pub page_size : ℕ
page_size = 4096

-- HMCUDA_MEMCPY_PAGES_PER_BATCH
abbrev pub pages_per_batch : ℕ
pages_per_batch = 512

-- The request in req_buf: a copy of either library, or a pinned allocation.
pub data CopyRequest : Type 0 where
  copies : MemcpyReq → CopyRequest
  allocates : HostAllocReq → CopyRequest

-- struct hmcuda_memcpy_args.
pub record MemcpyArgs : Type 0 where
  pub user_addr_start : ℕ
  pub total_count : ℕ
  pub dev_ptr : ℕ
  pub kind : ℕ

unfoldable pub hmcuda_parse_memcpy_args : CopyRequest → MemcpyArgs
hmcuda_parse_memcpy_args (allocates r) = record {
  user_addr_start = r.guest_va;
  total_count = r.bytesize;
  dev_ptr = 0;
  kind = 1;
}
hmcuda_parse_memcpy_args (copies r) = record {
  user_addr_start = if r.kind == 1 then r.src else r.dst;
  total_count = r.count;
  dev_ptr = if r.kind == 1 then r.dst else r.src;
  kind = r.kind;
}

-- min
abbrev pub least : ℕ → ℕ → ℕ
least a b = if ltb a b then a else b

-- DIV_ROUND_UP(n, PAGE_SIZE) on an unsigned long.
abbrev pub pages_of : ℕ → ℕ
pages_of n = add64 n 4095 / page_size

-- One turn of the loop: where its bytes start, how many pages hold them, and how many there are.
pub record Batch : Type 0 where
  pub user_addr : ℕ
  pub page_off : ℕ
  pub pages : ℕ
  pub count : ℕ

unfoldable pub next_batch : MemcpyArgs → ℕ → Batch
next_batch args byte_offset =
    let user_addr = add64 args.user_addr_start byte_offset in
    let page_off = user_addr % page_size in
    let remaining = args.total_count - byte_offset in
    let pages = least pages_per_batch (pages_of (add64 page_off remaining)) in
    record {
      user_addr = user_addr;
      page_off = page_off;
      pages = pages;
      count = least (sub64 (pages * page_size) page_off) remaining;
    }

-- A scatterlist entry: a run of physical memory from a byte of a page frame on.
pub record SgEntry : Type 0 where
  pub pfn : ℕ
  pub offset : ℕ
  pub length : ℕ

abbrev pub new_entry : ℕ → ℕ → ℕ → SgEntry
new_entry pfn offset n = record { pfn = pfn; offset = offset; length = n }

-- The entries stand newest first; a page right after the one before it lengthens the newest.
unfoldable pub add_page : ℕ → ℕ → ℕ → ℕ → List SgEntry → List SgEntry
add_page prev pfn offset n [] = new_entry pfn offset n ∷ []
add_page prev pfn offset n (e ∷ es) =
    if pfn == prev + 1
    then new_entry e.pfn e.offset (e.length + n) ∷ es
    else new_entry pfn offset n ∷ e ∷ es

-- The loop over the pinned pages, from the first one's offset on; `rem` bytes are left.
unfoldable pub coalesce : ℕ → ℕ → ℕ → List ℕ → List SgEntry → List SgEntry
unfolding add_page
coalesce prev offset rem [] entries = entries
coalesce prev offset rem (pfn ∷ pfns) entries =
    let n = least (page_size - offset) rem in
    let rest = coalesce pfn 0 (rem - n) pfns (add_page prev pfn offset n entries) in
    if ltb 0 rem then rest else entries

-- The per-batch fields of the request.
unfoldable pub update_request : MemcpyArgs → ℕ → ℕ → CopyRequest → CopyRequest
update_request args byte_offset count (allocates r) =
    allocates (record r { byte_offset = byte_offset })
update_request args byte_offset count (copies r) =
    if args.kind == 1
    then copies (record r { count = count; src = 0; dst = add64 args.dev_ptr byte_offset })
    else copies (record r { count = count; src = add64 args.dev_ptr byte_offset; dst = 0 })

-- What goes into the virtqueue: the request, the data pages (newest entry first), and whether the
-- host reads them.
pub record Submission : Type 0 where
  pub request : CopyRequest
  pub data_pages : List SgEntry
  pub host_reads : Bool

-- pin_user_pages_fast: the frames of the pages pinned, or an error number.
pub data Pinned : Type 0 where
  pinned : List ℕ → Pinned
  refused : ℕ → Pinned

-- The rest of the kernel and the host, which answer from the submissions made before, newest first:
-- the two array allocations, the pinning, the virtqueue (`none` if it took the entry, else its error
-- number) and the CUDA error of the response, `none` if the host never completes the request.
pub record Services : Type 0 where
  pub kvmalloc_arrays : Bool
  pub pin_user_pages_fast : List Submission → ℕ → ℕ → Pinned
  pub virtqueue_add_sgs : List Submission → Submission → Option ℕ
  pub respond : List Submission → Submission → Option ℕ

abbrev pub efault : ℕ
efault = 14

abbrev pub enomem : ℕ
enomem = 12

-- `completed` and `cuda_failed` return 0, with the response in the buffer; `failed` returns a
-- negative error number. `unanswered` waits for good.
pub data Outcome : Type 0 where
  completed unanswered out_of_fuel : Outcome
  cuda_failed failed : ℕ → Outcome

unfoldable pub submission_of : MemcpyArgs → ℕ → Batch → List ℕ → CopyRequest → Submission
unfolding coalesce update_request
submission_of args byte_offset b pfns req = record {
  request = update_request args byte_offset b.count req;
  data_pages = coalesce 0 b.page_off b.count pfns [];
  host_reads = args.kind == 1;
}

-- What one turn does: stop, or go on with the submission in the history.
pub data Turn : Type 0 where
  stop : Outcome → List Submission → Turn
  go_on : CopyRequest → List Submission → Turn

-- wait_for_completion, and a look at the response.
unfoldable pub wait_for_completion : Submission → List Submission → Option ℕ → Turn
wait_for_completion sub h none = stop unanswered (sub ∷ h)
wait_for_completion sub h (some e) =
    if e == 0 then go_on sub.request (sub ∷ h) else stop (cuda_failed e) (sub ∷ h)

-- After virtqueue_add_sgs.
unfoldable pub submit : Services → Submission → List Submission → Option ℕ → Turn
unfolding wait_for_completion
submit k sub h (some e) = stop (failed e) h
submit k sub h none = wait_for_completion sub h (k.respond h sub)

-- After pin_user_pages_fast: fewer pages than asked for are EFAULT.
unfoldable pub use_pages :
    Services → MemcpyArgs → ℕ → Batch → CopyRequest → List Submission → Pinned → Turn
unfolding submit submission_of
use_pages k args byte_offset b req h (refused e) = stop (failed e) h
use_pages k args byte_offset b req h (pinned pfns) =
    if length pfns == b.pages
    then (let sub = submission_of args byte_offset b pfns req in
        submit k sub h (k.virtqueue_add_sgs h sub))
    else stop (failed efault) h

unfoldable pub turn : Services → MemcpyArgs → ℕ → Batch → CopyRequest → List Submission → Turn
unfolding use_pages
turn k args byte_offset b req h =
    use_pages k args byte_offset b req h
      (k.pin_user_pages_fast h (b.user_addr - b.user_addr % page_size) b.pages)

-- The loop, and the submissions it made, newest first.
unfoldable pub gup_loop :
    Services → MemcpyArgs → ℕ → ℕ → CopyRequest → List Submission → Outcome × List Submission
unfolding turn next_batch
gup_loop k args zero byte_offset req h = (out_of_fuel, h)
gup_loop k args (suc fuel) byte_offset req h = elim (ltb byte_offset args.total_count) [
  | false ↦ (completed, h)
  | true ↦
      let b = next_batch args byte_offset in
      elim (turn k args byte_offset b req h) [
        | stop o h' ↦ (o, h')
        | go_on req' h' ↦ gup_loop k args fuel (add64 byte_offset b.count) req' h'
      ]
]

unfoldable pub hmcuda_do_memcpy_gup :
    Services → CopyRequest → MemcpyArgs → Outcome × List Submission
unfolding gup_loop
hmcuda_do_memcpy_gup k req args =
    if k.kvmalloc_arrays
    then gup_loop k args (suc args.total_count) 0 req []
    else (failed enomem, [])
