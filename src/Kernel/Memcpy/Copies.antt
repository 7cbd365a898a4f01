-- ===== src/Kernel/Memcpy/Copies.antt =====
-- The whole loop of hmcuda_do_memcpy_gup (driver/virtio_hmcuda_main.c): it ends, and a copy that
-- completes has passed on every byte once, in order, and with the right device addresses.
use hm_cuda.Prelude.{
  ℕ, zero, suc, ◌+◌, ◌-◌, ◌*◌, ◌/◌, ◌%◌, ◌<◌, ◌≤◌, ◌≡◌, ◌≢◌, refl, ap, sym, ◌∙◌, subst, List, [],
  ◌∷◌, ltb, ltb→lt, ◌==◌, if◌then◌else◌, length, add64, arith, Bool-cases, inl, inr,
}
use hm_cuda.Kernel.Memcpy.{
  CopyRequest, copies, allocates, MemcpyArgs, Batch, next_batch, update_request, Submission,
  submission_of, Services, completed, unanswered, out_of_fuel, failed, enomem, Turn, stop, go_on,
  gup_loop, hmcuda_do_memcpy_gup, page_size,
}
use hm_cuda.Kernel.Memcpy.Batches.{
  Waiting, IsUserRange, next_batch_bounds, TurnOf, turn-TurnOf, after, gup_loop-more, gup_loop-over,
}
use hm_cuda.Kernel.Memcpy.Pages.{addresses, addresses-coalesce, user_bytes}
use hm_cuda.Kernel.Memcpy.UserRange.{frames, user_range, PinsPages, user_bytes-frames}

-- The request of a batch that carries `n` bytes from byte `start` of the copy on.
unfoldable pub Carries : MemcpyArgs → ℕ → ℕ → CopyRequest → Type 0
Carries args start n (allocates r) = r.byte_offset ≡ start
Carries args start n (copies r) =
    (r.count ≡ n)
    × ((if args.kind == 1 then r.dst else r.src) ≡ add64 args.dev_ptr start)
    × ((if args.kind == 1 then r.src else r.dst) ≡ 0)

-- The submissions, newest first, carry the first `off` bytes of the user range without gap or overlap.
unfoldable pub Tiled : (ℕ → ℕ) → MemcpyArgs → ℕ → List Submission → Type 0
Tiled frame args off [] = off ≡ 0
Tiled frame args off (sub ∷ h) =
    (start : ℕ) × (n : ℕ) × (start + n ≡ off)
    × (addresses sub.data_pages ≡ user_range frame (args.user_addr_start + start) n)
    × Carries args start n sub.request
    × Tiled frame args start h

update_request-Carries :
    (args : MemcpyArgs) (start n : ℕ) (req : CopyRequest)
    → Carries args start n (update_request args start n req)
unfolding Carries update_request
update_request-Carries args start n (allocates r) = refl
update_request-Carries args start n (copies r) = elim (Bool-cases (args.kind == 1)) [
  | inl to_device ↦ rw (to_device, to_device) (refl, refl, refl)
  | inr to_host ↦ rw (to_host, to_host) (refl, refl, refl)
]

fuel_out : out_of_fuel ≢ completed
fuel_out e = ground (arith, e)

refused_end : failed enomem ≢ completed
refused_end e = ground (arith, e)

nothing_yet : (frame : ℕ → ℕ) (args : MemcpyArgs) → Tiled frame args 0 []
unfolding Tiled
nothing_yet frame args = refl

module _ (args : MemcpyArgs) (user : IsUserRange args) where
  -- The pages of a batch hold its bytes.
  addresses-submission :
      (frame : ℕ → ℕ) (off : ℕ) (pfns : List ℕ) (req : CopyRequest)
      → off < args.total_count
      → length pfns ≡ (next_batch args off).pages
      → (let b = next_batch args off in
          pfns ≡ frames frame ((b.user_addr - b.user_addr % page_size) / page_size) (length pfns))
      → addresses (submission_of args off (next_batch args off) pfns req).data_pages
        ≡ user_range frame (args.user_addr_start + off) (next_batch args off).count
  unfolding submission_of next_batch
  addresses-submission frame off pfns req more fits of_range =
      let b = next_batch args off in
      let bounds = next_batch_bounds args off user more in
      let a = add64 args.user_addr_start off in
      let page = (a - a % page_size) / page_size in
      let starts : page * page_size + a % page_size ≡ args.user_addr_start + off = ground arith in
      addresses-coalesce b.page_off b.count pfns (omega arith)
      ∙ ap (user_bytes b.page_off b.count) (of_range ∙ ap (frames frame page) fits)
      ∙ user_bytes-frames frame page b.page_off b.count b.pages (omega arith) bounds.3
      ∙ ap (λ x. user_range frame x b.count) starts

  submission-Tiled :
      (frame : ℕ → ℕ) (off : ℕ) (pfns : List ℕ) (req : CopyRequest) (h : List Submission)
      → off < args.total_count
      → length pfns ≡ (next_batch args off).pages
      → (let b = next_batch args off in
          pfns ≡ frames frame ((b.user_addr - b.user_addr % page_size) / page_size) (length pfns))
      → Tiled frame args off h
      → Tiled frame args
          (off + (next_batch args off).count)
          (submission_of args off (next_batch args off) pfns req ∷ h)
  unfolding Tiled submission_of
  submission-Tiled frame off pfns req h more fits of_range tiled = (
    off,
    (next_batch args off).count,
    refl,
    addresses-submission frame off pfns req more fits of_range,
    update_request-Carries args off (next_batch args off).count req,
    tiled,
  )

  add_count :
      (off : ℕ)
      → off < args.total_count
      → (add64 off (next_batch args off).count ≡ off + (next_batch args off).count)
        × (off + (next_batch args off).count ≤ args.total_count)
        × (off < off + (next_batch args off).count)
  add_count off more =
      let bounds = next_batch_bounds args off user more in omega (arith, bounds.0, bounds.1)

-- A turn that goes on hands the loop what it promises, and one that stops has no success.
after_ends :
    (k : Services) (args : MemcpyArgs) (fuel off next : ℕ) (b : Batch) (req : CopyRequest)
    (h : List Submission) (t : Turn)
    → TurnOf k args off b req h t
    → ((r : CopyRequest) (h' : List Submission) → (gup_loop k args fuel next r h').0 ≢ out_of_fuel)
    → (after k args fuel next t).0 ≢ out_of_fuel
unfolding TurnOf after
after_ends k args fuel off next b req h (stop o h') spec rest = spec.0
after_ends k args fuel off next b req h (go_on r h') spec rest = rest r h'

after-Waiting :
    (k : Services) (args : MemcpyArgs) (fuel off next : ℕ) (b : Batch) (req : CopyRequest)
    (h : List Submission) (t : Turn)
    → TurnOf k args off b req h t
    → ((r : CopyRequest) (h' : List Submission)
        → (gup_loop k args fuel next r h').0 ≡ unanswered
        → Waiting k (gup_loop k args fuel next r h').1)
    → (after k args fuel next t).0 ≡ unanswered
    → Waiting k (after k args fuel next t).1
unfolding TurnOf after
after-Waiting k args fuel off next b req h (stop o h') spec rest = spec.2
after-Waiting k args fuel off next b req h (go_on r h') spec rest = rest r h'

after_tiles :
    (frame : ℕ → ℕ) (k : Services) (args : MemcpyArgs) (fuel off next : ℕ) (b : Batch)
    (req : CopyRequest) (h final : List Submission) (t : Turn)
    → PinsPages frame k
    → TurnOf k args off b req h t
    → ((pfns : List ℕ)
        → length pfns ≡ b.pages
        → pfns ≡ frames frame ((b.user_addr - b.user_addr % page_size) / page_size) (length pfns)
        → Tiled frame args next (submission_of args off b pfns req ∷ h))
    → ((r : CopyRequest) (h' : List Submission)
        → Tiled frame args next h'
        → gup_loop k args fuel next r h' ≡ (completed, final)
        → Tiled frame args args.total_count final)
    → after k args fuel next t ≡ (completed, final)
    → Tiled frame args args.total_count final
unfolding TurnOf after
after_tiles frame k args fuel off next b req h final (stop o h') pins spec one rest e =
    absurd (spec.1 (ap (λ x. x.0) e))
after_tiles frame k args fuel off next b req h final (go_on r h') pins
      (pfns, fits, got, made, updated) one rest e =
    rest r h'
      (subst (Tiled frame args next) (sym made)
        (one pfns fits (pins h (b.user_addr - b.user_addr % page_size) b.pages pfns got)))
      e

module _ (args : MemcpyArgs) (user : IsUserRange args) (k : Services) where
  gup_loop_ends :
      (fuel off : ℕ) (req : CopyRequest) (h : List Submission)
      → off ≤ args.total_count
      → args.total_count - off < fuel
      → (gup_loop k args fuel off req h).0 ≢ out_of_fuel
  gup_loop_ends zero off req h le enough = absurd (omega arith)
  gup_loop_ends (suc fuel) off req h le enough = elim (Bool-cases (ltb off args.total_count)) [
    | inl more ↦
        let b = next_batch args off in
        let counts = add_count args user off (ltb→lt off args.total_count more) in
        rw (gup_loop-more k args fuel off req h more, counts.0)
          (after_ends k args fuel off (off + b.count) b req h _ (turn-TurnOf k args off b req h)
            (λ r h'.
              gup_loop_ends fuel (off + b.count) r h' counts.1 (omega (arith, counts.2, counts.1))))
    | inr over ↦ rw (gup_loop-over k args fuel off req h over) (λ e. ground (arith, e))
  ]

  gup_loop-Waiting :
      (fuel off : ℕ) (req : CopyRequest) (h : List Submission)
      → (gup_loop k args fuel off req h).0 ≡ unanswered
      → Waiting k (gup_loop k args fuel off req h).1
  unfolding gup_loop
  gup_loop-Waiting zero off req h = λ e. absurd (ground (arith, e))
  gup_loop-Waiting (suc fuel) off req h = elim (Bool-cases (ltb off args.total_count)) [
    | inl more ↦
        let b = next_batch args off in
        rw (gup_loop-more k args fuel off req h more) (
          after-Waiting k args fuel off (add64 off b.count) b req h _
            (turn-TurnOf k args off b req h)
            (λ r h'. gup_loop-Waiting fuel (add64 off b.count) r h'))
    | inr over ↦ rw (gup_loop-over k args fuel off req h over) (λ e. absurd (ground (arith, e)))
  ]

  -- A copy that waits for good waits for the newest of its submissions.
  pub do_memcpy_gup-Waiting :
      (req : CopyRequest)
      → (hmcuda_do_memcpy_gup k req args).0 ≡ unanswered
      → Waiting k (hmcuda_do_memcpy_gup k req args).1
  unfolding hmcuda_do_memcpy_gup
  do_memcpy_gup-Waiting req = elim (Bool-cases k.kvmalloc_arrays) [
    | inl granted ↦ rw granted (gup_loop-Waiting (suc args.total_count) 0 req [])
    | inr denied ↦ rw denied (λ e. absurd (ground (arith, e)))
  ]

  gup_loop-Tiled :
      (frame : ℕ → ℕ) (fuel off : ℕ) (req : CopyRequest) (h final : List Submission)
      → PinsPages frame k
      → off ≤ args.total_count
      → Tiled frame args off h
      → gup_loop k args fuel off req h ≡ (completed, final)
      → Tiled frame args args.total_count final
  unfolding gup_loop
  gup_loop-Tiled frame zero off req h final pins le tiled e = absurd (fuel_out (ap (λ x. x.0) e))
  gup_loop-Tiled frame (suc fuel) off req h final pins le tiled e =
      elim (Bool-cases (ltb off args.total_count)) [
        | inl more ↦
            let b = next_batch args off in
            let less = ltb→lt off args.total_count more in
            let counts = add_count args user off less in
            after_tiles frame k args fuel off (off + b.count) b req h final _ pins
              (turn-TurnOf k args off b req h)
              (λ pfns fits of_range.
                submission-Tiled args user frame off pfns req h less fits of_range tiled)
              (λ r h' t. gup_loop-Tiled frame fuel (off + b.count) r h' final pins counts.1 t)
              (rw (sym counts.0) (sym (gup_loop-more k args fuel off req h more) ∙ e))
        | inr over ↦
            let whole : off ≡ args.total_count = ground arith in
            subst (λ n. Tiled frame args n final) whole
              (subst (Tiled frame args off)
                (ap (λ x. x.1) (sym (gup_loop-over k args fuel off req h over) ∙ e)) tiled)
      ]

  -- Whatever the kernel and the host answer, a copy of a user range never reaches the loop's bound of
  -- one turn more than it has bytes.
  pub do_memcpy_gup_ends : (req : CopyRequest) → (hmcuda_do_memcpy_gup k req args).0 ≢ out_of_fuel
  unfolding hmcuda_do_memcpy_gup
  do_memcpy_gup_ends req = elim (Bool-cases k.kvmalloc_arrays) [
    | inl granted ↦
        rw granted (gup_loop_ends (suc args.total_count) 0 req [] (omega arith) (omega arith))
    | inr denied ↦ rw denied (λ e. ground (arith, e))
  ]

  -- If pinning gives the frames of the pages that it is asked for, in their order, the submissions of
  -- a copy of a user range that completes carry all of its bytes, each once and in order: the
  -- scatterlist of each names the physical addresses of its part of the user range, and its request the
  -- length of the part and the device address (or, for a pinned allocation, the byte offset) at which
  -- it belongs.
  pub do_memcpy_gup-Tiled :
      (frame : ℕ → ℕ) (req : CopyRequest) (final : List Submission)
      → PinsPages frame k
      → hmcuda_do_memcpy_gup k req args ≡ (completed, final)
      → Tiled frame args args.total_count final
  unfolding hmcuda_do_memcpy_gup
  do_memcpy_gup-Tiled frame req final pins e = elim (Bool-cases k.kvmalloc_arrays) [
    | inl granted ↦
        gup_loop-Tiled frame (suc args.total_count) 0 req [] final pins (omega arith)
          (nothing_yet frame args) (rw granted at e)
    | inr denied ↦ absurd (refused_end (ap (λ x. x.0) (rw denied at e)))
  ]
