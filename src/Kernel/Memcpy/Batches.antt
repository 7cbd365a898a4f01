-- ===== src/Kernel/Memcpy/Batches.antt =====
-- The batches of hmcuda_do_memcpy_gup (driver/virtio_hmcuda_main.c): their bounds, and that the loop
-- ends.
use hm_cuda.Prelude.{
  ℕ, suc, ◌+◌, ◌-◌, ◌*◌, ◌%◌, ◌^◌, ◌<◌, ◌≤◌, ◌≡◌, ◌≢◌, refl, true, false, List, ◌∷◌, Option, none,
  some, ltb, ◌==◌, length, add64, arith, Bool-cases, inl, inr,
}
use hm_cuda.Kernel.Memcpy.{
  CopyRequest, MemcpyArgs, page_size, pages_per_batch, Batch, next_batch, Submission, submission_of,
  submit, wait_for_completion, use_pages, Services, Pinned, refused, pinned, Outcome, completed,
  out_of_fuel, unanswered, failed, Turn, stop, go_on, turn, gup_loop, efault, update_request,
}

-- The user range ends a page before the end of the address space.
abbrev pub IsUserRange : MemcpyArgs → Type 0
IsUserRange args = args.user_addr_start + args.total_count + page_size < 2 ^ 64

-- A batch of a copy of a user range that is not finished has at least one byte and no more than are left, at most
-- 512 pages, and lies in its pages, the last of which it needs.
pub next_batch_bounds :
    (args : MemcpyArgs) (byte_offset : ℕ)
    → IsUserRange args
    → byte_offset < args.total_count
    → let b = next_batch args byte_offset in
      (0 < b.count)
      × (b.count ≤ args.total_count - byte_offset)
      × (b.pages ≤ pages_per_batch)
      × (b.page_off + b.count ≤ b.pages * page_size)
      × ((b.pages - 1) * page_size < b.page_off + b.count)
unfolding next_batch
next_batch_bounds args byte_offset user more = ground arith

-- The newest submission is in the queue, and the host never completes it.
abbrev pub Waiting : Services → List Submission → Type 0
Waiting k h' =
    (sub : Submission) × (h : List Submission) × (h' ≡ sub ∷ h)
    × (k.virtqueue_add_sgs h sub ≡ none)
    × (k.respond h sub ≡ none)

-- What can follow a turn: the end of the loop without success, or one more submission, of the pages
-- that were pinned for the batch.
unfoldable pub TurnOf :
    Services → MemcpyArgs → ℕ → Batch → CopyRequest → List Submission → Turn → Type 0
TurnOf k args off b req h (stop o h') =
    (o ≢ out_of_fuel) × (o ≢ completed) × (o ≡ unanswered → Waiting k h')
TurnOf k args off b req h (go_on r h') =
    (pfns : List ℕ) × (length pfns ≡ b.pages)
    × (k.pin_user_pages_fast h (b.user_addr - b.user_addr % page_size) b.pages ≡ pinned pfns)
    × (h' ≡ submission_of args off b pfns req ∷ h)
    × (r ≡ update_request args off b.count req)

error_end :
    (k : Services) (n : ℕ) (h : List Submission)
    → (failed n ≢ out_of_fuel) × (failed n ≢ completed) × (failed n ≡ unanswered → Waiting k h)
error_end k n h = (λ e. ground (arith, e), λ e. ground (arith, e), λ e. absurd (ground (arith, e)))

wait-TurnOf :
    (k : Services) (args : MemcpyArgs) (off : ℕ) (b : Batch) (pfns : List ℕ) (req : CopyRequest)
    (h : List Submission) (answer : Option ℕ)
    → k.virtqueue_add_sgs h (submission_of args off b pfns req) ≡ none
    → k.respond h (submission_of args off b pfns req) ≡ answer
    → length pfns ≡ b.pages
    → k.pin_user_pages_fast h (b.user_addr - b.user_addr % page_size) b.pages ≡ pinned pfns
    → TurnOf k args off b req h (wait_for_completion (submission_of args off b pfns req) h answer)
unfolding TurnOf wait_for_completion submission_of
wait-TurnOf k args off b pfns req h none taken silent fits pins =
    (λ e. ground (arith, e), λ e. ground (arith, e), λ e. (_, h, refl, taken, silent))
wait-TurnOf k args off b pfns req h (some e) taken answered fits pins = elim (Bool-cases (e == 0)) [
  | inl fine ↦ rw fine (pfns, fits, pins, refl, refl)
  | inr bad ↦
      rw bad (λ e. ground (arith, e), λ e. ground (arith, e), λ e. absurd (ground (arith, e)))
]

submit-TurnOf :
    (k : Services) (args : MemcpyArgs) (off : ℕ) (b : Batch) (pfns : List ℕ) (req : CopyRequest)
    (h : List Submission) (a : Option ℕ)
    → k.virtqueue_add_sgs h (submission_of args off b pfns req) ≡ a
    → length pfns ≡ b.pages
    → k.pin_user_pages_fast h (b.user_addr - b.user_addr % page_size) b.pages ≡ pinned pfns
    → TurnOf k args off b req h (submit k (submission_of args off b pfns req) h a)
unfolding TurnOf submit
submit-TurnOf k args off b pfns req h (some e) full fits pins = error_end k e h
submit-TurnOf k args off b pfns req h none taken fits pins =
    wait-TurnOf k args off b pfns req h (k.respond h (submission_of args off b pfns req)) taken refl
      fits pins

use_pages-TurnOf :
    (k : Services) (args : MemcpyArgs) (off : ℕ) (b : Batch) (req : CopyRequest)
    (h : List Submission) (p : Pinned)
    → k.pin_user_pages_fast h (b.user_addr - b.user_addr % page_size) b.pages ≡ p
    → TurnOf k args off b req h (use_pages k args off b req h p)
unfolding TurnOf use_pages
use_pages-TurnOf k args off b req h (refused e) pins = error_end k e h
use_pages-TurnOf k args off b req h (pinned pfns) pins =
    elim (Bool-cases (length pfns == b.pages)) [
      | inl all ↦ rw all (
          submit-TurnOf k args off b pfns req h
            (k.virtqueue_add_sgs h (submission_of args off b pfns req)) refl (ground arith) pins)
      | inr short ↦ rw short (error_end k efault h)
    ]

-- The loop after a turn.
unfoldable pub after : Services → MemcpyArgs → ℕ → ℕ → Turn → Outcome × List Submission
after k args fuel off (stop o h) = (o, h)
after k args fuel off (go_on req h) = gup_loop k args fuel off req h

after_eq :
    (k : Services) (args : MemcpyArgs) (fuel off : ℕ) (t : Turn)
    → (elim t [ stop o h ↦ (o, h) | go_on req h ↦ gup_loop k args fuel off req h ])
      ≡ after k args fuel off t
unfolding after
after_eq k args fuel off (stop o h) = refl
after_eq k args fuel off (go_on req h) = refl

pub gup_loop-more :
    (k : Services) (args : MemcpyArgs) (fuel off : ℕ) (req : CopyRequest) (h : List Submission)
    → ltb off args.total_count ≡ true
    → gup_loop k args (suc fuel) off req h
      ≡ after k args fuel
          (add64 off (next_batch args off).count)
          (turn k args off (next_batch args off) req h)
unfolding gup_loop
gup_loop-more k args fuel off req h more = rw (more, gup_loop) (after_eq k args fuel _ _)

pub gup_loop-over :
    (k : Services) (args : MemcpyArgs) (fuel off : ℕ) (req : CopyRequest) (h : List Submission)
    → ltb off args.total_count ≡ false
    → gup_loop k args (suc fuel) off req h ≡ (completed, h)
unfolding gup_loop
gup_loop-over k args fuel off req h over = rw (over, gup_loop)

pub turn-TurnOf :
    (k : Services) (args : MemcpyArgs) (off : ℕ) (b : Batch) (req : CopyRequest)
    (h : List Submission)
    → TurnOf k args off b req h (turn k args off b req h)
unfolding turn
turn-TurnOf k args off b req h = use_pages-TurnOf k args off b req h _ refl
