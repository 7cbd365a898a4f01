-- ===== src/Kernel/Memcpy/UserRange.antt =====
-- The pages that pin_user_pages_fast gives for a range of user memory, held against the addresses of
-- its bytes.
use mathlib.Core.List.{append-nil}
use hm_cuda.Prelude.{
  ℕ, zero, suc, ◌+◌, ◌-◌, ◌*◌, ◌/◌, ◌%◌, ◌<◌, ◌≤◌, ◌≡◌, refl, ap, sym, ◌∙◌, List, [], ◌∷◌, ◌++◌,
  ltb, length, arith, Bool-cases, inl, inr,
}
use hm_cuda.Kernel.Memcpy.{page_size, Services, Submission, pinned}
use hm_cuda.Kernel.Memcpy.Pages.{span, user_bytes, user_bytes_none}

-- The frames of consecutive pages, by the page table of the process.
unfoldable pub frames : (ℕ → ℕ) → ℕ → ℕ → List ℕ
frames frame page zero = []
frames frame page (suc n) = frame page ∷ frames frame (page + 1) n

-- The physical addresses of `n` bytes from a user address on.
unfoldable pub user_range : (ℕ → ℕ) → ℕ → ℕ → List ℕ
user_range frame a zero = []
user_range frame a (suc n) =
    (frame (a / page_size) * page_size + a % page_size) ∷ user_range frame (a + 1) n

-- The pages that are pinned are those of the range, in their order, if not all of them.
abbrev pub PinsPages : (ℕ → ℕ) → Services → Type 0
PinsPages frame k =
    (h : List Submission) (addr n : ℕ) (pfns : List ℕ)
    → k.pin_user_pages_fast h addr n ≡ pinned pfns
    → pfns ≡ frames frame (addr / page_size) (length pfns)

user_range-add :
    (frame : ℕ → ℕ) (a m n : ℕ)
    → user_range frame a (m + n) ≡ user_range frame a m ++ user_range frame (a + m) n
unfolding user_range
user_range-add frame a zero n = grind arith
user_range-add frame a (suc m) n =
    let counts : suc m + n ≡ suc (m + n) = omega arith in
    let starts : a + suc m ≡ a + 1 + m = omega arith in
    rw (counts, starts, user_range-add frame (a + 1) m n)

-- Within one page, the addresses are consecutive.
user_range-page :
    (frame : ℕ → ℕ) (page offset n : ℕ)
    → offset + n ≤ page_size
    → user_range frame (page * page_size + offset) n ≡ span (frame page * page_size + offset) n
unfolding user_range span
user_range-page frame page offset zero h = refl
user_range-page frame page offset (suc n) h =
    let number : (page * page_size + offset) / page_size ≡ page = omega arith in
    let place : (page * page_size + offset) % page_size ≡ offset = omega arith in
    let next : page * page_size + offset + 1 ≡ page * page_size + (offset + 1) = omega arith in
    let after : frame page * page_size + offset + 1 ≡ frame page * page_size + (offset + 1) =
      omega arith in
    rw (number, place, next, after, user_range-page frame page (offset + 1) n (omega arith))

pub user_bytes-frames :
    (frame : ℕ → ℕ) (page offset left pages : ℕ)
    → offset < page_size
    → offset + left ≤ pages * page_size
    → user_bytes offset left (frames frame page pages)
      ≡ user_range frame (page * page_size + offset) left
unfolding user_bytes frames user_range
user_bytes-frames frame page offset left zero inside room =
    let z : left ≡ 0 = omega arith in rw z refl
user_bytes-frames frame page offset left (suc pages) inside room =
    elim (Bool-cases (ltb (page_size - offset) left)) [
      | inl more ↦
          let n = page_size - offset in
          let split : left ≡ n + (left - n) = ground arith in
          let starts : (page + 1) * page_size + 0 ≡ page * page_size + offset + n = omega arith in
          rw more (
            ap (λ l. span (frame page * page_size + offset) n ++ l)
              (user_bytes-frames frame (page + 1) 0 (left - n) pages (omega arith) (ground arith)
                ∙ ap (λ a. user_range frame a (left - n)) starts)
            ∙ ap (λ l. l ++ user_range frame (page * page_size + offset + n) (left - n))
                (sym (user_range-page frame page offset n (omega arith)))
            ∙ sym (user_range-add frame (page * page_size + offset) n (left - n))
            ∙ ap (user_range frame (page * page_size + offset)) (sym split))
      | inr whole ↦
          let nothing : left - left ≡ 0 = omega arith in
          rw (whole, nothing, user_bytes_none 0 (frames frame (page + 1) pages))
            (append-nil (span (frame page * page_size + offset) left)
              ∙ sym (user_range-page frame page offset left (ground arith)))
    ]
