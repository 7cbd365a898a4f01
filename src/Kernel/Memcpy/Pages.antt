-- ===== src/Kernel/Memcpy/Pages.antt =====
-- The scatterlist of hmcuda_do_memcpy_gup (driver/virtio_hmcuda_main.c): joining neighbouring pages
-- loses no byte and moves none.
use mathlib.Core.List.{append-nil, append_assoc}
use hm_cuda.Prelude.{
  ℕ, zero, suc, ◌+◌, ◌-◌, ◌*◌, ◌<◌, ◌≡◌, refl, ap, sym, ◌∙◌, List, [], ◌∷◌, ◌++◌, ltb, ◌==◌, arith,
  Bool-cases, inl, inr,
}
use hm_cuda.Kernel.Memcpy.{page_size, least, SgEntry, add_page, coalesce}

-- `n` addresses from `a` on.
unfoldable pub span : ℕ → ℕ → List ℕ
span a zero = []
span a (suc n) = a ∷ span (a + 1) n

-- The physical addresses of a scatterlist that stands newest entry first, in the order of transfer.
unfoldable pub addresses : List SgEntry → List ℕ
addresses [] = []
addresses (e ∷ es) = addresses es ++ span (e.pfn * page_size + e.offset) e.length

-- The physical addresses of `left` bytes of user memory, from an offset in the first page on.
unfoldable pub user_bytes : ℕ → ℕ → List ℕ → List ℕ
user_bytes offset left [] = []
user_bytes offset left (pfn ∷ pfns) =
    let n = least (page_size - offset) left in
    span (pfn * page_size + offset) n ++ user_bytes 0 (left - n) pfns

span-add : (a m n : ℕ) → span a (m + n) ≡ span a m ++ span (a + m) n
unfolding span
span-add a zero n = grind arith
span-add a (suc m) n =
    let counts : suc m + n ≡ suc (m + n) = omega arith in
    let starts : a + suc m ≡ a + 1 + m = omega arith in rw (counts, starts, span-add (a + 1) m n)

pub user_bytes_none : (offset : ℕ) (pfns : List ℕ) → user_bytes offset 0 pfns ≡ []
unfolding user_bytes span
user_bytes_none offset [] = refl
user_bytes_none offset (p ∷ ps) =
    let none_here : least (page_size - offset) 0 ≡ 0 = ground arith in
    rw (none_here, user_bytes_none 0 ps)

-- The newest entry reaches the end of the page before, and the next page starts at its first byte.
Joined : ℕ → ℕ → List SgEntry → Type 0
Joined prev offset [] = Unit {0}
Joined prev offset (e ∷ es) =
    (offset ≡ 0) × (e.pfn * page_size + e.offset + e.length ≡ (prev + 1) * page_size)

addresses-add_page :
    (prev pfn offset n : ℕ) (es : List SgEntry)
    → Joined prev offset es
    → addresses (add_page prev pfn offset n es) ≡ addresses es ++ span (pfn * page_size + offset) n
unfolding addresses add_page Joined
addresses-add_page prev pfn offset n [] j = refl
addresses-add_page prev pfn offset n (e ∷ es) j = elim (Bool-cases (pfn == prev + 1)) [
  | inl next ↦
      let starts : pfn * page_size + offset ≡ e.pfn * page_size + e.offset + e.length =
        ground arith in
      rw (next, starts, span-add (e.pfn * page_size + e.offset) e.length n)
        (sym (
          append_assoc (addresses es) (span (e.pfn * page_size + e.offset) e.length)
            (span (e.pfn * page_size + e.offset + e.length) n)))
  | inr apart ↦ rw apart
]

Joined-add_page :
    (prev pfn offset n : ℕ) (es : List SgEntry)
    → Joined prev offset es
    → offset + n ≡ page_size
    → Joined pfn 0 (add_page prev pfn offset n es)
unfolding Joined add_page
Joined-add_page prev pfn offset n [] j whole = (refl, ground arith)
Joined-add_page prev pfn offset n (e ∷ es) j whole = elim (Bool-cases (pfn == prev + 1)) [
  | inl next ↦ rw next (refl, ground arith)
  | inr apart ↦ rw apart (refl, ground arith)
]

-- The page loop adds to a scatterlist the bytes of the pages, in their order.
addresses-coalesce_from :
    (prev offset left : ℕ) (pfns : List ℕ) (es : List SgEntry)
    → (0 < left → Joined prev offset es)
    → offset < page_size
    → addresses (coalesce prev offset left pfns es) ≡ addresses es ++ user_bytes offset left pfns
unfolding coalesce user_bytes
addresses-coalesce_from prev offset left [] es j inside = sym (append-nil (addresses es))
addresses-coalesce_from prev offset left (p ∷ ps) es j inside = elim (Bool-cases (ltb 0 left)) [
  | inl more ↦
      let n = least (page_size - offset) left in
      let step =
        addresses-coalesce_from p 0 (left - n) ps (add_page prev p offset n es)
          (λ h. Joined-add_page prev p offset n es (j (ground arith)) (ground arith))
          (omega arith) in
      rw more (
        step
        ∙ rw (addresses-add_page prev p offset n es (j (ground arith))) (
            append_assoc (addresses es) (span (p * page_size + offset) n)
              (user_bytes 0 (left - n) ps)))
  | inr over ↦
      let z : left ≡ 0 = ground arith in
      rw (over, z)
        (sym (append-nil (addresses es))
          ∙ ap (λ l. addresses es ++ l) (sym (user_bytes_none offset (p ∷ ps))))
]

-- For a copy that starts inside its first page, the scatterlist, with neighbouring pages joined,
-- names the same physical addresses in the same order as the pinned pages one by one.
pub addresses-coalesce :
    (offset left : ℕ) (pfns : List ℕ)
    → offset < page_size
    → addresses (coalesce 0 offset left pfns []) ≡ user_bytes offset left pfns
unfolding addresses Joined
addresses-coalesce offset left pfns inside =
    addresses-coalesce_from 0 offset left pfns [] (λ h. tt) inside
