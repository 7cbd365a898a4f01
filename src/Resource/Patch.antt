-- ===== src/Resource/Patch.antt =====
-- host/vhost/resource.c: rewriting of guest pointers that stand inside a copied buffer.
use hm_cuda.Prelude.{
  ℕ, ◌+◌, ◌-◌, ◌*◌, ◌/◌, ◌%◌, ◌^◌, ◌<◌, ◌≡◌, refl, Bool, true, false, ◌||◌, List, [], ◌∷◌, ◌++◌,
  if◌then◌else◌, add64, arith, length, map, Bool-cases, inl, inr,
}
use hm_cuda.Backend.{Resource}
use hm_cuda.Resource.{in_range}

-- The little-endian word at the front of eight bytes.
abbrev pub word : ℕ → ℕ → ℕ → ℕ → ℕ → ℕ → ℕ → ℕ → ℕ
word a b c d e f g h =
    a + 2 ^ 8 * b + 2 ^ 16 * c + 2 ^ 24 * d + 2 ^ 32 * e + 2 ^ 40 * f + 2 ^ 48 * g + 2 ^ 56 * h

abbrev pub bytes_of : ℕ → List ℕ
bytes_of v =
    v % 2 ^ 8
    ∷ v / 2 ^ 8 % 2 ^ 8
    ∷ v / 2 ^ 16 % 2 ^ 8
    ∷ v / 2 ^ 24 % 2 ^ 8
    ∷ v / 2 ^ 32 % 2 ^ 8
    ∷ v / 2 ^ 40 % 2 ^ 8
    ∷ v / 2 ^ 48 % 2 ^ 8
    ∷ v / 2 ^ 56 % 2 ^ 8
    ∷ []

unfoldable pub is_host_ptr : ℕ → List Resource → Bool
is_host_ptr v [] = false
is_host_ptr v (r ∷ rs) = in_range v r || is_host_ptr v rs

-- The first allocation that holds `v` gives its real pointer; other values stay.
unfoldable pub translate : ℕ → List Resource → ℕ
translate v [] = v
translate v (r ∷ rs) = if in_range v r then add64 r.real_ptr (v - r.handle) else translate v rs

-- `hm` is the session's RES_TYPE_HOST_MEM list. A tail of less than eight bytes is not read.
unfoldable pub hmcuda_buffer_needs_host_ptr_patch : List Resource → List ℕ → Bool
hmcuda_buffer_needs_host_ptr_patch hm (a ∷ b ∷ c ∷ d ∷ e ∷ f ∷ g ∷ h ∷ rest) =
    is_host_ptr (word a b c d e f g h) hm || hmcuda_buffer_needs_host_ptr_patch hm rest
hmcuda_buffer_needs_host_ptr_patch hm _ = false

-- A word that lies in no allocation is left as its bytes stand.
unfoldable pub patch_word : List Resource → ℕ → List ℕ → List ℕ
patch_word hm v old = if is_host_ptr v hm then bytes_of (translate v hm) else old

unfoldable pub hmcuda_patch_embedded_host_ptrs : List Resource → List ℕ → List ℕ
hmcuda_patch_embedded_host_ptrs hm (a ∷ b ∷ c ∷ d ∷ e ∷ f ∷ g ∷ h ∷ rest) =
    patch_word hm (word a b c d e f g h) (a ∷ b ∷ c ∷ d ∷ e ∷ f ∷ g ∷ h ∷ [])
    ++ hmcuda_patch_embedded_host_ptrs hm rest
hmcuda_patch_embedded_host_ptrs hm short = short

-- A buffer that does not need patching comes out of the patch as it went in.
pub patch_unneeded :
    (hm : List Resource) (bytes : List ℕ)
    → hmcuda_buffer_needs_host_ptr_patch hm bytes ≡ false
    → hmcuda_patch_embedded_host_ptrs hm bytes ≡ bytes
unfolding hmcuda_buffer_needs_host_ptr_patch hmcuda_patch_embedded_host_ptrs patch_word
patch_unneeded hm (a ∷ b ∷ c ∷ d ∷ e ∷ f ∷ g ∷ h ∷ rest) needs =
    ground (arith, patch_unneeded hm rest)
patch_unneeded hm _ needs = refl

length-patch_word :
    (hm : List Resource) (v : ℕ) (old : List ℕ) → length old ≡ 8 → length (patch_word hm v old) ≡ 8
unfolding patch_word
length-patch_word hm v old e = ground arith

pub length-patch :
    (hm : List Resource) (bytes : List ℕ)
    → length (hmcuda_patch_embedded_host_ptrs hm bytes) ≡ length bytes
unfolding hmcuda_patch_embedded_host_ptrs patch_word
length-patch hm (a ∷ b ∷ c ∷ d ∷ e ∷ f ∷ g ∷ h ∷ rest) = ground (arith, length-patch hm rest)
length-patch hm _ = refl

-- The buffer as the words that the copy carries, and the bytes that follow them.
unfoldable pub words_of : List ℕ → List ℕ
words_of (a ∷ b ∷ c ∷ d ∷ e ∷ f ∷ g ∷ h ∷ rest) = word a b c d e f g h ∷ words_of rest
words_of _ = []

unfoldable pub tail_of : List ℕ → List ℕ
tail_of (a ∷ b ∷ c ∷ d ∷ e ∷ f ∷ g ∷ h ∷ rest) = tail_of rest
tail_of short = short

word_round_trip :
    (v : ℕ)
    → v < 2 ^ 64
    → word
        (v % 2 ^ 8)
        (v / 2 ^ 8 % 2 ^ 8)
        (v / 2 ^ 16 % 2 ^ 8)
        (v / 2 ^ 24 % 2 ^ 8)
        (v / 2 ^ 32 % 2 ^ 8)
        (v / 2 ^ 40 % 2 ^ 8)
        (v / 2 ^ 48 % 2 ^ 8)
        (v / 2 ^ 56 % 2 ^ 8)
      ≡ v
word_round_trip v h = omega arith

translate_lt : (v : ℕ) (hm : List Resource) → is_host_ptr v hm ≡ true → translate v hm < 2 ^ 64
unfolding is_host_ptr translate
translate_lt v [] h = ground arith
translate_lt v (r ∷ rs) h = ground (arith, translate_lt v rs)

translate_other : (v : ℕ) (hm : List Resource) → is_host_ptr v hm ≡ false → translate v hm ≡ v
unfolding is_host_ptr translate
translate_other v [] h = refl
translate_other v (r ∷ rs) h = ground (arith, translate_other v rs)

-- Whatever the bytes are, the words of a patched buffer are the translations of its words, and the
-- bytes after the last whole word are unchanged.
pub words-patch :
    (hm : List Resource) (bytes : List ℕ)
    → (words_of (hmcuda_patch_embedded_host_ptrs hm bytes)
        ≡ map (λ v. translate v hm) (words_of bytes))
      × (tail_of (hmcuda_patch_embedded_host_ptrs hm bytes) ≡ tail_of bytes)
unfolding words_of tail_of hmcuda_patch_embedded_host_ptrs patch_word
words-patch hm (a ∷ b ∷ c ∷ d ∷ e ∷ f ∷ g ∷ h ∷ rest) =
    let v = word a b c d e f g h in
    elim (Bool-cases (is_host_ptr v hm)) [
      | inl inside ↦
          rw (inside, word_round_trip (translate v hm) (translate_lt v hm inside))
            (ground (arith, words-patch hm rest))
      | inr outside ↦
          rw (outside, translate_other v hm outside) (ground (arith, words-patch hm rest))
    ]
words-patch hm _ = (refl, refl)
