-- ===== src/Wire/Bytes.antt =====
-- Numbers as bytes, least significant first, and structs as bytes.
use hm_cuda.Prelude.{
  ℕ, zero, suc, ◌+◌, ◌*◌, ◌/◌, ◌%◌, ◌<◌, ◌≡◌, refl, ap, List, [], ◌∷◌, ◌++◌, length, take, drop,
  All, arith,
}

-- `n` bytes of a number, least significant first.
unfoldable pub le_bytes : ℕ → ℕ → List ℕ
le_bytes zero v = []
le_bytes (suc n) v = v % 256 ∷ le_bytes n (v / 256)

unfoldable pub le_value : List ℕ → ℕ
le_value [] = 0
le_value (b ∷ bs) = b + 256 * le_value bs

-- How many numbers have `n` bytes.
abbrev pub limit : ℕ → ℕ
limit zero = 1
limit (suc n) = 256 * limit n

pub length-le_bytes : (n v : ℕ) → length (le_bytes n v) ≡ n
unfolding le_bytes
length-le_bytes zero v = refl
length-le_bytes (suc n) v = rw (length-le_bytes n (v / 256))

pub le_value-le_bytes : (n v : ℕ) → v < limit n → le_value (le_bytes n v) ≡ v
unfolding le_bytes le_value
le_value-le_bytes zero v h = omega arith
le_value-le_bytes (suc n) v h = omega (arith, le_value-le_bytes n (v / 256) (omega arith))

pub take-le_bytes : (n v : ℕ) (bs : List ℕ) → take n (le_bytes n v ++ bs) ≡ le_bytes n v
unfolding le_bytes
take-le_bytes zero v bs = refl
take-le_bytes (suc n) v bs = ap (λ t. v % 256 ∷ t) (take-le_bytes n (v / 256) bs)

pub drop-le_bytes : (n v : ℕ) (bs : List ℕ) → drop n (le_bytes n v ++ bs) ≡ bs
unfolding le_bytes
drop-le_bytes zero v bs = refl
drop-le_bytes (suc n) v bs = drop-le_bytes n (v / 256) bs

-- Kernel arguments: 64-bit words.
unfoldable pub word_bytes : List ℕ → List ℕ
unfolding le_bytes
word_bytes [] = []
word_bytes (w ∷ ws) = le_bytes 8 w ++ word_bytes ws

-- The whole words of a buffer.
unfoldable pub words : List ℕ → List ℕ
unfolding le_value
words (a ∷ b ∷ c ∷ d ∷ e ∷ f ∷ g ∷ h ∷ rest) =
    le_value (a ∷ b ∷ c ∷ d ∷ e ∷ f ∷ g ∷ h ∷ []) ∷ words rest
words _ = []

-- 32-bit numbers.
unfoldable pub u32_bytes : List ℕ → List ℕ
unfolding le_bytes
u32_bytes [] = []
u32_bytes (v ∷ vs) = le_bytes 4 v ++ u32_bytes vs

-- Access descriptors, of three 32-bit numbers each.
unfoldable pub desc_bytes : List (List ℕ) → List ℕ
unfolding u32_bytes
desc_bytes [] = []
desc_bytes (d ∷ ds) = u32_bytes d ++ desc_bytes ds

unfoldable pub descs : ℕ → List ℕ → List (List ℕ)
unfolding le_value
descs zero bs = []
descs (suc n) bs =
    (le_value (take 4 bs) ∷ le_value (take 4 (drop 4 bs)) ∷ le_value (take 4 (drop 8 bs)) ∷ [])
    ∷ descs n (drop 12 bs)

-- A member of a struct that was read; every struct has all its members.
abbrev pub field : ℕ → List ℕ → ℕ
field i [] = 0
field zero (v ∷ vs) = v
field (suc i) (v ∷ vs) = field i vs

pub words-word_bytes : (ws : List ℕ) → All (λ w. w < limit 8) ws → words (word_bytes ws) ≡ ws
unfolding words word_bytes le_bytes
words-word_bytes [] h = refl
words-word_bytes (w ∷ ws) h =
    rw (words-word_bytes ws h.1) (ap (λ v. v ∷ ws) (le_value-le_bytes 8 w h.0))

-- A descriptor: three numbers of 32 bits.
abbrev pub IsDesc : List ℕ → Type 0
IsDesc (a ∷ b ∷ c ∷ []) = (a < limit 4) × (b < limit 4) × (c < limit 4)
IsDesc _ = ⊥

pub descs-desc_bytes : (ds : List (List ℕ)) → All IsDesc ds → descs (length ds) (desc_bytes ds) ≡ ds
unfolding descs desc_bytes u32_bytes le_bytes
descs-desc_bytes [] h = refl
descs-desc_bytes ((a ∷ b ∷ c ∷ []) ∷ ds) h =
    rw
      (
        descs-desc_bytes ds h.1,
        le_value-le_bytes 4 a h.0.0,
        le_value-le_bytes 4 b h.0.1,
        le_value-le_bytes 4 c h.0.2,
      )
      refl
descs-desc_bytes ([] ∷ ds) h = absurd h.0
descs-desc_bytes ((a ∷ []) ∷ ds) h = absurd h.0
descs-desc_bytes ((a ∷ b ∷ []) ∷ ds) h = absurd h.0
descs-desc_bytes ((a ∷ b ∷ c ∷ d ∷ e) ∷ ds) h = absurd h.0
