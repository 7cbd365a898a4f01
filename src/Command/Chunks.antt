-- ===== src/Command/Chunks.antt =====
-- The loops of handle_memcpy and handle_cu_memcpy (host/vhost/cmd_runtime.c, cmd_driver.c) against
-- the list of pieces that a copy is cut into.
use hm_cuda.Prelude.{
  ℕ, ◌+◌, ◌-◌, ◌^◌, ◌<◌, ◌≤◌, ◌≡◌, false, refl, List, [], ◌∷◌, map, ltb, ◌==◌, if◌then◌else◌, add64,
  sum, arith, Bool-cases, inl, inr,
}
use hm_cuda.Backend.{Backend, M, pure, ◌>>=◌}
use hm_cuda.Command.{Iov, total}
use hm_cuda.Command.Loops.{chunk_of, copy_loop}

-- One piece: where it stands in the copy, the entry's address, and its length.
pub record Piece : Type 0 where
  pub offset : ℕ
  pub base : ℕ
  pub len : ℕ

-- The next `left` bytes, cut along the entries.
unfoldable pub pieces : ℕ → ℕ → List Iov → List Piece
pieces left offset [] = []
pieces left offset (v ∷ vs) =
    if left == 0
    then []
    else (let n = if ltb left v.len then left else v.len in
        record { offset = offset; base = v.base; len = n } ∷ pieces (left - n) (offset + n) vs)

-- Calls for each piece in turn, until one fails.
unfoldable pub run : (ℕ → ℕ → ℕ → M ℕ) → ℕ → List Piece → M ℕ
run op start [] = pure 0
run op start (p ∷ ps) = do
  e ← op (add64 start p.offset) p.base p.len
  if e == 0 then run op start ps else pure e

-- No piece is lost and none overlaps: the pieces follow each other from the offset on, and if the
-- entries hold enough, their lengths add up to the whole.
pub sum-pieces :
    (left offset : ℕ) (vs : List Iov)
    → left ≤ total vs
    → sum (map (λ p. p.len) (pieces left offset vs)) ≡ left
unfolding pieces
sum-pieces left offset [] h = omega arith
sum-pieces left offset (v ∷ vs) h = ground (
  arith,
  sum-pieces (left - (if ltb left v.len then left else v.len))
      (offset + (if ltb left v.len then left else v.len)) vs,
)

-- Each piece starts where the one before it ends.
pub Follows : ℕ → List Piece → Type 0
Follows offset [] = Unit {0}
Follows offset (p ∷ ps) = (p.offset ≡ offset) × Follows (offset + p.len) ps

pub pieces-Follows : (left offset : ℕ) (vs : List Iov) → Follows offset (pieces left offset vs)
unfolding Follows pieces
pieces-Follows left offset [] = tt
pieces-Follows left offset (v ∷ vs) = elim (Bool-cases (left == 0)) [
  | inl over ↦ rw over tt
  | inr more ↦ rw more (
    refl,
    pieces-Follows (left - (if ltb left v.len then left else v.len))
        (offset + (if ltb left v.len then left else v.len)) vs,
  )
]

piece_len : ℕ → ℕ → ℕ → ℕ
piece_len count offset len = if ltb (count - offset) len then count - offset else len

chunk_of_lem :
    (count offset len : ℕ)
    → offset ≤ count
    → offset + len < 2 ^ 64
    → chunk_of count offset len ≡ piece_len count offset len
unfolding piece_len
chunk_of_lem count offset len le fits = ground arith

next_offset :
    (count offset len : ℕ)
    → offset ≤ count
    → offset + len < 2 ^ 64
    → (add64 offset (piece_len count offset len) ≡ offset + piece_len count offset len)
      × (offset + piece_len count offset len ≤ count)
      × (piece_len count offset len ≤ len)
      × (count - offset - piece_len count offset len
          ≡ count - (offset + piece_len count offset len))
unfolding piece_len
next_offset count offset len le fits = ground arith

-- The rest of a loop matters only after a success.
either_way :
    (r : ℕ × Backend) (m n : M ℕ)
    → m r.1 ≡ n r.1
    → (if r.0 == 0 then m else pure r.0) r.1 ≡ (if r.0 == 0 then n else pure r.0) r.1
either_way r m n e = elim (Bool-cases (r.0 == 0)) [ inl ok ↦ rw ok e | inr failed ↦ rw failed ]

-- Within the entries, which do not reach 2^64 bytes, the loop makes exactly the calls of the pieces
-- of the copy, in their order and up to the first error, whose code it returns.
pub copy_loop-pieces :
    (op : ℕ → ℕ → ℕ → M ℕ) (start count offset : ℕ) (vs : List Iov) (s : Backend)
    → offset ≤ count
    → offset + total vs < 2 ^ 64
    → copy_loop op start count offset vs s ≡ run op start (pieces (count - offset) offset vs) s
unfolding copy_loop run pieces ◌>>=◌ piece_len
copy_loop-pieces op start count offset [] s le fits = refl
copy_loop-pieces op start count offset (v ∷ vs) s le fits = elim (Bool-cases (ltb offset count)) [
  | inl more ↦
      let n = piece_len count offset v.len in
      let o = next_offset count offset v.len le (omega arith) in
      let r = op (add64 start offset) v.base n s in
      let left : (count - offset == 0) ≡ false = ground arith in
      rw (more, left, chunk_of_lem count offset v.len le (omega arith), o.0, o.3)
        (either_way r _ _
          (copy_loop-pieces op start count (offset + n) vs r.1 o.1 (omega (arith, o.2))))
  | inr over ↦ rw over (ground arith)
]
