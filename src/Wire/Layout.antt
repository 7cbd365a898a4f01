-- ===== src/Wire/Layout.antt =====
-- Structs in memory: the members at their offsets, with the padding between and behind them.
use mathlib.Core.List.{append_assoc}
use hm_cuda.Prelude.{
  ℕ, zero, suc, ◌+◌, ◌<◌, ◌≡◌, refl, sym, ap, ◌∙◌, List, [], ◌∷◌, ◌++◌, length, length-append, drop,
  take, arith,
}
use hm_cuda.Wire.{Struct, width, gap, end_of, alignment, sizeof}
use hm_cuda.Wire.Bytes.{
  le_bytes, le_value, limit, length-le_bytes, le_value-le_bytes, take-le_bytes, drop-le_bytes,
  field,
}

-- Padding bytes that hold `filler`.
abbrev pub padding : ℕ → ℕ → List ℕ
padding filler zero = []
padding filler (suc n) = filler ∷ padding filler n

unfoldable pub write_from : ℕ → ℕ → Struct → List ℕ → List ℕ
unfolding le_bytes
write_from filler off [] vs = []
write_from filler off (t ∷ ts) [] = []
write_from filler off (t ∷ ts) (v ∷ vs) =
    padding filler (gap off (width t))
    ++ (le_bytes (width t) v ++ write_from filler (off + gap off (width t) + width t) ts vs)

-- A struct with the given members.
unfoldable pub write_struct : ℕ → Struct → List ℕ → List ℕ
unfolding write_from
write_struct filler ts vs =
    write_from filler 0 ts vs ++ padding filler (gap (end_of 0 ts) (alignment ts))

unfoldable pub read_from : ℕ → Struct → List ℕ → List ℕ
unfolding le_value
read_from off [] bs = []
read_from off (t ∷ ts) bs =
    let rest = drop (gap off (width t)) bs in
    le_value (take (width t) rest)
    ∷ read_from (off + gap off (width t) + width t) ts (drop (width t) rest)

-- The members of the struct that a buffer begins with.
unfoldable pub read_struct : Struct → List ℕ → List ℕ
unfolding read_from
read_struct ts bs = read_from 0 ts bs

-- As many values as members, each within its width.
abbrev pub Fits : Struct → List ℕ → Type 0
Fits [] [] = Unit
Fits [] (v ∷ vs) = ⊥
Fits (t ∷ ts) [] = ⊥
Fits (t ∷ ts) (v ∷ vs) = (v < limit (width t)) × Fits ts vs

drop-padding : (filler n : ℕ) (bs : List ℕ) → drop n (padding filler n ++ bs) ≡ bs
drop-padding filler zero bs = refl
drop-padding filler (suc n) bs = drop-padding filler n bs

length-padding : (filler n : ℕ) → length (padding filler n) ≡ n
length-padding filler zero = refl
length-padding filler (suc n) = ap suc (length-padding filler n)

pub drop-append : (xs ys : List ℕ) → drop (length xs) (xs ++ ys) ≡ ys
drop-append [] ys = refl
drop-append (x ∷ xs) ys = drop-append xs ys

pub take-append : (n : ℕ) (xs ys : List ℕ) → length xs ≡ n → take n (xs ++ ys) ≡ xs
take-append zero [] ys h = refl
take-append zero (x ∷ xs) ys h = absurd (omega (arith, h))
take-append (suc n) [] ys h = absurd (omega (arith, h))
take-append (suc n) (x ∷ xs) ys h = ap (λ t. x ∷ t) (take-append n xs ys (omega (arith, h)))

pub field-append : (n : ℕ) (xs ys : List ℕ) → length xs ≡ n → field n (xs ++ ys) ≡ field 0 ys
field-append zero [] ys h = refl
field-append zero (x ∷ xs) ys h = absurd (omega (arith, h))
field-append (suc n) [] ys h = absurd (omega (arith, h))
field-append (suc n) (x ∷ xs) ys h = field-append n xs ys (omega (arith, h))

read-write_from :
    (filler off : ℕ) (ts : Struct) (vs rest : List ℕ)
    → Fits ts vs
    → read_from off ts (write_from filler off ts vs ++ rest) ≡ vs
unfolding read_from write_from
read-write_from filler off [] [] rest h = refl
read-write_from filler off [] (v ∷ vs) rest h = absurd h
read-write_from filler off (t ∷ ts) [] rest h = absurd h
read-write_from filler off (t ∷ ts) (v ∷ vs) rest h =
    let n = width t in
    let next = write_from filler (off + gap off n + n) ts vs in
    rw
      (
        append_assoc (padding filler (gap off n)) (le_bytes n v ++ next) rest,
        drop-padding filler (gap off n) ((le_bytes n v ++ next) ++ rest),
        append_assoc (le_bytes n v) next rest,
        take-le_bytes n v (next ++ rest),
        drop-le_bytes n v (next ++ rest),
        le_value-le_bytes n v h.0,
      )
      (ap (λ us. v ∷ us) (read-write_from filler (off + gap off n + n) ts vs rest h.1))

length-write_from :
    (filler off : ℕ) (ts : Struct) (vs : List ℕ)
    → Fits ts vs
    → off + length (write_from filler off ts vs) ≡ end_of off ts
unfolding write_from
length-write_from filler off [] [] h = omega arith
length-write_from filler off [] (v ∷ vs) h = absurd h
length-write_from filler off (t ∷ ts) [] h = absurd h
length-write_from filler off (t ∷ ts) (v ∷ vs) h =
    let n = width t in
    let next = write_from filler (off + gap off n + n) ts vs in
    omega (
      arith,
      length-append (padding filler (gap off n)) (le_bytes n v ++ next),
      length-append (le_bytes n v) next,
      length-padding filler (gap off n),
      length-le_bytes n v,
      length-write_from filler (off + gap off n + n) ts vs h.1,
    )

-- A struct takes as many bytes as its size.
pub length-write_struct :
    (filler : ℕ) (ts : Struct) (vs : List ℕ)
    → Fits ts vs
    → length (write_struct filler ts vs) ≡ sizeof ts
unfolding write_struct
length-write_struct filler ts vs h = omega (
  arith,
  length-append (write_from filler 0 ts vs) (padding filler (gap (end_of 0 ts) (alignment ts))),
  length-padding filler (gap (end_of 0 ts) (alignment ts)),
  length-write_from filler 0 ts vs h,
)

-- What was written is read, whatever the padding holds and whatever follows.
pub read-write_struct :
    (filler : ℕ) (ts : Struct) (vs rest : List ℕ)
    → Fits ts vs
    → read_struct ts (write_struct filler ts vs ++ rest) ≡ vs
unfolding read_struct write_struct
read-write_struct filler ts vs rest h =
    let pad = padding filler (gap (end_of 0 ts) (alignment ts)) in
    rw (append_assoc (write_from filler 0 ts vs) pad rest)
      (read-write_from filler 0 ts vs (pad ++ rest) h)

pub drop-write_struct :
    (filler : ℕ) (ts : Struct) (vs rest : List ℕ)
    → Fits ts vs
    → drop (sizeof ts) (write_struct filler ts vs ++ rest) ≡ rest
drop-write_struct filler ts vs rest h =
    ap (λ n. drop n (write_struct filler ts vs ++ rest)) (sym (length-write_struct filler ts vs h))
    ∙ drop-append (write_struct filler ts vs) rest
