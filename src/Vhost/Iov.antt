-- ===== src/Vhost/Iov.antt =====
-- iov_to_buf and buf_to_iov of host/vhost/vhost_user_hmcuda.c; cmd_runtime.c and cmd_driver.c hold
-- copies of the second.
use hm_cuda.Prelude.{
  ℕ, true, zero, suc, ◌+◌, ◌-◌, ◌<◌, ◌≤◌, ◌≡◌, refl, sym, ◌∙◌, subst, ◌⊎◌, inl, inr, Bool-cases,
  List, [], ◌∷◌, ◌++◌, ltb, ◌==◌, ==_refl, if◌then◌else◌, length, take, length-take, drop,
  length-drop, take_all, arith, All,
}
use hm_cuda.Cuda.{Memory, read_bytes, write_bytes}
use hm_cuda.Command.{Iov, total}

-- The lesser of what is left and what the entry holds.
abbrev pub part : ℕ → ℕ → ℕ
part left len = if ltb len left then len else left

-- The bytes gathered, up to `left` of them; their number is what the function returns.
unfoldable pub iov_to_buf : Memory → List Iov → ℕ → List ℕ
iov_to_buf m [] left = []
iov_to_buf m (v ∷ vs) left =
    let rest = iov_to_buf m vs (left - part left v.len) in
    if ltb 0 left then read_bytes m v.base (part left v.len) ++ rest else []

-- Memory after the bytes are scattered, and how many were.
unfoldable pub buf_to_iov : List Iov → List ℕ → Memory → ℕ × Memory
buf_to_iov [] buf m = (0, m)
buf_to_iov (v ∷ vs) buf m =
    let n = part (length buf) v.len in
    let rest = buf_to_iov vs (drop n buf) (write_bytes m v.base (take n buf)) in
    if ltb 0 (length buf) then (n + rest.0, rest.1) else (0, m)

-- buf_to_iov reports the bytes that the entries could take: all, or as many as the entries hold.
pub count-buf_to_iov :
    (vs : List Iov) (buf : List ℕ) (m : Memory)
    → (buf_to_iov vs buf m).0 ≡ part (length buf) (total vs)
unfolding buf_to_iov
count-buf_to_iov [] buf m = ground arith
count-buf_to_iov (v ∷ vs) buf m =
    let n = part (length buf) v.len in
    ground (
      arith,
      count-buf_to_iov vs (drop n buf) (write_bytes m v.base (take n buf)),
      length-drop n buf,
    )

-- No two entries share an address.
abbrev pub Separate : Iov → Iov → Type 0
Separate a b = (a.base + a.len ≤ b.base) ⊎ (b.base + b.len ≤ a.base)

abbrev pub Disjoint : List Iov → Type 0
Disjoint [] = Unit {0}
Disjoint (v ∷ vs) = All (Separate v) vs × Disjoint vs

pub write_outside :
    (m : Memory) (p : ℕ) (bs : List ℕ) (a : ℕ)
    → (a < p) ⊎ (p + length bs ≤ a)
    → write_bytes m p bs a ≡ m a
unfolding write_bytes
write_outside m p [] a out = refl
write_outside m p (b ∷ bs) a out =
    write_outside (λ c. if c == p then b else m c) (p + 1) bs a (ground arith) ∙ ground arith

read-write_self :
    (m : Memory) (p : ℕ) (bs : List ℕ) → read_bytes (write_bytes m p bs) p (length bs) ≡ bs
unfolding write_bytes read_bytes
read-write_self m p [] = refl
read-write_self m p (b ∷ bs) =
    rw
      (
        write_outside (λ c. if c == p then b else m c) (p + 1) bs p (ground arith),
        read-write_self (λ c. if c == p then b else m c) (p + 1) bs,
      )
      (rw (==_refl p))

buf_to_iov_outside :
    (vs : List Iov) (buf : List ℕ) (m : Memory) (a : ℕ)
    → All (λ v. (a < v.base) ⊎ (v.base + v.len ≤ a)) vs
    → (buf_to_iov vs buf m).1 a ≡ m a
unfolding buf_to_iov
buf_to_iov_outside [] buf m a out = refl
buf_to_iov_outside (v ∷ vs) buf m a out = elim (Bool-cases (ltb 0 (length buf))) [
  | inl more ↦
      let n = part (length buf) v.len in
      rw more (
        buf_to_iov_outside vs (drop n buf) (write_bytes m v.base (take n buf)) a out.1
        ∙ write_outside m v.base (take n buf) a (ground (arith, length-take n buf, out.0)))
  | inr over ↦ rw over
]

read_congr :
    (m m' : Memory) (p n : ℕ)
    → ((a : ℕ) → p ≤ a → a < p + n → m a ≡ m' a)
    → read_bytes m p n ≡ read_bytes m' p n
unfolding read_bytes
read_congr m m' p zero same = refl
read_congr m m' p (suc n) same = rw (
  same p (omega arith) (omega arith),
  read_congr m m' (p + 1) n (λ a le lt. same a (omega arith) (omega arith)),
)

inside_one :
    (v : Iov) (vs : List Iov) (a : ℕ)
    → All (Separate v) vs
    → v.base ≤ a
    → a < v.base + v.len
    → All (λ w. (a < w.base) ⊎ (w.base + w.len ≤ a)) vs
inside_one v [] a s le lt = tt
inside_one v (w ∷ ws) a s le lt = (ground (arith, s.0), inside_one v ws a s.1 le lt)

take-add : (m n : ℕ) (l : List ℕ) → take m l ++ take n (drop m l) ≡ take (m + n) l
take-add zero n l = let e : 0 + n ≡ n = omega arith in rw e
take-add (suc m) zero [] = let e : suc m + 0 ≡ suc m = omega arith in rw e
take-add (suc m) (suc n) [] = let e : suc m + suc n ≡ suc (m + suc n) = omega arith in rw e
take-add (suc m) n (x ∷ l) = let e : suc m + n ≡ suc (m + n) = omega arith in rw (e, take-add m n l)

take-part :
    (len t : ℕ) (buf : List ℕ)
    → take (part (length buf) len) buf ++ take t (drop (part (length buf) len) buf)
      ≡ take (len + t) buf
take-part len t buf = elim (Bool-cases (ltb len (length buf))) [
  | inl cut ↦ rw cut (take-add len t buf)
  | inr whole ↦ rw whole (
      take-add (length buf) t buf
      ∙ take_all (length buf + t) buf (omega arith)
      ∙ sym (take_all (len + t) buf (ground arith)))
]

-- The memory that the first entry's step leads to, and the empty step.
memory-cons :
    (v : Iov) (vs : List Iov) (buf : List ℕ) (m : Memory)
    → ltb 0 (length buf) ≡ true
    → (buf_to_iov (v ∷ vs) buf m).1 ≡ (
        let n = part (length buf) v.len in
        (buf_to_iov vs (drop n buf) (write_bytes m v.base (take n buf))).1)
unfolding buf_to_iov
memory-cons v vs buf m more = rw more

gather-cons :
    (m : Memory) (v : Iov) (vs : List Iov) (left : ℕ)
    → ltb 0 left ≡ true
    → iov_to_buf m (v ∷ vs) left
      ≡ read_bytes m v.base (part left v.len) ++ iov_to_buf m vs (left - part left v.len)
unfolding iov_to_buf
gather-cons m v vs left more = rw more

gather_none : (m : Memory) (v : Iov) (vs : List Iov) → iov_to_buf m (v ∷ vs) 0 ≡ []
unfolding iov_to_buf
gather_none m v vs = refl

take_empty : (n : ℕ) (buf : List ℕ) → length buf ≡ 0 → take n buf ≡ []
take_empty zero buf e = refl
take_empty (suc n) [] e = refl
take_empty (suc n) (x ∷ xs) e = absurd (omega (arith, e))

-- What is scattered over entries that share no address is gathered again as it was, up to what the
-- entries hold.
pub iov_to_buf-buf_to_iov :
    (vs : List Iov) (buf : List ℕ) (m : Memory)
    → Disjoint vs
    → iov_to_buf (buf_to_iov vs buf m).1 vs (length buf) ≡ take (total vs) buf
iov_to_buf-buf_to_iov [] buf m apart = unfold iov_to_buf in refl
iov_to_buf-buf_to_iov (v ∷ vs) buf m apart = elim (Bool-cases (ltb 0 (length buf))) [
  | inl more ↦
      let n = part (length buf) v.len in
      let written = write_bytes m v.base (take n buf) in
      let rest = iov_to_buf-buf_to_iov vs (drop n buf) written apart.1 in
      let after = (buf_to_iov vs (drop n buf) written).1 in
      let count : length (take n buf) ≡ n = ground (arith, length-take n buf) in
      let first : read_bytes after v.base n ≡ take n buf =
        read_congr after written v.base n (λ a le lt.
          buf_to_iov_outside vs (drop n buf) written a
            (inside_one v vs a apart.0 le (ground arith)))
        ∙ subst (λ k. read_bytes written v.base k ≡ take n buf) count
            (read-write_self m v.base (take n buf)) in
      rw
        (
          memory-cons v vs buf m more,
          gather-cons after v vs (length buf) more,
          first,
          sym (length-drop n buf),
          rest,
        )
        (take-part v.len (total vs) buf)
  | inr over ↦
      let none_left : length buf ≡ 0 = ground arith in
      rw (none_left, gather_none (buf_to_iov (v ∷ vs) buf m).1 v vs)
        (sym (take_empty (v.len + total vs) buf none_left))
]
