-- ===== src/Vhost/Queue.antt =====
-- hmcuda_process_vq of host/vhost/vhost_user_hmcuda.c, one element of the queue at a time.
use hm_cuda.Prelude.{
  ℕ, ◌+◌, ◌%◌, ◌^◌, ◌≤◌, ◌<◌, ◌≡◌, refl, ap, ◌∙◌, ◌⊎◌, Bool, true, false, ◌&&◌, List, [], ◌∷◌, ◌++◌,
  Option, none, some, leb, ◌==◌, if◌then◌else◌, length, length-append, length-take, take, drop,
  arith, Bool-cases, inl, inr,
}
use hm_cuda.Wire.Bytes.{le_bytes, le_value, length-le_bytes}
use hm_cuda.Cuda.{Environment, read_bytes, write_bytes}
use hm_cuda.Backend.{Done, done, Backend, M, pure, ◌>>=◌, ◌>>◌}
use hm_cuda.Command.{Iov, Element, total, Request, Response, Field, payload_len}
use hm_cuda.Command.Loops.{data_in}
use hm_cuda.Command.Dispatch.{hmcuda_dispatch_cmd}
use hm_cuda.Resource.{hmcuda_ctx_get}
use hm_cuda.Resource.Sessions.{Other}
use hm_cuda.Command.Isolation.{get-dispatch-Other}
use hm_cuda.Vhost.Iov.{part, iov_to_buf, buf_to_iov, write_outside}

abbrev pub first_entry : List Iov → Iov
first_entry [] = record { base = 0; len = 0 }
first_entry (v ∷ vs) = v

abbrev pub last_entry : List Iov → Iov
last_entry [] = record { base = 0; len = 0 }
last_entry (v ∷ []) = v
last_entry (v ∷ w ∷ vs) = last_entry (w ∷ vs)

-- Bytes that nothing wrote show what `stack` holds.
unfoldable pub payload_bytes : ℕ → List Field → List ℕ
unfolding le_bytes
payload_bytes stack [] = []
payload_bytes stack (f ∷ fs) =
    le_bytes f.width (elim f.value [ none ↦ stack | some v ↦ v ]) ++ payload_bytes stack fs

-- resp_buf: the header, which repeats the command, then the payload.
unfoldable pub response_bytes : ℕ → ℕ → Response → List ℕ
unfolding payload_bytes
response_bytes stack cmd r =
    le_bytes 4 cmd ++ le_bytes 4 r.cuda_error ++ payload_bytes stack r.payload

-- Behind data that the copy has filled in, the response goes into the last entry alone.
abbrev pub after_data : Element → Response → Bool
after_data elem r = r.d2h_virtqueue && leb 2 (length elem.in_sg)

unfoldable pub place_response : Element → Response → List ℕ → M Done
place_response elem r bytes s =
    let v = last_entry elem.in_sg in
    (
      done,
      record s {
        memory =
            if after_data elem r
            then write_bytes s.memory v.base (take (part (length bytes) v.len) bytes)
            else (buf_to_iov elem.in_sg bytes s.memory).1;
      },
    )

-- The length that vu_queue_push reports, an unsigned int.
unfoldable pub push_len : Element → Response → ℕ
push_len elem r =
    (8 + payload_len r.payload + (if after_data elem r then total (data_in elem.in_sg) else 0))
    % 2 ^ 32

-- `decode` reads a request struct: the command and the bytes behind the header in the first entry.
-- The result is the length pushed, or `none` for an element that is dropped.
module _ (env : Environment) (decode : ℕ → List ℕ → Request) (stack sid vid : ℕ) where
  unfoldable pub answer_request : Element → ℕ → M (Option ℕ)
  unfolding response_bytes place_response push_len
  answer_request elem cmd s =
      let v = first_entry elem.out_sg in
      let req = decode cmd (drop 8 (read_bytes s.memory v.base v.len)) in
      (do
        r ← hmcuda_dispatch_cmd env sid vid elem req
        place_response elem r (response_bytes stack cmd r)
        pure (some (push_len elem r)))
        s

  unfoldable pub process_element : Element → M (Option ℕ)
  unfolding le_value answer_request
  process_element elem s =
      let header = iov_to_buf s.memory elem.out_sg 8 in
      if length header == 8 then answer_request elem (le_value (take 4 header)) s else (none, s)

  -- The elements in the order of the queue; the lengths pushed.
  unfoldable pub hmcuda_process_vq : List Element → M (List (Option ℕ))
  unfolding process_element
  hmcuda_process_vq [] = pure []
  hmcuda_process_vq (elem ∷ elems) = do
    n ← process_element elem
    ns ← hmcuda_process_vq elems
    pure (n ∷ ns)

-- The response to a device-to-host copy through the virtqueue changes no byte outside the last
-- entry, so the data in the entries before it stays as the copy left it.
pub place_response_outside :
    (elem : Element) (r : Response) (bytes : List ℕ) (s : Backend) (a : ℕ)
    → after_data elem r ≡ true
    → (a < (last_entry elem.in_sg).base)
      ⊎ ((last_entry elem.in_sg).base + (last_entry elem.in_sg).len ≤ a)
    → (place_response elem r bytes s).1.memory a ≡ s.memory a
unfolding place_response
place_response_outside elem r bytes s a behind out =
    let v = last_entry elem.in_sg in
    let n = part (length bytes) v.len in
    rw behind
      (write_outside s.memory v.base (take n bytes) a (ground (arith, length-take n bytes, out)))

length-payload_bytes :
    (stack : ℕ) (fs : List Field) → length (payload_bytes stack fs) ≡ payload_len fs
unfolding payload_bytes
length-payload_bytes stack [] = refl
length-payload_bytes stack (f ∷ fs) =
    length-append (le_bytes f.width _) (payload_bytes stack fs)
    ∙ rw (
      length-le_bytes f.width (elim f.value [ none ↦ stack | some v ↦ v ]),
      length-payload_bytes stack fs,
    )

length-response_bytes :
    (stack cmd : ℕ) (r : Response) → length (response_bytes stack cmd r) ≡ 8 + payload_len r.payload
unfolding response_bytes
length-response_bytes stack cmd r =
    length-append (le_bytes 4 cmd) (le_bytes 4 r.cuda_error ++ payload_bytes stack r.payload)
    ∙ rw
        (
          length-append (le_bytes 4 r.cuda_error) (payload_bytes stack r.payload),
          length-le_bytes 4 cmd,
          length-le_bytes 4 r.cuda_error,
          length-payload_bytes stack r.payload,
        )
        (omega arith)

data_in-last : (vs : List Iov) (v : Iov) → data_in (vs ++ (v ∷ [])) ≡ vs
data_in-last [] v = refl
data_in-last (u ∷ []) v = refl
data_in-last (u ∷ w ∷ vs) v = ap (λ l. u ∷ l) (data_in-last (w ∷ vs) v)

-- The bytes that the entries before the last one hold, where a copy has filled them in.
abbrev pub filled : Bool → List Iov → ℕ
filled true vs = total vs
filled false vs = 0

-- For an element with a last entry to write to and others before it, the length that is pushed is
-- that of the response as it was built, also where the last entry holds less, and of the entries
-- before the last one if a copy to the guest has filled these, modulo 2^32.
pub push_len-response :
    (stack cmd : ℕ) (elem : Element) (r : Response) (vs : List Iov) (v : Iov)
    → elem.in_sg ≡ vs ++ (v ∷ [])
    → push_len elem r ≡ (length (response_bytes stack cmd r) + filled r.d2h_virtqueue vs) % 2 ^ 32
unfolding push_len
push_len-response stack cmd elem r vs v e =
    rw (e, length-response_bytes stack cmd r, data_in-last vs v) (by_entries vs r.d2h_virtqueue)
  where
    by_entries :
        (us : List Iov) (b : Bool)
        → (8
              + payload_len r.payload
              + (if b && leb 2 (length (us ++ (v ∷ []))) then total us else 0))
            % 2 ^ 32
          ≡ (8 + payload_len r.payload + filled b us) % 2 ^ 32
    by_entries us false = refl
    by_entries [] true = refl
    by_entries (u ∷ us) true = rw (length-append us (v ∷ [])) (ground arith)

module _ (env : Environment) (decode : ℕ → List ℕ → Request) (stack sid vid a b : ℕ)
    (other : Other sid vid a b) where
  get-process_element-Other :
      (elem : Element) (s : Backend)
      → hmcuda_ctx_get a b (process_element env decode stack sid vid elem s).1.contexts
        ≡ hmcuda_ctx_get a b s.contexts
  unfolding process_element answer_request place_response ◌>>=◌
  get-process_element-Other elem s =
      elim (Bool-cases (length (iov_to_buf s.memory elem.out_sg 8) == 8)) [
        | inl whole ↦ rw whole (get-dispatch-Other env sid vid a b elem _ s other)
        | inr short ↦ rw short
      ]

  -- Whatever elements the queue of one session holds and however their requests read, working it off
  -- leaves every other session as it was.
  pub get-process_vq-Other :
      (elems : List Element) (s : Backend)
      → hmcuda_ctx_get a b (hmcuda_process_vq env decode stack sid vid elems s).1.contexts
        ≡ hmcuda_ctx_get a b s.contexts
  unfolding hmcuda_process_vq ◌>>=◌
  get-process_vq-Other [] s = refl
  get-process_vq-Other (elem ∷ elems) s =
      get-process_vq-Other elems (process_element env decode stack sid vid elem s).1
      ∙ get-process_element-Other elem s
