-- ===== src/Vhost/Requests.antt =====
-- hmcuda_process_vq on the requests of the guest's libraries: the structs of common/include in the
-- first entry of an element, decoded as the handlers read them.
use mathlib.Core.List.{append-nil}
use hm_cuda.Prelude.{
  ℕ, zero, suc, ◌+◌, ◌<◌, ◌≤◌, ◌≡◌, refl, sym, ap, List, [], ◌∷◌, ◌++◌, Option, some, length, take,
  length-append, arith,
}
use hm_cuda.Cuda.{Environment, Memory, read_bytes}
use hm_cuda.Backend.{Backend, M, pure, ◌>>=◌, ◌>>◌}
use hm_cuda.Command.{Element, Iov, Request, runtime, driver, unknown}
use hm_cuda.Command.Dispatch.{hmcuda_dispatch_cmd}
use hm_cuda.Wire.Bytes.{le_bytes, limit, le_value-le_bytes, length-le_bytes}
use hm_cuda.Wire.RuntimeRequests.{runtime_cmd_type}
use hm_cuda.Wire.DriverRequests.{driver_cmd_type}
use hm_cuda.Wire.Requests.{cmd_type, encode, decode, IsEncodable, decode-encode}
use hm_cuda.Vhost.Iov.{iov_to_buf, part}
use hm_cuda.Vhost.Queue.{process_element, answer_request, place_response, response_bytes, push_len}

-- hmcuda_process_vq with the structs of common/include.
abbrev pub process_request : Environment → ℕ → ℕ → ℕ → Element → M (Option ℕ)
process_request env stack sid vid elem = process_element env decode stack sid vid elem

-- A request as it lies in the first entry: the header and the payload.
abbrev pub request_bytes : ℕ → ℕ → Request → List ℕ
request_bytes flags filler r = le_bytes 4 (cmd_type r) ++ (le_bytes 4 flags ++ encode filler r)

take-read_bytes : (m : Memory) (p k n : ℕ) → k ≤ n → take k (read_bytes m p n) ≡ read_bytes m p k
unfolding read_bytes
take-read_bytes m p zero n h = refl
take-read_bytes m p (suc k) zero h = absurd (omega arith)
take-read_bytes m p (suc k) (suc n) h =
    ap (λ bs. m p ∷ bs) (take-read_bytes m (p + 1) k n (omega arith))

length-read_bytes : (m : Memory) (p n : ℕ) → length (read_bytes m p n) ≡ n
unfolding read_bytes
length-read_bytes m p zero = refl
length-read_bytes m p (suc n) = ap suc (length-read_bytes m (p + 1) n)

iov_to_buf-done : (m : Memory) (vs : List Iov) → iov_to_buf m vs 0 ≡ []
unfolding iov_to_buf
iov_to_buf-done m [] = refl
iov_to_buf-done m (v ∷ vs) = refl

-- An entry of eight bytes or more holds the whole header.
header_lem :
    (m : Memory) (v : Iov) (vs : List Iov)
    → 8 ≤ v.len
    → iov_to_buf m (v ∷ vs) 8 ≡ take 8 (read_bytes m v.base v.len)
unfolding iov_to_buf
header_lem m v vs h =
    let whole : part 8 v.len ≡ 8 = ground arith in
    rw (whole, iov_to_buf-done m vs, append-nil (read_bytes m v.base 8))
      (sym (take-read_bytes m v.base 8 v.len h))

cmd_type_bound : (r : Request) → IsEncodable r → cmd_type r < limit 4
unfolding cmd_type runtime_cmd_type driver_cmd_type
cmd_type_bound (runtime r) h = grind arith
cmd_type_bound (driver r) h = grind arith
cmd_type_bound (unknown cmd) h = absurd h

-- An element whose first entry holds a request of either library, with the numbers and arrays that
-- its struct can hold, is worked off: the command is run with just that request, its response is
-- placed, with the number of the command, and its length is pushed.
pub process_request-runs :
    (env : Environment) (stack sid vid flags filler : ℕ) (r : Request) (elem : Element) (v : Iov)
    (vs : List Iov) (s : Backend)
    → elem.out_sg ≡ v ∷ vs
    → read_bytes s.memory v.base v.len ≡ request_bytes flags filler r
    → IsEncodable r
    → process_request env stack sid vid elem s
      ≡ (do
        resp ← hmcuda_dispatch_cmd env sid vid elem r
        place_response elem resp (response_bytes stack (cmd_type r) resp)
        pure (some (push_len elem resp)))
          s
unfolding process_element answer_request le_bytes
process_request-runs env stack sid vid flags filler r elem v vs s out holds h =
    let long : 8 ≤ v.len = omega (
      arith,
      ap length holds,
      length-read_bytes s.memory v.base v.len,
      length-append (le_bytes 4 (cmd_type r)) (le_bytes 4 flags ++ encode filler r),
      length-append (le_bytes 4 flags) (encode filler r),
      length-le_bytes 4 flags,
      length-le_bytes 4 (cmd_type r),
    ) in
    rw (
      out,
      header_lem s.memory v vs long,
      holds,
      le_value-le_bytes 4 (cmd_type r) (cmd_type_bound r h),
      decode-encode filler r h,
    )
