-- ===== src/Kernel/Requests/Lengths.antt =====
-- hmcuda_get_req_sizes of driver/virtio_hmcuda_main.c on the bytes of the requests.
use hm_cuda.Prelude.{
  ℕ, ◌+◌, ◌*◌, ◌^◌, ◌<◌, ◌≡◌, refl, ap, sym, ◌∙◌, true, false, List, [], ◌∷◌, ◌++◌, length,
  length-append, All, arith,
}
use hm_cuda.Command.{
  Request, runtime, driver, unknown, RuntimeRequest, DriverRequest, launch_kernel, register_fatbin,
  register_function, get_error_string, get_error_name, cu_mem_set_access,
}
use hm_cuda.Kernel.Sizes.{hmcuda_runtime_get_sizes, hmcuda_driver_get_sizes, hmcuda_cmd_get_sizes}
use hm_cuda.Kernel.Requests.{
  Services, ok, hmcuda_get_req_sizes, runtime_empty, driver_empty, granted_pass,
}
use hm_cuda.Wire.{Struct, sizeof}
use hm_cuda.Wire.Bytes.{le_bytes, word_bytes, u32_bytes, desc_bytes, length-le_bytes, IsDesc}
use hm_cuda.Wire.Layout.{Fits, write_struct, length-write_struct}
use hm_cuda.Wire.RuntimeRequests.{
  runtime_request_struct, runtime_response_struct, runtime_members, runtime_trailing,
}
use hm_cuda.Wire.DriverRequests.{
  driver_request_struct, driver_response_struct, driver_members, driver_trailing,
}
use hm_cuda.Wire.RuntimeRequests.RoundTrip.{runtime_encode}
use hm_cuda.Wire.DriverRequests.RoundTrip.{driver_encode, IsDriverEncodable}
use hm_cuda.Wire.RuntimeRequests.Sizes.{runtime_sizes-structs}
use hm_cuda.Wire.DriverRequests.Sizes.{driver_sizes-structs}
use hm_cuda.Wire.Requests.{encode, IsEncodable}
use hm_cuda.Wire.Sizes.{response_struct}

-- The length that a launch states is that of its arguments, and a binary is no longer than a length
-- can say with the header.
abbrev pub IsFilled : Request → Type 0
IsFilled (runtime (launch_kernel f g b m h n args)) = n ≡ length args * 8
IsFilled (runtime (register_fatbin fatbin)) = length fatbin < 2 ^ 63
IsFilled _ = Unit

-- The room for the text of an error behind the struct.
abbrev pub text_room : Request → ℕ
text_room (runtime (get_error_string e)) = 256
text_room (runtime (get_error_name e)) = 256
text_room _ = 0

length-word_bytes : (ws : List ℕ) → length (word_bytes ws) ≡ length ws * 8
unfolding word_bytes
length-word_bytes [] = refl
length-word_bytes (w ∷ ws) =
    length-append (le_bytes 8 w) (word_bytes ws)
    ∙ omega (arith, length-le_bytes 8 w, length-word_bytes ws)

length-desc_bytes : (ds : List (List ℕ)) → All IsDesc ds → length (desc_bytes ds) ≡ length ds * 12
unfolding desc_bytes u32_bytes le_bytes
length-desc_bytes [] h = refl
length-desc_bytes ((a ∷ b ∷ c ∷ []) ∷ ds) h = omega (arith, length-desc_bytes ds h.1)
length-desc_bytes ([] ∷ ds) h = absurd h.0
length-desc_bytes ((a ∷ []) ∷ ds) h = absurd h.0
length-desc_bytes ((a ∷ b ∷ []) ∷ ds) h = absurd h.0
length-desc_bytes ((a ∷ b ∷ c ∷ d ∷ es) ∷ ds) h = absurd h.0

length-written :
    (filler : ℕ) (ts : Struct) (vs rest : List ℕ)
    → Fits ts vs
    → length (write_struct filler ts vs ++ rest) ≡ sizeof ts + length rest
length-written filler ts vs rest h =
    length-append (write_struct filler ts vs) rest
    ∙ ap (λ n. n + length rest) (length-write_struct filler ts vs h)

-- What the second look at a request adds is its trailing data.
runtime_full :
    (r : RuntimeRequest)
    → IsFilled (runtime r)
    → (hmcuda_runtime_get_sizes true r).req_size
      ≡ (hmcuda_runtime_get_sizes false r).req_size + length (runtime_trailing r)
unfolding hmcuda_runtime_get_sizes runtime_trailing
runtime_full (launch_kernel f g b m h n args) k = omega (arith, k, length-word_bytes args)
runtime_full (register_fatbin fatbin) k = omega (arith, k)
runtime_full (register_function h f name) k = omega arith
runtime_full _ k = refl

driver_full :
    (r : DriverRequest)
    → IsDriverEncodable r
    → (hmcuda_driver_get_sizes true r).req_size
      ≡ (hmcuda_driver_get_sizes false r).req_size + length (driver_trailing r)
unfolding hmcuda_driver_get_sizes driver_trailing
driver_full (cu_mem_set_access p n ds) k = omega (arith, length-desc_bytes ds k.1)
driver_full _ k = refl

runtime_room :
    (r : RuntimeRequest)
    → (hmcuda_runtime_get_sizes false r).resp_size
      ≡ sizeof (runtime_response_struct r) + text_room (runtime r)
unfolding hmcuda_runtime_get_sizes runtime_response_struct
runtime_room (get_error_string e) = refl
runtime_room _ = refl

driver_room :
    (r : DriverRequest)
    → (hmcuda_driver_get_sizes false r).resp_size
      ≡ sizeof (driver_response_struct r) + text_room (driver r)
unfolding hmcuda_driver_get_sizes driver_response_struct
driver_room (cu_mem_set_access p n ds) = refl
driver_room _ = refl

-- Where memory is granted and user space can be read, a command of either library is given a request
-- buffer of just as many bytes as its request has, trailing data included, and room for its response
-- struct, with 256 bytes more for the text of an error of the runtime API but none for other trailing
-- data of a response, if a launch states the length of its arguments and a binary has fewer than 2^63
-- bytes.
pub get_req_sizes-encode :
    (k : Services) (filler : ℕ) (r : Request)
    → ((n : ℕ) → k.kmalloc n ≡ true)
    → ((n : ℕ) → k.copy_from_user n ≡ true)
    → IsEncodable r
    → IsFilled r
    → hmcuda_get_req_sizes k r
      ≡ ok (length (encode filler r), sizeof (response_struct r) + text_room r)
unfolding hmcuda_get_req_sizes hmcuda_cmd_get_sizes encode runtime_encode driver_encode
    response_struct
get_req_sizes-encode k filler (unknown cmd) granted readable h filled = absurd h
get_req_sizes-encode k filler (runtime r) granted readable h filled =
    granted_pass k (runtime r) (hmcuda_runtime_get_sizes false r) _ granted readable refl
      (runtime_empty r)
    ∙ ap (λ p. ok p)
        (λ i. (
          (runtime_full r filled
                ∙ ap (λ n. n + length (runtime_trailing r)) (runtime_sizes-structs r).0
                ∙ sym (
                    length-written filler (runtime_request_struct r) (runtime_members r)
                      (runtime_trailing r) h.0))
              i,
          runtime_room r i,
        ))
get_req_sizes-encode k filler (driver r) granted readable h filled =
    granted_pass k (driver r) (hmcuda_driver_get_sizes false r) _ granted readable refl
      (driver_empty r)
    ∙ ap (λ p. ok p)
        (λ i. (
          (driver_full r h
                ∙ ap (λ n. n + length (driver_trailing r)) (driver_sizes-structs r).0
                ∙ sym (
                    length-written filler (driver_request_struct r) (driver_members r)
                      (driver_trailing r) h.0))
              i,
          driver_room r i,
        ))
