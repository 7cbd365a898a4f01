-- ===== src/Tests/Wire.antt =====
-- Requests as bytes, and an element of the queue that holds one.
use hm_cuda.Prelude.{◌≤◌, ◌≡◌, refl, false, [], ◌∷◌, some, arith}
use hm_cuda.Backend.{Backend, pure, ◌>>=◌, ◌>>◌}
use hm_cuda.Cuda.{read_bytes}
use hm_cuda.Command.{Element, Request, runtime, driver, malloc, cu_mem_create, cu_memset_d32}
use hm_cuda.Command.Dispatch.{hmcuda_dispatch_cmd}
use hm_cuda.Kernel.Sizes.{hmcuda_cmd_get_sizes}
use hm_cuda.Wire.{sizeof}
use hm_cuda.Wire.Bytes.{le_bytes, field}
use hm_cuda.Wire.Layout.{write_struct, write_from}
use hm_cuda.Wire.RuntimeRequests.{
  runtime_cmd_type, runtime_request_struct, runtime_members, runtime_trailing,
}
use hm_cuda.Wire.DriverRequests.{driver_request_struct, driver_members}
use hm_cuda.Wire.RuntimeRequests.RoundTrip.{runtime_encode}
use hm_cuda.Wire.Requests.{cmd_type, encode, decode, decode-encode}
use hm_cuda.Wire.Sizes.{request_struct, response_struct, taken_in, made_room, cmd_get_sizes-structs}
use hm_cuda.Vhost.Queue.{place_response, response_bytes, push_len}
use hm_cuda.Vhost.Requests.{process_request, process_request-runs}
use hm_cuda.Tests.Backends.{two_sessions, succeeding}

-- An allocation with its properties nested in the request.
abbrev create : Request
create = driver (cu_mem_create 2097152 (1 ∷ 1 ∷ 0 ∷ 8 ∷ []) 0)

-- The padding holds 170.
decode-encode_example : decode (cmd_type create) (encode 170 create) ≡ create
unfolding driver_request_struct driver_members
decode-encode_example = decode-encode 170 create (
  (omega arith, (omega arith, (omega arith, (omega arith, (omega arith, (omega arith, tt)))))),
  refl,
)

cmd_get_sizes-structs_example :
    (taken_in (hmcuda_cmd_get_sizes false (driver (cu_memset_d32 1 2 3)))
      ≡ sizeof (request_struct (driver (cu_memset_d32 1 2 3))))
    × (sizeof (response_struct (driver (cu_memset_d32 1 2 3)))
        ≤ made_room (hmcuda_cmd_get_sizes false (driver (cu_memset_d32 1 2 3))))
cmd_get_sizes-structs_example = cmd_get_sizes-structs (driver (cu_memset_d32 1 2 3))

abbrev wanted : Request
wanted = runtime (malloc 4096)

-- The request at address 0, and room for the response at 64.
abbrev one_request : Element
one_request = record {
  out_sg = record { base = 0; len = 16 } ∷ [];
  in_sg = record { base = 64; len = 16 } ∷ [];
}

abbrev holding : Backend
holding = record two_sessions {
  memory = λ a. field a (1 ∷ 0 ∷ 0 ∷ 0 ∷ 0 ∷ 0 ∷ 0 ∷ 0 ∷ 0 ∷ 16 ∷ []);
}

process_request-runs_example :
    process_request succeeding 0 1 2 one_request holding
    ≡ (do
      resp ← hmcuda_dispatch_cmd succeeding 1 2 one_request wanted
      place_response one_request resp (response_bytes 0 (cmd_type wanted) resp)
      pure (some (push_len one_request resp)))
        holding
unfolding read_bytes le_bytes cmd_type encode runtime_cmd_type runtime_request_struct
    runtime_members runtime_trailing runtime_encode write_struct write_from
process_request-runs_example =
    process_request-runs succeeding 0 1 2 0 0 wanted one_request (record { base = 0; len = 16 }) []
      holding refl refl ((omega arith, tt), tt)
