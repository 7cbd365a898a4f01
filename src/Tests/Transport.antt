-- ===== src/Tests/Transport.antt =====
-- The sizes that the kernel module and the backend agree on, at concrete commands.
use hm_cuda.Prelude.{◌≡◌, refl, true, ◌∷◌, [], arith}
use hm_cuda.Cuda.{Dim3}
use hm_cuda.Wire.Bytes.{le_bytes, word_bytes}
use hm_cuda.Wire.Layout.{write_from, write_struct}
use hm_cuda.Wire.RuntimeRequests.{
  runtime_request_struct, runtime_response_struct, runtime_members, runtime_trailing,
}
use hm_cuda.Wire.RuntimeRequests.RoundTrip.{runtime_encode}
use hm_cuda.Wire.Requests.{encode, IsEncodable}
use hm_cuda.Wire.Sizes.{response_struct}
use hm_cuda.Command.{Request, runtime, launch_kernel, malloc, cu_mem_export, payload_len}
use hm_cuda.Command.Runtime.{hmcuda_runtime_handle_cmd}
use hm_cuda.Command.Driver.{hmcuda_driver_handle_cmd}
use hm_cuda.Kernel.Sizes.{hmcuda_runtime_get_sizes, hmcuda_driver_get_sizes}
use hm_cuda.Kernel.Requests.{Services, ok, hmcuda_get_req_sizes}
use hm_cuda.Kernel.Requests.Lengths.{get_req_sizes-encode}
use hm_cuda.Kernel.Protocol.{sent-runtime, sent-driver}
use hm_cuda.Tests.Backends.{two_sessions, succeeding, two_way}

abbrev pub granting : Services
granting = record { kmalloc = λ n. true; copy_from_user = λ n. true }

-- A launch with two arguments: 56 bytes of the struct and 16 behind it.
abbrev one_thread : Dim3
one_thread = record { x = 1; y = 1; z = 1 }

abbrev launch : Request
launch = runtime (launch_kernel 7 one_thread one_thread 0 0 16 (4096 ∷ 42 ∷ []))

launch-IsEncodable : IsEncodable launch
unfolding runtime_request_struct runtime_members
launch-IsEncodable = ground arith

get_req_sizes-encode_example : hmcuda_get_req_sizes granting launch ≡ ok (72, 0)
unfolding encode runtime_encode runtime_request_struct runtime_members runtime_trailing
    response_struct runtime_response_struct write_struct write_from word_bytes le_bytes
get_req_sizes-encode_example =
    get_req_sizes-encode granting 170 launch (λ n. refl) (λ n. refl) launch-IsEncodable refl

sent-runtime_example :
    payload_len
      (hmcuda_runtime_handle_cmd succeeding 1 2 two_way (malloc 16) two_sessions).0.payload
    ≡ 8
unfolding hmcuda_runtime_get_sizes
sent-runtime_example = sent-runtime succeeding 1 2 two_way (malloc 16) two_sessions refl

-- Nothing was exported, as there is no such allocation, and 64 bytes are sent all the same.
sent-driver_example :
    payload_len
      (hmcuda_driver_handle_cmd succeeding 1 2 two_way (cu_mem_export 9 1 0) two_sessions).0.payload
    ≡ 64
unfolding hmcuda_driver_get_sizes
sent-driver_example = sent-driver succeeding 1 2 two_way (cu_mem_export 9 1 0) two_sessions refl
