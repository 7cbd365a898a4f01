-- ===== src/Wire/RuntimeRequests/RoundTrip.antt =====
-- Every request of the runtime API that its struct can hold is read as it was written.
use hm_cuda.Prelude.{ℕ, ◌++◌, List, length, ◌<◌, some}
use hm_cuda.Prelude.{◌≡◌, refl, ap, All, take_all, arith}
use hm_cuda.Wire.Bytes.{limit, words-word_bytes}
use hm_cuda.Wire.Layout.{Fits, write_struct}
use hm_cuda.Command.{
  RuntimeRequest, malloc, free, memcpy_cmd, memset, launch_kernel, stream_create,
  stream_synchronize, event_create, event_record, event_synchronize, event_elapsed_time,
  event_destroy, device_synchronize, init, register_fatbin, register_function, push_call_cfg,
  pop_call_cfg, init_module, get_device_properties, get_device_count, set_device, get_error_string,
  get_error_name, runtime_get_version, func_get_attributes,
}
use hm_cuda.Wire.RuntimeRequests.{
  runtime_cmd_type, runtime_request_struct, runtime_members, runtime_trailing,
}
use hm_cuda.Wire.RuntimeRequests.Decode.{runtime_cases, runtime_decode}
use hm_cuda.Wire.Readers.{Reader, find_case, run_case-write_struct}

-- The struct and what follows it, as the guest's libraries fill them in; `filler` is in the padding.
unfoldable pub runtime_encode : ℕ → RuntimeRequest → List ℕ
unfolding write_struct
runtime_encode filler r =
    write_struct filler (runtime_request_struct r) (runtime_members r) ++ runtime_trailing r

-- What the trailing data and the nested structs of a request have to be.
abbrev pub RuntimeParts : RuntimeRequest → Type 0
RuntimeParts (launch_kernel f g b m h n args) = All (λ w. w < limit 8) args
RuntimeParts _ = Unit

abbrev pub IsRuntimeEncodable : RuntimeRequest → Type 0
IsRuntimeEncodable r = Fits (runtime_request_struct r) (runtime_members r) × RuntimeParts r

case_lem :
    (filler : ℕ) (r : RuntimeRequest) (rd : Reader RuntimeRequest)
    → find_case (runtime_cmd_type r) runtime_cases ≡ some rd
    → rd.struct ≡ runtime_request_struct r
    → Fits (runtime_request_struct r) (runtime_members r)
    → rd.build (runtime_members r) (runtime_trailing r) ≡ r
    → runtime_decode (runtime_cmd_type r) (runtime_encode filler r) ≡ some r
unfolding runtime_decode runtime_encode
case_lem filler r rd found e h built =
    run_case-write_struct runtime_cases (runtime_cmd_type r) filler (runtime_request_struct r)
      (runtime_members r) (runtime_trailing r) r rd found e h built

-- A request of the runtime API that its struct can hold, that is, with numbers of the members' widths,
-- is decoded as it was encoded, whatever the padding holds.
pub runtime_decode-encode :
    (filler : ℕ) (r : RuntimeRequest)
    → IsRuntimeEncodable r
    → runtime_decode (runtime_cmd_type r) (runtime_encode filler r) ≡ some r
unfolding runtime_cases runtime_cmd_type runtime_request_struct runtime_members runtime_trailing
runtime_decode-encode filler (malloc a) k = case_lem filler (malloc a) _ refl refl k.0 refl
runtime_decode-encode filler (free a) k = case_lem filler (free a) _ refl refl k.0 refl
runtime_decode-encode filler (memcpy_cmd r) k = case_lem filler (memcpy_cmd r) _ refl refl k.0 refl
runtime_decode-encode filler (memset a b c) k = case_lem filler (memset a b c) _ refl refl k.0 refl
runtime_decode-encode filler (launch_kernel f g b m h n args) k =
    case_lem filler (launch_kernel f g b m h n args) _ refl refl k.0
      (rw (words-word_bytes args k.1))
runtime_decode-encode filler (stream_create a) k =
    case_lem filler (stream_create a) _ refl refl k.0 refl
runtime_decode-encode filler (stream_synchronize a) k =
    case_lem filler (stream_synchronize a) _ refl refl k.0 refl
runtime_decode-encode filler (event_create a) k =
    case_lem filler (event_create a) _ refl refl k.0 refl
runtime_decode-encode filler (event_record a b) k =
    case_lem filler (event_record a b) _ refl refl k.0 refl
runtime_decode-encode filler (event_synchronize a) k =
    case_lem filler (event_synchronize a) _ refl refl k.0 refl
runtime_decode-encode filler (event_elapsed_time a b) k =
    case_lem filler (event_elapsed_time a b) _ refl refl k.0 refl
runtime_decode-encode filler (event_destroy a) k =
    case_lem filler (event_destroy a) _ refl refl k.0 refl
runtime_decode-encode filler device_synchronize k =
    case_lem filler device_synchronize _ refl refl k.0 refl
runtime_decode-encode filler init k = case_lem filler init _ refl refl k.0 refl
runtime_decode-encode filler (register_fatbin fatbin) k =
    case_lem filler (register_fatbin fatbin) _ refl refl k.0
      (ap register_fatbin (take_all (length fatbin) fatbin (omega arith)))
runtime_decode-encode filler (register_function h f name) k =
    case_lem filler (register_function h f name) _ refl refl k.0
      (ap (register_function h f) (take_all (length name) name (omega arith)))
runtime_decode-encode filler (push_call_cfg g b m h) k =
    case_lem filler (push_call_cfg g b m h) _ refl refl k.0 refl
runtime_decode-encode filler pop_call_cfg k = case_lem filler pop_call_cfg _ refl refl k.0 refl
runtime_decode-encode filler (init_module a) k =
    case_lem filler (init_module a) _ refl refl k.0 refl
runtime_decode-encode filler (get_device_properties a) k =
    case_lem filler (get_device_properties a) _ refl refl k.0 refl
runtime_decode-encode filler get_device_count k =
    case_lem filler get_device_count _ refl refl k.0 refl
runtime_decode-encode filler (set_device a) k = case_lem filler (set_device a) _ refl refl k.0 refl
runtime_decode-encode filler (get_error_string a) k =
    case_lem filler (get_error_string a) _ refl refl k.0 refl
runtime_decode-encode filler (get_error_name a) k =
    case_lem filler (get_error_name a) _ refl refl k.0 refl
runtime_decode-encode filler runtime_get_version k =
    case_lem filler runtime_get_version _ refl refl k.0 refl
runtime_decode-encode filler (func_get_attributes a) k =
    case_lem filler (func_get_attributes a) _ refl refl k.0 refl
