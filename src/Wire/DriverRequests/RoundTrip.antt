-- ===== src/Wire/DriverRequests/RoundTrip.antt =====
-- Every request of the driver API that its struct can hold is read as it was written.
use hm_cuda.Prelude.{ℕ, [], ◌∷◌, ◌++◌, List, length, some}
use hm_cuda.Prelude.{◌≡◌, refl, ap, All, take_all, arith}
use hm_cuda.Wire.Bytes.{IsDesc, descs-desc_bytes}
use hm_cuda.Wire.Layout.{Fits, write_struct, take-append, field-append}
use hm_cuda.Command.{
  DriverRequest, cu_init, cu_driver_get_version, cu_device_get, cu_device_get_count,
  cu_device_get_name, cu_device_get_attribute, cu_device_get_uuid, cu_device_can_access_peer,
  cu_device_primary_ctx_retain, cu_device_primary_ctx_release, cu_ctx_set_current,
  cu_ctx_get_device, cu_ctx_enable_peer_access, cu_stream_create, cu_stream_destroy,
  cu_stream_synchronize, cu_stream_query, cu_stream_wait_event, cu_stream_get_ctx, cu_event_create,
  cu_event_destroy, cu_event_record, cu_event_elapsed_time, cu_mem_alloc, cu_mem_free,
  cu_mem_host_alloc, cu_mem_free_host, cu_memset_d32, cu_memcpy_async, cu_memcpy_htod, cu_memcpy,
  cu_pointer_get_attribute, cu_get_error_string, cu_get_error_name, cu_mem_create, cu_mem_release,
  cu_mem_map, cu_mem_unmap, cu_mem_address_reserve, cu_mem_address_free, cu_mem_export,
  cu_mem_import, cu_mem_set_access, cu_mem_get_alloc_granularity, cu_multicast_create,
  cu_multicast_get_granularity, cu_multicast_add_device, cu_multicast_bind_mem, cu_multicast_unbind,
}
use hm_cuda.Wire.DriverRequests.{
  driver_cmd_type, driver_request_struct, driver_members, driver_trailing,
}
use hm_cuda.Wire.DriverRequests.Decode.{driver_cases, driver_decode}
use hm_cuda.Wire.Readers.{Reader, find_case, run_case-write_struct}

-- The struct and what follows it, as the guest's libraries fill them in; `filler` is in the padding.
unfoldable pub driver_encode : ℕ → DriverRequest → List ℕ
unfolding write_struct
driver_encode filler r =
    write_struct filler (driver_request_struct r) (driver_members r) ++ driver_trailing r

-- What the trailing data and the nested structs of a request have to be.
abbrev pub DriverParts : DriverRequest → Type 0
DriverParts (cu_mem_create n p f) = length p ≡ 4
DriverParts (cu_mem_import h t) = length h ≡ 64
DriverParts (cu_mem_get_alloc_granularity p o) = length p ≡ 4
DriverParts (cu_multicast_create p) = length p ≡ 3
DriverParts (cu_multicast_get_granularity p o) = length p ≡ 3
DriverParts (cu_mem_set_access p n ds) = All IsDesc ds
DriverParts _ = Unit

abbrev pub IsDriverEncodable : DriverRequest → Type 0
IsDriverEncodable r = Fits (driver_request_struct r) (driver_members r) × DriverParts r

case_lem :
    (filler : ℕ) (r : DriverRequest) (rd : Reader DriverRequest)
    → find_case (driver_cmd_type r) driver_cases ≡ some rd
    → rd.struct ≡ driver_request_struct r
    → Fits (driver_request_struct r) (driver_members r)
    → rd.build (driver_members r) (driver_trailing r) ≡ r
    → driver_decode (driver_cmd_type r) (driver_encode filler r) ≡ some r
unfolding driver_decode driver_encode
case_lem filler r rd found e h built =
    run_case-write_struct driver_cases (driver_cmd_type r) filler (driver_request_struct r)
      (driver_members r) (driver_trailing r) r rd found e h built

-- A request of the driver API that its struct can hold, that is, with numbers of the members' widths,
-- is decoded as it was encoded, whatever the padding holds.
pub driver_decode-encode :
    (filler : ℕ) (r : DriverRequest)
    → IsDriverEncodable r
    → driver_decode (driver_cmd_type r) (driver_encode filler r) ≡ some r
unfolding driver_cases driver_cmd_type driver_request_struct driver_members driver_trailing
driver_decode-encode filler (cu_init a) k = case_lem filler (cu_init a) _ refl refl k.0 refl
driver_decode-encode filler cu_driver_get_version k =
    case_lem filler cu_driver_get_version _ refl refl k.0 refl
driver_decode-encode filler (cu_device_get a) k =
    case_lem filler (cu_device_get a) _ refl refl k.0 refl
driver_decode-encode filler cu_device_get_count k =
    case_lem filler cu_device_get_count _ refl refl k.0 refl
driver_decode-encode filler (cu_device_get_name a b) k =
    case_lem filler (cu_device_get_name a b) _ refl refl k.0 refl
driver_decode-encode filler (cu_device_get_attribute a b) k =
    case_lem filler (cu_device_get_attribute a b) _ refl refl k.0 refl
driver_decode-encode filler (cu_device_get_uuid a) k =
    case_lem filler (cu_device_get_uuid a) _ refl refl k.0 refl
driver_decode-encode filler (cu_device_can_access_peer a b) k =
    case_lem filler (cu_device_can_access_peer a b) _ refl refl k.0 refl
driver_decode-encode filler (cu_device_primary_ctx_retain a) k =
    case_lem filler (cu_device_primary_ctx_retain a) _ refl refl k.0 refl
driver_decode-encode filler (cu_device_primary_ctx_release a) k =
    case_lem filler (cu_device_primary_ctx_release a) _ refl refl k.0 refl
driver_decode-encode filler (cu_ctx_set_current a) k =
    case_lem filler (cu_ctx_set_current a) _ refl refl k.0 refl
driver_decode-encode filler cu_ctx_get_device k =
    case_lem filler cu_ctx_get_device _ refl refl k.0 refl
driver_decode-encode filler (cu_ctx_enable_peer_access a b) k =
    case_lem filler (cu_ctx_enable_peer_access a b) _ refl refl k.0 refl
driver_decode-encode filler (cu_stream_create a) k =
    case_lem filler (cu_stream_create a) _ refl refl k.0 refl
driver_decode-encode filler (cu_stream_destroy a) k =
    case_lem filler (cu_stream_destroy a) _ refl refl k.0 refl
driver_decode-encode filler (cu_stream_synchronize a) k =
    case_lem filler (cu_stream_synchronize a) _ refl refl k.0 refl
driver_decode-encode filler (cu_stream_query a) k =
    case_lem filler (cu_stream_query a) _ refl refl k.0 refl
driver_decode-encode filler (cu_stream_wait_event a b c) k =
    case_lem filler (cu_stream_wait_event a b c) _ refl refl k.0 refl
driver_decode-encode filler (cu_stream_get_ctx a) k =
    case_lem filler (cu_stream_get_ctx a) _ refl refl k.0 refl
driver_decode-encode filler (cu_event_create a) k =
    case_lem filler (cu_event_create a) _ refl refl k.0 refl
driver_decode-encode filler (cu_event_destroy a) k =
    case_lem filler (cu_event_destroy a) _ refl refl k.0 refl
driver_decode-encode filler (cu_event_record a b) k =
    case_lem filler (cu_event_record a b) _ refl refl k.0 refl
driver_decode-encode filler (cu_event_elapsed_time a b) k =
    case_lem filler (cu_event_elapsed_time a b) _ refl refl k.0 refl
driver_decode-encode filler (cu_mem_alloc a) k =
    case_lem filler (cu_mem_alloc a) _ refl refl k.0 refl
driver_decode-encode filler (cu_mem_free a) k = case_lem filler (cu_mem_free a) _ refl refl k.0 refl
driver_decode-encode filler (cu_mem_host_alloc r) k =
    case_lem filler (cu_mem_host_alloc r) _ refl refl k.0 refl
driver_decode-encode filler (cu_mem_free_host a) k =
    case_lem filler (cu_mem_free_host a) _ refl refl k.0 refl
driver_decode-encode filler (cu_memset_d32 a b c) k =
    case_lem filler (cu_memset_d32 a b c) _ refl refl k.0 refl
driver_decode-encode filler (cu_memcpy_async a b c d) k =
    case_lem filler (cu_memcpy_async a b c d) _ refl refl k.0 refl
driver_decode-encode filler (cu_memcpy_htod a b c) k =
    case_lem filler (cu_memcpy_htod a b c) _ refl refl k.0 refl
driver_decode-encode filler (cu_memcpy r) k = case_lem filler (cu_memcpy r) _ refl refl k.0 refl
driver_decode-encode filler (cu_pointer_get_attribute a b) k =
    case_lem filler (cu_pointer_get_attribute a b) _ refl refl k.0 refl
driver_decode-encode filler (cu_get_error_string a) k =
    case_lem filler (cu_get_error_string a) _ refl refl k.0 refl
driver_decode-encode filler (cu_get_error_name a) k =
    case_lem filler (cu_get_error_name a) _ refl refl k.0 refl
driver_decode-encode filler (cu_mem_create n p f) k =
    case_lem filler (cu_mem_create n p f) _ refl refl k.0
      (rw (take-append 4 p (f ∷ []) k.1, field-append 4 p (f ∷ []) k.1))
driver_decode-encode filler (cu_mem_release a) k =
    case_lem filler (cu_mem_release a) _ refl refl k.0 refl
driver_decode-encode filler (cu_mem_map a b c d e) k =
    case_lem filler (cu_mem_map a b c d e) _ refl refl k.0 refl
driver_decode-encode filler (cu_mem_unmap a b) k =
    case_lem filler (cu_mem_unmap a b) _ refl refl k.0 refl
driver_decode-encode filler (cu_mem_address_reserve a b c d) k =
    case_lem filler (cu_mem_address_reserve a b c d) _ refl refl k.0 refl
driver_decode-encode filler (cu_mem_address_free a b) k =
    case_lem filler (cu_mem_address_free a b) _ refl refl k.0 refl
driver_decode-encode filler (cu_mem_export a b c) k =
    case_lem filler (cu_mem_export a b c) _ refl refl k.0 refl
driver_decode-encode filler (cu_mem_import h t) k =
    case_lem filler (cu_mem_import h t) _ refl refl k.0
      (rw (take-append 64 h (t ∷ []) k.1, field-append 64 h (t ∷ []) k.1))
driver_decode-encode filler (cu_mem_set_access p n ds) k =
    case_lem filler (cu_mem_set_access p n ds) _ refl refl k.0
      (ap (cu_mem_set_access p n) (descs-desc_bytes ds k.1))
driver_decode-encode filler (cu_mem_get_alloc_granularity p o) k =
    case_lem filler (cu_mem_get_alloc_granularity p o) _ refl refl k.0
      (rw (take-append 4 p (o ∷ []) k.1, field-append 4 p (o ∷ []) k.1))
driver_decode-encode filler (cu_multicast_create p) k =
    case_lem filler (cu_multicast_create p) _ refl refl k.0
      (ap cu_multicast_create (take_all 3 p (omega (arith, k.1))))
driver_decode-encode filler (cu_multicast_get_granularity p o) k =
    case_lem filler (cu_multicast_get_granularity p o) _ refl refl k.0
      (rw (take-append 3 p (o ∷ []) k.1, field-append 3 p (o ∷ []) k.1))
driver_decode-encode filler (cu_multicast_add_device a b) k =
    case_lem filler (cu_multicast_add_device a b) _ refl refl k.0 refl
driver_decode-encode filler (cu_multicast_bind_mem a b c d e f) k =
    case_lem filler (cu_multicast_bind_mem a b c d e f) _ refl refl k.0 refl
driver_decode-encode filler (cu_multicast_unbind a b c d) k =
    case_lem filler (cu_multicast_unbind a b c d) _ refl refl k.0 refl
