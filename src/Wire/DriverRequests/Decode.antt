-- ===== src/Wire/DriverRequests/Decode.antt =====
-- Reading a request of the driver API: the command number, the members of its struct and what
-- follows the struct.
use hm_cuda.Prelude.{ℕ, [], ◌∷◌, List, take, drop, Option}
use hm_cuda.Wire.Bytes.{field, words, descs}
use hm_cuda.Wire.Readers.{Reader, find_case, run_case}
use hm_cuda.Command.{
  DriverRequest, cu_init, cu_driver_get_version, cu_device_get, cu_device_get_count,
  cu_device_get_name, cu_device_get_attribute, cu_device_get_uuid, cu_device_can_access_peer,
  cu_device_primary_ctx_retain, cu_device_primary_ctx_release, cu_ctx_set_current,
  cu_ctx_get_device, cu_ctx_enable_peer_access, cu_stream_create, cu_stream_destroy,
  cu_stream_synchronize, cu_stream_query, cu_stream_wait_event, cu_stream_get_ctx, cu_event_create,
  cu_event_destroy, cu_event_record, cu_event_elapsed_time, cu_mem_alloc, cu_mem_free,
  cu_mem_host_alloc, cu_mem_free_host, cu_memset_d32, cu_memcpy_async, cu_memcpy_htod, cu_memcpy,
  cu_pointer_get_attribute, cu_get_error_string, cu_get_error_name, cu_mem_create, cu_mem_release,
  cu_mem_map, cu_mem_unmap, cu_mem_address_reserve, cu_mem_address_free, cu_mem_export,
  cu_mem_import, cu_mem_set_access, cu_mem_get_alloc_granularity, cu_multicast_create,
  cu_multicast_get_granularity, cu_multicast_add_device, cu_multicast_bind_mem, cu_multicast_unbind,
}
use hm_cuda.Wire.Runtime.{hmcuda_memcpy_req}
use hm_cuda.Wire.Driver.{
  hmcuda_cu_ctx_enable_peer_access_req, hmcuda_cu_ctx_set_current_req,
  hmcuda_cu_device_can_access_peer_req, hmcuda_cu_device_get_attribute_req,
  hmcuda_cu_device_get_name_req, hmcuda_cu_device_get_req, hmcuda_cu_device_get_uuid_req,
  hmcuda_cu_device_primary_ctx_release_req, hmcuda_cu_device_primary_ctx_retain_req,
  hmcuda_cu_event_create_req, hmcuda_cu_event_destroy_req, hmcuda_cu_event_elapsed_time_req,
  hmcuda_cu_event_record_req, hmcuda_cu_init_req, hmcuda_cu_mem_alloc_req,
  hmcuda_cu_mem_free_host_req, hmcuda_cu_mem_free_req, hmcuda_cu_mem_host_alloc_req,
  hmcuda_cu_memcpy_async_req, hmcuda_cu_memcpy_htod_req, hmcuda_cu_memset_d32_req,
  hmcuda_cu_stream_create_req, hmcuda_cu_stream_destroy_req, hmcuda_cu_stream_get_ctx_req,
  hmcuda_cu_stream_query_req, hmcuda_cu_stream_synchronize_req, hmcuda_cu_stream_wait_event_req,
}
use hm_cuda.Wire.DriverVmm.{
  hmcuda_cu_get_error_name_req, hmcuda_cu_get_error_string_req, hmcuda_cu_mem_address_free_req,
  hmcuda_cu_mem_address_reserve_req, hmcuda_cu_mem_create_req, hmcuda_cu_mem_export_req,
  hmcuda_cu_mem_get_alloc_granularity_req, hmcuda_cu_mem_import_req, hmcuda_cu_mem_map_req,
  hmcuda_cu_mem_release_req, hmcuda_cu_mem_set_access_req, hmcuda_cu_mem_unmap_req,
  hmcuda_cu_multicast_add_device_req, hmcuda_cu_multicast_bind_mem_req,
  hmcuda_cu_multicast_create_req, hmcuda_cu_multicast_get_granularity_req,
  hmcuda_cu_multicast_unbind_req, hmcuda_cu_pointer_get_attribute_req,
}

-- The cases of the handler, by command number.
unfoldable pub driver_cases : List (ℕ × Reader DriverRequest)
unfolding words descs
driver_cases =
    (0x10001, record { struct = hmcuda_cu_init_req; build = λ vs rest. cu_init (field 0 vs) })
    ∷ (0x10002, record { struct = []; build = λ vs rest. cu_driver_get_version })
    ∷ (
      0x10003,
      record { struct = hmcuda_cu_device_get_req; build = λ vs rest. cu_device_get (field 0 vs) },
    )
    ∷ (0x10004, record { struct = []; build = λ vs rest. cu_device_get_count })
    ∷ (
      0x10005,
      record {
        struct = hmcuda_cu_device_get_name_req;
        build = λ vs rest. cu_device_get_name (field 0 vs) (field 1 vs);
      },
    )
    ∷ (
      0x10006,
      record {
        struct = hmcuda_cu_device_get_attribute_req;
        build = λ vs rest. cu_device_get_attribute (field 0 vs) (field 1 vs);
      },
    )
    ∷ (
      0x10007,
      record {
        struct = hmcuda_cu_device_get_uuid_req;
        build = λ vs rest. cu_device_get_uuid (field 0 vs);
      },
    )
    ∷ (
      0x10008,
      record {
        struct = hmcuda_cu_device_can_access_peer_req;
        build = λ vs rest. cu_device_can_access_peer (field 0 vs) (field 1 vs);
      },
    )
    ∷ (
      0x10009,
      record {
        struct = hmcuda_cu_device_primary_ctx_retain_req;
        build = λ vs rest. cu_device_primary_ctx_retain (field 0 vs);
      },
    )
    ∷ (
      0x1000a,
      record {
        struct = hmcuda_cu_device_primary_ctx_release_req;
        build = λ vs rest. cu_device_primary_ctx_release (field 0 vs);
      },
    )
    ∷ (
      0x1000b,
      record {
        struct = hmcuda_cu_ctx_set_current_req;
        build = λ vs rest. cu_ctx_set_current (field 0 vs);
      },
    )
    ∷ (0x1000c, record { struct = []; build = λ vs rest. cu_ctx_get_device })
    ∷ (
      0x1000d,
      record {
        struct = hmcuda_cu_ctx_enable_peer_access_req;
        build = λ vs rest. cu_ctx_enable_peer_access (field 0 vs) (field 1 vs);
      },
    )
    ∷ (
      0x1000e,
      record {
        struct = hmcuda_cu_stream_create_req;
        build = λ vs rest. cu_stream_create (field 0 vs);
      },
    )
    ∷ (
      0x1000f,
      record {
        struct = hmcuda_cu_stream_destroy_req;
        build = λ vs rest. cu_stream_destroy (field 0 vs);
      },
    )
    ∷ (
      0x10010,
      record {
        struct = hmcuda_cu_stream_synchronize_req;
        build = λ vs rest. cu_stream_synchronize (field 0 vs);
      },
    )
    ∷ (
      0x10011,
      record {
        struct = hmcuda_cu_stream_query_req;
        build = λ vs rest. cu_stream_query (field 0 vs);
      },
    )
    ∷ (
      0x10012,
      record {
        struct = hmcuda_cu_stream_wait_event_req;
        build = λ vs rest. cu_stream_wait_event (field 0 vs) (field 1 vs) (field 2 vs);
      },
    )
    ∷ (
      0x10013,
      record {
        struct = hmcuda_cu_stream_get_ctx_req;
        build = λ vs rest. cu_stream_get_ctx (field 0 vs);
      },
    )
    ∷ (
      0x10014,
      record {
        struct = hmcuda_cu_event_create_req;
        build = λ vs rest. cu_event_create (field 0 vs);
      },
    )
    ∷ (
      0x10015,
      record {
        struct = hmcuda_cu_event_destroy_req;
        build = λ vs rest. cu_event_destroy (field 0 vs);
      },
    )
    ∷ (
      0x10016,
      record {
        struct = hmcuda_cu_event_record_req;
        build = λ vs rest. cu_event_record (field 0 vs) (field 1 vs);
      },
    )
    ∷ (
      0x10017,
      record {
        struct = hmcuda_cu_event_elapsed_time_req;
        build = λ vs rest. cu_event_elapsed_time (field 0 vs) (field 1 vs);
      },
    )
    ∷ (
      0x10018,
      record { struct = hmcuda_cu_mem_alloc_req; build = λ vs rest. cu_mem_alloc (field 0 vs) },
    )
    ∷ (
      0x10019,
      record { struct = hmcuda_cu_mem_free_req; build = λ vs rest. cu_mem_free (field 0 vs) },
    )
    ∷ (
      0x1001a,
      record {
        struct = hmcuda_cu_mem_host_alloc_req;
        build = λ vs rest. cu_mem_host_alloc (record {
          bytesize = field 0 vs;
          flags = field 1 vs;
          guest_va = field 2 vs;
          byte_offset = field 3 vs;
        });
      },
    )
    ∷ (
      0x1001b,
      record {
        struct = hmcuda_cu_mem_free_host_req;
        build = λ vs rest. cu_mem_free_host (field 0 vs);
      },
    )
    ∷ (
      0x1001c,
      record {
        struct = hmcuda_cu_memset_d32_req;
        build = λ vs rest. cu_memset_d32 (field 0 vs) (field 1 vs) (field 2 vs);
      },
    )
    ∷ (
      0x1001d,
      record {
        struct = hmcuda_cu_memcpy_async_req;
        build = λ vs rest. cu_memcpy_async (field 0 vs) (field 1 vs) (field 2 vs) (field 3 vs);
      },
    )
    ∷ (
      0x1001e,
      record {
        struct = hmcuda_cu_memcpy_htod_req;
        build = λ vs rest. cu_memcpy_htod (field 0 vs) (field 1 vs) (field 2 vs);
      },
    )
    ∷ (
      0x1001f,
      record {
        struct = hmcuda_memcpy_req;
        build = λ vs rest. cu_memcpy (record {
          dst = field 0 vs;
          src = field 1 vs;
          count = field 2 vs;
          kind = field 3 vs;
          stream = field 5 vs;
        });
      },
    )
    ∷ (
      0x10020,
      record {
        struct = hmcuda_cu_pointer_get_attribute_req;
        build = λ vs rest. cu_pointer_get_attribute (field 0 vs) (field 1 vs);
      },
    )
    ∷ (
      0x10021,
      record {
        struct = hmcuda_cu_get_error_string_req;
        build = λ vs rest. cu_get_error_string (field 0 vs);
      },
    )
    ∷ (
      0x10022,
      record {
        struct = hmcuda_cu_get_error_name_req;
        build = λ vs rest. cu_get_error_name (field 0 vs);
      },
    )
    ∷ (
      0x10023,
      record {
        struct = hmcuda_cu_mem_create_req;
        build = λ vs rest. cu_mem_create (field 0 vs) (take 4 (drop 1 vs)) (field 5 vs);
      },
    )
    ∷ (
      0x10024,
      record { struct = hmcuda_cu_mem_release_req; build = λ vs rest. cu_mem_release (field 0 vs) },
    )
    ∷ (
      0x10025,
      record {
        struct = hmcuda_cu_mem_map_req;
        build =
            λ vs rest. cu_mem_map (field 0 vs) (field 1 vs) (field 2 vs) (field 3 vs) (field 4 vs);
      },
    )
    ∷ (
      0x10026,
      record {
        struct = hmcuda_cu_mem_unmap_req;
        build = λ vs rest. cu_mem_unmap (field 0 vs) (field 1 vs);
      },
    )
    ∷ (
      0x10027,
      record {
        struct = hmcuda_cu_mem_address_reserve_req;
        build =
            λ vs rest. cu_mem_address_reserve (field 0 vs) (field 1 vs) (field 2 vs) (field 3 vs);
      },
    )
    ∷ (
      0x10028,
      record {
        struct = hmcuda_cu_mem_address_free_req;
        build = λ vs rest. cu_mem_address_free (field 0 vs) (field 1 vs);
      },
    )
    ∷ (
      0x10029,
      record {
        struct = hmcuda_cu_mem_export_req;
        build = λ vs rest. cu_mem_export (field 0 vs) (field 1 vs) (field 2 vs);
      },
    )
    ∷ (
      0x1002a,
      record {
        struct = hmcuda_cu_mem_import_req;
        build = λ vs rest. cu_mem_import (take 64 vs) (field 64 vs);
      },
    )
    ∷ (
      0x1002b,
      record {
        struct = hmcuda_cu_mem_set_access_req;
        build = λ vs rest. cu_mem_set_access (field 0 vs) (field 1 vs) (descs (field 2 vs) rest);
      },
    )
    ∷ (
      0x1002c,
      record {
        struct = hmcuda_cu_mem_get_alloc_granularity_req;
        build = λ vs rest. cu_mem_get_alloc_granularity (take 4 vs) (field 4 vs);
      },
    )
    ∷ (
      0x1002d,
      record {
        struct = hmcuda_cu_multicast_create_req;
        build = λ vs rest. cu_multicast_create (take 3 vs);
      },
    )
    ∷ (
      0x1002e,
      record {
        struct = hmcuda_cu_multicast_get_granularity_req;
        build = λ vs rest. cu_multicast_get_granularity (take 3 vs) (field 3 vs);
      },
    )
    ∷ (
      0x1002f,
      record {
        struct = hmcuda_cu_multicast_add_device_req;
        build = λ vs rest. cu_multicast_add_device (field 0 vs) (field 1 vs);
      },
    )
    ∷ (
      0x10030,
      record {
        struct = hmcuda_cu_multicast_bind_mem_req;
        build = λ vs rest.
            cu_multicast_bind_mem (field 0 vs) (field 1 vs) (field 2 vs) (field 3 vs) (field 4 vs)
              (field 5 vs);
      },
    )
    ∷ (
      0x10031,
      record {
        struct = hmcuda_cu_multicast_unbind_req;
        build = λ vs rest. cu_multicast_unbind (field 0 vs) (field 1 vs) (field 2 vs) (field 3 vs);
      },
    )
    ∷ []

-- `none` for a number without a case.
unfoldable pub driver_decode : ℕ → List ℕ → Option DriverRequest
unfolding driver_cases run_case
driver_decode cmd bytes = run_case (find_case cmd driver_cases) bytes
