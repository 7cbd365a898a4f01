-- ===== src/Wire/RuntimeRequests/Decode.antt =====
-- Reading a request of the runtime API: the command number, the members of its struct and what
-- follows the struct.
use hm_cuda.Prelude.{ℕ, [], ◌∷◌, List, take, Option}
use hm_cuda.Wire.Bytes.{field, words, descs}
use hm_cuda.Wire.Readers.{Reader, find_case, run_case}
use hm_cuda.Command.{
  RuntimeRequest, malloc, free, memcpy_cmd, memset, launch_kernel, stream_create,
  stream_synchronize, event_create, event_record, event_synchronize, event_elapsed_time,
  event_destroy, device_synchronize, init, register_fatbin, register_function, push_call_cfg,
  pop_call_cfg, init_module, get_device_properties, get_device_count, set_device, get_error_string,
  get_error_name, runtime_get_version, func_get_attributes,
}
use hm_cuda.Wire.Runtime.{
  hmcuda_device_synchronize_req, hmcuda_event_create_req, hmcuda_event_destroy_req,
  hmcuda_event_elapsed_time_req, hmcuda_event_record_req, hmcuda_event_synchronize_req,
  hmcuda_free_req, hmcuda_func_get_attributes_req, hmcuda_get_device_properties_req,
  hmcuda_get_error_string_req, hmcuda_init_module_req, hmcuda_launch_kernel_req, hmcuda_malloc_req,
  hmcuda_memcpy_req, hmcuda_memset_req, hmcuda_push_call_cfg_req, hmcuda_register_fatbin_req,
  hmcuda_register_function_req, hmcuda_set_device_req, hmcuda_stream_create_req,
  hmcuda_stream_synchronize_req,
}

-- The cases of the handler, by command number.
unfoldable pub runtime_cases : List (ℕ × Reader RuntimeRequest)
unfolding words descs
runtime_cases =
    (1, record { struct = hmcuda_malloc_req; build = λ vs rest. malloc (field 0 vs) })
    ∷ (2, record { struct = hmcuda_free_req; build = λ vs rest. free (field 0 vs) })
    ∷ (
      3,
      record {
        struct = hmcuda_memcpy_req;
        build = λ vs rest. memcpy_cmd (record {
          dst = field 0 vs;
          src = field 1 vs;
          count = field 2 vs;
          kind = field 3 vs;
          stream = field 5 vs;
        });
      },
    )
    ∷ (
      4,
      record {
        struct = hmcuda_memset_req;
        build = λ vs rest. memset (field 0 vs) (field 1 vs) (field 2 vs);
      },
    )
    ∷ (
      5,
      record {
        struct = hmcuda_launch_kernel_req;
        build = λ vs rest.
            launch_kernel (field 0 vs) (record { x = field 1 vs; y = field 2 vs; z = field 3 vs })
              (record { x = field 4 vs; y = field 5 vs; z = field 6 vs }) (field 7 vs) (field 8 vs)
              (field 9 vs) (words rest);
      },
    )
    ∷ (
      6,
      record { struct = hmcuda_stream_create_req; build = λ vs rest. stream_create (field 0 vs) },
    )
    ∷ (
      7,
      record {
        struct = hmcuda_stream_synchronize_req;
        build = λ vs rest. stream_synchronize (field 0 vs);
      },
    )
    ∷ (8, record { struct = hmcuda_event_create_req; build = λ vs rest. event_create (field 0 vs) })
    ∷ (
      9,
      record {
        struct = hmcuda_event_record_req;
        build = λ vs rest. event_record (field 0 vs) (field 1 vs);
      },
    )
    ∷ (
      10,
      record {
        struct = hmcuda_event_synchronize_req;
        build = λ vs rest. event_synchronize (field 0 vs);
      },
    )
    ∷ (
      11,
      record {
        struct = hmcuda_event_elapsed_time_req;
        build = λ vs rest. event_elapsed_time (field 0 vs) (field 1 vs);
      },
    )
    ∷ (
      12,
      record { struct = hmcuda_event_destroy_req; build = λ vs rest. event_destroy (field 0 vs) },
    )
    ∷ (13, record { struct = hmcuda_device_synchronize_req; build = λ vs rest. device_synchronize })
    ∷ (14, record { struct = []; build = λ vs rest. init })
    ∷ (
      15,
      record {
        struct = hmcuda_register_fatbin_req;
        build = λ vs rest. register_fatbin (take (field 0 vs) rest);
      },
    )
    ∷ (
      16,
      record {
        struct = hmcuda_register_function_req;
        build = λ vs rest. register_function (field 0 vs) (field 1 vs) (take (field 2 vs) rest);
      },
    )
    ∷ (
      17,
      record {
        struct = hmcuda_push_call_cfg_req;
        build = λ vs rest.
            push_call_cfg (record { x = field 0 vs; y = field 1 vs; z = field 2 vs })
              (record { x = field 3 vs; y = field 4 vs; z = field 5 vs }) (field 6 vs) (field 7 vs);
      },
    )
    ∷ (18, record { struct = []; build = λ vs rest. pop_call_cfg })
    ∷ (19, record { struct = hmcuda_init_module_req; build = λ vs rest. init_module (field 0 vs) })
    ∷ (
      20,
      record {
        struct = hmcuda_get_device_properties_req;
        build = λ vs rest. get_device_properties (field 0 vs);
      },
    )
    ∷ (21, record { struct = []; build = λ vs rest. get_device_count })
    ∷ (22, record { struct = hmcuda_set_device_req; build = λ vs rest. set_device (field 0 vs) })
    ∷ (
      23,
      record {
        struct = hmcuda_get_error_string_req;
        build = λ vs rest. get_error_string (field 0 vs);
      },
    )
    ∷ (
      24,
      record {
        struct = hmcuda_get_error_string_req;
        build = λ vs rest. get_error_name (field 0 vs);
      },
    )
    ∷ (25, record { struct = []; build = λ vs rest. runtime_get_version })
    ∷ (
      26,
      record {
        struct = hmcuda_func_get_attributes_req;
        build = λ vs rest. func_get_attributes (field 0 vs);
      },
    )
    ∷ []

-- `none` for a number without a case.
unfoldable pub runtime_decode : ℕ → List ℕ → Option RuntimeRequest
unfolding runtime_cases run_case
runtime_decode cmd bytes = run_case (find_case cmd runtime_cases) bytes
