-- ===== src/Tests/Backends.antt =====
-- States and answers that the tests share: two sessions, and a library that always succeeds.
use hm_cuda.Prelude.{ℕ, ◌%◌, false, List, [], ◌∷◌, none}
use hm_cuda.Cuda.{Environment}
use hm_cuda.Backend.{
  ResourceType, res_mem, res_stream, res_function, res_host_mem, Resource, Context, Backend,
}
use hm_cuda.Command.{Iov, Element}

abbrev pub entry : ℕ → ℕ → ℕ → Resource
entry handle real_ptr size = record { handle = handle; real_ptr = real_ptr; size = size }

abbrev pub tables : ResourceType → List Resource
tables res_mem = entry 4096 4096 64 ∷ entry 100 900 16 ∷ []
tables res_stream = entry 5 500 0 ∷ entry 3 300 0 ∷ []
tables res_function = entry 7 700 0 ∷ []
tables res_host_mem = entry 1000 2000 8 ∷ []
tables _ = []

abbrev pub first_session : Context
first_session = record { session_id = 1; vm_id = 2; resources = tables }

abbrev pub second_session : Context
second_session = record { session_id = 3; vm_id = 2; resources = λ t. [] }

abbrev pub two_sessions : Backend
two_sessions = record {
  contexts = first_session ∷ second_session ∷ [];
  next_handle = 8;
  registered = false;
  device = none;
  memory = λ a. a % 256;
  calls = [];
}

-- Every call succeeds and writes 8192 to each out-parameter.
abbrev pub succeeding : Environment
succeeding past memory call = record { status = 0; out = λ i. 8192; text = none; memory = memory }

abbrev pub two_entries : List Iov
two_entries = record { base = 10; len = 3 } ∷ record { base = 20; len = 4 } ∷ []

abbrev pub two_way : Element
two_way = record { out_sg = two_entries; in_sg = two_entries }
