-- ===== src/Wire/Types.antt =====
-- The structs of common/include/hmcuda_types.h.
use hm_cuda.Prelude.{[], ◌∷◌}
use hm_cuda.Wire.{Struct, uint32}

abbrev pub hmcuda_req_header : Struct
hmcuda_req_header = uint32 ∷ uint32 ∷ []

abbrev pub hmcuda_resp_header : Struct
hmcuda_resp_header = uint32 ∷ uint32 ∷ []

abbrev pub hmcuda_dim3 : Struct
hmcuda_dim3 = uint32 ∷ uint32 ∷ uint32 ∷ []
