-- ===== src/Wire/Sizes.antt =====
-- The size tables of driver/cmd_runtime.c and driver/cmd_driver.c, held against the structs of
-- common/include.
use hm_cuda.Prelude.{ℕ, ◌≤◌, ◌≡◌, [], none, some, false, arith, refl, Option}
use hm_cuda.Command.{Request, runtime, driver, unknown}
use hm_cuda.Kernel.Sizes.{Sizes, hmcuda_cmd_get_sizes}
use hm_cuda.Wire.{Struct, sizeof}
use hm_cuda.Wire.RuntimeRequests.{runtime_request_struct, runtime_response_struct}
use hm_cuda.Wire.DriverRequests.{driver_request_struct, driver_response_struct}
use hm_cuda.Wire.RuntimeRequests.Sizes.{runtime_sizes-structs}
use hm_cuda.Wire.DriverRequests.Sizes.{driver_sizes-structs}

unfoldable pub request_struct : Request → Struct
unfolding runtime_request_struct driver_request_struct
request_struct (runtime r) = runtime_request_struct r
request_struct (driver r) = driver_request_struct r
request_struct (unknown cmd) = []

unfoldable pub response_struct : Request → Struct
unfolding runtime_response_struct driver_response_struct
response_struct (runtime r) = runtime_response_struct r
response_struct (driver r) = driver_response_struct r
response_struct (unknown cmd) = []

abbrev pub taken_in : Option Sizes → ℕ
taken_in none = 0
taken_in (some z) = z.req_size

abbrev pub made_room : Option Sizes → ℕ
made_room none = 0
made_room (some z) = z.resp_size

-- For every command, the bytes that the kernel module takes in before it looks at the trailing data
-- are just those of the request struct, and those that it makes room for hold the response struct.
pub cmd_get_sizes-structs :
    (r : Request)
    → (taken_in (hmcuda_cmd_get_sizes false r) ≡ sizeof (request_struct r))
      × (sizeof (response_struct r) ≤ made_room (hmcuda_cmd_get_sizes false r))
unfolding hmcuda_cmd_get_sizes request_struct response_struct
cmd_get_sizes-structs (runtime r) = runtime_sizes-structs r
cmd_get_sizes-structs (driver r) = driver_sizes-structs r
cmd_get_sizes-structs (unknown cmd) = (refl, omega arith)
