-- ===== src/Wire/Requests.antt =====
-- A command of either library, as the guest's libraries send it and as the backend reads it.
use hm_cuda.Prelude.{arith, ℕ, ◌≡◌, List, [], Option, none, some}
use hm_cuda.Command.{Request, runtime, driver, unknown, RuntimeRequest, DriverRequest}
use hm_cuda.Wire.RuntimeRequests.{runtime_cmd_type}
use hm_cuda.Wire.DriverRequests.{driver_cmd_type}
use hm_cuda.Wire.RuntimeRequests.Decode.{runtime_decode}
use hm_cuda.Wire.DriverRequests.Decode.{driver_decode}
use hm_cuda.Wire.RuntimeRequests.RoundTrip.{
  runtime_encode, IsRuntimeEncodable, runtime_decode-encode,
}
use hm_cuda.Wire.DriverRequests.RoundTrip.{driver_encode, IsDriverEncodable, driver_decode-encode}

unfoldable pub cmd_type : Request → ℕ
unfolding runtime_cmd_type driver_cmd_type
cmd_type (runtime r) = runtime_cmd_type r
cmd_type (driver r) = driver_cmd_type r
cmd_type (unknown cmd) = cmd

-- The payload of a request.
unfoldable pub encode : ℕ → Request → List ℕ
unfolding runtime_encode driver_encode
encode filler (runtime r) = runtime_encode filler r
encode filler (driver r) = driver_encode filler r
encode filler (unknown cmd) = []

unfoldable pub or_driver : ℕ → Option RuntimeRequest → Option DriverRequest → Request
or_driver cmd (some r) d = runtime r
or_driver cmd none (some d) = driver d
or_driver cmd none none = unknown cmd

-- The handlers' cases for a command number, the runtime API's first.
unfoldable pub decode : ℕ → List ℕ → Request
unfolding or_driver runtime_decode driver_decode
decode cmd bytes = or_driver cmd (runtime_decode cmd bytes) (driver_decode cmd bytes)

-- The requests whose numbers have the width of their members, and whose nested structs and arrays
-- have the length of theirs.
abbrev pub IsEncodable : Request → Type 0
IsEncodable (runtime r) = IsRuntimeEncodable r
IsEncodable (driver r) = IsDriverEncodable r
IsEncodable (unknown cmd) = ⊥

driver_not_runtime :
    (r : DriverRequest) (bytes : List ℕ) → runtime_decode (driver_cmd_type r) bytes ≡ none
unfolding driver_cmd_type runtime_decode
driver_not_runtime r bytes = grind arith

-- A command of either library, written as the members of its request struct with the trailing data
-- behind them, is read by the handlers as that command again, whatever the padding of the struct
-- holds, if each number has the width of its member and each nested array its length.
pub decode-encode :
    (filler : ℕ) (r : Request) → IsEncodable r → decode (cmd_type r) (encode filler r) ≡ r
unfolding decode cmd_type encode or_driver
decode-encode filler (runtime r) h = rw (runtime_decode-encode filler r h)
decode-encode filler (driver r) h =
    rw (driver_not_runtime r (driver_encode filler r), driver_decode-encode filler r h)
decode-encode filler (unknown cmd) h = absurd h
