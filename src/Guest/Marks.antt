-- ===== src/Guest/Marks.antt =====
-- What a launch makes of the buffers of cuMemHostAlloc among its arguments.
use hm_cuda.Prelude.{
  ℕ, ◌+◌, ◌*◌, ◌%◌, ◌^◌, Bool, false, ◌||◌, List, [], ◌∷◌, Option, none, some, ◌==◌, if◌then◌else◌,
}
use hm_cuda.Cuda.{Dim3}
use hm_cuda.Wire.{sizeof}
use hm_cuda.Wire.Runtime.{hmcuda_memcpy_req, hmcuda_launch_kernel_req}
use hm_cuda.Guest.{HostMemEntry, Table, FuncInfo, Submission, Process, transport_virtio}
use hm_cuda.Guest.Transport.{total_len, sync_request}
use hm_cuda.Guest.Launch.{launch_request}

-- A process with the device open.
abbrev pub connected : ℕ → Process → Process
connected fd p = record p { transport = transport_virtio; fd = some fd }

-- Submissions on top of those made before.
abbrev pub stack : List Submission → List Submission → List Submission
stack [] old = old
stack (x ∷ xs) old = stack xs (x ∷ old)

abbrev pub sync_submission : ℕ → ℕ → ℕ → Submission
sync_submission bits va n = record {
  request = sync_request bits va n;
  buffer_len = total_len (sizeof hmcuda_memcpy_req) 0;
}

-- The copy of a buffer that was found clean.
unfoldable pub push_one : ℕ → ℕ → Option HostMemEntry → List Submission → List Submission
unfolding total_len
push_one bits v none rest = rest
push_one bits v (some e) rest = if e.gpu_dirty then rest else sync_submission bits v e.size ∷ rest

-- The copies of the clean buffers among the arguments, whole and in order.
unfoldable pub pushed : ℕ → Table HostMemEntry → List ℕ → List Submission
unfolding push_one
pushed bits t [] = []
pushed bits t (v ∷ vs) = push_one bits v (t v) (pushed bits t vs)

abbrev pub with_sent : Process → List Submission → Process
with_sent p subs = record p { sent = subs }

-- A value is one of the arguments.
abbrev pub is_arg : ℕ → List ℕ → Bool
is_arg va [] = false
is_arg va (v ∷ vs) = (va == v) || is_arg va vs

abbrev marked : Bool → HostMemEntry → HostMemEntry
marked b e = record e { gpu_dirty = b || e.gpu_dirty }

-- The entry of a buffer after a launch with the given arguments.
abbrev pub entry_after : List ℕ → ℕ → Option HostMemEntry → Option HostMemEntry
entry_after vs va none = none
entry_after vs va (some e) = some (marked (is_arg va vs) e)

abbrev pub launch_submission : FuncInfo → Dim3 → Dim3 → Option (List ℕ) → ℕ → ℕ → Submission
launch_submission info grid block args shared_mem stream = record {
  request = launch_request info grid block args shared_mem stream;
  buffer_len = total_len (sizeof hmcuda_launch_kernel_req + info.param_count * 8 % 2 ^ 32) 0;
}
