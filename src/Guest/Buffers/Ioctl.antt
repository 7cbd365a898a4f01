-- ===== src/Guest/Buffers/Ioctl.antt =====
-- The guest's libraries and the ioctl of the kernel module, together.
use hm_cuda.Prelude.{ℕ, ◌≤◌, List, [], ◌∷◌, All, arith}
use hm_cuda.Kernel.Ioctl.{IoctlServices, hmcuda_ioctl}
use hm_cuda.Kernel.Ioctl.Returns.{written, written-ioctl}
use hm_cuda.Guest.{Submission, Process, System}
use hm_cuda.Guest.Calls.{Call, run, run_all}
use hm_cuda.Guest.Buffers.{IsRoomy, AllRoomy}
use hm_cuda.Guest.Buffers.Calls.{IsSized, run-AllRoomy}

run_all-AllRoomy :
    (sys : System) (cs : List Call) (p : Process)
    → All IsSized cs
    → AllRoomy p
    → AllRoomy (run_all sys cs p)
unfolding run_all
run_all-AllRoomy sys [] p z h = h
run_all-AllRoomy sys (c ∷ cs) p z h =
    run_all-AllRoomy sys cs (run sys c p) z.1 (run-AllRoomy sys c p z.0 h)

-- What an ioctl with a submission writes stays in its buffer.
abbrev pub StaysIn : IoctlServices → ℕ → Submission → Type 0
StaysIn k cmd sub = written (hmcuda_ioctl k cmd sub.request) ≤ sub.buffer_len

roomy-StaysIn : (k : IoctlServices) (cmd : ℕ) (sub : Submission) → IsRoomy sub → StaysIn k cmd sub
roomy-StaysIn k cmd sub h = ground (arith, written-ioctl k cmd sub.request, h.1)

All-StaysIn :
    (k : IoctlServices) (cmd : ℕ) (subs : List Submission)
    → All IsRoomy subs
    → All (StaysIn k cmd) subs
All-StaysIn k cmd [] h = tt
All-StaysIn k cmd (sub ∷ subs) h = (roomy-StaysIn k cmd sub h.0, All-StaysIn k cmd subs h.1)

-- In every program that calls the entry points with lengths in range, if the buffers of the ioctls
-- made before it hold their requests and responses,
-- whatever the kernel and the host answer, each ioctl writes no byte behind the end of the buffer
-- that it was given.
pub run_all-StaysIn :
    (sys : System) (k : IoctlServices) (cmd : ℕ) (cs : List Call) (p : Process)
    → All IsSized cs
    → All IsRoomy p.sent
    → All (StaysIn k cmd) (run_all sys cs p).sent
run_all-StaysIn sys k cmd cs p z h =
    All-StaysIn k cmd (run_all sys cs p).sent (run_all-AllRoomy sys cs p z h)
