-- ===== src/Guest/Buffers.antt =====
-- The buffers that the guest's libraries hand to the ioctl, held against what the kernel module reads
-- from them and writes to them by its size tables.
pub mod Driver
pub mod Memory
pub mod Runtime
pub mod Calls
pub mod Ioctl
use hm_cuda.Prelude.{
  ℕ, ◌+◌, ◌*◌, ◌%◌, ◌^◌, ◌≤◌, ◌<◌, ◌≡◌, Bool, true, false, List, [], ◌∷◌, Option, none, some, All,
  if◌then◌else◌, arith,
}
use hm_cuda.Command.{Request}
use hm_cuda.Kernel.Sizes.{hmcuda_cmd_get_sizes}
use hm_cuda.Wire.{Struct, sizeof}
use hm_cuda.Guest.{
  TransportType, transport_virtio, transport_rpc, Submission, Process, System, G, Done, done, pure,
  ◌>>=◌, ◌>>◌,
}
use hm_cuda.Guest.Transport.{
  Reply, total_len, dispatch_over, submit, hmcuda_transport_dispatch, hmcuda_transport_init,
  hmcuda_transport_ready,
}
use hm_cuda.Guest.Dispatch.{hmcuda_forward, hmcuda_forward_resp}

-- The payload that the kernel module copies in, and the one that it copies out.
abbrev pub copied_in : Request → ℕ
copied_in r = elim (hmcuda_cmd_get_sizes true r) [ none ↦ 0 | some z ↦ z.req_size ]

abbrev pub copied_out : Request → ℕ
copied_out r = elim (hmcuda_cmd_get_sizes false r) [ none ↦ 0 | some z ↦ z.resp_size ]

-- The buffer holds the header and either payload.
abbrev pub IsRoomy : Submission → Type 0
IsRoomy sub =
    (8 + copied_in sub.request ≤ sub.buffer_len) × (8 + copied_out sub.request ≤ sub.buffer_len)

-- The lengths given to a dispatch cover the payloads, and are no lengths that wrap.
abbrev pub HasRoom : Request → ℕ → ℕ → Type 0
HasRoom r q m = (copied_in r ≤ q) × (copied_out r ≤ m) × (q < 2 ^ 63) × (m < 2 ^ 63)

abbrev pub AllRoomy : Process → Type 0
AllRoomy p = All IsRoomy p.sent

-- An action after which all buffers are large enough if they were before.
abbrev pub Keeps : {A : Type 0} → G A → Type 0
Keeps m = (p : Process) → AllRoomy p → AllRoomy (m p).1

total_len-IsRoomy :
    (r : Request) (q m : ℕ)
    → HasRoom r q m
    → IsRoomy (record { request = r; buffer_len = total_len q m })
unfolding total_len
total_len-IsRoomy r q m h = (ground (arith, h.0, h.1, h.2, h.3), ground (arith, h.0, h.1, h.2, h.3))

over-AllRoomy :
    (t : TransportType) (fd : Option ℕ) (sys : System) (sub : Submission) (p : Process)
    → IsRoomy sub
    → AllRoomy p
    → AllRoomy (dispatch_over t fd sys sub p).1
unfolding dispatch_over submit
over-AllRoomy transport_rpc fd sys sub p r h = h
over-AllRoomy transport_virtio none sys sub p r h = h
over-AllRoomy transport_virtio (some fd) sys sub p r h = (r, h)

pub transport_dispatch-Keeps :
    (sys : System) (r : Request) (q m : ℕ)
    → HasRoom r q m
    → Keeps (hmcuda_transport_dispatch sys r q m)
unfolding hmcuda_transport_dispatch
transport_dispatch-Keeps sys r q m room p h =
    over-AllRoomy p.transport p.fd sys _ p (total_len-IsRoomy r q m room) h

pub transport_init-Keeps : (sys : System) → Keeps (hmcuda_transport_init sys)
unfolding hmcuda_transport_init
transport_init-Keeps sys p h = ground arith

-- The two macros, over a dispatch that keeps the buffers large enough.
module _ (fn : Request → ℕ → ℕ → G Reply)
    (fn-Keeps : (r : Request) (q m : ℕ) → HasRoom r q m → Keeps (fn r q m)) where
  pub forward-Keeps :
      (r : Request) (req : Struct) → HasRoom r (sizeof req) 0 → Keeps (hmcuda_forward fn r req)
  unfolding hmcuda_forward
  forward-Keeps r req room p h = fn-Keeps r (sizeof req) 0 room p h

  pub forward_resp-Keeps :
      (r : Request) (req resp : Struct) (given : Bool)
      → HasRoom r (sizeof req) (sizeof resp)
      → Keeps (hmcuda_forward_resp fn r req resp given)
  unfolding hmcuda_forward_resp
  forward_resp-Keeps r req resp given room p h = fn-Keeps r (sizeof req) (sizeof resp) room p h

-- A branch on a test.
pub if-AllRoomy :
    (b : Bool) (p q : Process) → AllRoomy p → AllRoomy q → AllRoomy (if b then p else q)
if-AllRoomy true p q h k = h
if-AllRoomy false p q h k = k

pub either-AllRoomy :
    {A : Type 0} (b : Bool) (x y : A × Process)
    → AllRoomy x.1
    → AllRoomy y.1
    → AllRoomy (if b then x else y).1
either-AllRoomy true x y h k = h
either-AllRoomy false x y h k = k

pub branch-Keeps :
    {A : Type 0} (b : Bool) (m n : G A) → Keeps m → Keeps n → Keeps (if b then m else n)
branch-Keeps true m n h k = h
branch-Keeps false m n h k = k
