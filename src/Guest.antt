-- ===== src/Guest.antt =====
-- guest/: the libraries that stand in for libcudart and libcuda in an application of the virtual
-- machine. The state of the process that they keep, and the actions on it.
pub mod Transport
pub mod Dispatch
pub mod Driver
pub mod DriverStreams
pub mod DriverVmm
pub mod Multicast
pub mod Memory
pub mod Copies
pub mod Runtime
pub mod RuntimeQueries
pub mod Params
pub mod Registration
pub mod Launch
pub mod Properties
pub mod Calls
pub mod Buffers
pub mod Marks
pub mod HostMem
pub mod Routes
pub mod LastError
use hm_cuda.Prelude.{ℕ, Bool, true, false, List, [], ◌∷◌, Option, none, some, ◌==◌, if◌then◌else◌}
use hm_cuda.Command.{Request}

-- A hash table: what each key maps to.
abbrev pub Table : Type 0 → Type 0
Table V = ℕ → Option V

module _ {V : Type 0} where
  abbrev pub insert : ℕ → V → Table V → Table V
  insert k v t j = if j == k then some v else t j

  abbrev pub erase : ℕ → Table V → Table V
  erase k t j = if j == k then none else t j

-- A hash set of handles.
abbrev pub add_handle : ℕ → (ℕ → Bool) → ℕ → Bool
add_handle h set j = if j == h then true else set j

abbrev pub erase_handle : ℕ → (ℕ → Bool) → ℕ → Bool
erase_handle h set j = if j == h then false else set j

-- enum TransportType.
pub data TransportType : Type 0 where
  transport_virtio transport_rpc : TransportType

pub record HostMemEntry : Type 0 where
  pub size : ℕ
  pub gpu_dirty : Bool

pub record FuncInfo : Type 0 where
  pub handle : ℕ
  pub param_count : ℕ
  pub param_total_size : ℕ

-- One ioctl: the request, and the length of the buffer that the kernel module reads it from and
-- writes the response to.
pub record Submission : Type 0 where
  pub request : Request
  pub buffer_len : ℕ

-- What the kernel module wrote: the header's error, and the members of the response struct in their
-- order, with the bytes that follow the struct behind them.
pub record Answer : Type 0 where
  pub cuda_error : ℕ
  pub member : ℕ → ℕ

-- The globals of the three libraries, the blocks of the C heap that are theirs, and the ioctls made,
-- newest first. A descriptor that is negative is `none`.
pub record Process : Type 0 where
  pub transport : TransportType
  pub fd : Option ℕ
  pub host_mem : Table HostMemEntry
  pub device_handles : ℕ → Bool
  pub driver_initialized : Bool
  pub func_map : Table FuncInfo
  pub last_error : ℕ
  pub heap : ℕ → Bool
  pub sent : List Submission

-- The rest of the machine, which answers from the ioctls made before: whether HMCUDA_TRANSPORT is
-- "rpc", opening the device, the ioctl (`none` where it returns a negative number), and malloc (0 is
-- NULL).
pub record System : Type 0 where
  pub rpc_wanted : Bool
  pub open_device : List Submission → Option ℕ
  pub ioctl : List Submission → Submission → Option Answer
  pub malloc : List Submission → ℕ → ℕ

abbrev pub G : Type 0 → Type 0
G A = Process → A × Process

pub data Done : Type 0 where
  done : Done

module _ {A : Type 0} where
  abbrev pub pure : A → G A
  pure a p = (a, p)

infixl 5 ◌>>=◌ ◌>>◌
abbrev pub ◌>>=◌ : {A B : Type 0} → G A → (A → G B) → G B
◌>>=◌ m f p = f (m p).0 (m p).1

abbrev pub ◌>>◌ : {A B : Type 0} → G A → G B → G B
m >> k = m >>= λ _. k

abbrev pub modify : (Process → Process) → G Done
modify f p = (done, f p)

-- A status with the value written through an out-parameter; `none` where nothing is written.
abbrev pub Status : Type 0
Status = ℕ × Option ℕ
