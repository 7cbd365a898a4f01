-- ===== src/Guest/Transport.antt =====
-- guest/transport/hmcuda_transport.cpp: the way to the kernel module, and the registry of the buffers
-- of cuMemHostAlloc.
use hm_cuda.Prelude.{ℕ, Bool, true, false, ◌∷◌, Option, none, some, ltb, ◌==◌, if◌then◌else◌, add64}
use hm_cuda.Command.{Request, driver, cu_memcpy}
use hm_cuda.Wire.{sizeof}
use hm_cuda.Wire.Types.{hmcuda_req_header, hmcuda_resp_header}
use hm_cuda.Wire.Runtime.{hmcuda_memcpy_req}
use hm_cuda.Guest.{
  HostMemEntry, transport_virtio, transport_rpc, TransportType, Submission, Answer, Process, System,
  G, Done, done, modify, insert, erase,
}

unfoldable pub hmcuda_transport_init : System → G Done
hmcuda_transport_init sys p =
    if sys.rpc_wanted
    then (done, record p { transport = transport_rpc })
    else elim p.fd [ some fd ↦ (done, p) | none ↦ (done, record p { fd = sys.open_device p.sent }) ]

unfoldable pub hmcuda_transport_fini : G Done
hmcuda_transport_fini p = (done, record p { fd = none })

unfoldable pub hmcuda_transport_ready : G Bool
hmcuda_transport_ready p = (
  elim p.fd [
    | some fd ↦ true
    | none ↦ elim p.transport [ transport_rpc ↦ true | transport_virtio ↦ false ]
  ],
  p,
)

-- The length of the buffer: the header and the longer of the two payloads.
unfoldable pub total_len : ℕ → ℕ → ℕ
total_len req_len resp_len =
    let len =
      add64 (sizeof hmcuda_req_header) (if ltb resp_len req_len then req_len else resp_len) in
    let least = add64 (sizeof hmcuda_resp_header) resp_len in if ltb len least then least else len

-- What a dispatch gives: its error, and where that is 0 the members of the response.
abbrev pub Reply : Type 0
Reply = ℕ × Option (ℕ → ℕ)

unfoldable pub reply : Option Answer → Reply
reply none = (1, none)
reply (some a) = if a.cuda_error == 0 then (0, some a.member) else (a.cuda_error, none)

-- With a device: the ioctl.
unfoldable pub submit : System → Submission → G Reply
unfolding reply
submit sys sub p = (reply (sys.ioctl p.sent sub), record p { sent = sub ∷ p.sent })

unfoldable pub dispatch_over : TransportType → Option ℕ → System → Submission → G Reply
unfolding submit
dispatch_over transport_rpc fd sys sub p = ((1, none), p)
dispatch_over transport_virtio none sys sub p = ((3, none), p)
dispatch_over transport_virtio (some fd) sys sub p = submit sys sub p

unfoldable pub hmcuda_transport_dispatch : System → Request → ℕ → ℕ → G Reply
unfolding dispatch_over total_len
hmcuda_transport_dispatch sys r req_len resp_len p =
    dispatch_over p.transport p.fd sys
      (record { request = r; buffer_len = total_len req_len resp_len }) p

unfoldable pub hmcuda_transport_host_mem_register : ℕ → ℕ → G Done
hmcuda_transport_host_mem_register guest_va n =
    modify λ p. record p {
      host_mem = insert guest_va (record { size = n; gpu_dirty = false }) p.host_mem;
    }

unfoldable pub hmcuda_transport_host_mem_unregister : ℕ → G Done
hmcuda_transport_host_mem_unregister guest_va =
    modify λ p. record p { host_mem = erase guest_va p.host_mem }

-- The size and the flag of what was found.
unfoldable pub size_of : Option HostMemEntry → ℕ
size_of none = 0
size_of (some e) = e.size

unfoldable pub dirty_of : Option HostMemEntry → Bool
dirty_of none = false
dirty_of (some e) = e.gpu_dirty

unfoldable pub hmcuda_transport_host_mem_size : ℕ → G ℕ
unfolding size_of
hmcuda_transport_host_mem_size guest_va p = (size_of (p.host_mem guest_va), p)

-- The flag of an entry that was found.
unfoldable pub set_flag : Bool → ℕ → Option HostMemEntry → Process → Process
set_flag b va none p = p
set_flag b va (some e) p = record p { host_mem = insert va (record e { gpu_dirty = b }) p.host_mem }

-- Sets the flag of a buffer, if there is one.
unfoldable pub set_gpu_dirty : Bool → ℕ → Process → Process
unfolding set_flag
set_gpu_dirty b va p = set_flag b va (p.host_mem va) p

unfoldable pub hmcuda_transport_mark_gpu_dirty : ℕ → G Done
unfolding set_gpu_dirty
hmcuda_transport_mark_gpu_dirty guest_va = modify (set_gpu_dirty true guest_va)

unfoldable pub hmcuda_transport_is_gpu_dirty : ℕ → G Bool
unfolding dirty_of
hmcuda_transport_is_gpu_dirty guest_va p = (dirty_of (p.host_mem guest_va), p)

unfoldable pub hmcuda_transport_clear_gpu_dirty : ℕ → G Done
unfolding set_gpu_dirty
hmcuda_transport_clear_gpu_dirty guest_va = modify (set_gpu_dirty false guest_va)

-- The copy of a whole buffer to its pinned twin on the host. The source leaves the stream of this
-- request unset: `stream` is what the stack holds.
abbrev pub sync_request : ℕ → ℕ → ℕ → Request
sync_request stream va n =
    driver (cu_memcpy (record { dst = va; src = va; count = n; kind = 1; stream = stream }))

-- A buffer that was found is copied, unless its flag is set.
unfoldable pub sync_entry : System → ℕ → ℕ → Option HostMemEntry → Process → Process
unfolding hmcuda_transport_dispatch
sync_entry sys stream va none p = p
sync_entry sys stream va (some e) p =
    if e.gpu_dirty
    then p
    else (hmcuda_transport_dispatch sys (sync_request stream va e.size) (sizeof hmcuda_memcpy_req) 0
        p).1

unfoldable pub hmcuda_transport_sync_host_mem_arg : System → ℕ → ℕ → G Done
unfolding sync_entry
hmcuda_transport_sync_host_mem_arg sys stream va =
    modify λ p. sync_entry sys stream va (p.host_mem va) p
