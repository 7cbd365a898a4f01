-- ===== src/Guest/HostMem.antt =====
-- cuMemHostAlloc and cuMemFreeHost, one after the other.
use hm_cuda.Prelude.{
  ℕ, ◌≡◌, ◌≢◌, refl, sym, ap, ◌∙◌, Bool, true, false, ◌∷◌, none, some, ◌==◌, ==_ne, ==_iff, ==_refl,
  Bool-cases, inl, inr,
}
use hm_cuda.Command
use hm_cuda.Command.{driver}
use hm_cuda.Wire.{sizeof}
use hm_cuda.Wire.Driver.{hmcuda_cu_mem_host_alloc_req, hmcuda_cu_mem_free_host_req}
use hm_cuda.Guest.{
  HostMemEntry, Table, Submission, Process, System, insert, erase, add_handle, erase_handle,
}
use hm_cuda.Guest.Transport.{
  total_len, dispatch_over, submit, reply, hmcuda_transport_dispatch, hmcuda_transport_ready,
  size_of, hmcuda_transport_host_mem_size, hmcuda_transport_host_mem_register,
  hmcuda_transport_host_mem_unregister,
}
use hm_cuda.Guest.Dispatch.{hmcuda_forward}
use hm_cuda.Guest.Driver.{hmcuda_drv_dispatch, drv_fwd}
use hm_cuda.Guest.Memory.{
  host_alloc_request, pin_block, unpin_block, cu_mem_host_alloc, cu_mem_free_host,
}
use hm_cuda.Guest.Marks.{connected}

abbrev pub alloc_submission : ℕ → ℕ → ℕ → Submission
alloc_submission n flags va = record {
  request = host_alloc_request n flags va;
  buffer_len = total_len (sizeof hmcuda_cu_mem_host_alloc_req) 0;
}

abbrev pub free_submission : ℕ → Submission
free_submission va = record {
  request = driver (Command.cu_mem_free_host va);
  buffer_len = total_len (sizeof hmcuda_cu_mem_free_host_req) 0;
}

-- The process after an allocation at `va`.
abbrev allocated : ℕ → ℕ → ℕ → Process → Process
allocated n flags va p = record p {
  heap = add_handle va p.heap;
  host_mem = insert va (record { size = n; gpu_dirty = false }) p.host_mem;
  sent = alloc_submission n flags va ∷ p.sent;
}

-- And after the block is freed.
abbrev freed : ℕ → Process → Process
freed va p = record p {
  heap = erase_handle va p.heap;
  host_mem = erase va p.host_mem;
  sent = free_submission va ∷ p.sent;
}

pin_lem :
    (sys : System) (fd n flags va : ℕ) (member : ℕ → ℕ) (p : Process)
    → sys.ioctl p.sent (alloc_submission n flags va)
      ≡ some (record { cuda_error = 0; member = member })
    → pin_block sys n flags va (connected fd (record p { heap = add_handle va p.heap }))
      ≡ ((0, some va), connected fd (allocated n flags va p))
unfolding pin_block drv_fwd hmcuda_forward hmcuda_drv_dispatch hmcuda_transport_ready
    hmcuda_transport_dispatch dispatch_over submit reply hmcuda_transport_host_mem_register
    total_len
pin_lem sys fd n flags va member p granted = rw granted refl

unpin_lem :
    (sys : System) (fd va : ℕ) (p : Process)
    → (unpin_block sys va (connected fd p)).1 ≡ connected fd (freed va p)
unfolding unpin_block drv_fwd hmcuda_forward hmcuda_drv_dispatch hmcuda_transport_ready
    hmcuda_transport_dispatch dispatch_over submit hmcuda_transport_host_mem_unregister total_len
unpin_lem sys fd va p = refl

alloc_lem :
    (sys : System) (fd n flags va : ℕ) (member : ℕ → ℕ) (p : Process)
    → sys.malloc p.sent n ≡ va
    → va ≢ 0
    → sys.ioctl p.sent (alloc_submission n flags va)
      ≡ some (record { cuda_error = 0; member = member })
    → cu_mem_host_alloc sys true n flags (connected fd p)
      ≡ ((0, some va), connected fd (allocated n flags va p))
unfolding cu_mem_host_alloc
alloc_lem sys fd n flags va member p at ne granted =
    rw (at, ==_ne va 0 ne) (pin_lem sys fd n flags va member p granted)

free_lem :
    (sys : System) (fd va : ℕ) (e : HostMemEntry) (p : Process)
    → p.host_mem va ≡ some e
    → e.size ≢ 0
    → (cu_mem_free_host sys va (connected fd p)).1 ≡ connected fd (freed va p)
unfolding cu_mem_free_host hmcuda_transport_host_mem_size size_of
free_lem sys fd va e p found ne = rw (found, ==_ne e.size 0 ne) (unpin_lem sys fd va p)

erase-insert :
    (va a : ℕ) (e : HostMemEntry) (t : Table HostMemEntry)
    → t va ≡ none
    → erase va (insert va e t) a ≡ t a
erase-insert va a e t fresh = elim (Bool-cases (a == va)) [
  | inl same ↦ rw (same, (==_iff a va).0 same) (sym fresh)
  | inr other ↦ rw other refl
]

erase_handle-add_handle :
    (va a : ℕ) (set : ℕ → Bool) → set va ≡ false → erase_handle va (add_handle va set) a ≡ set a
erase_handle-add_handle va a set fresh = elim (Bool-cases (a == va)) [
  | inl same ↦ rw (same, (==_iff a va).0 same) (sym fresh)
  | inr other ↦ rw other refl
]

-- With the device open, if malloc gives a block of n > 0 bytes that is not in use and the host pins
-- it, the application gets the block, and freeing it, whatever the host answers to that, gives the
-- registry and the heap back as they were, with two ioctls made, for that block both.
pub free_host-host_alloc :
    (sys : System) (fd n flags va : ℕ) (member : ℕ → ℕ) (p : Process)
    → sys.malloc p.sent n ≡ va
    → va ≢ 0
    → n ≢ 0
    → p.host_mem va ≡ none
    → p.heap va ≡ false
    → sys.ioctl p.sent (alloc_submission n flags va)
      ≡ some (record { cuda_error = 0; member = member })
    → let q = cu_mem_host_alloc sys true n flags (connected fd p) in
      let r = (cu_mem_free_host sys va q.1).1 in
      (q.0 ≡ (0, some va))
      × ((a : ℕ) → r.host_mem a ≡ p.host_mem a)
      × ((a : ℕ) → r.heap a ≡ p.heap a)
      × (r.sent ≡ free_submission va ∷ alloc_submission n flags va ∷ p.sent)
free_host-host_alloc sys fd n flags va member p at ne ne_size fresh unused granted =
    let got = alloc_lem sys fd n flags va member p at ne granted in
    let entry : HostMemEntry = record { size = n; gpu_dirty = false } in
    let found : (allocated n flags va p).host_mem va ≡ some entry = rw (==_refl va) refl in
    let back =
      ap (λ q. (cu_mem_free_host sys va q.1).1) got
      ∙ free_lem sys fd va entry (allocated n flags va p) found ne_size in
    (
      ap (λ q. q.0) got,
      λ a. ap (λ r. r.host_mem a) back ∙ erase-insert va a entry p.host_mem fresh,
      λ a. ap (λ r. r.heap a) back ∙ erase_handle-add_handle va a p.heap unused,
      ap (λ r. r.sent) back,
    )
