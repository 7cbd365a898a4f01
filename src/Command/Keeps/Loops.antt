-- ===== src/Command/Keeps/Loops.antt =====
-- The copy handlers of host/vhost/cmd_runtime.c and cmd_driver.c keep what the state changes keep.
use hm_cuda.Prelude.{ℕ, List, [], ◌∷◌}
use hm_cuda.Cuda.{Environment}
use hm_cuda.Backend.{Backend, M}
use hm_cuda.Backend.Keeps.{Keeps}
use hm_cuda.Core.Stable.{Stable}
use hm_cuda.Core.Stable.Reads.{read_rules}
use hm_cuda.Core.Stable.Runtime.{
  Keeps-memcpy, Keeps-runtime_memcpy_htod_vq, Keeps-stream_synchronize,
}
use hm_cuda.Core.Stable.Driver.{Keeps-memcpy_htod_vq, Keeps-memcpy_dtoh_vq, Keeps-host_alloc_vq}
use hm_cuda.Command.{Iov, Element, MemcpyReq, HostAllocReq}
use hm_cuda.Command.Loops.{
  chunk_of, copy_loop, memcpy_htod, memcpy_dtoh, handle_memcpy, cu_memcpy_htod, cu_memcpy_dtoh,
  handle_cu_memcpy, host_alloc_loop, handle_cu_mem_host_alloc,
}
use hm_cuda.Prelude.{add64}

module _ {P : Backend → Type 0} where
  Keeps-copy_loop :
      (op : ℕ → ℕ → ℕ → M ℕ)
      → ((a p n : ℕ) → Keeps P (op a p n))
      → (start count offset : ℕ) (vs : List Iov) → Keeps P (copy_loop op start count offset vs)
  unfolding copy_loop
  Keeps-copy_loop op k start count offset [] = search read_rules
  Keeps-copy_loop op k start count offset (v ∷ vs) =
      let rest = Keeps-copy_loop op k start count (add64 offset (chunk_of count offset v.len)) vs in
      search (read_rules, k) depth 8

module _ {env : Environment} {sid vid : ℕ} {P : Backend → Type 0} (k : Stable env sid vid P) where
  pub Keeps-handle_memcpy :
      (elem : Element) (req : MemcpyReq) → Keeps P (handle_memcpy env sid vid elem req)
  unfolding handle_memcpy memcpy_htod memcpy_dtoh
  Keeps-handle_memcpy elem req =
      let copies = Keeps-memcpy k in
      let sends = Keeps-runtime_memcpy_htod_vq k in
      let waits = Keeps-stream_synchronize k in
      search (read_rules, k.performs, copies, sends, waits, Keeps-copy_loop) depth 16

  pub Keeps-handle_cu_memcpy :
      (elem : Element) (req : MemcpyReq) → Keeps P (handle_cu_memcpy env sid vid elem req)
  unfolding handle_cu_memcpy cu_memcpy_htod cu_memcpy_dtoh
  Keeps-handle_cu_memcpy elem req =
      let sends = Keeps-memcpy_htod_vq k in
      let fetches = Keeps-memcpy_dtoh_vq k in
      search (read_rules, sends, fetches, Keeps-copy_loop) depth 16

  Keeps-host_alloc_loop :
      (req : HostAllocReq) (size offset : ℕ) (vs : List Iov)
      → Keeps P (host_alloc_loop env sid vid req size offset vs)
  unfolding host_alloc_loop
  Keeps-host_alloc_loop req size offset [] = search read_rules
  Keeps-host_alloc_loop req size offset (v ∷ vs) =
      let rest = Keeps-host_alloc_loop req size (add64 offset v.len) vs in
      let allocates = Keeps-host_alloc_vq k in search (read_rules, allocates) depth 8

  pub Keeps-handle_cu_mem_host_alloc :
      (elem : Element) (req : HostAllocReq)
      → Keeps P (handle_cu_mem_host_alloc env sid vid elem req)
  unfolding handle_cu_mem_host_alloc
  Keeps-handle_cu_mem_host_alloc elem req = search (read_rules, Keeps-host_alloc_loop) depth 8
