-- ===== src/Core/Stable/Driver.antt =====
-- Every operation of host/vhost/core_driver.c keeps what the state changes keep.
use hm_cuda.Prelude.{ℕ}
use hm_cuda.Cuda.{Environment, Reply}
use hm_cuda.Backend.{Backend}
use hm_cuda.Backend.Keeps.{Keeps}
use hm_cuda.Core.Sessions.{hmcuda_core_cu_device_primary_ctx_retain, keep_primary, retry_retain}
use hm_cuda.Core.Alloc.{copy_batch, register_pinned, hmcuda_core_cu_mem_host_alloc_vq}
use hm_cuda.Core.Copy.{fill_pinned, hmcuda_core_cu_memcpy_htod_vq, hmcuda_core_cu_memcpy_dtoh_vq}
use hm_cuda.Core.Stable.{Stable}
use hm_cuda.Core.Stable.Reads.{read_rules, Keeps-register_guest_memory}

module _ {env : Environment} {sid vid : ℕ} {P : Backend → Type 0} (k : Stable env sid vid P) where
  Keeps-keep_primary : (d : ℕ) (r : Reply) → Keeps P (keep_primary env sid vid d r)
  unfolding keep_primary
  Keeps-keep_primary d r =
      let registers = Keeps-register_guest_memory k in search (read_rules, k.adds) depth 10

  Keeps-retry_retain : (d : ℕ) → Keeps P (retry_retain env sid vid d)
  unfolding retry_retain
  Keeps-retry_retain d =
      let renews = k.renews in search (read_rules, k.performs, Keeps-keep_primary) depth 12

  pub Keeps-retain : (d : ℕ) → Keeps P (hmcuda_core_cu_device_primary_ctx_retain env sid vid d)
  unfolding hmcuda_core_cu_device_primary_ctx_retain
  Keeps-retain d = search (read_rules, k.performs, Keeps-keep_primary, Keeps-retry_retain) depth 12

  pub Keeps-host_alloc_vq :
      (bytesize flags va offset p n : ℕ)
      → Keeps P (hmcuda_core_cu_mem_host_alloc_vq env sid vid bytesize flags va offset p n)
  unfolding hmcuda_core_cu_mem_host_alloc_vq copy_batch register_pinned
  Keeps-host_alloc_vq bytesize flags va offset p n =
      search (read_rules, k.performs, k.copies, k.adds_with_handle) depth 20

  pub Keeps-memcpy_htod_vq :
      (dst p n stream : ℕ) → Keeps P (hmcuda_core_cu_memcpy_htod_vq env sid vid dst p n stream)
  unfolding hmcuda_core_cu_memcpy_htod_vq fill_pinned
  Keeps-memcpy_htod_vq dst p n stream =
      search (read_rules, k.performs, k.copies, k.copies_buffer) depth 20

  pub Keeps-memcpy_dtoh_vq :
      (src p n stream : ℕ) → Keeps P (hmcuda_core_cu_memcpy_dtoh_vq env sid vid src p n stream)
  unfolding hmcuda_core_cu_memcpy_dtoh_vq
  Keeps-memcpy_dtoh_vq src p n stream = search (read_rules, k.performs, k.copies) depth 16
