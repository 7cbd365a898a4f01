-- ===== src/Command/Loops.antt =====
-- The copy handlers of host/vhost/cmd_runtime.c and cmd_driver.c, which walk the scatter lists.
use hm_cuda.Prelude.{
  ℕ, ◌-◌, ◌%◌, ◌^◌, true, List, [], ◌∷◌, ltb, leb, ◌==◌, ◌||◌, if◌then◌else◌, add64, sub64, length,
}
use hm_cuda.Cuda.{Environment, vu_gpa_to_va}
use hm_cuda.Backend.{M, pure, ◌>>=◌, perform}
use hm_cuda.Core.Runtime.{
  hmcuda_core_memcpy, hmcuda_core_runtime_memcpy_htod_vq, hmcuda_core_stream_synchronize,
}
use hm_cuda.Core.Copy.{hmcuda_core_cu_memcpy_htod_vq, hmcuda_core_cu_memcpy_dtoh_vq}
use hm_cuda.Core.Alloc.{hmcuda_core_cu_mem_host_alloc_vq}
use hm_cuda.Command.{Iov, Element, total, MemcpyReq, HostAllocReq, Response, status_only}

-- All but the first entry, and all but the last.
abbrev pub data_out : List Iov → List Iov
data_out [] = []
data_out (v ∷ vs) = vs

abbrev pub data_in : List Iov → List Iov
data_in [] = []
data_in (v ∷ []) = []
data_in (v ∷ w ∷ vs) = v ∷ data_in (w ∷ vs)

-- What is left of `count`, at most the entry.
abbrev pub chunk_of : ℕ → ℕ → ℕ → ℕ
chunk_of count offset len = if ltb count (add64 offset len) then count - offset else len

-- One call for each entry until `count` bytes are passed on, at `start` and on; the first error ends
-- the loop and is the result.
unfoldable pub copy_loop : (ℕ → ℕ → ℕ → M ℕ) → ℕ → ℕ → ℕ → List Iov → M ℕ
copy_loop op start count offset [] = pure 0
copy_loop op start count offset (v ∷ vs) =
    if ltb offset count
    then (do
      let chunk = chunk_of count offset v.len
      e ← op (add64 start offset) v.base chunk
      if e == 0 then copy_loop op start count (add64 offset chunk) vs else pure e)
    else pure 0

module _ (env : Environment) (sid vid : ℕ) where
  unfoldable pub memcpy_htod : Element → MemcpyReq → M ℕ
  memcpy_htod elem req =
      if req.src == 0
      then (if leb 2 (length elem.out_sg)
          then (if leb req.count (sub64 (total elem.out_sg % 2 ^ 64) 48)
              then copy_loop
                  (λ dst base n.
                    hmcuda_core_runtime_memcpy_htod_vq env sid vid dst base n req.stream)
                  req.dst req.count 0 (data_out elem.out_sg)
              else pure 1)
          else pure 1)
      else do
        t ← perform env (vu_gpa_to_va req.src req.count)
        if t.out 0 == 0 || ltb (t.out 1) req.count
            then pure 1
            else hmcuda_core_memcpy env sid vid req.dst 0 req.count req.kind (t.out 0) req.stream

  -- After the last chunk the stream is waited for.
  unfoldable pub memcpy_dtoh : Element → MemcpyReq → M ℕ
  memcpy_dtoh elem req =
      if req.dst == 0
      then (if leb 2 (length elem.in_sg)
          then (if leb req.count (total (data_in elem.in_sg) % 2 ^ 64)
              then (do
                e ←
                    copy_loop
                      (λ src base n.
                        hmcuda_core_memcpy env sid vid 0 src n req.kind base req.stream)
                      req.src req.count 0 (data_in elem.in_sg)
                if e == 0 then hmcuda_core_stream_synchronize env sid vid req.stream else pure e)
              else pure 1)
          else pure 1)
      else do
        t ← perform env (vu_gpa_to_va req.dst req.count)
        if t.out 0 == 0 || ltb (t.out 1) req.count then pure 1 else do
          e ← hmcuda_core_memcpy env sid vid 0 req.src req.count req.kind (t.out 0) req.stream
          if e == 0 then hmcuda_core_stream_synchronize env sid vid req.stream else pure e

  -- Only a device-to-host copy through the virtqueue sets `d2h_virtqueue`.
  unfoldable pub handle_memcpy : Element → MemcpyReq → M Response
  unfolding memcpy_htod memcpy_dtoh
  handle_memcpy elem req =
      if req.kind == 1
      then (do e ← memcpy_htod elem req; pure (status_only e))
      else if req.kind == 2
      then (do
        e ← memcpy_dtoh elem req
        pure (record { cuda_error = e; payload = []; d2h_virtqueue = req.dst == 0 }))
      else (do
        e ← hmcuda_core_memcpy env sid vid req.dst req.src req.count req.kind 0 req.stream
        pure (status_only e))

  unfoldable pub cu_memcpy_htod : Element → MemcpyReq → M ℕ
  cu_memcpy_htod elem req =
      if leb 2 (length elem.out_sg)
      then (if leb req.count (sub64 (total elem.out_sg % 2 ^ 64) 48)
          then copy_loop
              (λ dst base n. hmcuda_core_cu_memcpy_htod_vq env sid vid dst base n req.stream)
              req.dst req.count 0 (data_out elem.out_sg)
          else pure 1)
      else pure 1

  unfoldable pub cu_memcpy_dtoh : Element → MemcpyReq → M ℕ
  cu_memcpy_dtoh elem req =
      if leb 2 (length elem.in_sg)
      then (if leb req.count (total (data_in elem.in_sg) % 2 ^ 64)
          then copy_loop
              (λ src base n. hmcuda_core_cu_memcpy_dtoh_vq env sid vid src base n req.stream)
              req.src req.count 0 (data_in elem.in_sg)
          else pure 1)
      else pure 1

  unfoldable pub handle_cu_memcpy : Element → MemcpyReq → M Response
  unfolding cu_memcpy_htod cu_memcpy_dtoh
  handle_cu_memcpy elem req =
      if req.kind == 1
      then (do e ← cu_memcpy_htod elem req; pure (status_only e))
      else if req.kind == 2
      then (do
        e ← cu_memcpy_dtoh elem req
        pure (record { cuda_error = e; payload = []; d2h_virtqueue = true }))
      else pure (status_only 1)

  -- The offset runs with the batch; entries are passed on whole.
  unfoldable pub host_alloc_loop : HostAllocReq → ℕ → ℕ → List Iov → M ℕ
  host_alloc_loop req batch_size offset [] = pure 0
  host_alloc_loop req batch_size offset (v ∷ vs) =
      if ltb offset batch_size
      then (do
        e ←
            hmcuda_core_cu_mem_host_alloc_vq env sid vid req.bytesize req.flags req.guest_va
              (add64 req.byte_offset offset) v.base v.len
        if e == 0 then host_alloc_loop req batch_size (add64 offset v.len) vs else pure e)
      else pure 0

  unfoldable pub handle_cu_mem_host_alloc : Element → HostAllocReq → M Response
  unfolding host_alloc_loop
  handle_cu_mem_host_alloc elem req =
      if leb 2 (length elem.out_sg)
      then (do
        e ← host_alloc_loop req (sub64 (total elem.out_sg % 2 ^ 64) 40) 0 (data_out elem.out_sg)
        pure (status_only e))
      else pure (status_only 1)
