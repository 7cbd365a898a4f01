-- ===== src/Guest/Routes.antt =====
-- Which ioctls cuMemcpyAsync makes.
use hm_cuda.Prelude.{
  ℕ, ◌≡◌, refl, ap, ◌∙◌, Bool, true, false, not, ◌&&◌, List, ◌∷◌, Option, none, some, ◌==◌,
  if◌then◌else◌,
}
use hm_cuda.Command
use hm_cuda.Command.{driver, Request}
use hm_cuda.Wire.{sizeof, Struct}
use hm_cuda.Wire.Runtime.{hmcuda_memcpy_req}
use hm_cuda.Wire.Driver.{hmcuda_cu_memcpy_async_req}
use hm_cuda.Guest.{HostMemEntry, Submission, Process, System, pure}
use hm_cuda.Guest.Transport.{
  total_len, dispatch_over, submit, reply, hmcuda_transport_dispatch, hmcuda_transport_ready,
  set_flag, set_gpu_dirty, dirty_of, hmcuda_transport_is_gpu_dirty,
  hmcuda_transport_clear_gpu_dirty,
}
use hm_cuda.Guest.Dispatch.{hmcuda_forward}
use hm_cuda.Guest.Driver.{hmcuda_drv_dispatch, drv_fwd}
use hm_cuda.Guest.Copies.{
  copy_request, hmcuda_sync_dirty_host_src_to_guest, host_to_device, device_to_host,
  device_to_device, cu_memcpy_async,
}
use hm_cuda.Guest.Marks.{connected, with_sent}

abbrev pub copy_submission : ℕ → ℕ → ℕ → ℕ → ℕ → Submission
copy_submission kind dst src n stream = record {
  request = copy_request kind dst src n stream;
  buffer_len = total_len (sizeof hmcuda_memcpy_req) 0;
}

abbrev pub async_submission : ℕ → ℕ → ℕ → ℕ → Submission
async_submission dst src n stream = record {
  request = driver (Command.cu_memcpy_async dst src n stream);
  buffer_len = total_len (sizeof hmcuda_cu_memcpy_async_req) 0;
}

-- What is submitted on top of `old`, by whether the source and the destination are device handles,
-- whether the device may have written the source, and the error of bringing the source back.
unfoldable pub route : ℕ → ℕ → ℕ → ℕ → Bool → Bool → Bool → ℕ → List Submission → List Submission
unfolding total_len
route dst src n stream false true false err old = copy_submission 1 dst src n stream ∷ old
route dst src n stream false true true err old =
    if err == 0
    then copy_submission 1 dst src n stream ∷ copy_submission 2 src src n stream ∷ old
    else copy_submission 2 src src n stream ∷ old
route dst src n stream true false dirty err old = copy_submission 2 dst src n stream ∷ old
route dst src n stream true true dirty err old = async_submission dst src n stream ∷ old
route dst src n stream false false dirty err old = async_submission dst src n stream ∷ old

-- With the device open a forwarded call makes its ioctl, and gives its error.
drv_fwd_lem :
    (sys : System) (r : Request) (req : Struct) (fd : ℕ) (p : Process)
    → drv_fwd sys r req (connected fd p) ≡ (
      (reply (sys.ioctl p.sent (record { request = r; buffer_len = total_len (sizeof req) 0 }))).0,
      connected fd
          (with_sent p (record { request = r; buffer_len = total_len (sizeof req) 0 } ∷ p.sent)),
    )
unfolding drv_fwd hmcuda_forward hmcuda_drv_dispatch hmcuda_transport_ready
    hmcuda_transport_dispatch dispatch_over submit
drv_fwd_lem sys r req fd p = refl

sent-clear :
    (b : Bool) (v : ℕ) (o : Option HostMemEntry) (p : Process) → (set_flag b v o p).sent ≡ p.sent
unfolding set_flag
sent-clear b v none p = refl
sent-clear b v (some e) p = refl

clear_connected :
    (v fd : ℕ) (o : Option HostMemEntry) (p : Process)
    → set_flag false v o (connected fd p) ≡ connected fd (set_flag false v o p)
unfolding set_flag
clear_connected v fd none p = refl
clear_connected v fd (some e) p = refl

-- A copy after the flag of its source was cleared.
sent-cleared :
    (sys : System) (dst src n stream fd : ℕ) (p : Process)
    → (drv_fwd sys
        (copy_request 1 dst src n stream)
        hmcuda_memcpy_req
        (set_gpu_dirty false src (connected fd p))).1.sent
      ≡ copy_submission 1 dst src n stream ∷ p.sent
unfolding set_gpu_dirty
sent-cleared sys dst src n stream fd p =
    let r = copy_request 1 dst src n stream in
    let o = p.host_mem src in
    ap (λ q. (drv_fwd sys r hmcuda_memcpy_req q).1.sent) (clear_connected src fd o p)
    ∙ ap (λ q. q.1.sent) (drv_fwd_lem sys r hmcuda_memcpy_req fd (set_flag false src o p))
    ∙ ap (λ subs. copy_submission 1 dst src n stream ∷ subs) (sent-clear false src o p)

-- The error of bringing the source back.
abbrev pub sync_error : System → ℕ → ℕ → ℕ → Process → ℕ
sync_error sys src n stream p = (reply (sys.ioctl p.sent (copy_submission 2 src src n stream))).0

sent-after_sync :
    (sys : System) (dst src n stream fd : ℕ) (p : Process) (b : Bool)
    → (sync_error sys src n stream p == 0) ≡ b
    → (let q = hmcuda_sync_dirty_host_src_to_guest sys src n stream (connected fd p) in
        (if q.0 == 0
            then drv_fwd sys (copy_request 1 dst src n stream) hmcuda_memcpy_req
            else pure q.0)
          q.1).1.sent
      ≡ (if b
          then copy_submission 1 dst src n stream ∷ copy_submission 2 src src n stream ∷ p.sent
          else copy_submission 2 src src n stream ∷ p.sent)
unfolding hmcuda_sync_dirty_host_src_to_guest hmcuda_transport_clear_gpu_dirty drv_fwd
    hmcuda_forward hmcuda_drv_dispatch hmcuda_transport_ready hmcuda_transport_dispatch
    dispatch_over submit total_len
sent-after_sync sys dst src n stream fd p true ok = rw ok (
    sent-cleared sys dst src n stream fd
      (with_sent p (copy_submission 2 src src n stream ∷ p.sent)))
sent-after_sync sys dst src n stream fd p false failed = rw failed refl

sent-host_to_device :
    (sys : System) (dst src n stream fd : ℕ) (p : Process) (b : Bool)
    → dirty_of (p.host_mem src) ≡ b
    → (host_to_device sys dst src n stream (connected fd p)).1.sent
      ≡ route dst src n stream false true b (sync_error sys src n stream p) p.sent
unfolding host_to_device hmcuda_transport_is_gpu_dirty route
sent-host_to_device sys dst src n stream fd p true dirty =
    rw dirty (sent-after_sync sys dst src n stream fd p (sync_error sys src n stream p == 0) refl)
sent-host_to_device sys dst src n stream fd p false clean =
    rw clean (
      ap (λ q. q.1.sent) (drv_fwd_lem sys (copy_request 1 dst src n stream) hmcuda_memcpy_req fd p))

sent-device_to_host :
    (sys : System) (dst src n stream fd : ℕ) (p : Process)
    → (device_to_host sys dst src n stream (connected fd p)).1.sent
      ≡ copy_submission 2 dst src n stream ∷ p.sent
unfolding device_to_host hmcuda_transport_clear_gpu_dirty set_gpu_dirty
sent-device_to_host sys dst src n stream fd p =
    let q = drv_fwd sys (copy_request 2 dst src n stream) hmcuda_memcpy_req (connected fd p) in
    sent-clear false dst (q.1.host_mem dst) q.1
    ∙ ap (λ q. q.1.sent) (drv_fwd_lem sys (copy_request 2 dst src n stream) hmcuda_memcpy_req fd p)

sent-device_to_device :
    (sys : System) (dst src n stream fd : ℕ) (p : Process)
    → (device_to_device sys dst src n stream (connected fd p)).1.sent
      ≡ async_submission dst src n stream ∷ p.sent
unfolding device_to_device
sent-device_to_device sys dst src n stream fd p =
    ap (λ q. q.1.sent)
      (drv_fwd_lem sys (driver (Command.cu_memcpy_async dst src n stream))
        hmcuda_cu_memcpy_async_req fd p)

sent-directed :
    (sys : System) (dst src n stream fd : ℕ) (p : Process) (b c : Bool)
    → (if not b && c
        then host_to_device sys dst src n stream (connected fd p)
        else if b && not c
        then device_to_host sys dst src n stream (connected fd p)
        else device_to_device sys dst src n stream (connected fd p)).1.sent
      ≡ route dst src n stream b c
          (dirty_of (p.host_mem src))
          (sync_error sys src n stream p)
          p.sent
unfolding route
sent-directed sys dst src n stream fd p true true = sent-device_to_device sys dst src n stream fd p
sent-directed sys dst src n stream fd p false false =
    sent-device_to_device sys dst src n stream fd p
sent-directed sys dst src n stream fd p true false = sent-device_to_host sys dst src n stream fd p
sent-directed sys dst src n stream fd p false true =
    sent-host_to_device sys dst src n stream fd p (dirty_of (p.host_mem src)) refl

-- With the device open, cuMemcpyAsync takes a pointer for a device address if it is a handle that was
-- handed out. Between a host source and a device destination it submits a copy of user pages to the
-- device, after one that brings the source back if the device may have written it, and only that one
-- if it fails; from a device source to a host destination it submits a copy of user pages to the
-- host; in all other cases, two host pointers among them, an asynchronous copy on the device.
pub memcpy_async-route :
    (sys : System) (dst src n stream fd : ℕ) (p : Process)
    → (cu_memcpy_async sys dst src n stream (connected fd p)).1.sent
      ≡ route dst src n stream
          (p.device_handles src)
          (p.device_handles dst)
          (dirty_of (p.host_mem src))
          (sync_error sys src n stream p)
          p.sent
unfolding cu_memcpy_async
memcpy_async-route sys dst src n stream fd p =
    sent-directed sys dst src n stream fd p (p.device_handles src) (p.device_handles dst)
