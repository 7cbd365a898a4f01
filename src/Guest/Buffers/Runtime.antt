-- ===== src/Guest/Buffers/Runtime.antt =====
-- The buffers of libcudart's entry points.
use hm_cuda.Prelude.{
  not, ◌||◌, ◌==◌, ℕ, zero, suc, ◌+◌, ◌*◌, ◌%◌, ◌^◌, ◌<◌, ◌≡◌, refl, ap, Bool, true, false, List,
  [], ◌∷◌, Option, none, some, length, length-append, arith,
}
use hm_cuda.Cuda.{Dim3}
use hm_cuda.Command
use hm_cuda.Command.{runtime, Request}
use hm_cuda.Kernel.Sizes.{hmcuda_cmd_get_sizes, hmcuda_driver_get_sizes, hmcuda_runtime_get_sizes}
use hm_cuda.Wire.{Struct, sizeof}
use hm_cuda.Wire.Runtime.{
  hmcuda_memcpy_req, hmcuda_launch_kernel_req, hmcuda_register_fatbin_req,
  hmcuda_register_fatbin_resp, hmcuda_register_function_req, hmcuda_register_function_resp,
  hmcuda_func_get_attributes_req, hmcuda_func_get_attributes_resp, hmcuda_init_module_req,
}
use hm_cuda.Guest.{HostMemEntry, Status, FuncInfo, Process, System, G, pure, Done, ◌>>=◌}
use hm_cuda.Guest.Transport.{
  hmcuda_transport_dispatch, hmcuda_transport_sync_host_mem_arg, hmcuda_transport_mark_gpu_dirty,
  sync_request, sync_entry,
}
use hm_cuda.Guest.Runtime.{hmcuda_dispatch, rt_fwd, rt_fwd_resp}
use hm_cuda.Guest.Dispatch.{members, out_members}
use hm_cuda.Guest.RuntimeQueries.{
  invalid_device_function, cuda_func_get_attributes, cuda_get_kernel, cuda_init_module,
}
use hm_cuda.Guest.Registration.{
  FatBinary, FatCubin, fatbin_data, fatbin_size, name_bytes, cuda_register_fat_binary,
  cuda_register_function,
}
use hm_cuda.Guest.Launch.{
  for_args, followed, launch_request, launch, launch_found, cuda_launch_kernel,
}
use hm_cuda.Guest.Buffers.{
  HasRoom, AllRoomy, Keeps, if-AllRoomy, either-AllRoomy, transport_dispatch-Keeps, forward-Keeps,
  forward_resp-Keeps,
}
use hm_cuda.Guest.Buffers.Memory.{set_gpu_dirty-AllRoomy}

pub dispatch-Keeps :
    (sys : System) (r : Request) (q m : ℕ) → HasRoom r q m → Keeps (hmcuda_dispatch sys r q m)
unfolding hmcuda_dispatch
dispatch-Keeps sys r q m room p h = transport_dispatch-Keeps sys r q m room p h

pub rt_fwd-Keeps :
    (sys : System) (r : Request) (req : Struct)
    → HasRoom r (sizeof req) 0
    → Keeps (rt_fwd sys r req)
unfolding rt_fwd
rt_fwd-Keeps sys = forward-Keeps (hmcuda_dispatch sys) (dispatch-Keeps sys)

pub rt_fwd_resp-Keeps :
    (sys : System) (r : Request) (req resp : Struct) (given : Bool)
    → HasRoom r (sizeof req) (sizeof resp)
    → Keeps (rt_fwd_resp sys r req resp given)
unfolding rt_fwd_resp
rt_fwd_resp-Keeps sys = forward_resp-Keeps (hmcuda_dispatch sys) (dispatch-Keeps sys)

-- A look-up and what is done with its result.
abbrev pub on_found : {A B : Type 0} → Option A → B → (A → B) → B
on_found o x f = elim o [ none ↦ x | some a ↦ f a ]

pub on_found-AllRoomy :
    {A B : Type 0} (o : Option B) (x : A × Process) (f : B → A × Process)
    → AllRoomy x.1
    → ((b : B) → AllRoomy (f b).1)
    → AllRoomy (on_found o x f).1
on_found-AllRoomy none x f h k = h
on_found-AllRoomy (some b) x f h k = k b

sync_lem : (bits va n : ℕ) → HasRoom (sync_request bits va n) (sizeof hmcuda_memcpy_req) 0
unfolding hmcuda_cmd_get_sizes hmcuda_driver_get_sizes
sync_lem bits va n = ground arith

sync_entry-AllRoomy :
    (sys : System) (bits va : ℕ) (o : Option HostMemEntry) (p : Process)
    → AllRoomy p
    → AllRoomy (sync_entry sys bits va o p)
unfolding sync_entry
sync_entry-AllRoomy sys bits va none p h = h
sync_entry-AllRoomy sys bits va (some e) p h =
    let pushed =
      hmcuda_transport_dispatch sys (sync_request bits va e.size) (sizeof hmcuda_memcpy_req) 0 p in
    if-AllRoomy e.gpu_dirty p pushed.1 h (
      transport_dispatch-Keeps sys (sync_request bits va e.size) (sizeof hmcuda_memcpy_req) 0
        (sync_lem bits va e.size) p h)

sync-Keeps : (sys : System) (bits va : ℕ) → Keeps (hmcuda_transport_sync_host_mem_arg sys bits va)
unfolding hmcuda_transport_sync_host_mem_arg
sync-Keeps sys bits va p h = sync_entry-AllRoomy sys bits va (p.host_mem va) p h

for_args-Keeps : (f : ℕ → G Done) (vs : List ℕ) → ((v : ℕ) → Keeps (f v)) → Keeps (for_args f vs)
unfolding for_args
for_args-Keeps f [] k p h = h
for_args-Keeps f (v ∷ vs) k p h = for_args-Keeps f vs k (f v p).1 (k v p h)

mark-Keeps : (va : ℕ) → Keeps (hmcuda_transport_mark_gpu_dirty va)
unfolding hmcuda_transport_mark_gpu_dirty
mark-Keeps va p h = set_gpu_dirty-AllRoomy true va p h

launch_lem :
    (info : FuncInfo) (grid block : Dim3) (args : Option (List ℕ)) (m stream : ℕ)
    → HasRoom
        (launch_request info grid block args m stream)
        (sizeof hmcuda_launch_kernel_req + info.param_count * 8 % 2 ^ 32)
        0
unfolding hmcuda_cmd_get_sizes hmcuda_runtime_get_sizes
launch_lem info grid block args m stream = ground arith

launch-Keeps :
    (sys : System) (bits : ℕ) (info : FuncInfo) (grid block : Dim3) (args : Option (List ℕ))
    (m stream : ℕ)
    → Keeps (launch sys bits info grid block args m stream)
unfolding launch
launch-Keeps sys bits info grid block args m stream p h =
    let vs = followed args info.param_count in
    for_args-Keeps hmcuda_transport_mark_gpu_dirty vs mark-Keeps _ (
      dispatch-Keeps sys (launch_request info grid block args m stream)
        (sizeof hmcuda_launch_kernel_req + info.param_count * 8 % 2 ^ 32) 0
        (launch_lem info grid block args m stream) _
        (for_args-Keeps (hmcuda_transport_sync_host_mem_arg sys bits) vs (sync-Keeps sys bits) p h))

found-Keeps :
    (sys : System) (bits : ℕ) (o : Option FuncInfo) (grid block : Dim3) (args : Option (List ℕ))
    (m stream : ℕ)
    → Keeps (launch_found sys bits o grid block args m stream)
unfolding launch_found
found-Keeps sys bits none grid block args m stream p h = h
found-Keeps sys bits (some info) grid block args m stream p h =
    launch-Keeps sys bits info grid block args m stream p h

pub launch_kernel-Keeps :
    (sys : System) (bits func : ℕ) (grid block : Dim3) (args : Option (List ℕ)) (m stream : ℕ)
    → Keeps (cuda_launch_kernel sys bits func grid block args m stream)
unfolding cuda_launch_kernel
launch_kernel-Keeps sys bits func grid block args m stream p h =
    found-Keeps sys bits (p.func_map func) grid block args m stream p h

length-members : (i n : ℕ) (f : ℕ → ℕ) → length (members i n f) ≡ n
length-members i zero f = refl
length-members i (suc n) f = ap suc (length-members (i + 1) n f)

fatbin_size_bound : (b : FatBinary) → fatbin_size b < 2 ^ 32
unfolding fatbin_size
fatbin_size_bound b = ground arith

fatbin_lem :
    (n : ℕ) (f : ℕ → ℕ)
    → n < 2 ^ 32
    → HasRoom
        (runtime (Command.register_fatbin (members 0 n f)))
        (sizeof hmcuda_register_fatbin_req + n)
        (sizeof hmcuda_register_fatbin_resp)
unfolding hmcuda_cmd_get_sizes hmcuda_runtime_get_sizes
fatbin_lem n f h = ground (arith, h, length-members 0 n f)

pub register_fat_binary-Keeps :
    (sys : System) (c : Option FatCubin) → Keeps (cuda_register_fat_binary sys c)
unfolding cuda_register_fat_binary
register_fat_binary-Keeps sys none p h = h
register_fat_binary-Keeps sys (some c) p h =
    let b = fatbin_data c in
    let n = fatbin_size b in
    dispatch-Keeps sys (runtime (Command.register_fatbin (members 0 n b.bytes)))
      (sizeof hmcuda_register_fatbin_req + n) (sizeof hmcuda_register_fatbin_resp)
      (fatbin_lem n b.bytes (fatbin_size_bound b)) p h

function_lem :
    (handle host_fun : ℕ) (name : List ℕ)
    → length name < 2 ^ 32
    → HasRoom
        (runtime (Command.register_function handle host_fun (name_bytes name)))
        (sizeof hmcuda_register_function_req + length (name_bytes name))
        (sizeof hmcuda_register_function_resp)
unfolding hmcuda_cmd_get_sizes hmcuda_runtime_get_sizes
function_lem handle host_fun name h = ground (arith, h, length-append name (0 ∷ []))

pub register_function-Keeps :
    (sys : System) (demangle : List ℕ → Option (List ℕ)) (handle : Option ℕ) (host_fun : ℕ)
    (name : List ℕ)
    → length name < 2 ^ 32
    → Keeps (cuda_register_function sys demangle handle host_fun name)
unfolding cuda_register_function
register_function-Keeps sys demangle none host_fun name z p h = h
register_function-Keeps sys demangle (some handle) host_fun name z p h =
    dispatch-Keeps sys (runtime (Command.register_function handle host_fun (name_bytes name)))
      (sizeof hmcuda_register_function_req + length (name_bytes name))
      (sizeof hmcuda_register_function_resp) (function_lem handle host_fun name z) p h

attributes_lem :
    (handle : ℕ)
    → HasRoom
        (runtime (Command.func_get_attributes handle))
        (sizeof hmcuda_func_get_attributes_req)
        (sizeof hmcuda_func_get_attributes_resp)
unfolding hmcuda_cmd_get_sizes hmcuda_runtime_get_sizes
attributes_lem handle = ground arith

pub func_get_attributes-Keeps :
    (sys : System) (given : Bool) (func : ℕ) → Keeps (cuda_func_get_attributes sys given func)
unfolding cuda_func_get_attributes
func_get_attributes-Keeps sys false func p h = h
func_get_attributes-Keeps sys true func p h =
    on_found-AllRoomy {A = ℕ × Option (List ℕ)} (p.func_map func)
      ((invalid_device_function, none), record p { last_error = invalid_device_function })
      (λ info.
        (do
          rep ←
              hmcuda_dispatch sys (runtime (Command.func_get_attributes info.handle))
                (sizeof hmcuda_func_get_attributes_req) (sizeof hmcuda_func_get_attributes_resp)
          pure (out_members true 0 16 rep))
          p)
      h
      (λ info.
        dispatch-Keeps sys (runtime (Command.func_get_attributes info.handle))
          (sizeof hmcuda_func_get_attributes_req) (sizeof hmcuda_func_get_attributes_resp)
          (attributes_lem info.handle) p h)

pub init_module-Keeps : (sys : System) (o : Option ℕ) → Keeps (cuda_init_module sys o)
unfolding cuda_init_module hmcuda_cmd_get_sizes hmcuda_runtime_get_sizes
init_module-Keeps sys none p h = h
init_module-Keeps sys (some handle) p h =
    dispatch-Keeps sys (runtime (Command.init_module handle)) (sizeof hmcuda_init_module_req) 0
      (ground arith) p h

pub get_kernel-Keeps : (given : Bool) (f : ℕ) → Keeps (cuda_get_kernel given f)
unfolding cuda_get_kernel
get_kernel-Keeps given f p h =
    either-AllRoomy {A = Status} (not given || (f == 0)) ((1, none), p)
      (elim (p.func_map f) [ none ↦ (invalid_device_function, none) | some info ↦ (0, some f) ], p)
      h h
