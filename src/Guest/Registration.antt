-- ===== src/Guest/Registration.antt =====
-- guest/intercept/hmcuda_runtime.cpp: the registration of binaries and functions.
use hm_cuda.Prelude.{
  ℕ, ◌+◌, ◌*◌, ◌/◌, Bool, true, List, [], ◌∷◌, ◌++◌, Option, none, some, ltb, ◌==◌, ◌||◌,
  if◌then◌else◌, length,
}
use hm_cuda.Command
use hm_cuda.Command.{Request, driver, runtime, MemcpyReq, HostAllocReq}
use hm_cuda.Wire.{sizeof}
use hm_cuda.Wire.Runtime.{
  hmcuda_register_fatbin_req, hmcuda_register_fatbin_resp, hmcuda_register_function_req,
  hmcuda_register_function_resp,
}
use hm_cuda.Guest.{System, G, Done, done, ◌>>=◌, pure, modify, insert}
use hm_cuda.Guest.Transport.{Reply}
use hm_cuda.Guest.Dispatch.{members}
use hm_cuda.Guest.Runtime.{hmcuda_dispatch}
use hm_cuda.Guest.Dispatch.{out_member}
use hm_cuda.Guest.Params.{count_params_from_mangled}

-- A struct __fatBinaryHeader, and the bytes from its address on.
pub record FatBinary : Type 0 where
  pub magic : ℕ
  pub fat_size : ℕ
  pub bytes : ℕ → ℕ

-- What stands at the pointer, and what the data pointer of the wrapper there points to, if it is one.
pub record FatCubin : Type 0 where
  pub direct : FatBinary
  pub wrapped : FatBinary

-- The upper half of the first word tells.
unfoldable pub fatbin_data : FatCubin → FatBinary
fatbin_data c = if (c.direct.magic / 65536) == 0x4662 then c.wrapped else c.direct

abbrev fallback_size : ℕ
fallback_size = 65536

abbrev known_magic : ℕ → Bool
known_magic m = (m == 0xBA55ED50) || ((m == 0x50ED5AB4) || ((m == 0x466243b1) || (m == 0xB1436246)))

unfoldable pub fatbin_size : FatBinary → ℕ
fatbin_size b =
    let n = if known_magic b.magic then b.fat_size else fallback_size in
    if (n == 0) || ltb (100 * 1024 * 1024) n then fallback_size else n

-- The handle, boxed; `none` for NULL.
unfoldable pub cuda_register_fat_binary : System → Option FatCubin → G (Option ℕ)
unfolding hmcuda_dispatch fatbin_size fatbin_data
cuda_register_fat_binary sys none = pure none
cuda_register_fat_binary sys (some c) = do
  rep ←
      hmcuda_dispatch sys
        (runtime
          (Command.register_fatbin (members 0 (fatbin_size (fatbin_data c)) (fatbin_data c).bytes)))
        (sizeof hmcuda_register_fatbin_req + fatbin_size (fatbin_data c))
        (sizeof hmcuda_register_fatbin_resp)
  pure (out_member true rep).1

-- The name with its NUL, as it is sent.
abbrev pub name_bytes : List ℕ → List ℕ
name_bytes name = name ++ (0 ∷ [])

-- The second member of the response, or the 0 that it was set to.
abbrev pub total_size_of : Reply → ℕ
total_size_of (e, none) = 0
total_size_of (e, some member) = member 1

-- `fatbin_handle` is what the pointer points to, `none` for NULL. The function is entered also where
-- the host has refused it.
unfoldable pub cuda_register_function :
    System → (List ℕ → Option (List ℕ)) → Option ℕ → ℕ → List ℕ → G Done
unfolding hmcuda_dispatch count_params_from_mangled
cuda_register_function sys demangle none host_fun device_fun = pure done
cuda_register_function sys demangle (some fatbin_handle) host_fun device_fun = do
  rep ←
      hmcuda_dispatch sys
        (runtime (Command.register_function fatbin_handle host_fun (name_bytes device_fun)))
        (sizeof hmcuda_register_function_req + length (name_bytes device_fun))
        (sizeof hmcuda_register_function_resp)
  modify λ p. record p {
    func_map =
        insert host_fun
          (record {
            handle = host_fun;
            param_count = count_params_from_mangled demangle device_fun;
            param_total_size = total_size_of rep;
          })
          p.func_map;
  }
