-- ===== src/Core/Launch.antt =====
-- host/vhost/core_runtime.c: modules, functions, call configurations and kernel launches.
use hm_cuda.Prelude.{ℕ, ◌/◌, List, [], ◌∷◌, Option, none, some, ltb, ◌==◌, if◌then◌else◌, take}
use hm_cuda.Cuda.{
  Environment, Dim3, cu_module_load_data, cu_module_get_function, cu_launch_kernel,
  cu_func_get_attribute, cu_get_error_string, push_call_configuration, pop_call_configuration,
  cuda_success, cuda_error_invalid_value, cuda_error_initialization_error,
  cuda_error_invalid_device_function, cuda_error_launch_failure, cu_stream_legacy,
  cu_stream_per_thread, unknown_error,
}
use hm_cuda.Backend.{res_stream, res_module, res_function, M, pure, ◌>>=◌, ◌>>◌, perform}
use hm_cuda.Resource.{
  hmcuda_res_add, hmcuda_res_add_with_handle, hmcuda_res_get, hmcuda_res_get_handle,
}
use hm_cuda.Core.{with_ctx, resolve_stream, resolve_any_mem}

pub record CallConfiguration : Type 0 where
  pub grid : Dim3
  pub block : Dim3
  pub shared_mem : ℕ
  pub stream : ℕ

module _ (env : Environment) (sid vid : ℕ) where
  unfoldable pub hmcuda_core_register_fatbin : List ℕ → M (ℕ × Option ℕ)
  hmcuda_core_register_fatbin fatbin_data =
      with_ctx sid vid (unknown_error, none)
        do
          r ← perform env (cu_module_load_data fatbin_data)
          if r.status == cuda_success
              then (do h ← hmcuda_res_add sid vid res_module (r.out 0) 0; pure (0, some h))
              else (do
                perform env (cu_get_error_string r.status)
                pure (cuda_error_initialization_error, none))

  -- The function is stored under the guest's own address of its stub. The counts are always 0.
  unfoldable pub hmcuda_core_register_function : ℕ → ℕ → List ℕ → M (ℕ × Option (ℕ × ℕ))
  hmcuda_core_register_function fatbin_handle host_fun device_name =
      with_ctx sid vid (unknown_error, none)
        do
          code ← hmcuda_res_get sid vid res_module fatbin_handle
          if code == 0 then pure (cuda_error_invalid_value, some (0, 0)) else do
            r ← perform env (cu_module_get_function code device_name)
            if r.status == cuda_success
                then (do
                  hmcuda_res_add_with_handle sid vid res_function (r.out 0) 0 host_fun
                  pure (0, some (0, 0)))
                else (do
                  perform env (cu_get_error_string r.status)
                  pure (cuda_error_invalid_value, some (0, 0)))

  unfoldable pub hmcuda_core_init_module : ℕ → M ℕ
  hmcuda_core_init_module fatbin_handle = with_ctx sid vid unknown_error do
    code ← hmcuda_res_get sid vid res_module fatbin_handle
    if code == 0 then pure cuda_error_invalid_value else pure 0

  unfoldable pub hmcuda_core_push_call_configuration : Dim3 → Dim3 → ℕ → ℕ → M ℕ
  hmcuda_core_push_call_configuration grid block shared_mem stream =
      with_ctx sid vid unknown_error do
        real_stream ← resolve_stream sid vid stream
        r ← perform env (push_call_configuration grid block shared_mem real_stream)
        pure r.status

  -- The handle that a real stream goes back to the guest as.
  unfoldable pub stream_handle : ℕ → M ℕ
  stream_handle s =
      if s == 0
      then pure 0
      else if s == cu_stream_legacy
      then pure cu_stream_legacy
      else if s == cu_stream_per_thread
      then pure cu_stream_per_thread
      else hmcuda_res_get_handle sid vid res_stream s

  unfoldable pub hmcuda_core_pop_call_configuration : M (ℕ × Option CallConfiguration)
  unfolding stream_handle
  hmcuda_core_pop_call_configuration =
      with_ctx sid vid (unknown_error, none)
        do
          r ← perform env pop_call_configuration
          if r.status == cuda_success
              then (do
                s ← stream_handle (r.out 7)
                pure (
                  r.status,
                  some (record {
                    grid = record { x = r.out 0; y = r.out 1; z = r.out 2 };
                    block = record { x = r.out 3; y = r.out 4; z = r.out 5 };
                    shared_mem = r.out 6;
                    stream = s;
                  }),
                ))
              else pure (r.status, none)

  -- An argument that is a known address is translated; any other is passed on.
  unfoldable pub translate_arg : ℕ → M ℕ
  translate_arg w = do p ← resolve_any_mem sid vid w; if p == 0 then pure w else pure p

  unfoldable pub translate_args : List ℕ → M (List ℕ)
  unfolding translate_arg
  translate_args [] = pure []
  translate_args (w ∷ ws) = do v ← translate_arg w; vs ← translate_args ws; pure (v ∷ vs)

  -- kernelParams: `none` is NULL. `args` are the words of the argument blob.
  unfoldable pub kernel_params : List ℕ → ℕ → M (Option (List ℕ))
  unfolding translate_args
  kernel_params args args_size =
      if ltb 0 args_size
      then (do ps ← translate_args (take (args_size / 8) args); pure (some ps))
      else pure none

  unfoldable pub hmcuda_core_launch_kernel : ℕ → Dim3 → Dim3 → ℕ → ℕ → List ℕ → ℕ → M ℕ
  unfolding kernel_params
  hmcuda_core_launch_kernel func grid block shared_mem stream args args_size =
      with_ctx sid vid unknown_error do
        real_func ← hmcuda_res_get sid vid res_function func
        real_stream ← resolve_stream sid vid stream
        if real_func == 0 then pure cuda_error_invalid_value else do
          ps ← kernel_params args args_size
          r ← perform env (
              cu_launch_kernel (record {
                func = real_func;
                grid = grid;
                block = block;
                shared_mem = shared_mem;
                stream = real_stream;
                params = ps;
              }))
          if r.status == cuda_success
              then pure cuda_success
              else (do perform env (cu_get_error_string r.status); pure cuda_error_launch_failure)

  -- An attribute whose query fails stays 0.
  unfoldable pub query_attributes : ℕ → List ℕ → M (List ℕ)
  query_attributes func [] = pure []
  query_attributes func (k ∷ ks) = do
    r ← perform env (cu_func_get_attribute k func)
    rest ← query_attributes func ks
    pure ((if r.status == cuda_success then r.out 0 else 0) ∷ rest)

  -- The CU_FUNC_ATTRIBUTE_* in the order of the queries, which is that of the fields.
  unfoldable pub hmcuda_core_func_get_attributes : ℕ → M (ℕ × Option (List ℕ))
  unfolding query_attributes
  hmcuda_core_func_get_attributes func_handle =
      with_ctx sid vid (unknown_error, none)
        do
          real_func ← hmcuda_res_get sid vid res_function func_handle
          if real_func == 0 then pure (cuda_error_invalid_device_function, none) else do
            attrs ←
                query_attributes real_func
                  (1 ∷ 2 ∷ 3 ∷ 0 ∷ 4 ∷ 5 ∷ 6 ∷ 7 ∷ 8 ∷ 9 ∷ 10 ∷ 11 ∷ 12 ∷ 13 ∷ 15 ∷ 14 ∷ [])
            pure (cuda_success, some attrs)
