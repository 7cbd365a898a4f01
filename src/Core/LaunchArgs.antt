-- ===== src/Core/LaunchArgs.antt =====
-- hmcuda_core_launch_kernel of host/vhost/core_runtime.c: what reaches cuLaunchKernel.
use hm_cuda.Prelude.{
  ℕ, ◌/◌, ◌≡◌, ◌≢◌, refl, List, [], ◌∷◌, ◌++◌, map, none, some, ◌==◌, ==_ne, if◌then◌else◌, ltb,
  take, arith, Bool-cases, inl, inr,
}
use hm_cuda.Cuda.{
  Environment, Call, Dim3, cu_launch_kernel, cu_get_error_string, cuda_error_launch_failure,
}
use hm_cuda.Backend.{
  res_mem, res_host_mem, res_function, res_stream, Context, Backend, pure, ◌>>=◌, ◌>>◌, perform,
}
use hm_cuda.Resource.{hmcuda_ctx_get, hmcuda_res_get}
use hm_cuda.Resource.Lookup.{view}
use hm_cuda.Core.{with_ctx, resolve_any_mem, resolve_stream}
use hm_cuda.Core.Launch.{translate_arg, translate_args, kernel_params, hmcuda_core_launch_kernel}

-- An argument as the kernel gets it: a device address, else a pinned host address, else as it is.
abbrev pub argument : ℕ → ℕ → Backend → ℕ → ℕ
argument sid vid s w =
    if view sid vid s res_mem w == 0
    then (if view sid vid s res_host_mem w == 0 then w else view sid vid s res_host_mem w)
    else view sid vid s res_mem w

translate_arg_lem :
    (env : Environment) (sid vid w : ℕ) (s : Backend)
    → translate_arg env sid vid w s ≡ (argument sid vid s w, s)
unfolding translate_arg resolve_any_mem view hmcuda_res_get ◌>>=◌
translate_arg_lem env sid vid w s = ground arith

translate_args_lem :
    (env : Environment) (sid vid : ℕ) (ws : List ℕ) (s : Backend)
    → translate_args env sid vid ws s ≡ (map (argument sid vid s) ws, s)
unfolding translate_args ◌>>=◌
translate_args_lem env sid vid [] s = refl
translate_args_lem env sid vid (w ∷ ws) s =
    rw (translate_arg_lem env sid vid w s, translate_args_lem env sid vid ws s)

-- A stream as the driver gets it: the null stream and the two special ones are passed on.
abbrev pub stream_value : ℕ → ℕ → Backend → ℕ → ℕ
stream_value sid vid s h = if ltb h 3 then h else view sid vid s res_stream h

resolve_stream_lem :
    (sid vid h : ℕ) (s : Backend) → resolve_stream sid vid h s ≡ (stream_value sid vid s h, s)
unfolding resolve_stream view hmcuda_res_get pure
resolve_stream_lem sid vid h s = ground arith

kernel_params_lem :
    (env : Environment) (sid vid : ℕ) (args : List ℕ) (n : ℕ) (s : Backend)
    → kernel_params env sid vid args n s
      ≡ ((if ltb 0 n then some (map (argument sid vid s) (take (n / 8) args)) else none), s)
unfolding kernel_params ◌>>=◌
kernel_params_lem env sid vid args n s = elim (Bool-cases (ltb 0 n)) [
  | inl some_args ↦
      rw (some_args, kernel_params, translate_args_lem env sid vid (take (n / 8) args) s)
  | inr no_args ↦ rw (no_args, kernel_params)
]

-- What a failed launch adds: the text of its error is asked for.
abbrev pub asked : ℕ → List Call
asked e = if e == 0 then [] else cu_get_error_string e ∷ []

calls-status :
    (env : Environment) (e x y : ℕ) (t : Backend)
    → ((if e == 0 then pure x else (do perform env (cu_get_error_string e); pure y)) t).1.calls
      ≡ asked e ++ t.calls
unfolding pure ◌>>◌ perform
calls-status env e x y t = elim (Bool-cases (e == 0)) [ inl fine ↦ rw fine | inr bad ↦ rw bad ]

-- In a session that exists, launching a function that it has registered calls the library once to
-- launch the real function, with the given grid, block and shared memory, the stream resolved, and
-- each 64-bit argument translated by itself: a device address, else a pinned host address, else as it
-- is; behind that it asks for the text of the error if the launch fails, and makes no other call.
pub calls-launch_kernel :
    (env : Environment) (sid vid func shared_mem stream n f : ℕ) (grid block : Dim3) (args : List ℕ)
    (s : Backend) (ctx : Context)
    → hmcuda_ctx_get sid vid s.contexts ≡ some ctx
    → view sid vid s res_function func ≡ f
    → f ≢ 0
    → let launch = cu_launch_kernel (record {
      func = f;
      grid = grid;
      block = block;
      shared_mem = shared_mem;
      stream = stream_value sid vid s stream;
      params = if ltb 0 n then some (map (argument sid vid s) (take (n / 8) args)) else none;
    }) in
      (hmcuda_core_launch_kernel env sid vid func grid block shared_mem stream args n s).1.calls
      ≡ asked (env s.calls s.memory launch).status ++ (launch ∷ s.calls)
unfolding hmcuda_core_launch_kernel with_ctx view hmcuda_res_get ◌>>=◌ perform
calls-launch_kernel env sid vid func shared_mem stream n f grid block args s ctx exists found ne =
    let launch = cu_launch_kernel (record {
      func = f;
      grid = grid;
      block = block;
      shared_mem = shared_mem;
      stream = stream_value sid vid s stream;
      params = if ltb 0 n then some (map (argument sid vid s) (take (n / 8) args)) else none;
    }) in
    let r = env s.calls s.memory launch in
    rw
      (
        exists,
        with_ctx,
        found,
        resolve_stream_lem sid vid stream s,
        ==_ne f 0 ne,
        kernel_params_lem env sid vid args n s,
      )
      (calls-status env r.status 0 cuda_error_launch_failure
        (record s { memory = r.memory; calls = launch ∷ s.calls }))
