-- ===== src/Core/Stable/Runtime.antt =====
-- The parts of host/vhost/core_runtime.c that are called from several places keep what the state
-- changes keep.
use hm_cuda.Prelude.{ℕ, List, [], ◌∷◌}
use hm_cuda.Cuda.{Environment, Source}
use hm_cuda.Backend.{Backend}
use hm_cuda.Backend.Keeps.{Keeps}
use hm_cuda.Core.Runtime.{
  hmcuda_core_memcpy, memcpy_to_device, memcpy_to_host, memcpy_on_device, send_and_wait,
  hmcuda_core_runtime_memcpy_htod_vq, hmcuda_core_stream_synchronize,
}
use hm_cuda.Core.Launch.{translate_arg, translate_args, kernel_params, query_attributes}
use hm_cuda.Core.Stable.{Stable}
use hm_cuda.Core.Stable.Reads.{read_rules}

module _ {env : Environment} {sid vid : ℕ} {P : Backend → Type 0} (k : Stable env sid vid P) where
  Keeps-send_and_wait :
      (dst : ℕ) (src : Source) (n stream : ℕ) → Keeps P (send_and_wait env sid vid dst src n stream)
  unfolding send_and_wait
  Keeps-send_and_wait dst src n stream = search (read_rules, k.performs) depth 10

  Keeps-memcpy_to_device :
      (dst n p stream : ℕ) → Keeps P (memcpy_to_device env sid vid dst n p stream)
  unfolding memcpy_to_device
  Keeps-memcpy_to_device dst n p stream =
      search (read_rules, k.performs, Keeps-send_and_wait) depth 16

  pub Keeps-memcpy :
      (dst src n kind p stream : ℕ)
      → Keeps P (hmcuda_core_memcpy env sid vid dst src n kind p stream)
  unfolding hmcuda_core_memcpy memcpy_to_host memcpy_on_device
  Keeps-memcpy dst src n kind p stream =
      search (read_rules, k.performs, Keeps-memcpy_to_device) depth 16

  pub Keeps-runtime_memcpy_htod_vq :
      (dst p n stream : ℕ) → Keeps P (hmcuda_core_runtime_memcpy_htod_vq env sid vid dst p n stream)
  unfolding hmcuda_core_runtime_memcpy_htod_vq
  Keeps-runtime_memcpy_htod_vq dst p n stream = search (read_rules, k.performs) depth 12

  pub Keeps-stream_synchronize :
      (stream : ℕ) → Keeps P (hmcuda_core_stream_synchronize env sid vid stream)
  unfolding hmcuda_core_stream_synchronize
  Keeps-stream_synchronize stream = search (read_rules, k.performs) depth 12

  Keeps-translate_args : (ws : List ℕ) → Keeps P (translate_args env sid vid ws)
  unfolding translate_args translate_arg
  Keeps-translate_args [] = search read_rules
  Keeps-translate_args (w ∷ ws) = let rest = Keeps-translate_args ws in search read_rules depth 8

  pub Keeps-kernel_params : (args : List ℕ) (n : ℕ) → Keeps P (kernel_params env sid vid args n)
  unfolding kernel_params
  Keeps-kernel_params args n = search (read_rules, Keeps-translate_args) depth 8

  pub Keeps-query_attributes :
      (func : ℕ) (ks : List ℕ) → Keeps P (query_attributes env sid vid func ks)
  unfolding query_attributes
  Keeps-query_attributes func [] = search read_rules
  Keeps-query_attributes func (a ∷ ks) =
      let rest = Keeps-query_attributes func ks in search (read_rules, k.performs) depth 8
