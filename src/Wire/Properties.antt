-- ===== src/Wire/Properties.antt =====
-- struct hmcuda_device_prop of common/include/hmcuda_cmd_runtime.h, by its members.
use hm_cuda.Prelude.{ℕ, List, [], ◌∷◌}

-- The members of struct hmcuda_device_prop, and of cudaDeviceProp.
pub data PropMember : Type 0 where
  name uuid luid luid_device_node_mask total_global_mem shared_mem_per_block : PropMember
  regs_per_block warp_size mem_pitch max_threads_per_block max_threads_dim : PropMember
  max_grid_size clock_rate total_const_mem major minor texture_alignment : PropMember
  texture_pitch_alignment device_overlap multi_processor_count : PropMember
  kernel_exec_timeout_enabled integrated can_map_host_memory compute_mode : PropMember
  max_texture_1d max_texture_1d_mipmap max_texture_1d_linear max_texture_2d : PropMember
  max_texture_2d_mipmap max_texture_2d_linear max_texture_2d_gather max_texture_3d : PropMember
  max_texture_3d_alt max_texture_cubemap max_texture_1d_layered : PropMember
  max_texture_2d_layered max_texture_cubemap_layered max_surface_1d max_surface_2d : PropMember
  max_surface_3d max_surface_1d_layered max_surface_2d_layered max_surface_cubemap : PropMember
  max_surface_cubemap_layered surface_alignment concurrent_kernels ecc_enabled : PropMember
  pci_bus_id pci_device_id pci_domain_id tcc_driver async_engine_count : PropMember
  unified_addressing memory_clock_rate memory_bus_width l2_cache_size : PropMember
  persisting_l2_cache_max_size max_threads_per_multi_processor : PropMember
  stream_priorities_supported global_l1_cache_supported local_l1_cache_supported : PropMember
  shared_mem_per_multiprocessor regs_per_multiprocessor managed_memory : PropMember
  is_multi_gpu_board multi_gpu_board_group_id host_native_atomic_supported : PropMember
  single_to_double_precision_perf_ratio pageable_memory_access : PropMember
  concurrent_managed_access compute_preemption_supported : PropMember
  can_use_host_pointer_for_registered_mem cooperative_launch : PropMember
  cooperative_multi_device_launch shared_mem_per_block_optin : PropMember
  pageable_memory_access_uses_host_page_tables direct_managed_mem_access_from_host : PropMember
  max_blocks_per_multi_processor access_policy_max_window_size : PropMember
  reserved_shared_mem_per_block host_register_supported : PropMember
  sparse_cuda_array_supported host_register_read_only_supported : PropMember
  timeline_semaphore_interop_supported memory_pools_supported : PropMember
  gpu_direct_rdma_supported gpu_direct_rdma_flush_writes_options : PropMember
  gpu_direct_rdma_writes_ordering memory_pool_supported_handle_types : PropMember
  deferred_mapping_cuda_array_supported ipc_event_supported cluster_launch : PropMember
  unified_function_pointers reserved2 reserved : PropMember

-- The properties as numbers, an array member element by element.
abbrev pub Properties : Type 0
Properties = PropMember → List ℕ

abbrev pub zeroed : List ℕ → List ℕ
zeroed [] = []
zeroed (x ∷ xs) = 0 ∷ zeroed xs
