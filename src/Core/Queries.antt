-- ===== src/Core/Queries.antt =====
-- host/vhost/core_runtime.c: the properties of a device and the texts of errors.
use hm_cuda.Prelude.{ℕ, Bool, List, Option, some, none, ◌==◌, if◌then◌else◌}
use hm_cuda.Cuda.{
  Environment, cuda_get_device_properties, cuda_get_error_string, cuda_get_error_name, cuda_success,
}
use hm_cuda.Backend.{M, perform, pure, ◌>>=◌}
use hm_cuda.Wire.Properties.{
  name, uuid, luid, luid_device_node_mask, total_global_mem, shared_mem_per_block, regs_per_block,
  warp_size, mem_pitch, max_threads_per_block, max_threads_dim, max_grid_size, clock_rate,
  total_const_mem, major, minor, texture_alignment, texture_pitch_alignment, device_overlap,
  multi_processor_count, kernel_exec_timeout_enabled, integrated, can_map_host_memory, compute_mode,
  max_texture_1d, max_texture_1d_mipmap, max_texture_1d_linear, max_texture_2d,
  max_texture_2d_mipmap, max_texture_2d_linear, max_texture_2d_gather, max_texture_3d,
  max_texture_3d_alt, max_texture_cubemap, max_texture_1d_layered, max_texture_2d_layered,
  max_texture_cubemap_layered, max_surface_1d, max_surface_2d, max_surface_3d,
  max_surface_1d_layered, max_surface_2d_layered, max_surface_cubemap, max_surface_cubemap_layered,
  surface_alignment, concurrent_kernels, ecc_enabled, pci_bus_id, pci_device_id, pci_domain_id,
  tcc_driver, async_engine_count, unified_addressing, memory_clock_rate, memory_bus_width,
  l2_cache_size, persisting_l2_cache_max_size, max_threads_per_multi_processor,
  stream_priorities_supported, global_l1_cache_supported, local_l1_cache_supported,
  shared_mem_per_multiprocessor, regs_per_multiprocessor, managed_memory, is_multi_gpu_board,
  multi_gpu_board_group_id, host_native_atomic_supported, single_to_double_precision_perf_ratio,
  pageable_memory_access, concurrent_managed_access, compute_preemption_supported,
  can_use_host_pointer_for_registered_mem, cooperative_launch, cooperative_multi_device_launch,
  shared_mem_per_block_optin, pageable_memory_access_uses_host_page_tables,
  direct_managed_mem_access_from_host, max_blocks_per_multi_processor,
  access_policy_max_window_size, reserved_shared_mem_per_block, host_register_supported,
  sparse_cuda_array_supported, host_register_read_only_supported,
  timeline_semaphore_interop_supported, memory_pools_supported, gpu_direct_rdma_supported,
  gpu_direct_rdma_flush_writes_options, gpu_direct_rdma_writes_ordering,
  memory_pool_supported_handle_types, deferred_mapping_cuda_array_supported, ipc_event_supported,
  cluster_launch, unified_function_pointers, reserved2, reserved, Properties, zeroed,
}

-- The struct that is sent, from the library's, member by member; what the copy leaves out is cleared.
-- `before_13` is CUDART_VERSION < 13000.
unfoldable pub to_device_prop : Bool → Properties → Properties
to_device_prop before_13 prop name = prop name
to_device_prop before_13 prop uuid = prop uuid
to_device_prop before_13 prop luid = prop luid
to_device_prop before_13 prop luid_device_node_mask = prop luid_device_node_mask
to_device_prop before_13 prop total_global_mem = prop total_global_mem
to_device_prop before_13 prop shared_mem_per_block = prop shared_mem_per_block
to_device_prop before_13 prop regs_per_block = prop regs_per_block
to_device_prop before_13 prop warp_size = prop warp_size
to_device_prop before_13 prop mem_pitch = prop mem_pitch
to_device_prop before_13 prop max_threads_per_block = prop max_threads_per_block
to_device_prop before_13 prop max_threads_dim = prop max_threads_dim
to_device_prop before_13 prop max_grid_size = prop max_grid_size
to_device_prop before_13 prop clock_rate =
    if before_13 then prop clock_rate else zeroed (prop clock_rate)
to_device_prop before_13 prop total_const_mem = prop total_const_mem
to_device_prop before_13 prop major = prop major
to_device_prop before_13 prop minor = prop minor
to_device_prop before_13 prop texture_alignment = prop texture_alignment
to_device_prop before_13 prop texture_pitch_alignment = prop texture_pitch_alignment
to_device_prop before_13 prop device_overlap =
    if before_13 then prop device_overlap else zeroed (prop device_overlap)
to_device_prop before_13 prop multi_processor_count = prop multi_processor_count
to_device_prop before_13 prop kernel_exec_timeout_enabled =
    if before_13
    then prop kernel_exec_timeout_enabled
    else zeroed (prop kernel_exec_timeout_enabled)
to_device_prop before_13 prop integrated = prop integrated
to_device_prop before_13 prop can_map_host_memory = prop can_map_host_memory
to_device_prop before_13 prop compute_mode =
    if before_13 then prop compute_mode else zeroed (prop compute_mode)
to_device_prop before_13 prop max_texture_1d = prop max_texture_1d
to_device_prop before_13 prop max_texture_1d_mipmap = prop max_texture_1d_mipmap
to_device_prop before_13 prop max_texture_1d_linear =
    if before_13 then prop max_texture_1d_linear else zeroed (prop max_texture_1d_linear)
to_device_prop before_13 prop max_texture_2d = prop max_texture_2d
to_device_prop before_13 prop max_texture_2d_mipmap = prop max_texture_2d_mipmap
to_device_prop before_13 prop max_texture_2d_linear = prop max_texture_2d_linear
to_device_prop before_13 prop max_texture_2d_gather = prop max_texture_2d_gather
to_device_prop before_13 prop max_texture_3d = prop max_texture_3d
to_device_prop before_13 prop max_texture_3d_alt = prop max_texture_3d_alt
to_device_prop before_13 prop max_texture_cubemap = prop max_texture_cubemap
to_device_prop before_13 prop max_texture_1d_layered = prop max_texture_1d_layered
to_device_prop before_13 prop max_texture_2d_layered = prop max_texture_2d_layered
to_device_prop before_13 prop max_texture_cubemap_layered = prop max_texture_cubemap_layered
to_device_prop before_13 prop max_surface_1d = prop max_surface_1d
to_device_prop before_13 prop max_surface_2d = prop max_surface_2d
to_device_prop before_13 prop max_surface_3d = prop max_surface_3d
to_device_prop before_13 prop max_surface_1d_layered = prop max_surface_1d_layered
to_device_prop before_13 prop max_surface_2d_layered = prop max_surface_2d_layered
to_device_prop before_13 prop max_surface_cubemap = prop max_surface_cubemap
to_device_prop before_13 prop max_surface_cubemap_layered = prop max_surface_cubemap_layered
to_device_prop before_13 prop surface_alignment = prop surface_alignment
to_device_prop before_13 prop concurrent_kernels = prop concurrent_kernels
to_device_prop before_13 prop ecc_enabled = prop ecc_enabled
to_device_prop before_13 prop pci_bus_id = prop pci_bus_id
to_device_prop before_13 prop pci_device_id = prop pci_device_id
to_device_prop before_13 prop pci_domain_id = prop pci_domain_id
to_device_prop before_13 prop tcc_driver = prop tcc_driver
to_device_prop before_13 prop async_engine_count = prop async_engine_count
to_device_prop before_13 prop unified_addressing = prop unified_addressing
to_device_prop before_13 prop memory_clock_rate =
    if before_13 then prop memory_clock_rate else zeroed (prop memory_clock_rate)
to_device_prop before_13 prop memory_bus_width = prop memory_bus_width
to_device_prop before_13 prop l2_cache_size = prop l2_cache_size
to_device_prop before_13 prop persisting_l2_cache_max_size = prop persisting_l2_cache_max_size
to_device_prop before_13 prop max_threads_per_multi_processor = prop max_threads_per_multi_processor
to_device_prop before_13 prop stream_priorities_supported = prop stream_priorities_supported
to_device_prop before_13 prop global_l1_cache_supported = prop global_l1_cache_supported
to_device_prop before_13 prop local_l1_cache_supported = prop local_l1_cache_supported
to_device_prop before_13 prop shared_mem_per_multiprocessor = prop shared_mem_per_multiprocessor
to_device_prop before_13 prop regs_per_multiprocessor = prop regs_per_multiprocessor
to_device_prop before_13 prop managed_memory = prop managed_memory
to_device_prop before_13 prop is_multi_gpu_board = prop is_multi_gpu_board
to_device_prop before_13 prop multi_gpu_board_group_id = prop multi_gpu_board_group_id
to_device_prop before_13 prop host_native_atomic_supported = prop host_native_atomic_supported
to_device_prop before_13 prop single_to_double_precision_perf_ratio =
    if before_13
    then prop single_to_double_precision_perf_ratio
    else zeroed (prop single_to_double_precision_perf_ratio)
to_device_prop before_13 prop pageable_memory_access = prop pageable_memory_access
to_device_prop before_13 prop concurrent_managed_access = prop concurrent_managed_access
to_device_prop before_13 prop compute_preemption_supported = prop compute_preemption_supported
to_device_prop before_13 prop can_use_host_pointer_for_registered_mem =
    prop can_use_host_pointer_for_registered_mem
to_device_prop before_13 prop cooperative_launch = prop cooperative_launch
to_device_prop before_13 prop cooperative_multi_device_launch =
    if before_13
    then prop cooperative_multi_device_launch
    else zeroed (prop cooperative_multi_device_launch)
to_device_prop before_13 prop shared_mem_per_block_optin = prop shared_mem_per_block_optin
to_device_prop before_13 prop pageable_memory_access_uses_host_page_tables =
    prop pageable_memory_access_uses_host_page_tables
to_device_prop before_13 prop direct_managed_mem_access_from_host =
    prop direct_managed_mem_access_from_host
to_device_prop before_13 prop max_blocks_per_multi_processor = prop max_blocks_per_multi_processor
to_device_prop before_13 prop access_policy_max_window_size = prop access_policy_max_window_size
to_device_prop before_13 prop reserved_shared_mem_per_block = prop reserved_shared_mem_per_block
to_device_prop before_13 prop host_register_supported = prop host_register_supported
to_device_prop before_13 prop sparse_cuda_array_supported = prop sparse_cuda_array_supported
to_device_prop before_13 prop host_register_read_only_supported =
    prop host_register_read_only_supported
to_device_prop before_13 prop timeline_semaphore_interop_supported =
    prop timeline_semaphore_interop_supported
to_device_prop before_13 prop memory_pools_supported = prop memory_pools_supported
to_device_prop before_13 prop gpu_direct_rdma_supported = prop gpu_direct_rdma_supported
to_device_prop before_13 prop gpu_direct_rdma_flush_writes_options =
    prop gpu_direct_rdma_flush_writes_options
to_device_prop before_13 prop gpu_direct_rdma_writes_ordering = prop gpu_direct_rdma_writes_ordering
to_device_prop before_13 prop memory_pool_supported_handle_types =
    prop memory_pool_supported_handle_types
to_device_prop before_13 prop deferred_mapping_cuda_array_supported =
    prop deferred_mapping_cuda_array_supported
to_device_prop before_13 prop ipc_event_supported = prop ipc_event_supported
to_device_prop before_13 prop cluster_launch = prop cluster_launch
to_device_prop before_13 prop unified_function_pointers = prop unified_function_pointers
to_device_prop before_13 prop reserved2 = zeroed (prop reserved2)
to_device_prop before_13 prop reserved = zeroed (prop reserved)

module _ (env : Environment) where
  -- The filled struct, as one block; it is written if the query succeeds.
  unfoldable pub hmcuda_core_get_device_properties : ℕ → M (ℕ × Option ℕ)
  hmcuda_core_get_device_properties device = do
    r ← perform env (cuda_get_device_properties device)
    pure (r.status, if r.status == cuda_success then some (r.out 0) else none)

  -- These never fail; `none` is NULL.
  unfoldable pub hmcuda_core_get_error_string : ℕ → M (ℕ × Option (List ℕ))
  hmcuda_core_get_error_string error = do
    r ← perform env (cuda_get_error_string error)
    pure (0, r.text)

  unfoldable pub hmcuda_core_get_error_name : ℕ → M (ℕ × Option (List ℕ))
  hmcuda_core_get_error_name error = do
    r ← perform env (cuda_get_error_name error)
    pure (0, r.text)
