-- ===== src/Guest/Properties.antt =====
-- cudaGetDeviceProperties of guest/intercept/hmcuda_runtime.cpp: the members of the properties that
-- reach the application.
pub mod Agreement
use hm_cuda.Prelude.{ℕ, Bool, true, false, List, [], ◌∷◌, none, some, if◌then◌else◌, Option}
use hm_cuda.Command
use hm_cuda.Command.{runtime}
use hm_cuda.Wire.{sizeof}
use hm_cuda.Wire.Runtime.{hmcuda_get_device_properties_req, hmcuda_get_device_properties_resp}
use hm_cuda.Wire.Properties.{
  PropMember, name, uuid, luid, luid_device_node_mask, total_global_mem, shared_mem_per_block,
  regs_per_block, warp_size, mem_pitch, max_threads_per_block, max_threads_dim, max_grid_size,
  clock_rate, total_const_mem, major, minor, texture_alignment, texture_pitch_alignment,
  device_overlap, multi_processor_count, kernel_exec_timeout_enabled, integrated,
  can_map_host_memory, compute_mode, max_texture_1d, max_texture_1d_mipmap, max_texture_1d_linear,
  max_texture_2d, max_texture_2d_mipmap, max_texture_2d_linear, max_texture_2d_gather,
  max_texture_3d, max_texture_3d_alt, max_texture_cubemap, max_texture_1d_layered,
  max_texture_2d_layered, max_texture_cubemap_layered, max_surface_1d, max_surface_2d,
  max_surface_3d, max_surface_1d_layered, max_surface_2d_layered, max_surface_cubemap,
  max_surface_cubemap_layered, surface_alignment, concurrent_kernels, ecc_enabled, pci_bus_id,
  pci_device_id, pci_domain_id, tcc_driver, async_engine_count, unified_addressing,
  memory_clock_rate, memory_bus_width, l2_cache_size, persisting_l2_cache_max_size,
  max_threads_per_multi_processor, stream_priorities_supported, global_l1_cache_supported,
  local_l1_cache_supported, shared_mem_per_multiprocessor, regs_per_multiprocessor, managed_memory,
  is_multi_gpu_board, multi_gpu_board_group_id, host_native_atomic_supported,
  single_to_double_precision_perf_ratio, pageable_memory_access, concurrent_managed_access,
  compute_preemption_supported, can_use_host_pointer_for_registered_mem, cooperative_launch,
  cooperative_multi_device_launch, shared_mem_per_block_optin,
  pageable_memory_access_uses_host_page_tables, direct_managed_mem_access_from_host,
  max_blocks_per_multi_processor, access_policy_max_window_size, reserved_shared_mem_per_block,
  host_register_supported, sparse_cuda_array_supported, host_register_read_only_supported,
  timeline_semaphore_interop_supported, memory_pools_supported, gpu_direct_rdma_supported,
  gpu_direct_rdma_flush_writes_options, gpu_direct_rdma_writes_ordering,
  memory_pool_supported_handle_types, deferred_mapping_cuda_array_supported, ipc_event_supported,
  cluster_launch, unified_function_pointers, reserved2, reserved, Properties, zeroed,
}
use hm_cuda.Guest.{System, G, pure, ◌>>=◌}
use hm_cuda.Guest.Transport.{Reply}
use hm_cuda.Guest.Runtime.{hmcuda_dispatch}

-- The member by member copy; what it leaves out is cleared. `before_13` is CUDART_VERSION < 13000.
unfoldable pub hmcuda_prop_to_cuda : Bool → Properties → Properties
hmcuda_prop_to_cuda before_13 src name = src name
hmcuda_prop_to_cuda before_13 src uuid = src uuid
hmcuda_prop_to_cuda before_13 src luid = src luid
hmcuda_prop_to_cuda before_13 src luid_device_node_mask = src luid_device_node_mask
hmcuda_prop_to_cuda before_13 src total_global_mem = src total_global_mem
hmcuda_prop_to_cuda before_13 src shared_mem_per_block = src shared_mem_per_block
hmcuda_prop_to_cuda before_13 src regs_per_block = src regs_per_block
hmcuda_prop_to_cuda before_13 src warp_size = src warp_size
hmcuda_prop_to_cuda before_13 src mem_pitch = src mem_pitch
hmcuda_prop_to_cuda before_13 src max_threads_per_block = src max_threads_per_block
hmcuda_prop_to_cuda before_13 src max_threads_dim = src max_threads_dim
hmcuda_prop_to_cuda before_13 src max_grid_size = src max_grid_size
hmcuda_prop_to_cuda before_13 src clock_rate =
    if before_13 then src clock_rate else zeroed (src clock_rate)
hmcuda_prop_to_cuda before_13 src total_const_mem = src total_const_mem
hmcuda_prop_to_cuda before_13 src major = src major
hmcuda_prop_to_cuda before_13 src minor = src minor
hmcuda_prop_to_cuda before_13 src texture_alignment = src texture_alignment
hmcuda_prop_to_cuda before_13 src texture_pitch_alignment = src texture_pitch_alignment
hmcuda_prop_to_cuda before_13 src device_overlap =
    if before_13 then src device_overlap else zeroed (src device_overlap)
hmcuda_prop_to_cuda before_13 src multi_processor_count = src multi_processor_count
hmcuda_prop_to_cuda before_13 src kernel_exec_timeout_enabled =
    if before_13 then src kernel_exec_timeout_enabled else zeroed (src kernel_exec_timeout_enabled)
hmcuda_prop_to_cuda before_13 src integrated = src integrated
hmcuda_prop_to_cuda before_13 src can_map_host_memory = src can_map_host_memory
hmcuda_prop_to_cuda before_13 src compute_mode =
    if before_13 then src compute_mode else zeroed (src compute_mode)
hmcuda_prop_to_cuda before_13 src max_texture_1d = src max_texture_1d
hmcuda_prop_to_cuda before_13 src max_texture_1d_mipmap = src max_texture_1d_mipmap
hmcuda_prop_to_cuda before_13 src max_texture_1d_linear =
    if before_13 then src max_texture_1d_linear else zeroed (src max_texture_1d_linear)
hmcuda_prop_to_cuda before_13 src max_texture_2d = src max_texture_2d
hmcuda_prop_to_cuda before_13 src max_texture_2d_mipmap = src max_texture_2d_mipmap
hmcuda_prop_to_cuda before_13 src max_texture_2d_linear = src max_texture_2d_linear
hmcuda_prop_to_cuda before_13 src max_texture_2d_gather = src max_texture_2d_gather
hmcuda_prop_to_cuda before_13 src max_texture_3d = src max_texture_3d
hmcuda_prop_to_cuda before_13 src max_texture_3d_alt = src max_texture_3d_alt
hmcuda_prop_to_cuda before_13 src max_texture_cubemap = src max_texture_cubemap
hmcuda_prop_to_cuda before_13 src max_texture_1d_layered = src max_texture_1d_layered
hmcuda_prop_to_cuda before_13 src max_texture_2d_layered = src max_texture_2d_layered
hmcuda_prop_to_cuda before_13 src max_texture_cubemap_layered = src max_texture_cubemap_layered
hmcuda_prop_to_cuda before_13 src max_surface_1d = src max_surface_1d
hmcuda_prop_to_cuda before_13 src max_surface_2d = src max_surface_2d
hmcuda_prop_to_cuda before_13 src max_surface_3d = src max_surface_3d
hmcuda_prop_to_cuda before_13 src max_surface_1d_layered = src max_surface_1d_layered
hmcuda_prop_to_cuda before_13 src max_surface_2d_layered = src max_surface_2d_layered
hmcuda_prop_to_cuda before_13 src max_surface_cubemap = src max_surface_cubemap
hmcuda_prop_to_cuda before_13 src max_surface_cubemap_layered = src max_surface_cubemap_layered
hmcuda_prop_to_cuda before_13 src surface_alignment = src surface_alignment
hmcuda_prop_to_cuda before_13 src concurrent_kernels = src concurrent_kernels
hmcuda_prop_to_cuda before_13 src ecc_enabled = src ecc_enabled
hmcuda_prop_to_cuda before_13 src pci_bus_id = src pci_bus_id
hmcuda_prop_to_cuda before_13 src pci_device_id = src pci_device_id
hmcuda_prop_to_cuda before_13 src pci_domain_id = src pci_domain_id
hmcuda_prop_to_cuda before_13 src tcc_driver = src tcc_driver
hmcuda_prop_to_cuda before_13 src async_engine_count = src async_engine_count
hmcuda_prop_to_cuda before_13 src unified_addressing = src unified_addressing
hmcuda_prop_to_cuda before_13 src memory_clock_rate =
    if before_13 then src memory_clock_rate else zeroed (src memory_clock_rate)
hmcuda_prop_to_cuda before_13 src memory_bus_width = src memory_bus_width
hmcuda_prop_to_cuda before_13 src l2_cache_size = src l2_cache_size
hmcuda_prop_to_cuda before_13 src persisting_l2_cache_max_size = src persisting_l2_cache_max_size
hmcuda_prop_to_cuda before_13 src max_threads_per_multi_processor =
    src max_threads_per_multi_processor
hmcuda_prop_to_cuda before_13 src stream_priorities_supported = src stream_priorities_supported
hmcuda_prop_to_cuda before_13 src global_l1_cache_supported = src global_l1_cache_supported
hmcuda_prop_to_cuda before_13 src local_l1_cache_supported = src local_l1_cache_supported
hmcuda_prop_to_cuda before_13 src shared_mem_per_multiprocessor = src shared_mem_per_multiprocessor
hmcuda_prop_to_cuda before_13 src regs_per_multiprocessor = src regs_per_multiprocessor
hmcuda_prop_to_cuda before_13 src managed_memory = src managed_memory
hmcuda_prop_to_cuda before_13 src is_multi_gpu_board = src is_multi_gpu_board
hmcuda_prop_to_cuda before_13 src multi_gpu_board_group_id = src multi_gpu_board_group_id
hmcuda_prop_to_cuda before_13 src host_native_atomic_supported = src host_native_atomic_supported
hmcuda_prop_to_cuda before_13 src single_to_double_precision_perf_ratio =
    if before_13
    then src single_to_double_precision_perf_ratio
    else zeroed (src single_to_double_precision_perf_ratio)
hmcuda_prop_to_cuda before_13 src pageable_memory_access = src pageable_memory_access
hmcuda_prop_to_cuda before_13 src concurrent_managed_access = src concurrent_managed_access
hmcuda_prop_to_cuda before_13 src compute_preemption_supported = src compute_preemption_supported
hmcuda_prop_to_cuda before_13 src can_use_host_pointer_for_registered_mem =
    src can_use_host_pointer_for_registered_mem
hmcuda_prop_to_cuda before_13 src cooperative_launch = src cooperative_launch
hmcuda_prop_to_cuda before_13 src cooperative_multi_device_launch =
    if before_13
    then src cooperative_multi_device_launch
    else zeroed (src cooperative_multi_device_launch)
hmcuda_prop_to_cuda before_13 src shared_mem_per_block_optin = src shared_mem_per_block_optin
hmcuda_prop_to_cuda before_13 src pageable_memory_access_uses_host_page_tables =
    src pageable_memory_access_uses_host_page_tables
hmcuda_prop_to_cuda before_13 src direct_managed_mem_access_from_host =
    src direct_managed_mem_access_from_host
hmcuda_prop_to_cuda before_13 src max_blocks_per_multi_processor =
    src max_blocks_per_multi_processor
hmcuda_prop_to_cuda before_13 src access_policy_max_window_size = src access_policy_max_window_size
hmcuda_prop_to_cuda before_13 src reserved_shared_mem_per_block = src reserved_shared_mem_per_block
hmcuda_prop_to_cuda before_13 src host_register_supported = src host_register_supported
hmcuda_prop_to_cuda before_13 src sparse_cuda_array_supported = src sparse_cuda_array_supported
hmcuda_prop_to_cuda before_13 src host_register_read_only_supported =
    src host_register_read_only_supported
hmcuda_prop_to_cuda before_13 src timeline_semaphore_interop_supported =
    src timeline_semaphore_interop_supported
hmcuda_prop_to_cuda before_13 src memory_pools_supported = src memory_pools_supported
hmcuda_prop_to_cuda before_13 src gpu_direct_rdma_supported = src gpu_direct_rdma_supported
hmcuda_prop_to_cuda before_13 src gpu_direct_rdma_flush_writes_options =
    src gpu_direct_rdma_flush_writes_options
hmcuda_prop_to_cuda before_13 src gpu_direct_rdma_writes_ordering =
    src gpu_direct_rdma_writes_ordering
hmcuda_prop_to_cuda before_13 src memory_pool_supported_handle_types =
    src memory_pool_supported_handle_types
hmcuda_prop_to_cuda before_13 src deferred_mapping_cuda_array_supported =
    src deferred_mapping_cuda_array_supported
hmcuda_prop_to_cuda before_13 src ipc_event_supported = src ipc_event_supported
hmcuda_prop_to_cuda before_13 src cluster_launch = src cluster_launch
hmcuda_prop_to_cuda before_13 src unified_function_pointers = src unified_function_pointers
hmcuda_prop_to_cuda before_13 src reserved2 = zeroed (src reserved2)
hmcuda_prop_to_cuda before_13 src reserved = zeroed (src reserved)

-- `read` reads the members of the response; with the error goes what is written to the application's
-- struct.
unfoldable pub cuda_get_device_properties :
    System → ((ℕ → ℕ) → Properties) → Bool → Bool → ℕ → G (ℕ × Option Properties)
unfolding hmcuda_dispatch hmcuda_prop_to_cuda
cuda_get_device_properties sys read before_13 given device = do
  rep ←
      hmcuda_dispatch sys (runtime (Command.get_device_properties device))
        (sizeof hmcuda_get_device_properties_req) (sizeof hmcuda_get_device_properties_resp)
  pure (out rep)
  where
    out : Reply → ℕ × Option Properties
    out (e, none) = (e, none)
    out (e, some member) =
        (e, if given then some (hmcuda_prop_to_cuda before_13 (read member)) else none)
