-- ===== src/Lib.antt =====
-- hmCUDA: GPU calls of a virtual machine, forwarded over a virtqueue. A kernel module of the
-- guest (driver/) takes a command from the guest's CUDA libraries by an ioctl, finds out how
-- long the request and the response are, pins the user pages of a copy and hands all of it to
-- the virtqueue. A vhost-user backend on the host (host/vhost/) pops the request, decodes it,
-- runs it against the real CUDA libraries with the guest's handles translated by the tables of
-- the guest's session, and writes the response back.
--
-- Resource and the files under it are host/vhost/resource.c; Backend holds the state and the
-- actions that all functions are made of. Core and the files under it are
-- host/vhost/core_driver.c and host/vhost/core_runtime.c, one definition for each hmcuda_core_*
-- function under its own name: Core.Sessions, Core.Streams, Core.Alloc, Core.Copy and Core.Vmm
-- for the driver API, Core.Runtime, Core.Launch and Core.Queries for the runtime API. Command
-- and the files under it are host/vhost/cmd_runtime.c and host/vhost/cmd_driver.c, with the
-- dispatcher of host/vhost/vhost_user_hmcuda.c; Vhost.Iov are the scatter lists of that file
-- and Vhost.Queue is its hmcuda_process_vq, for which the elements come from libvhost-user and
-- the reading of a request struct is a parameter that Vhost.Requests gives. Kernel.Sizes is
-- driver/cmd_runtime.c and driver/cmd_driver.c, Kernel.Requests and Kernel.Memcpy are
-- driver/virtio_hmcuda_main.c. Tests holds concrete runs.
--
-- The backend is a state and each operation a function of it, in the order of the C code.
-- Everything outside the repository (the CUDA libraries, libvhost-user, malloc where its result
-- is tested) is a parameter: a call is a value of Cuda.Call, and an Environment answers it from
-- the calls made before it and the host memory. No property of an answer is assumed but by a
-- theorem's hypotheses. The calls made are recorded in the state, and no operation reads them.
-- Core.Stable is the interface between an invariant and the operations: what the few state
-- changes keep, every command keeps.
--
-- Wire and the files under it are common/include: the types of a struct's members and their
-- offsets (Wire.Layout), one definition for each struct (Wire.Types, Wire.Runtime,
-- Wire.Properties, Wire.Driver, Wire.DriverVmm), the command numbers and the members of each
-- request (Wire.RuntimeRequests, Wire.DriverRequests, with the casts of the handlers in Decode)
-- and both libraries together in Wire.Requests and Wire.Sizes. Vhost.Requests is
-- hmcuda_process_vq with these structs. Kernel.Ioctl is hmcuda_build_req_buf,
-- hmcuda_do_simple_cmd and hmcuda_ioctl of driver/virtio_hmcuda_main.c.
--
-- Guest holds the state of a process that uses the libraries of the guest: the device, the
-- registry of pinned buffers, the device handles, the registered functions, the last error, and
-- the ioctls made so far. Guest.Transport is guest/transport/hmcuda_transport.cpp and
-- Guest.Dispatch is guest/intercept/hmcuda_dispatch.h. Guest.Driver, Guest.DriverStreams,
-- Guest.DriverVmm, Guest.Memory, Guest.Copies and Guest.Multicast are
-- guest/intercept/hmcuda_driver.cpp; Guest.Runtime, Guest.RuntimeQueries, Guest.Properties,
-- Guest.Params, Guest.Registration and Guest.Launch are guest/intercept/hmcuda_runtime.cpp. An
-- entry point cuMemAlloc is cu_mem_alloc here, and Guest.Calls has the entry points as the
-- calls of an application. The ioctl, the device file, malloc and the demangler are parameters.
--
-- uint64_t arithmetic wraps, as add64 and sub64; a NULL pointer is 0; an out-parameter that a
-- function leaves unwritten is none. The loop of hmcuda_do_memcpy_gup runs on fuel, one turn
-- more than the copy has bytes, and each turn passes on at least one byte. All other loops are
-- structural. A wait for a host that never completes a request is an outcome of its own
-- (unanswered in Kernel.Memcpy, stuck in Kernel.Ioctl).
--
-- Not modelled: the NVML stub (guest/intercept/hmcuda_nvml_stub.c, constants), the table of
-- command names and the log lines, the probe and removal of the kernel module, start-up and
-- shutdown of the backend, QEMU and libvhost-user.
mod Prelude
pub mod Wire
pub mod Guest
pub mod Cuda
pub mod Backend
pub mod Resource
pub mod Core
pub mod Command
pub mod Vhost
pub mod Kernel
pub mod Tests
