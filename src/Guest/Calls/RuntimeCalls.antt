-- ===== src/Guest/Calls/RuntimeCalls.antt =====
-- The entry points of guest/intercept/hmcuda_runtime.cpp as one type, with what each does to the
-- process.
use hm_cuda.Prelude.{ℕ, Bool, List, Option}
use hm_cuda.Cuda.{Dim3}
use hm_cuda.Guest.{System, Process}
use hm_cuda.Guest.Registration.{FatCubin}
use hm_cuda.Wire.Properties.{Properties}
use hm_cuda.Guest.Runtime
use hm_cuda.Guest.RuntimeQueries
use hm_cuda.Guest.Properties
use hm_cuda.Guest.Registration
use hm_cuda.Guest.Launch

pub data RuntimeCall : Type 0 where
  cuda_malloc : Bool → ℕ → RuntimeCall
  cuda_free : ℕ → RuntimeCall
  cuda_memcpy : ℕ → ℕ → ℕ → ℕ → RuntimeCall
  cuda_memset : ℕ → ℕ → ℕ → RuntimeCall
  cuda_stream_create : Bool → RuntimeCall
  cuda_stream_synchronize : ℕ → RuntimeCall
  cuda_event_create : Bool → RuntimeCall
  cuda_event_record : ℕ → ℕ → RuntimeCall
  cuda_event_synchronize : ℕ → RuntimeCall
  cuda_event_elapsed_time : Bool → ℕ → ℕ → RuntimeCall
  cuda_event_destroy : ℕ → RuntimeCall
  cuda_set_device : ℕ → RuntimeCall
  cuda_device_synchronize : RuntimeCall
  cuda_get_device_count : Bool → RuntimeCall
  cuda_runtime_get_version : Bool → RuntimeCall
  cuda_get_last_error : RuntimeCall
  cuda_get_error_string : ℕ → RuntimeCall
  cuda_get_error_name : ℕ → RuntimeCall
  cuda_func_get_attributes : Bool → ℕ → RuntimeCall
  cuda_get_kernel : Bool → ℕ → RuntimeCall
  cuda_init_module : Option ℕ → RuntimeCall
  cuda_push_call_configuration : Dim3 → Dim3 → ℕ → ℕ → RuntimeCall
  cuda_pop_call_configuration : RuntimeCall
  cuda_get_device_properties : ((ℕ → ℕ) → Properties) → Bool → Bool → ℕ → RuntimeCall
  cuda_register_fat_binary : Option FatCubin → RuntimeCall
  cuda_register_function : (List ℕ → Option (List ℕ)) → Option ℕ → ℕ → List ℕ → RuntimeCall
  cuda_launch_kernel : ℕ → ℕ → Dim3 → Dim3 → Option (List ℕ) → ℕ → ℕ → RuntimeCall

unfoldable pub run_runtime : System → RuntimeCall → Process → Process
unfolding Runtime.cuda_malloc Runtime.cuda_free Runtime.cuda_memcpy Runtime.cuda_memset
    Runtime.cuda_stream_create Runtime.cuda_stream_synchronize Runtime.cuda_event_create
    Runtime.cuda_event_record Runtime.cuda_event_synchronize Runtime.cuda_event_elapsed_time
    Runtime.cuda_event_destroy Runtime.cuda_set_device Runtime.cuda_device_synchronize
    Runtime.cuda_get_device_count Runtime.cuda_runtime_get_version Runtime.cuda_get_last_error
    RuntimeQueries.cuda_get_error_string RuntimeQueries.cuda_get_error_name
    RuntimeQueries.cuda_func_get_attributes RuntimeQueries.cuda_get_kernel
    RuntimeQueries.cuda_init_module RuntimeQueries.cuda_push_call_configuration
    RuntimeQueries.cuda_pop_call_configuration Properties.cuda_get_device_properties
    Registration.cuda_register_fat_binary Registration.cuda_register_function
    Launch.cuda_launch_kernel
run_runtime sys (cuda_malloc a b) p = (Runtime.cuda_malloc sys a b p).1
run_runtime sys (cuda_free a) p = (Runtime.cuda_free sys a p).1
run_runtime sys (cuda_memcpy a b c d) p = (Runtime.cuda_memcpy sys a b c d p).1
run_runtime sys (cuda_memset a b c) p = (Runtime.cuda_memset sys a b c p).1
run_runtime sys (cuda_stream_create a) p = (Runtime.cuda_stream_create sys a p).1
run_runtime sys (cuda_stream_synchronize a) p = (Runtime.cuda_stream_synchronize sys a p).1
run_runtime sys (cuda_event_create a) p = (Runtime.cuda_event_create sys a p).1
run_runtime sys (cuda_event_record a b) p = (Runtime.cuda_event_record sys a b p).1
run_runtime sys (cuda_event_synchronize a) p = (Runtime.cuda_event_synchronize sys a p).1
run_runtime sys (cuda_event_elapsed_time a b c) p = (Runtime.cuda_event_elapsed_time sys a b c p).1
run_runtime sys (cuda_event_destroy a) p = (Runtime.cuda_event_destroy sys a p).1
run_runtime sys (cuda_set_device a) p = (Runtime.cuda_set_device sys a p).1
run_runtime sys cuda_device_synchronize p = (Runtime.cuda_device_synchronize sys p).1
run_runtime sys (cuda_get_device_count a) p = (Runtime.cuda_get_device_count sys a p).1
run_runtime sys (cuda_runtime_get_version a) p = (Runtime.cuda_runtime_get_version sys a p).1
run_runtime sys cuda_get_last_error p = (Runtime.cuda_get_last_error p).1
run_runtime sys (cuda_get_error_string a) p = (RuntimeQueries.cuda_get_error_string sys a p).1
run_runtime sys (cuda_get_error_name a) p = (RuntimeQueries.cuda_get_error_name sys a p).1
run_runtime sys (cuda_func_get_attributes a b) p =
    (RuntimeQueries.cuda_func_get_attributes sys a b p).1
run_runtime sys (cuda_get_kernel a b) p = (RuntimeQueries.cuda_get_kernel a b p).1
run_runtime sys (cuda_init_module a) p = (RuntimeQueries.cuda_init_module sys a p).1
run_runtime sys (cuda_push_call_configuration a b c d) p =
    (RuntimeQueries.cuda_push_call_configuration sys a b c d p).1
run_runtime sys cuda_pop_call_configuration p = (RuntimeQueries.cuda_pop_call_configuration sys p).1
run_runtime sys (cuda_get_device_properties a b c d) p =
    (Properties.cuda_get_device_properties sys a b c d p).1
run_runtime sys (cuda_register_fat_binary a) p = (Registration.cuda_register_fat_binary sys a p).1
run_runtime sys (cuda_register_function a b c d) p =
    (Registration.cuda_register_function sys a b c d p).1
run_runtime sys (cuda_launch_kernel a b c d e f g) p =
    (Launch.cuda_launch_kernel sys a b c d e f g p).1
