-- ===== src/Guest/DriverVmm.antt =====
-- guest/intercept/hmcuda_driver.cpp: pointer attributes, error texts and virtual memory. The
-- properties of an allocation are the members of the struct, in their order.
use hm_cuda.Prelude.{
  ℕ, ◌+◌, ◌*◌, ◌%◌, ◌^◌, Bool, List, Option, none, some, if◌then◌else◌, add64, length, take,
}
use hm_cuda.Command
use hm_cuda.Command.{Request, driver, runtime, MemcpyReq, HostAllocReq}
use hm_cuda.Wire.{sizeof}
use hm_cuda.Wire.DriverVmm.{
  hmcuda_cu_get_error_name_req, hmcuda_cu_get_error_name_resp, hmcuda_cu_get_error_string_req,
  hmcuda_cu_get_error_string_resp, hmcuda_cu_mem_access_desc, hmcuda_cu_mem_address_free_req,
  hmcuda_cu_mem_address_reserve_req, hmcuda_cu_mem_address_reserve_resp, hmcuda_cu_mem_create_req,
  hmcuda_cu_mem_create_resp, hmcuda_cu_mem_export_req, hmcuda_cu_mem_export_resp,
  hmcuda_cu_mem_get_alloc_granularity_req, hmcuda_cu_mem_get_alloc_granularity_resp,
  hmcuda_cu_mem_import_req, hmcuda_cu_mem_import_resp, hmcuda_cu_mem_map_req,
  hmcuda_cu_mem_release_req, hmcuda_cu_mem_set_access_req, hmcuda_cu_mem_unmap_req,
  hmcuda_cu_pointer_get_attribute_req, hmcuda_cu_pointer_get_attribute_resp,
}
use hm_cuda.Guest.{System, G, Status, ◌>>=◌, ◌>>◌, pure, modify, add_handle, erase_handle}
use hm_cuda.Guest.Transport.{Reply}
use hm_cuda.Guest.Dispatch.{out_members, Text, text_of}
use hm_cuda.Guest.Driver.{hmcuda_drv_dispatch, drv_fwd, drv_fwd_resp}

unfoldable pub cu_pointer_get_attribute : System → Bool → ℕ → ℕ → G Status
unfolding drv_fwd_resp
cu_pointer_get_attribute sys given attribute ptr =
    drv_fwd_resp sys (driver (Command.cu_pointer_get_attribute attribute ptr))
      hmcuda_cu_pointer_get_attribute_req hmcuda_cu_pointer_get_attribute_resp given

-- `none` where nothing is written through the pointer.
abbrev out_text : Bool → Reply → ℕ × Option Text
out_text given (e, none) = (e, none)
out_text given (e, some member) = (e, if given then some (text_of member) else none)

unfoldable pub cu_get_error_string : System → Bool → ℕ → G (ℕ × Option Text)
unfolding hmcuda_drv_dispatch
cu_get_error_string sys given error = do
  rep ←
      hmcuda_drv_dispatch sys (driver (Command.cu_get_error_string error))
        (sizeof hmcuda_cu_get_error_string_req) (sizeof hmcuda_cu_get_error_string_resp + 256)
  pure (out_text given rep)

unfoldable pub cu_get_error_name : System → Bool → ℕ → G (ℕ × Option Text)
unfolding hmcuda_drv_dispatch
cu_get_error_name sys given error = do
  rep ←
      hmcuda_drv_dispatch sys (driver (Command.cu_get_error_name error))
        (sizeof hmcuda_cu_get_error_name_req) (sizeof hmcuda_cu_get_error_name_resp + 256)
  pure (out_text given rep)

unfoldable pub cu_mem_create : System → Bool → ℕ → List ℕ → ℕ → G Status
unfolding drv_fwd_resp
cu_mem_create sys given n prop flags =
    drv_fwd_resp sys (driver (Command.cu_mem_create n prop flags)) hmcuda_cu_mem_create_req
      hmcuda_cu_mem_create_resp given

unfoldable pub cu_mem_release : System → ℕ → G ℕ
unfolding drv_fwd
cu_mem_release sys handle =
    drv_fwd sys (driver (Command.cu_mem_release handle)) hmcuda_cu_mem_release_req

unfoldable pub cu_mem_map : System → ℕ → ℕ → ℕ → ℕ → ℕ → G ℕ
unfolding drv_fwd
cu_mem_map sys ptr n offset handle flags =
    drv_fwd sys (driver (Command.cu_mem_map ptr n offset handle flags)) hmcuda_cu_mem_map_req

unfoldable pub cu_mem_unmap : System → ℕ → ℕ → G ℕ
unfolding drv_fwd
cu_mem_unmap sys ptr n = drv_fwd sys (driver (Command.cu_mem_unmap ptr n)) hmcuda_cu_mem_unmap_req

-- Takes in the handle that was handed out.
abbrev pub insert_handle : Status → G Status
insert_handle (e, none) p = ((e, none), p)
insert_handle (e, some h) p =
    ((e, some h), record p { device_handles = add_handle h p.device_handles })

unfoldable pub cu_mem_address_reserve : System → Bool → ℕ → ℕ → ℕ → ℕ → G Status
unfolding drv_fwd_resp
cu_mem_address_reserve sys given n alignment addr flags = do
  out ←
      drv_fwd_resp sys (driver (Command.cu_mem_address_reserve n alignment addr flags))
        hmcuda_cu_mem_address_reserve_req hmcuda_cu_mem_address_reserve_resp given
  insert_handle out

unfoldable pub cu_mem_address_free : System → ℕ → ℕ → G ℕ
unfolding drv_fwd
cu_mem_address_free sys ptr n = do
  modify (λ p. record p { device_handles = erase_handle ptr p.device_handles })
  drv_fwd sys (driver (Command.cu_mem_address_free ptr n)) hmcuda_cu_mem_address_free_req

-- The count is cut to 32 bits, and the payload has room for all of the descriptors.
unfoldable pub cu_mem_set_access : System → ℕ → ℕ → List (List ℕ) → G ℕ
unfolding hmcuda_drv_dispatch
cu_mem_set_access sys ptr n descs = do
  rep ←
      hmcuda_drv_dispatch sys
        (driver (Command.cu_mem_set_access ptr n (take (length descs % 2 ^ 32) descs)))
        (add64 (sizeof hmcuda_cu_mem_set_access_req)
          (length descs * sizeof hmcuda_cu_mem_access_desc % 2 ^ 64))
        0
  pure rep.0

unfoldable pub cu_mem_get_allocation_granularity : System → Bool → List ℕ → ℕ → G Status
unfolding drv_fwd_resp
cu_mem_get_allocation_granularity sys given prop option =
    drv_fwd_resp sys (driver (Command.cu_mem_get_alloc_granularity prop option))
      hmcuda_cu_mem_get_alloc_granularity_req hmcuda_cu_mem_get_alloc_granularity_resp given

unfoldable pub cu_mem_export_to_shareable_handle :
    System → Bool → ℕ → ℕ → ℕ → G (ℕ × Option (List ℕ))
unfolding hmcuda_drv_dispatch
cu_mem_export_to_shareable_handle sys given handle handle_type flags = do
  rep ←
      hmcuda_drv_dispatch sys (driver (Command.cu_mem_export handle handle_type flags))
        (sizeof hmcuda_cu_mem_export_req) (sizeof hmcuda_cu_mem_export_resp)
  pure (out_members given 0 64 rep)

-- `os_handle` are the bytes at the pointer, 64 at least.
unfoldable pub cu_mem_import_from_shareable_handle : System → Bool → List ℕ → ℕ → G Status
unfolding drv_fwd_resp
cu_mem_import_from_shareable_handle sys given os_handle handle_type =
    drv_fwd_resp sys (driver (Command.cu_mem_import (take 64 os_handle) handle_type))
      hmcuda_cu_mem_import_req hmcuda_cu_mem_import_resp given
