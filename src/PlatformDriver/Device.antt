-- ===== src/PlatformDriver/Device.antt =====
-- asm_11/ex_2_platform/ex_2_device.c: the device that the platform driver is bound to.
use Prim.Native.String.{String}
use linux_assignment.Prelude.{if◌then◌else◌, ℤ, pos}
use linux_assignment.Kernel.Calls.{Pointer, is_err, ptr_err}

-- DRIVER_NAME
abbrev pub driver_name : String
driver_name = "multi_char_dev"

-- What `platform_dev_init` returns, given what `platform_device_register_simple` returns.
unfoldable pub platform_dev_init : Pointer → ℤ
platform_dev_init multi_device = if is_err multi_device then ptr_err multi_device else pos 0
