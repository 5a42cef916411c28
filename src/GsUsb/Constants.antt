-- ===== src/GsUsb/Constants.antt =====
-- drivers/gs_usb/constants.rs: sizes, request numbers, flags and masks.
use win_can_utils.Base.{ℕ, ◌+◌, ◌^◌}

abbrev pub gs_header_len : ℕ
gs_header_len = 12

abbrev pub gs_max_data : ℕ
gs_max_data = 64

abbrev pub gs_tx_frame_size : ℕ
gs_tx_frame_size = gs_header_len + gs_max_data

abbrev pub gs_can_echo_id_unused : ℕ
gs_can_echo_id_unused = 0xFFFF_FFFF

abbrev pub can_eff_flag : ℕ
can_eff_flag = 0x8000_0000

abbrev pub can_rtr_flag : ℕ
can_rtr_flag = 0x4000_0000

abbrev pub can_err_flag : ℕ
can_err_flag = 0x2000_0000

abbrev pub can_sff_mask : ℕ
can_sff_mask = 0x0000_07FF

abbrev pub can_eff_mask : ℕ
can_eff_mask = 0x1FFF_FFFF

abbrev pub can_err_mask : ℕ
can_err_mask = 0x1FFF_FFFF

abbrev pub gs_usb_breq_host_format : ℕ
gs_usb_breq_host_format = 0x00

abbrev pub gs_usb_breq_bittiming : ℕ
gs_usb_breq_bittiming = 0x01

abbrev pub gs_usb_breq_bt_const : ℕ
gs_usb_breq_bt_const = 0x04

abbrev pub gs_usb_breq_device_config : ℕ
gs_usb_breq_device_config = 0x05

abbrev pub gs_usb_breq_bt_const_ext : ℕ
gs_usb_breq_bt_const_ext = 0x0B

abbrev pub gs_can_mode_listen_only : ℕ
gs_can_mode_listen_only = 2 ^ 0

abbrev pub gs_can_feature_pad_pkts : ℕ
gs_can_feature_pad_pkts = 2 ^ 7

abbrev pub gs_usb_breq_mode : ℕ
gs_usb_breq_mode = 0x02

abbrev pub gs_usb_breq_timestamp : ℕ
gs_usb_breq_timestamp = 0x06

abbrev pub gs_can_mode_reset : ℕ
gs_can_mode_reset = 0

abbrev pub gs_can_mode_start : ℕ
gs_can_mode_start = 1

abbrev pub gs_can_mode_hw_timestamp : ℕ
gs_can_mode_hw_timestamp = 2 ^ 4

abbrev pub gs_can_mode_pad_pkts : ℕ
gs_can_mode_pad_pkts = 2 ^ 7

abbrev pub gs_can_feature_fd : ℕ
gs_can_feature_fd = 2 ^ 8

-- Vendor request to an interface, host to device, in the bits that the USB standard gives these.
abbrev pub request_type_out : ℕ
request_type_out = 0x41

-- The same, device to host.
abbrev pub request_type_in : ℕ
request_type_in = 0xC1
