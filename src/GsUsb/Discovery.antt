-- ===== src/GsUsb/Discovery.antt =====
-- drivers/gs_usb/device.rs: the interface and the device that the driver uses. The descriptors that
-- libusb reads are data, in the order in which it lists them; addresses and attributes have the bits
-- that the USB standard gives them.
pub mod Endpoints
pub mod Noted
pub mod Picked
pub mod Selected
mod Tests
use win_can_utils.Base.{
  ℕ, suc, ◌+◌, ◌^◌, ◌==◌, not, ◌&&◌, ◌||◌, if◌then◌else◌, bit_and, Bool, false, true, List, [], ◌∷◌,
  ◌++◌, map, Option, none, some,
}
use win_can_utils.Base.Hex.{format_hex}
use win_can_utils.Base.Text.{
  Text, codes, trim, to_ascii_lower, eq_ignore_ascii_case, format_padded, parse_decimal,
}
use win_can_utils.Io.{
  IoResult, ok, err, ErrorKind, would_block, broken_pipe, not_connected, not_found, interrupted,
  other, invalid_input, invalid_data, timed_out, unexpected_eof,
}

pub record InterfaceInfo : Type 0 where
  pub interface_number : ℕ
  pub alt_setting : ℕ
  pub in_ep : ℕ
  pub out_ep : ℕ
  pub int_ep : Option ℕ
  pub out_wmax : ℕ

-- `libusb_endpoint_descriptor`, the fields that are read
pub record Endpoint : Type 0 where
  pub b_endpoint_address : ℕ
  pub bm_attributes : ℕ
  pub w_max_packet_size : ℕ

-- `libusb_interface_descriptor`
pub record AltSetting : Type 0 where
  pub b_interface_class : ℕ
  pub b_interface_number : ℕ
  pub b_alternate_setting : ℕ
  pub endpoints : List Endpoint

-- The interfaces of a configuration, each with its alternate settings.
abbrev pub Config : Type 0
Config = List (List AltSetting)

abbrev pub bulk_type : ℕ
bulk_type = 2

abbrev pub interrupt_type : ℕ
interrupt_type = 3

unfoldable pub is_in : Endpoint → Bool
is_in endpoint = not (bit_and endpoint.b_endpoint_address 0x80 == 0)

unfoldable pub xfer_type : Endpoint → ℕ
xfer_type endpoint = bit_and endpoint.bm_attributes 0x3

-- The body of the endpoint loop.
unfoldable pub note_endpoint : Endpoint → InterfaceInfo → InterfaceInfo
note_endpoint endpoint info =
    if xfer_type endpoint == bulk_type
    then if is_in endpoint
      then record info { in_ep = endpoint.b_endpoint_address }
      else record info {
        out_ep = endpoint.b_endpoint_address;
        out_wmax = endpoint.w_max_packet_size;
      }
    else if xfer_type endpoint == interrupt_type
    then if is_in endpoint then record info { int_ep = some endpoint.b_endpoint_address } else info
    else info

unfoldable pub note_endpoints : List Endpoint → InterfaceInfo → InterfaceInfo
note_endpoints [] info = info
note_endpoints (endpoint ∷ endpoints) info = note_endpoints endpoints (note_endpoint endpoint info)

unfoldable pub alt_info : AltSetting → InterfaceInfo
alt_info descriptor = note_endpoints descriptor.endpoints (record {
  interface_number = descriptor.b_interface_number;
  alt_setting = descriptor.b_alternate_setting;
  in_ep = 0;
  out_ep = 0;
  int_ep = none;
  out_wmax = 64;
})

unfoldable pub is_complete : InterfaceInfo → Bool
is_complete info = not (info.in_ep == 0) && not (info.out_ep == 0)

-- The loop over the alternate settings of an interface.
unfoldable pub pick_setting : List AltSetting → Option InterfaceInfo
pick_setting [] = none
pick_setting (descriptor ∷ rest) =
    let later = pick_setting rest in
    if not (descriptor.b_interface_class == 0xff)
    then later
    else if is_complete (alt_info descriptor)
    then some (alt_info descriptor)
    else later

unfoldable pub pick_interface : Config → Option InterfaceInfo
pick_interface [] = none
pick_interface (settings ∷ interfaces) = elim (pick_setting settings) [
  | some info ↦ some info
  | none ↦ pick_interface interfaces
]

-- The active configuration, or the one of index 0 where none is active.
unfoldable pub choose_config : IoResult Config → IoResult Config → IoResult Config
choose_config (ok config) by_index = ok config
choose_config (err not_found) by_index = by_index
choose_config (err would_block) by_index = err would_block
choose_config (err broken_pipe) by_index = err broken_pipe
choose_config (err not_connected) by_index = err not_connected
choose_config (err interrupted) by_index = err interrupted
choose_config (err other) by_index = err other
choose_config (err invalid_input) by_index = err invalid_input
choose_config (err invalid_data) by_index = err invalid_data
choose_config (err timed_out) by_index = err timed_out
choose_config (err unexpected_eof) by_index = err unexpected_eof

unfoldable pub find_gs_usb_interface :
    IoResult Config → IoResult Config → IoResult (Option InterfaceInfo)
find_gs_usb_interface active by_index = elim (choose_config active by_index) [
  | err kind ↦ err kind
  | ok config ↦ ok (pick_interface config)
]

-- `libusb_device_descriptor`
pub record DeviceDescriptor : Type 0 where
  pub id_vendor : ℕ
  pub id_product : ℕ
  pub i_product : ℕ
  pub i_serial_number : ℕ

-- A device as libusb answers for it: `strings` are its string descriptors, as texts, and `opens` the
-- result of opening it.
pub record UsbDevice : Type 0 where
  pub descriptor : IoResult DeviceDescriptor
  pub active : IoResult Config
  pub by_index : IoResult Config
  pub opens : IoResult {0} Unit
  pub strings : ℕ → Option Text
  pub bus : ℕ
  pub address : ℕ

-- `read_string_descriptor` of context.rs
unfoldable pub read_string_descriptor : UsbDevice → ℕ → Option Text
read_string_descriptor device index = if index == 0 then none else device.strings index

unfoldable pub is_text : Option Text → Text → Bool
is_text none ident = false
is_text (some text) ident = eq_ignore_ascii_case text ident

unfoldable pub is_number : Option ℕ → ℕ → Bool
is_number none index = false
is_number (some idx) index = idx == index

unfoldable pub device_matches_identifier : Text → ℕ → UsbDevice → DeviceDescriptor → Bool
device_matches_identifier identifier index device desc =
    let ident = trim identifier in
    eq_ignore_ascii_case ident (codes "auto")
    || is_number (parse_decimal (2 ^ 64) ident) index
    || is_text (read_string_descriptor device desc.i_serial_number) ident
    || is_text (read_string_descriptor device desc.i_product) ident
    || is_text (some (format_padded 3 device.bus ++ (b':' ∷ format_padded 3 device.address))) ident

-- `{:04x}:{:04x}`
unfoldable pub id_text : DeviceDescriptor → Text
id_text desc =
    map to_ascii_lower (format_hex 4 desc.id_vendor)
    ++ (b':' ∷ map to_ascii_lower (format_hex 4 desc.id_product))

unfoldable pub or_text : Option Text → Text → Text
or_text none text = text
or_text (some t) text = t

unfoldable pub read_product_label : UsbDevice → DeviceDescriptor → Text
read_product_label device desc =
    or_text (read_string_descriptor device desc.i_product)
      (or_text (read_string_descriptor device desc.i_serial_number) (id_text desc))

-- What a round of the device loop comes to: the device is skipped, does not match, ends the loop with
-- an error, or is taken.
pub data Verdict : Type 0 where
  skipped unmatched : Verdict
  refused : ErrorKind → Verdict
  taken : InterfaceInfo → Text → Verdict

unfoldable pub judge_opened :
    Text → ℕ → UsbDevice → DeviceDescriptor → InterfaceInfo → IoResult {0} Unit → Verdict
judge_opened identifier index device desc info (err kind) = refused kind
judge_opened identifier index device desc info (ok _) =
    if device_matches_identifier identifier index device desc
    then taken info (read_product_label device desc)
    else unmatched

unfoldable pub judge_interface :
    Text → ℕ → UsbDevice → DeviceDescriptor → IoResult (Option InterfaceInfo) → Verdict
judge_interface identifier index device desc (err kind) = refused kind
judge_interface identifier index device desc (ok none) = skipped
judge_interface identifier index device desc (ok (some info)) =
    judge_opened identifier index device desc info device.opens

unfoldable pub judge_descriptor : Text → ℕ → UsbDevice → IoResult DeviceDescriptor → Verdict
judge_descriptor identifier index device (err kind) = refused kind
judge_descriptor identifier index device (ok desc) =
    if not (desc.id_product == 0x606F && desc.id_vendor == 0x1D50)
    then skipped
    else judge_interface identifier index device desc
        (find_gs_usb_interface device.active device.by_index)

unfoldable pub judge : Text → ℕ → UsbDevice → Verdict
judge identifier index device = judge_descriptor identifier index device device.descriptor

-- The place of the device in the list stands for its handle.
pub record Selection : Type 0 where
  pub place : ℕ
  pub info : InterfaceInfo
  pub label : Text

-- The device loop: the place in the list and the number of devices that did not match are counted.
unfoldable pub select_loop : Text → ℕ → ℕ → List UsbDevice → IoResult Selection
select_loop identifier place index [] = err not_found
select_loop identifier place index (device ∷ devices) = elim (judge identifier index device) [
  | skipped ↦ select_loop identifier (suc place) index devices
  | unmatched ↦ select_loop identifier (suc place) (suc index) devices
  | refused kind ↦ err kind
  | taken info label ↦ ok (record { place = place; info = info; label = label })
]

unfoldable pub select_device : IoResult (List UsbDevice) → Text → IoResult Selection
select_device (err kind) identifier = err kind
select_device (ok devices) identifier = select_loop identifier 0 0 devices
