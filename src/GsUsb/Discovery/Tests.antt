-- ===== src/GsUsb/Discovery/Tests.antt =====
-- Lists of devices with two gs_usb adapters, of which one cannot be opened.
use mathlib.Core.List.{flatten}
use win_can_utils.Base.{ℕ, ◌≡◌, refl, List, [], ◌∷◌, some}
use win_can_utils.Base.Text.{
  Text, codes, text_eq, trim, trim_start, is_whitespace, to_ascii_lower, eq_ignore_ascii_case,
  format_padded, format_decimal, parse_decimal, read_decimal,
}
use win_can_utils.Io.{IoResult, ok, err, not_found, other, not_connected}
use win_can_utils.GsUsb.Discovery.{
  InterfaceInfo, Endpoint, Config, is_in, xfer_type, note_endpoint, note_endpoints, alt_info,
  is_complete, pick_setting, pick_interface, choose_config, find_gs_usb_interface, UsbDevice,
  read_string_descriptor, is_text, is_number, device_matches_identifier, id_text, or_text,
  read_product_label, judge, judge_descriptor, judge_interface, judge_opened, select_loop,
  select_device,
}
use win_can_utils.GsUsb.Discovery.Picked.{
  with_ends, usable, or_later, first_usable, pick_interface-first_usable,
}
use win_can_utils.GsUsb.Discovery.Endpoints.{
  to_host, has_kind, bulk_in, bulk_out, interrupt_in, last_of, or_before,
}
use win_can_utils.GsUsb.Discovery.Selected.{IsSelected, select_device-IsSelected}

abbrev endpoint : ℕ → ℕ → ℕ → Endpoint
endpoint address attributes size = record {
  b_endpoint_address = address;
  bm_attributes = attributes;
  w_max_packet_size = size;
}

-- A serial port's setting, and one with endpoints for both directions and an interrupt.
abbrev candlelight : Config
candlelight =
    (record {
      b_interface_class = 2;
      b_interface_number = 0;
      b_alternate_setting = 0;
      endpoints = endpoint 0x83 3 8 ∷ [];
    }
      ∷ [])
    ∷ (record {
      b_interface_class = 0xff;
      b_interface_number = 1;
      b_alternate_setting = 0;
      endpoints = endpoint 0x81 2 32 ∷ endpoint 2 2 32 ∷ endpoint 0x84 3 8 ∷ [];
    }
        ∷ [])
    ∷ []

abbrev picked : InterfaceInfo
picked = record {
  interface_number = 1;
  alt_setting = 0;
  in_ep = 0x81;
  out_ep = 2;
  int_ep = some 0x84;
  out_wmax = 32;
}

found : find_gs_usb_interface (err not_found) (ok candlelight) ≡ ok (some picked)
unfolding find_gs_usb_interface choose_config pick_interface pick_setting is_complete alt_info
    note_endpoints note_endpoint is_in xfer_type
found = refl

pick_interface-first_usable_example :
    pick_interface candlelight ≡ first_usable (flatten candlelight)
pick_interface-first_usable_example = pick_interface-first_usable candlelight

picked_first : first_usable (flatten candlelight) ≡ some picked
unfolding first_usable flatten usable or_later with_ends or_before last_of bulk_in bulk_out
    interrupt_in has_kind to_host
picked_first = refl

abbrev adapter : IoResult {0} Unit → Text → UsbDevice
adapter opens serial = record {
  descriptor =
      ok (record { id_vendor = 0x1D50; id_product = 0x606F; i_product = 0; i_serial_number = 3 });
  active = ok candlelight;
  by_index = err other;
  opens = opens;
  strings = λ n. some serial;
  bus = 1;
  address = 12;
}

abbrev mouse : UsbDevice
mouse = record (adapter (ok tt) (codes "M1")) {
  descriptor =
      ok (record { id_vendor = 0x046D; id_product = 0xC077; i_product = 0; i_serial_number = 0 });
}

abbrev devices : List UsbDevice
devices = mouse ∷ adapter (ok tt) (codes "A1") ∷ adapter (ok tt) (codes "B2") ∷ []

by_serial :
    select_device (ok devices) (codes " b2 ")
    ≡ ok (record { place = 2; info = picked; label = codes "B2" })
unfolding select_device select_loop judge judge_descriptor judge_interface judge_opened
    device_matches_identifier is_text is_number read_string_descriptor read_product_label or_text
    id_text find_gs_usb_interface choose_config pick_interface pick_setting is_complete alt_info
    note_endpoints note_endpoint is_in xfer_type text_eq trim trim_start is_whitespace
    to_ascii_lower eq_ignore_ascii_case format_padded format_decimal parse_decimal read_decimal
by_serial = refl

-- The second of two adapters is out of reach, even by its serial number, while the first is in use.
blocked :
    select_device
      (ok (adapter (err not_connected) (codes "A1") ∷ adapter (ok tt) (codes "B2") ∷ []))
      (codes "B2")
    ≡ err not_connected
unfolding select_device select_loop judge judge_descriptor judge_interface judge_opened
    find_gs_usb_interface choose_config pick_interface pick_setting is_complete alt_info
    note_endpoints note_endpoint is_in xfer_type
blocked = refl

select_device-IsSelected_example :
    IsSelected (codes "1") 0 0 devices (select_device (ok devices) (codes "1"))
select_device-IsSelected_example = select_device-IsSelected (codes "1") devices
