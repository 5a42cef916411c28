-- ===== src/Pcan/Channels.antt =====
-- drivers/pcan.rs: the names of channels, opening and closing. The library's first channel of a bus is
-- a parameter.
use win_can_utils.Base.{
  ℕ, ◌+◌, ◌-◌, ◌%◌, ◌^◌, ◌≤◌, ◌<◌, ◌≡◌, ◌⊎◌, inl, inr, leb, ◌&&◌, if◌then◌else◌, Bool, map, Option,
  none, some, arith,
}
use win_can_utils.Base.Text.{Text, codes, trim, to_ascii_upper, strip_prefix, parse_decimal}
use win_can_utils.Io.{IoResult, ok, err, other, not_found, invalid_input}

-- PEAK_USBBUS1, PEAK_PCIBUS1 and PEAK_LANBUS1
pub record PeakChannels : Type 0 where
  pub usbbus1 : ℕ
  pub pcibus1 : ℕ
  pub lanbus1 : ℕ

unfoldable pub take_idx : Text → Text → Option ℕ
take_idx prefix t = elim (strip_prefix prefix t) [ none ↦ none | some n ↦ parse_decimal (2 ^ 64) n ]

-- A number from 1 to 16, counted from the bus's first channel.
unfoldable pub in_bus : ℕ → Option ℕ → Option ℕ
in_bus base none = none
in_bus base (some i) = if leb 1 i && leb i 16 then some ((base + (i - 1)) % 2 ^ 16) else none

unfoldable pub or_else : Option ℕ → Option ℕ → Option ℕ
or_else (some channel) later = some channel
or_else none later = later

unfoldable pub without_prefix : Text → Text
without_prefix t = elim (strip_prefix (codes "PCAN_") t) [ none ↦ t | some rest ↦ rest ]

unfoldable pub parse_channel : PeakChannels → Text → Option ℕ
parse_channel peak s =
    let t = without_prefix (map to_ascii_upper (trim s)) in
    or_else (in_bus peak.usbbus1 (take_idx (codes "USBBUS") t)) (
      or_else (in_bus peak.pcibus1 (take_idx (codes "PCIBUS") t))
        (in_bus peak.lanbus1 (take_idx (codes "LANBUS") t)))

-- `PcanDriver::open`; `loaded` tells whether PCANBasic.dll is there.
unfoldable pub open_pcan_channel : PeakChannels → Bool → Text → IoResult ℕ
open_pcan_channel peak loaded name =
    if loaded
    then elim (parse_channel peak name) [ none ↦ err invalid_input | some channel ↦ ok channel ]
    else err not_found

-- `close_channel`, with whether CAN_Uninitialize succeeded
unfoldable pub close_pcan_channel : Bool → Bool → IoResult {0} Unit
close_pcan_channel loaded uninitialized =
    if loaded then if uninitialized then ok tt else err other else err not_found

-- A number among the sixteen of a bus.
abbrev pub IsOn : ℕ → ℕ → Type 0
IsOn base channel = (base ≤ channel) × (channel < base + 16)

in_bus-IsOn :
    (base : ℕ) (i : Option ℕ) (channel : ℕ)
    → base + 16 < 2 ^ 16
    → in_bus base i ≡ some channel
    → IsOn base channel
unfolding in_bus
in_bus-IsOn base none channel fits h = absurd cc
in_bus-IsOn base (some i) channel fits h = ground arith

or_else-cases :
    (first later : Option ℕ) (channel : ℕ)
    → or_else first later ≡ some channel
    → (first ≡ some channel) ⊎ (later ≡ some channel)
unfolding or_else
or_else-cases none later channel h = inr h
or_else-cases (some c) later channel h = inl h

module _ (peak : PeakChannels) where
  -- A name that is understood is one of the sixteen numbers from a bus's first channel on.
  parse_channel-IsOn :
      (s : Text) (channel : ℕ)
      → peak.usbbus1 + 16 < 2 ^ 16
      → peak.pcibus1 + 16 < 2 ^ 16
      → peak.lanbus1 + 16 < 2 ^ 16
      → parse_channel peak s ≡ some channel
      → IsOn peak.usbbus1 channel ⊎ IsOn peak.pcibus1 channel ⊎ IsOn peak.lanbus1 channel
  unfolding parse_channel
  parse_channel-IsOn s channel usb pci lan h =
      let t = without_prefix (map to_ascii_upper (trim s)) in
      let on_usb = in_bus peak.usbbus1 (take_idx (codes "USBBUS") t) in
      let on_pci = in_bus peak.pcibus1 (take_idx (codes "PCIBUS") t) in
      let on_lan = in_bus peak.lanbus1 (take_idx (codes "LANBUS") t) in
      elim (or_else-cases on_usb (or_else on_pci on_lan) channel h) [
        | inl found ↦ inl (in_bus-IsOn peak.usbbus1 (take_idx (codes "USBBUS") t) channel usb found)
        | inr rest ↦ elim (or_else-cases on_pci on_lan channel rest) [
          | inl found ↦
              inr (inl (in_bus-IsOn peak.pcibus1 (take_idx (codes "PCIBUS") t) channel pci found))
          | inr found ↦
              inr (inr (in_bus-IsOn peak.lanbus1 (take_idx (codes "LANBUS") t) channel lan found))
        ]
      ]
