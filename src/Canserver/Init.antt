-- ===== src/Canserver/Init.antt =====
-- bin/canserver.rs, the set-up of a driver. The drivers are given by their calls on a state of their
-- own, and what opens them by its result.
pub mod Live
pub mod Stream
use win_can_utils.Base.{
  ℕ, ◌==◌, ◌||◌, if◌then◌else◌, Bool, true, false, List, [], ◌∷◌, map, Option, none, some,
}
use win_can_utils.Base.Text.{
  Text, codes, text_eq, to_ascii_lower, eq_ignore_ascii_case, strip_prefix,
}
use win_can_utils.Io.{IoResult, ok, err, other}

-- `CanDriver`, the calls of the set-up
pub record CanDriver (D : Type 0) : Type 0 where
  pub close_channel : D → IoResult {0} Unit × D
  pub set_bitrate : ℕ → D → IoResult {0} Unit × D
  pub enable_timestamp : D → IoResult {0} Unit × D
  pub open_channel : D → IoResult {0} Unit × D

module _ {D : Type 0} (driver : CanDriver D) where
  open driver use {close_channel, set_bitrate, enable_timestamp, open_channel}

  -- `?` behind a call.
  unfoldable pub and_call :
      IoResult {0} Unit × D → (D → IoResult {0} Unit × D) → IoResult {0} Unit × D
  and_call (err kind, d) next = (err kind, d)
  and_call (ok _, d) next = next d

  unfoldable pub bring_up : ℕ → D → IoResult {0} Unit × D
  unfolding and_call
  bring_up bitrate d = and_call (and_call (set_bitrate bitrate d) enable_timestamp) open_channel

  unfoldable pub bring_up_if : Option ℕ → D → IoResult {0} Unit × D
  unfolding bring_up
  bring_up_if none d = (err other, d)
  bring_up_if (some bitrate) d = bring_up bitrate d

  -- `init_gsusb`, from the opened driver on
  unfoldable pub init_gsusb : Option ℕ → D → IoResult {0} Unit × D
  unfolding and_call bring_up_if
  init_gsusb bitrate d = and_call (close_channel d) (bring_up_if bitrate)

  unfoldable pub ignoring : IoResult {0} Unit × D → D
  ignoring (result, d) = d

  -- `init_pcan`, from the opened driver on: a failing close does not matter.
  unfoldable pub init_pcan : Option ℕ → D → IoResult {0} Unit × D
  unfolding bring_up_if ignoring
  init_pcan bitrate d = bring_up_if bitrate (ignoring (close_channel d))

  -- `get_version` and `get_measured_bitrate` of the serial driver are given by what they answer.
  unfoldable pub slcan_bitrate : Option ℕ → Text → IoResult ℕ → IoResult ℕ
  slcan_bitrate (some bitrate) version measured = ok bitrate
  slcan_bitrate none version measured = elim (strip_prefix (codes "CYDER-CANABLE") version) [
    | none ↦ err other
    | some rest ↦ elim measured [ ok bitrate ↦ ok bitrate | err kind ↦ err other ]
  ]

  unfoldable pub bring_up_at : IoResult ℕ → D → IoResult {0} Unit × D
  unfolding bring_up
  bring_up_at (err kind) d = (err kind, d)
  bring_up_at (ok bitrate) d = bring_up bitrate d

  unfoldable pub with_version : Option ℕ → IoResult Text → IoResult ℕ → D → IoResult {0} Unit × D
  unfolding bring_up_at slcan_bitrate
  with_version bitrate (err kind) measured d = (err other, d)
  with_version bitrate (ok version) measured d =
      bring_up_at (slcan_bitrate bitrate version measured) d

  -- `init_slcan`, from the opened driver on
  unfoldable pub init_slcan : Option ℕ → IoResult Text → IoResult ℕ → D → IoResult {0} Unit × D
  unfolding and_call with_version
  init_slcan bitrate version measured d =
      and_call (close_channel d) (with_version bitrate version measured)

-- The PCAN channels that are tried in order.
abbrev pub common_channels : List Text
common_channels =
    codes "USBBUS1"
    ∷ codes "USBBUS2"
    ∷ codes "USBBUS3"
    ∷ codes "USBBUS4"
    ∷ codes "PCIBUS1"
    ∷ codes "PCIBUS2"
    ∷ codes "LANBUS1"
    ∷ codes "LANBUS2"
    ∷ []

-- The first driver that opens; `tried` is what opening a channel, and for a serial port asking it for
-- its version, results in.
unfoldable pub first_open : {D : Type 0} → (Text → IoResult D) → List Text → Option D
first_open tried [] = none
first_open tried (name ∷ names) = elim (tried name) [
  | ok d ↦ some d
  | err kind ↦ first_open tried names
]

unfoldable pub or_not_found : {D : Type 0} → Option D → IoResult D
or_not_found none = err other
or_not_found (some d) = ok d

unfoldable pub or_other : {D : Type 0} → IoResult D → IoResult D
or_other (err kind) = err other
or_other (ok d) = ok d

unfoldable pub open_pcan : {D : Type 0} → (Text → IoResult D) → Text → IoResult D
unfolding first_open or_not_found or_other
open_pcan tried channel =
    if eq_ignore_ascii_case channel (codes "AUTO")
    then or_not_found (first_open tried common_channels)
    else or_other (tried channel)

unfoldable pub open_ports : {D : Type 0} → (Text → IoResult D) → IoResult (List Text) → IoResult D
open_ports answering (err kind) = err other
open_ports answering (ok ports) = or_not_found (first_open answering ports)

-- `answering` is `tried` with the port's version asked for.
unfoldable pub open_slcan :
    {D : Type 0}
    → (Text → IoResult D)
    → (Text → IoResult D)
    → IoResult (List Text)
    → Text
    → IoResult D
unfolding open_ports or_other
open_slcan tried answering ports channel =
    if eq_ignore_ascii_case channel (codes "auto")
    then open_ports answering ports
    else or_other (tried channel)

pub data DriverKind : Type 0 where
  slcan pcan gsusb unknown : DriverKind

-- `initialize_driver`, for names in ASCII
unfoldable pub driver_kind : Text → DriverKind
driver_kind name =
    if eq_ignore_ascii_case name (codes "slcan")
    then slcan
    else if eq_ignore_ascii_case name (codes "pcan")
    then pcan
    else if eq_ignore_ascii_case name (codes "gsusb") || eq_ignore_ascii_case name (codes "gs_usb")
    then gsusb
    else unknown
