-- ===== src/GsUsb/Discovery/Picked.antt =====
-- Which interface the search in a configuration picks, and with which endpoints.
use mathlib.Core.List.{flatten}
use win_can_utils.Base.{
  ◌≡◌, inl, inr, refl, sym, ap, ◌∙◌, ◌==◌, if◌then◌else◌, true, Bool-cases, List, [], ◌∷◌, ◌++◌,
  Option, none, some, Option-cases, arith,
}
use win_can_utils.GsUsb.Discovery.{
  InterfaceInfo, Endpoint, AltSetting, Config, is_complete, pick_setting, pick_interface,
}
use win_can_utils.GsUsb.Discovery.Endpoints.{
  bulk_in, bulk_out, interrupt_in, last_of, last_of-fits, or_before, to_host-positive,
}
use win_can_utils.GsUsb.Discovery.Noted.{noted, alt_info-noted}

-- A setting with its last bulk endpoint for either direction, if it has both. The address 0, which is
-- that of control transfers, is no address to write to.
unfoldable pub with_ends : AltSetting → Option Endpoint → Option Endpoint → Option InterfaceInfo
with_ends descriptor none writes = none
with_ends descriptor (some reads) none = none
with_ends descriptor (some reads) (some writes) =
    if writes.b_endpoint_address == 0
    then none
    else some (record {
      interface_number = descriptor.b_interface_number;
      alt_setting = descriptor.b_alternate_setting;
      in_ep = reads.b_endpoint_address;
      out_ep = writes.b_endpoint_address;
      int_ep =
          or_before (last_of interrupt_in descriptor.endpoints) (λ e. some e.b_endpoint_address)
            none;
      out_wmax = writes.w_max_packet_size;
    })

-- What the driver gets to know of a setting that it can use.
unfoldable pub usable : AltSetting → Option InterfaceInfo
unfolding with_ends
usable descriptor =
    if descriptor.b_interface_class == 255
    then with_ends descriptor (last_of bulk_in descriptor.endpoints)
        (last_of bulk_out descriptor.endpoints)
    else none

unfoldable pub or_later : Option InterfaceInfo → Option InterfaceInfo → Option InterfaceInfo
or_later (some info) later = some info
or_later none later = later

unfoldable pub first_usable : List AltSetting → Option InterfaceInfo
unfolding usable or_later
first_usable [] = none
first_usable (descriptor ∷ rest) = or_later (usable descriptor) (first_usable rest)

with_ends_lem :
    (descriptor : AltSetting)
    → with_ends descriptor
        (last_of bulk_in descriptor.endpoints)
        (last_of bulk_out descriptor.endpoints)
      ≡ (if is_complete (noted descriptor) then some (noted descriptor) else none)
unfolding with_ends is_complete noted or_before
with_ends_lem descriptor =
    let fits = last_of-fits bulk_in descriptor.endpoints in
    elim (Option-cases (last_of bulk_in descriptor.endpoints)) [
      | inl no_in ↦ rw no_in refl
      | inr (reads, found) ↦
          let positive =
            to_host-positive reads (sym (ap (λ o. or_before o bulk_in true) found) ∙ fits) in
          elim (Option-cases (last_of bulk_out descriptor.endpoints)) [
            | inl no_out ↦ rw (found, no_out) (ground arith)
            | inr (writes, found') ↦ rw (found, found') (ground arith)
          ]
    ]

pick_setting_step :
    (descriptor : AltSetting) (rest : List AltSetting)
    → pick_setting (descriptor ∷ rest) ≡ or_later (usable descriptor) (pick_setting rest)
unfolding pick_setting usable or_later
pick_setting_step descriptor rest =
    let same = with_ends_lem descriptor in
    elim (Bool-cases (descriptor.b_interface_class == 255)) [
      | inr other ↦ rw other refl
      | inl vendor ↦ elim (Bool-cases (is_complete (noted descriptor))) [
        | inl complete ↦ rw (alt_info-noted descriptor, vendor, same, complete) refl
        | inr partial ↦ rw (alt_info-noted descriptor, vendor, same, partial) refl
      ]
    ]

pick_setting_lem : (settings : List AltSetting) → pick_setting settings ≡ first_usable settings
unfolding pick_setting first_usable
pick_setting_lem [] = refl
pick_setting_lem (descriptor ∷ rest) =
    pick_setting_step descriptor rest ∙ ap (or_later (usable descriptor)) (pick_setting_lem rest)

first_usable-append :
    (a b : List AltSetting) → first_usable (a ++ b) ≡ or_later (first_usable a) (first_usable b)
unfolding first_usable or_later
first_usable-append [] b = refl
first_usable-append (descriptor ∷ a) b = elim (Option-cases (usable descriptor)) [
  | inl unusable ↦ rw unusable (first_usable-append a b)
  | inr (info, found) ↦ rw found refl
]

pick_interface_step :
    (settings : List AltSetting) (config : Config)
    → pick_interface (settings ∷ config) ≡ or_later (pick_setting settings) (pick_interface config)
unfolding pick_interface or_later
pick_interface_step settings config = elim (Option-cases (pick_setting settings)) [
  | inl absent ↦ rw (absent, pick_interface) refl
  | inr (info, found) ↦ rw (found, pick_interface) refl
]

-- What is picked is the first setting, of all interfaces in the order of their descriptors, of the
-- vendor's class 255 with a bulk endpoint to the host and, as its last bulk endpoint from the host, one
-- with an address other than 0. It is known by its numbers, its last bulk endpoints, the packet size of
-- the one that is written to, and its last interrupt endpoint to the host. Without such a setting none
-- is picked.
pub pick_interface-first_usable :
    (config : Config) → pick_interface config ≡ first_usable (flatten config)
unfolding pick_interface flatten first_usable
pick_interface-first_usable [] = refl
pick_interface-first_usable (settings ∷ config) =
    pick_interface_step settings config
    ∙ ap (or_later (pick_setting settings)) (pick_interface-first_usable config)
    ∙ ap (λ o. or_later o (first_usable (flatten config))) (pick_setting_lem settings)
    ∙ sym (first_usable-append settings (flatten config))
