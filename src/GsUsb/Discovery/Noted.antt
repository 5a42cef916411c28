-- ===== src/GsUsb/Discovery/Noted.antt =====
-- What the endpoint loop notes of an alternate setting.
use win_can_utils.Base.{
  ℕ, ◌%◌, ◌≡◌, inl, inr, refl, ap, ◌∙◌, if◌then◌else◌, Bool, true, false, Bool-cases, List, [], ◌∷◌,
  Option, none, some, Option-cases, arith,
}
use win_can_utils.Base.Bits.{and_mask, and_flag}
use win_can_utils.GsUsb.Discovery.{
  InterfaceInfo, Endpoint, AltSetting, is_in, xfer_type, note_endpoint, note_endpoints, alt_info,
}
use win_can_utils.GsUsb.Discovery.Endpoints.{
  to_host, has_kind, bulk_in, bulk_out, interrupt_in, last_of, or_before,
}

xfer_type_lem : (e : Endpoint) → xfer_type e ≡ e.bm_attributes % 4
unfolding xfer_type
xfer_type_lem e = and_mask 2 e.bm_attributes

is_in_lem : (e : Endpoint) → is_in e ≡ to_host e
unfolding is_in to_host
is_in_lem e = rw (and_flag 7 e.b_endpoint_address) ground arith

-- The body of the loop, by the kinds of endpoints above.
note_endpoint_lem :
    (e : Endpoint) (info : InterfaceInfo)
    → note_endpoint e info ≡ (
        if has_kind 2 e
        then if to_host e
          then record info { in_ep = e.b_endpoint_address }
          else record info { out_ep = e.b_endpoint_address; out_wmax = e.w_max_packet_size }
        else if has_kind 3 e
        then if to_host e then record info { int_ep = some e.b_endpoint_address } else info
        else info)
unfolding note_endpoint has_kind
note_endpoint_lem e info = rw (xfer_type_lem e, is_in_lem e) refl

-- A field that the endpoints of a kind set is that of the last such endpoint, or as before without one.
module _ {A : Type 0} (fits : Endpoint → Bool) (field : InterfaceInfo → A)
    (of_endpoint : Endpoint → A)
    (sets : (e : Endpoint) (info : InterfaceInfo)
      → fits e ≡ true
      → field (note_endpoint e info) ≡ of_endpoint e)
    (keeps : (e : Endpoint) (info : InterfaceInfo)
      → fits e ≡ false
      → field (note_endpoint e info) ≡ field info) where
  field_lem :
      (endpoints : List Endpoint) (info : InterfaceInfo)
      → field (note_endpoints endpoints info)
        ≡ or_before (last_of fits endpoints) of_endpoint (field info)
  unfolding note_endpoints last_of or_before
  field_lem [] info = refl
  field_lem (e ∷ endpoints) info =
      let after = field_lem endpoints (note_endpoint e info) in
      elim (Option-cases (last_of fits endpoints)) [
        | inr (later, found) ↦ rw (after, found) refl
        | inl absent ↦ elim (Bool-cases (fits e)) [
          | inl yes_kind ↦ rw (after, absent, yes_kind) (sets e info yes_kind)
          | inr no_kind ↦ rw (after, absent, no_kind) (keeps e info no_kind)
        ]
      ]

in_sets :
    (e : Endpoint) (info : InterfaceInfo)
    → bulk_in e ≡ true
    → (note_endpoint e info).in_ep ≡ e.b_endpoint_address
unfolding bulk_in
in_sets e info h = rw (note_endpoint_lem e info) (ground arith)

in_keeps :
    (e : Endpoint) (info : InterfaceInfo)
    → bulk_in e ≡ false
    → (note_endpoint e info).in_ep ≡ info.in_ep
unfolding bulk_in
in_keeps e info h = rw (note_endpoint_lem e info) (ground arith)

-- The address and the packet size of the endpoint that is written to.
abbrev out_field : InterfaceInfo → ℕ × ℕ
out_field info = (info.out_ep, info.out_wmax)

abbrev out_of : Endpoint → ℕ × ℕ
out_of e = (e.b_endpoint_address, e.w_max_packet_size)

out_sets :
    (e : Endpoint) (info : InterfaceInfo)
    → bulk_out e ≡ true
    → out_field (note_endpoint e info) ≡ out_of e
unfolding bulk_out
out_sets e info h = rw (note_endpoint_lem e info) (ground arith)

out_keeps :
    (e : Endpoint) (info : InterfaceInfo)
    → bulk_out e ≡ false
    → out_field (note_endpoint e info) ≡ out_field info
unfolding bulk_out
out_keeps e info h = rw (note_endpoint_lem e info) (ground arith)

interrupt_sets :
    (e : Endpoint) (info : InterfaceInfo)
    → interrupt_in e ≡ true
    → (note_endpoint e info).int_ep ≡ some e.b_endpoint_address
unfolding interrupt_in has_kind
interrupt_sets e info h = rw (note_endpoint_lem e info) (ground arith)

interrupt_keeps :
    (e : Endpoint) (info : InterfaceInfo)
    → interrupt_in e ≡ false
    → (note_endpoint e info).int_ep ≡ info.int_ep
unfolding interrupt_in
interrupt_keeps e info h = rw (note_endpoint_lem e info) (ground arith)

note_endpoint_numbers :
    (e : Endpoint) (info : InterfaceInfo)
    → ((note_endpoint e info).interface_number ≡ info.interface_number)
      × ((note_endpoint e info).alt_setting ≡ info.alt_setting)
unfolding note_endpoint
note_endpoint_numbers e info = (ground arith, ground arith)

note_endpoints_numbers :
    (endpoints : List Endpoint) (info : InterfaceInfo)
    → ((note_endpoints endpoints info).interface_number ≡ info.interface_number)
      × ((note_endpoints endpoints info).alt_setting ≡ info.alt_setting)
unfolding note_endpoints
note_endpoints_numbers [] info = (refl, refl)
note_endpoints_numbers (e ∷ endpoints) info =
    let (a, b) = note_endpoint_numbers e info in
    let (a', b') = note_endpoints_numbers endpoints (note_endpoint e info) in (a' ∙ a, b' ∙ b)

-- All that the endpoint loop notes of a setting: its numbers, and the last endpoint of each kind.
unfoldable pub noted : AltSetting → InterfaceInfo
noted descriptor = record {
  interface_number = descriptor.b_interface_number;
  alt_setting = descriptor.b_alternate_setting;
  in_ep = or_before (last_of bulk_in descriptor.endpoints) (λ e. e.b_endpoint_address) 0;
  out_ep = or_before (last_of bulk_out descriptor.endpoints) (λ e. e.b_endpoint_address) 0;
  int_ep =
      or_before (last_of interrupt_in descriptor.endpoints) (λ e. some e.b_endpoint_address) none;
  out_wmax = or_before (last_of bulk_out descriptor.endpoints) (λ e. e.w_max_packet_size) 64;
}

or_before-ap :
    {A B : Type 0} (f : A → B) (o : Option Endpoint) (of_endpoint : Endpoint → A) (before : A)
    → f (or_before o of_endpoint before) ≡ or_before o (λ e. f (of_endpoint e)) (f before)
unfolding or_before
or_before-ap f none of_endpoint before = refl
or_before-ap f (some e) of_endpoint before = refl

pub alt_info-noted : (descriptor : AltSetting) → alt_info descriptor ≡ noted descriptor
unfolding alt_info noted
alt_info-noted descriptor = λ i. record {
  interface_number = numbers.0 i;
  alt_setting = numbers.1 i;
  in_ep =
      field_lem bulk_in (λ info. info.in_ep) (λ e. e.b_endpoint_address) in_sets in_keeps
        descriptor.endpoints bare i;
  out_ep =
      (ap (λ p. p.0) outs
          ∙ or_before-ap (λ p. p.0) (last_of bulk_out descriptor.endpoints) out_of (0, 64))
        i;
  int_ep =
      field_lem interrupt_in (λ info. info.int_ep) (λ e. some e.b_endpoint_address) interrupt_sets
        interrupt_keeps descriptor.endpoints bare i;
  out_wmax =
      (ap (λ p. p.1) outs
          ∙ or_before-ap (λ p. p.1) (last_of bulk_out descriptor.endpoints) out_of (0, 64))
        i;
}
  where
    bare : InterfaceInfo
    bare = record {
      interface_number = descriptor.b_interface_number;
      alt_setting = descriptor.b_alternate_setting;
      in_ep = 0;
      out_ep = 0;
      int_ep = none;
      out_wmax = 64;
    }

    numbers :
        ((note_endpoints descriptor.endpoints bare).interface_number ≡ bare.interface_number)
        × ((note_endpoints descriptor.endpoints bare).alt_setting ≡ bare.alt_setting)
    numbers = note_endpoints_numbers descriptor.endpoints bare

    outs :
        out_field (note_endpoints descriptor.endpoints bare)
        ≡ or_before (last_of bulk_out descriptor.endpoints) out_of (0, 64)
    outs = field_lem bulk_out out_field out_of out_sets out_keeps descriptor.endpoints bare
