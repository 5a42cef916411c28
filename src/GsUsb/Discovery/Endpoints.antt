-- ===== src/GsUsb/Discovery/Endpoints.antt =====
-- The endpoints of an alternate setting, read with the arithmetic of the USB standard, and what the
-- driver gets to know of them.
use win_can_utils.Base.{
  ℕ, ◌/◌, ◌%◌, ◌<◌, ◌≡◌, inl, inr, refl, sym, ap, ◌∙◌, not, ◌==◌, ◌&&◌, if◌then◌else◌, Bool, true,
  Bool-cases, List, [], ◌∷◌, Option, none, some, Option-cases, arith,
}
use win_can_utils.GsUsb.Discovery.{Endpoint}

-- The two low bits of the attributes are the kind of transfer, 2 for bulk and 3 for interrupt; bit 7 of
-- the address is set for the direction to the host.
unfoldable pub to_host : Endpoint → Bool
to_host e = e.b_endpoint_address / 128 % 2 == 1

unfoldable pub has_kind : ℕ → Endpoint → Bool
has_kind kind e = e.bm_attributes % 4 == kind

unfoldable pub bulk_in : Endpoint → Bool
bulk_in e = has_kind 2 e && to_host e

unfoldable pub bulk_out : Endpoint → Bool
bulk_out e = has_kind 2 e && not (to_host e)

unfoldable pub interrupt_in : Endpoint → Bool
interrupt_in e = has_kind 3 e && to_host e

unfoldable pub last_of : (Endpoint → Bool) → List Endpoint → Option Endpoint
last_of fits [] = none
last_of fits (e ∷ endpoints) = elim (last_of fits endpoints) [
  | some later ↦ some later
  | none ↦ if fits e then some e else none
]

-- An endpoint or nothing, as a field that it sets.
unfoldable pub or_before {ℓ} : {A : Type ℓ} → Option Endpoint → (Endpoint → A) → A → A
or_before none of_endpoint before = before
or_before (some e) of_endpoint before = of_endpoint e

pub last_of-fits :
    (fits : Endpoint → Bool) (endpoints : List Endpoint)
    → or_before (last_of fits endpoints) fits true ≡ true
unfolding last_of or_before
last_of-fits fits [] = refl
last_of-fits fits (e ∷ endpoints) =
    let later = last_of-fits fits endpoints in
    elim (Option-cases (last_of fits endpoints)) [
      | inr (last, found) ↦ rw found (sym (ap (λ o. or_before o fits true) found) ∙ later)
      | inl absent ↦ elim (Bool-cases (fits e)) [
        | inl yes_kind ↦ rw (absent, yes_kind) yes_kind
        | inr no_kind ↦ rw (absent, no_kind) refl
      ]
    ]

pub to_host-positive : (e : Endpoint) → bulk_in e ≡ true → 0 < e.b_endpoint_address
unfolding bulk_in to_host
to_host-positive e h = ground arith
