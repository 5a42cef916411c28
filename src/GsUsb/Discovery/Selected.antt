-- ===== src/GsUsb/Discovery/Selected.antt =====
-- Which device of the list is selected, and what ends the search.
use win_can_utils.Base.{
  ℕ, suc, ◌+◌, ◌≡◌, ◌⊎◌, inl, inr, refl, ap, ◌∙◌, List, [], ◌∷◌, ◌++◌, length, arith,
}
use win_can_utils.Base.Text.{Text}
use win_can_utils.Io.{IoResult, ok, err, ErrorKind, not_found}
use win_can_utils.GsUsb.Discovery.{
  InterfaceInfo, UsbDevice, Verdict, skipped, unmatched, refused, taken, judge, Selection,
  select_loop, select_device,
}

module _ (identifier : Text) where
  -- Devices that the search passes: those that are no gs_usb devices, and those that do not match,
  -- each by its number among the latter.
  pub data Passes : ℕ → List UsbDevice → ℕ → Type 0 where
    passed : {i : ℕ} → Passes i [] i
    skips :
        {i j : ℕ} {device : UsbDevice} {devices : List UsbDevice}
        → judge identifier i device ≡ skipped
        → Passes i devices j
        → Passes i (device ∷ devices) j
    misses :
        {i j : ℕ} {device : UsbDevice} {devices : List UsbDevice}
        → judge identifier i device ≡ unmatched
        → Passes (suc i) devices j
        → Passes i (device ∷ devices) j

  -- The device that decides: the search takes it, or ends with its error.
  pub record IsDecided (place index : ℕ) (devices : List UsbDevice) (result : IoResult Selection)
      : Type 0 where
    pub before : List UsbDevice
    pub device : UsbDevice
    pub after : List UsbDevice
    pub number : ℕ
    pub stands : devices ≡ before ++ (device ∷ after)
    pub passes : Passes index before number
    pub decides :
        ((info : InterfaceInfo) × (label : Text) × (judge identifier number device
            ≡ taken info label)
          × (result ≡ ok (record { place = place + length before; info = info; label = label })))
        ⊎ ((kind : ErrorKind) × (judge identifier number device ≡ refused kind)
            × (result ≡ err kind))

  unfoldable pub IsSelected : ℕ → ℕ → List UsbDevice → IoResult Selection → Type 0
  IsSelected place index devices result =
      IsDecided place index devices result
      ⊎ ((number : ℕ) × Passes index devices number × (result ≡ err not_found))

  Verdict-cases :
      (v : Verdict)
      → (v ≡ skipped)
        ⊎ (v ≡ unmatched)
        ⊎ ((kind : ErrorKind) × (v ≡ refused kind))
        ⊎ ((info : InterfaceInfo) × (label : Text) × (v ≡ taken info label))
  Verdict-cases skipped = inl refl
  Verdict-cases unmatched = inr (inl refl)
  Verdict-cases (refused kind) = inr (inr (inl (kind, refl)))
  Verdict-cases (taken info label) = inr (inr (inr (info, label, refl)))

  module _ (device : UsbDevice) (devices : List UsbDevice) (place index next_index : ℕ) where
    suc_out : (n : ℕ) → place + suc n ≡ suc place + n
    suc_out n = omega arith

    -- A device that is passed leaves the decision to the others.
    go_on :
        (result : IoResult Selection)
        → ((l : List UsbDevice) (j : ℕ) → Passes next_index l j → Passes index (device ∷ l) j)
        → IsSelected (suc place) next_index devices result
        → IsSelected place index (device ∷ devices) result
    unfolding IsSelected
    go_on result pass (inr (number, passes, absent)) =
        inr (number, pass devices number passes, absent)
    go_on result pass (inl d) = inl (record {
      before = device ∷ d.before;
      device = d.device;
      after = d.after;
      number = d.number;
      stands = ap (λ l. device ∷ l) d.stands;
      passes = pass d.before d.number d.passes;
      decides = elim d.decides [
        | inl (info, label, judged, result_is) ↦
            inl (info, label, judged, rw (suc_out (length d.before)) result_is)
        | inr refusal ↦ inr refusal
      ];
    })

  nothing_left : (place index : ℕ) → select_loop identifier place index [] ≡ err not_found
  unfolding select_loop
  nothing_left place index = refl

  module _ (place index : ℕ) (device : UsbDevice) (devices : List UsbDevice) where
    skipped_step :
        judge identifier index device ≡ skipped
        → select_loop identifier place index (device ∷ devices)
          ≡ select_loop identifier (suc place) index devices
    unfolding select_loop
    skipped_step judged = rw (judged, select_loop) refl

    unmatched_step :
        judge identifier index device ≡ unmatched
        → select_loop identifier place index (device ∷ devices)
          ≡ select_loop identifier (suc place) (suc index) devices
    unfolding select_loop
    unmatched_step judged = rw (judged, select_loop) refl

    refused_step :
        (kind : ErrorKind)
        → judge identifier index device ≡ refused kind
        → select_loop identifier place index (device ∷ devices) ≡ err kind
    unfolding select_loop
    refused_step kind judged = rw (judged, select_loop) refl

    taken_step :
        (info : InterfaceInfo) (label : Text)
        → judge identifier index device ≡ taken info label
        → select_loop identifier place index (device ∷ devices)
          ≡ ok (record { place = place; info = info; label = label })
    unfolding select_loop
    taken_step info label judged = rw (judged, select_loop) refl

  select_loop-IsSelected :
      (devices : List UsbDevice) (place index : ℕ)
      → IsSelected place index devices (select_loop identifier place index devices)
  unfolding IsSelected
  select_loop-IsSelected [] place index = inr (index, passed, nothing_left place index)
  select_loop-IsSelected (device ∷ devices) place index =
      elim (Verdict-cases (judge identifier index device)) [
        | inl skip ↦ rw (skipped_step place index device devices skip) (
            go_on device devices place index index
              (select_loop identifier (suc place) index devices) (λ l j p. skips skip p)
              (select_loop-IsSelected devices (suc place) index))
        | inr (inl miss) ↦ rw (unmatched_step place index device devices miss) (
            go_on device devices place index (suc index)
              (select_loop identifier (suc place) (suc index) devices) (λ l j p. misses miss p)
              (select_loop-IsSelected devices (suc place) (suc index)))
        | inr (inr (inl (kind, judged))) ↦ inl (record {
          before = [];
          device = device;
          after = devices;
          number = index;
          stands = refl;
          passes = passed;
          decides = inr (kind, judged, refused_step place index device devices kind judged);
        })
        | inr (inr (inr (info, label, judged))) ↦ inl (record {
          before = [];
          device = device;
          after = devices;
          number = index;
          stands = refl;
          passes = passed;
          decides = inl (
            info,
            label,
            judged,
            taken_step place index device devices info label judged
                ∙ (ap (λ n. ok (record { place = n; info = info; label = label })) (omega arith)),
          );
        })
      ]

  -- The first device of the list that is neither skipped nor unmatched decides: it is selected, with
  -- its place, interface and label, or its error is the result. Without such a device none is found.
  pub select_device-IsSelected :
      (devices : List UsbDevice) → IsSelected 0 0 devices (select_device (ok devices) identifier)
  unfolding select_device
  select_device-IsSelected devices = select_loop-IsSelected devices 0 0
