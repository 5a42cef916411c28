-- ===== src/Can/Plain.antt =====
-- A frame type that meets the laws of `CanApi`: a record of its fields.
use win_can_utils.Base.{
  ℕ, refl, Bool, true, false, List, [], length, Option, none, some, leb, ◌&&◌, if◌then◌else◌, arith,
}
use win_can_utils.Can.{CanApi, IsDataFrame, DataFrameLaws}

pub record PlainFrame : Type 0 where
  pub number : ℕ
  pub bytes : List ℕ
  pub code_length : ℕ
  pub extended : Bool
  pub remote : Bool
  pub error : Bool
  pub stamp : Option ℕ

abbrev pub data_frame : ℕ → List ℕ → Bool → PlainFrame
data_frame i d eff = record {
  number = i;
  bytes = d;
  code_length = length d;
  extended = eff;
  remote = false;
  error = false;
  stamp = none;
}

abbrev pub plain_can : CanApi
plain_can = record {
  CanFrame = PlainFrame;
  new = λ i d. if leb i 0x7FF && leb (length d) 8 then some (data_frame i d false) else none;
  new_eff =
      λ i d. if leb i 0x1FFF_FFFF && leb (length d) 8 then some (data_frame i d true) else none;
  new_remote = λ i n eff. some (record (data_frame i [] eff) { code_length = n; remote = true });
  new_error = λ i. some (record (data_frame i [] true) { error = true });
  set_timestamp = λ f t. record f { stamp = t };
  id = λ f. f.number;
  payload = λ f. f.bytes;
  dlc = λ f. f.code_length;
  is_extended = λ f. f.extended;
  is_rtr = λ f. f.remote;
  is_error = λ f. f.error;
  timestamp = λ f. f.stamp;
}

pub data_frame_fields :
    (i : ℕ) (d : List ℕ) (eff : Bool) → IsDataFrame plain_can (data_frame i d eff) i d eff
data_frame_fields i d eff = record {
  id_eq = refl;
  payload_eq = refl;
  dlc_eq = refl;
  extended_eq = refl;
  rtr_eq = refl;
  error_eq = refl;
}

stamp_keeps :
    (f : PlainFrame) (t : Option ℕ) (i : ℕ) (d : List ℕ) (eff : Bool)
    → IsDataFrame plain_can f i d eff
    → IsDataFrame plain_can (record f { stamp = t }) i d eff
stamp_keeps f t i d eff h = record {
  id_eq = h.id_eq;
  payload_eq = h.payload_eq;
  dlc_eq = h.dlc_eq;
  extended_eq = h.extended_eq;
  rtr_eq = h.rtr_eq;
  error_eq = h.error_eq;
}

pub plain_can_laws : DataFrameLaws plain_can
plain_can_laws = record {
  new_accepts = λ i d hi hd. (data_frame i d false, ground arith, data_frame_fields i d false);
  new_eff_accepts = λ i d hi hd. (data_frame i d true, ground arith, data_frame_fields i d true);
  set_timestamp_keeps = λ f t i d eff h. (stamp_keeps f t i d eff h, refl);
}
