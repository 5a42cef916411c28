-- ===== src/Can.antt =====
-- `crosscan::can::CanFrame`, a type of another crate: the operations that the drivers and the
-- programs call, and the documented behaviour that some properties rely on.
pub mod Plain
use win_can_utils.Base.{ℕ, ◌≤◌, ◌≡◌, Bool, true, false, List, length, Option, none, some}

-- A constructor that returns an error is `none`. `payload` is the frame's `data()`.
pub record CanApi : Type 1 where
  pub CanFrame : Type 0
  pub new : ℕ → List ℕ → Option CanFrame
  pub new_eff : ℕ → List ℕ → Option CanFrame
  pub new_remote : ℕ → ℕ → Bool → Option CanFrame
  pub new_error : ℕ → Option CanFrame
  pub set_timestamp : CanFrame → Option ℕ → CanFrame
  pub id : CanFrame → ℕ
  pub payload : CanFrame → List ℕ
  pub dlc : CanFrame → ℕ
  pub is_extended : CanFrame → Bool
  pub is_rtr : CanFrame → Bool
  pub is_error : CanFrame → Bool
  pub timestamp : CanFrame → Option ℕ

-- The largest identifier of a standard and of an extended frame.
abbrev pub max_id : Bool → ℕ
max_id true = 0x1FFF_FFFF
max_id false = 0x7FF

-- What a data frame answers.
pub record IsDataFrame (can : CanApi) (f : can.CanFrame) (i : ℕ) (d : List ℕ) (eff : Bool)
    : Type 0 where
  pub id_eq : can.id f ≡ i
  pub payload_eq : can.payload f ≡ d
  pub dlc_eq : can.dlc f ≡ length d
  pub extended_eq : can.is_extended f ≡ eff
  pub rtr_eq : can.is_rtr f ≡ false
  pub error_eq : can.is_error f ≡ false

-- Classic data frames: an identifier of 11 or 29 bits and at most eight bytes are accepted, and the
-- accessors give them back. Setting the timestamp changes nothing else.
pub record DataFrameLaws (can : CanApi) : Type 0 where
  pub new_accepts :
      (i : ℕ) (d : List ℕ)
      → i ≤ 0x7FF
      → length d ≤ 8
      → (f : can.CanFrame) × (can.new i d ≡ some f) × IsDataFrame can f i d false
  pub new_eff_accepts :
      (i : ℕ) (d : List ℕ)
      → i ≤ 0x1FFF_FFFF
      → length d ≤ 8
      → (f : can.CanFrame) × (can.new_eff i d ≡ some f) × IsDataFrame can f i d true
  pub set_timestamp_keeps :
      (f : can.CanFrame) (t : Option ℕ) (i : ℕ) (d : List ℕ) (eff : Bool)
      → IsDataFrame can f i d eff
      → IsDataFrame can (can.set_timestamp f t) i d eff
        × (can.timestamp (can.set_timestamp f t) ≡ t)
