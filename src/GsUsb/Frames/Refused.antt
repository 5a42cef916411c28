-- ===== src/GsUsb/Frames/Refused.antt =====
-- A frame that has arrived whole and that its `CanFrame` constructor refuses.
use win_can_utils.Base.{
  ℕ, ◌+◌, ◌≤◌, ◌≡◌, ◌∙◌, ap, ltb, ◌==◌, if◌then◌else◌, false, true, List, ◌++◌, length,
  length-append, Option, none, some, value, slice, slice-append_value, Bool, arith,
}
use win_can_utils.Can.{CanApi}
use win_can_utils.GsUsb.Constants.{gs_can_echo_id_unused}
use win_can_utils.GsUsb.Frames.{
  dlc_to_len, Extent, extent_at, Header, read_header, plausible_header, build_frame, stamp_frame,
  accept_frame, judge_frame, parse_fields, parse_host_frame_at,
}
use win_can_utils.GsUsb.Frames.Bounds.{extent_at-more}
use win_can_utils.GsUsb.Frames.Reads.{read_header-append, plausible_header_lem}

-- The front of `bytes` is a whole frame for this channel, and the constructor refuses it.
pub record IsRefused (can : CanApi) (channel_index : ℕ) (ts : Bool) (wmax : ℕ) (pad : Bool)
    (bytes : List ℕ) : Type 0 where
  pub h : Header
  pub e : Extent
  pub body : List ℕ
  pub arrived : 12 ≤ length bytes
  pub header : read_header bytes ≡ value h
  pub valid : h.dlc ≤ 15
  pub own : h.chan ≡ channel_index
  pub host : h.echo_id ≡ gs_can_echo_id_unused
  pub whole : extent_at (dlc_to_len h.dlc) (length bytes) ts wmax pad ≡ some e
  pub payload : slice bytes 12 (12 + dlc_to_len h.dlc) ≡ value body
  pub refuses : build_frame can h.raw_id h.dlc body ≡ none

module _ (can : CanApi) (chan : ℕ) (ts : Bool) (wmax : ℕ) (pad : Bool) where
  pub IsRefused-append :
      (bytes more : List ℕ)
      → IsRefused can chan ts wmax pad bytes
      → IsRefused can chan ts wmax pad (bytes ++ more)
  IsRefused-append bytes more r = record {
    h = r.h;
    e = r.e;
    body = r.body;
    arrived = omega (arith, r.arrived, length-append bytes more);
    header = read_header-append bytes r.arrived more ∙ r.header;
    valid = r.valid;
    own = r.own;
    host = r.host;
    whole =
        rw (length-append bytes more)
          (extent_at-more (dlc_to_len r.h.dlc) (length bytes) ts wmax pad (length more) r.whole);
    payload = slice-append_value bytes more 12 (12 + dlc_to_len r.h.dlc) r.payload;
    refuses = r.refuses;
  }

  fields_refused :
      (bytes : List ℕ) (last : Option ℕ) (r : IsRefused can chan ts wmax pad bytes)
      → plausible_header bytes chan ≡ value true
      → parse_fields can bytes chan ts last wmax pad r.h ≡ value (none, last)
  unfolding parse_fields judge_frame accept_frame stamp_frame
  fields_refused bytes last r test =
      ground (arith, r.valid, r.own, r.host, r.whole, r.payload, r.refuses)

  pub parse_refused :
      (bytes : List ℕ) (last : Option ℕ)
      → IsRefused can chan ts wmax pad bytes
      → parse_host_frame_at can bytes chan ts last wmax pad ≡ value (none, last)
  unfolding parse_host_frame_at
  parse_refused bytes last r = rw (enough, r.header) (fields_refused bytes last r test)
    where
      enough : ltb (length bytes) 12 ≡ false
      enough = ground (arith, r.arrived)

      judged : (if ltb 15 r.h.dlc then false else r.h.chan == chan) ≡ true
      judged = ground (arith, r.valid, r.own)

      test : plausible_header bytes chan ≡ value true
      test = plausible_header_lem bytes r.arrived r.h chan r.header ∙ ap value judged
