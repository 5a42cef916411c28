-- ===== src/Candump/Output.antt =====
-- bin/candump.rs, `run_interfaces`: the lines that one interface prints. The results of its reads, and
-- the clocks' readings at each, are arguments.
mod Tests
use win_can_utils.Base.{
  ℕ, ◌+◌, ◌-◌, ◌/◌, ◌%◌, ◌≡◌, inl, inr, refl, ap, ltb, if◌then◌else◌, Bool, true, false, Bool-cases,
  List, [], ◌∷◌, ◌++◌, map, length, replicate, Option, none, some,
}
use win_can_utils.Base.Hex.{format_hex}
use win_can_utils.Base.Text.{Text, codes, format_decimal, format_padded, format_padded_64}
use win_can_utils.Can.{CanApi}
use win_can_utils.Io.{IoResult, ok, err}
use win_can_utils.Candump.Filter.{Filter, is_dropped}
use win_can_utils.Candump.Stamps.{
  TimestampMode, no_timestamp, TimestampCtx, new_ctx, get_timestamp, by_mode,
}

-- `map_or(String::new(), ..)`
unfoldable pub stamp_text : Option ℕ → Text
stamp_text none = []
stamp_text (some t) =
    codes "("
    ++ format_padded_64 3 (t / 1_000_000)
    ++ codes "."
    ++ format_padded 6 (t % 1_000_000)
    ++ codes ") "

-- `{:>08}` of a text: on the right of eight columns; the zero is for numbers only.
unfoldable pub pad_left_8 : Text → Text
pad_left_8 text = replicate (8 - length text) b' ' ++ text

-- `join(" ")` of the bytes in two digits
unfoldable pub join_bytes : List ℕ → Text
join_bytes [] = []
join_bytes (b ∷ []) = format_hex 2 b
join_bytes (b ∷ c ∷ bytes) = format_hex 2 b ++ (b' ' ∷ join_bytes (c ∷ bytes))

module _ (can : CanApi) where
  open can use {CanFrame, id, dlc, payload, is_extended}

  unfoldable pub print_id : CanFrame → Text
  print_id frame = if is_extended frame then format_hex 8 (id frame) else format_hex 3 (id frame)

  unfoldable pub print_line : Text → Option ℕ → CanFrame → Text
  print_line ifname stamp frame =
      stamp_text stamp
      ++ ifname
      ++ codes " "
      ++ pad_left_8 (print_id frame)
      ++ codes "   ["
      ++ format_decimal (dlc frame)
      ++ codes "]  "
      ++ join_bytes (payload frame)

  -- The loop of an interface's task; an error ends it.
  unfoldable pub run_interface :
      Text → List Filter → TimestampCtx → List (ℕ × ℕ × IoResult CanFrame) → List Text
  run_interface ifname filters ctx [] = []
  run_interface ifname filters ctx ((now, epoch, err kind) ∷ reads) = []
  run_interface ifname filters ctx ((now, epoch, ok frame) ∷ reads) =
      let dropped = run_interface ifname filters ctx reads in
      let stamped = get_timestamp can ctx now epoch frame in
      let printed = run_interface ifname filters stamped.1 reads in
      if is_dropped filters (id frame) then dropped else print_line ifname stamped.0 frame ∷ printed

  -- The frames read before the first error that are not dropped.
  pub passing : List Filter → List (ℕ × ℕ × IoResult CanFrame) → List CanFrame
  passing filters [] = []
  passing filters ((now, epoch, err kind) ∷ reads) = []
  passing filters ((now, epoch, ok frame) ∷ reads) =
      let rest = passing filters reads in
      if is_dropped filters (id frame) then rest else frame ∷ rest

  -- Without time stamps, a line is printed for each frame read before the first error that the filters
  -- do not drop, in order.
  run_interface-passing :
      (ifname : Text) (filters : List Filter) (start : ℕ) (reads : List (ℕ × ℕ × IoResult CanFrame))
      → run_interface ifname filters (new_ctx no_timestamp false start) reads
        ≡ map (print_line ifname none) (passing filters reads)
  unfolding run_interface passing get_timestamp by_mode
  run_interface-passing ifname filters start [] = refl
  run_interface-passing ifname filters start ((now, epoch, err kind) ∷ reads) = refl
  run_interface-passing ifname filters start ((now, epoch, ok frame) ∷ reads) =
      elim (Bool-cases (is_dropped filters (id frame))) [
        | inl dropped ↦ rw dropped (run_interface-passing ifname filters start reads)
        | inr kept ↦ rw kept (
            ap (λ l. print_line ifname none frame ∷ l)
              (run_interface-passing ifname filters start reads))
      ]
