-- ===== src/Candump/Filter/Check.antt =====
-- What `filter_check` accepts, without its loop and flags.
use win_can_utils.Base.{
  ℕ, ◌^◌, ◌<◌, ◌≡◌, ◌↔◌, sym, ap, ◌∙◌, ◌&&◌, ◌||◌, Bool, true, false, List, [], ◌∷◌, ◌++◌,
  append-nil, arith,
}
use win_can_utils.Base.Bits.{and_mask}
use win_can_utils.Candump.Filter.{
  Filter, match, not_match, error_mask, join, matches, check_loop, filter_check, is_dropped,
}

-- Some filter, or every filter, with an identifier and a mask matches.
pub any_match : List Filter → ℕ → Bool
any_match [] can_id = false
any_match (match i m ∷ fs) can_id = matches (match i m) can_id || any_match fs can_id
any_match (not_match i m ∷ fs) can_id = matches (not_match i m) can_id || any_match fs can_id
any_match (error_mask m ∷ fs) can_id = any_match fs can_id
any_match (join ∷ fs) can_id = any_match fs can_id

pub all_match : List Filter → ℕ → Bool
all_match [] can_id = true
all_match (match i m ∷ fs) can_id = matches (match i m) can_id && all_match fs can_id
all_match (not_match i m ∷ fs) can_id = matches (not_match i m) can_id && all_match fs can_id
all_match (error_mask m ∷ fs) can_id = all_match fs can_id
all_match (join ∷ fs) can_id = all_match fs can_id

abbrev pub HasNoJoin : List Filter → Type 0
HasNoJoin [] = Unit
HasNoJoin (join ∷ fs) = ⊥
HasNoJoin (match i m ∷ fs) = HasNoJoin fs
HasNoJoin (not_match i m ∷ fs) = HasNoJoin fs
HasNoJoin (error_mask m ∷ fs) = HasNoJoin fs

-- Behind a join a filter can only take away.
check_joined :
    (fs : List Filter) (can_id : ℕ) (matched : Bool)
    → check_loop fs can_id matched true ≡ (matched && all_match fs can_id)
unfolding check_loop all_match
check_joined [] can_id matched = ground arith
check_joined (join ∷ fs) can_id matched = check_joined fs can_id matched
check_joined (error_mask m ∷ fs) can_id matched = check_joined fs can_id matched
check_joined (match i m ∷ fs) can_id matched =
    check_joined fs can_id (matched && matches (match i m) can_id) ∙ ground arith
check_joined (not_match i m ∷ fs) can_id matched =
    check_joined fs can_id (matched && matches (not_match i m) can_id) ∙ ground arith

-- Before a join a filter can only add.
check_before :
    (fs gs : List Filter) (can_id : ℕ) (matched : Bool)
    → HasNoJoin fs
    → check_loop (fs ++ gs) can_id matched false
      ≡ check_loop gs can_id (matched || any_match fs can_id) false
unfolding check_loop any_match
check_before [] gs can_id matched h = ap (λ b. check_loop gs can_id b false) (ground arith)
check_before (join ∷ fs) gs can_id matched h = absurd h
check_before (error_mask m ∷ fs) gs can_id matched h = check_before fs gs can_id matched h
check_before (match i m ∷ fs) gs can_id matched h =
    check_before fs gs can_id (matched || matches (match i m) can_id) h
    ∙ ap (λ b. check_loop gs can_id b false) (ground arith)
check_before (not_match i m ∷ fs) gs can_id matched h =
    check_before fs gs can_id (matched || matches (not_match i m) can_id) h
    ∙ ap (λ b. check_loop gs can_id b false) (ground arith)

-- Filters with no join accept an identifier that one of them matches. With a first join behind `fs`,
-- one of `fs` has to match and each of the filters behind the join; error masks do not count.
pub filter_check_lem :
    (fs gs : List Filter) (can_id : ℕ)
    → HasNoJoin fs
    → (filter_check fs can_id ≡ any_match fs can_id)
      × (filter_check (fs ++ (join ∷ gs)) can_id ≡ (any_match fs can_id && all_match gs can_id))
unfolding filter_check check_loop
filter_check_lem fs gs can_id h = (
  ap (λ l. check_loop l can_id false false) (sym (append-nil fs))
      ∙ check_before fs [] can_id false h,
  check_before fs (join ∷ gs) can_id false h ∙ check_joined gs can_id (any_match fs can_id),
)

-- A specification whose first filter is a join drops every frame, whatever the other filters say.
pub is_dropped-join : (gs : List Filter) (can_id : ℕ) → is_dropped (join ∷ gs) can_id ≡ true
unfolding is_dropped any_match
is_dropped-join gs can_id = rw ((filter_check_lem [] gs can_id tt).1)

-- A filter without a mask accepts exactly its identifier.
pub matches_plain :
    (i can_id : ℕ)
    → i < 2 ^ 32
    → can_id < 2 ^ 32
    → (matches (match i 0xFFFF_FFFF) can_id ≡ true) ↔ (can_id ≡ i)
unfolding matches
matches_plain i can_id hi hc = ground (arith, and_mask 32 i, and_mask 32 can_id)
