-- ===== src/Entry/Trade/Slots.antt =====
-- What the account structs of programs/hardig/src/instructions/buy.rs, withdraw.rs, borrow.rs,
-- repay.rs and reinvest.rs demand of each account, in the order of their fields.
use hardig.Base.{List, [], ◌∷◌}
use hardig.Entry.{Slot, plain, mutable_slot, paying_slot, optional_slot}

-- The fields of `struct Buy`
abbrev pub buy_slots : List Slot
buy_slots =
    paying_slot ∷ plain ∷ mutable_slot ∷ plain ∷ plain ∷ plain ∷ mutable_slot ∷ mutable_slot
    ∷ mutable_slot ∷ mutable_slot ∷ mutable_slot ∷ plain ∷ plain ∷ plain ∷ mutable_slot
    ∷ mutable_slot ∷ mutable_slot ∷ mutable_slot ∷ mutable_slot ∷ plain ∷ plain ∷ plain
    ∷ mutable_slot ∷ []

-- The fields of `struct Withdraw`
abbrev pub withdraw_slots : List Slot
withdraw_slots =
    paying_slot ∷ plain ∷ optional_slot ∷ mutable_slot ∷ plain ∷ plain ∷ plain ∷ mutable_slot
    ∷ mutable_slot ∷ mutable_slot ∷ mutable_slot ∷ mutable_slot ∷ plain ∷ plain ∷ plain
    ∷ mutable_slot ∷ mutable_slot ∷ mutable_slot ∷ mutable_slot ∷ mutable_slot ∷ plain ∷ plain
    ∷ plain ∷ mutable_slot ∷ []

-- The fields of `struct Borrow`
abbrev pub borrow_slots : List Slot
borrow_slots =
    paying_slot ∷ plain ∷ optional_slot ∷ mutable_slot ∷ plain ∷ plain ∷ plain ∷ mutable_slot
    ∷ mutable_slot ∷ mutable_slot ∷ plain ∷ plain ∷ plain ∷ mutable_slot ∷ mutable_slot
    ∷ mutable_slot ∷ plain ∷ mutable_slot ∷ plain ∷ plain ∷ mutable_slot ∷ []

-- The fields of `struct Repay`
abbrev pub repay_slots : List Slot
repay_slots =
    paying_slot ∷ plain ∷ mutable_slot ∷ plain ∷ plain ∷ plain ∷ mutable_slot ∷ mutable_slot
    ∷ mutable_slot ∷ plain ∷ mutable_slot ∷ plain ∷ mutable_slot ∷ plain ∷ plain ∷ mutable_slot ∷ []

-- The fields of `struct Reinvest`
abbrev pub reinvest_slots : List Slot
reinvest_slots =
    paying_slot ∷ plain ∷ mutable_slot ∷ plain ∷ plain ∷ plain ∷ mutable_slot ∷ mutable_slot
    ∷ mutable_slot ∷ mutable_slot ∷ mutable_slot ∷ mutable_slot ∷ plain ∷ plain ∷ plain
    ∷ mutable_slot ∷ mutable_slot ∷ mutable_slot ∷ mutable_slot ∷ mutable_slot ∷ plain ∷ plain
    ∷ plain ∷ mutable_slot ∷ []
