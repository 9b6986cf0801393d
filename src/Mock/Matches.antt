-- ===== src/Mock/Matches.antt =====
-- The instructions of programs/hardig/src/mayflower/cpi_accounts.rs on the stand-in for Mayflower,
-- test-programs/mock-mayflower/src/lib.rs, seen through the readers of mayflower/floor.rs.
use mathlib.Core.List.{append-nil}
use hardig.Base.{
  ℕ, ◌+◌, ◌-◌, ◌<◌, ◌≤◌, ◌^◌, ◌≡◌, refl, sym, ap, ◌∙◌, arith, true, [], ◌∷◌, ◌++◌, length, take,
  drop, leb, ◌==◌, ==_refl, leb→le, take-append, length-append, from_le_bytes, to_le_bytes,
  length-to_le_bytes, from_le_bytes-to_le_bytes, drop-append, subst, Bool-cases, ==→eq, inl, inr,
}
use hardig.Error.{ok, require, >>-eq-ok, require-true, ok_injective, invalid_position_pda}
use hardig.Runtime.{Runtime, Store, Pubkey, Bytes, Instruction, text_eq}
use hardig.Mayflower.{read_deposited_shares, read_debt, pp_discriminator}
use hardig.Mayflower.Cpi.{
  MarketAddresses, build_buy_ix, build_sell_ix, build_borrow_ix, build_repay_ix,
}
use hardig.Mock.{
  write_u64, change_u64, change_account, nth_key, process_instruction, saturating_add_u64,
  saturating_sub_u64, set_bytes,
}
use hardig.Mock.Slices.{slice_before, drop-write_u64, length-write_u64, read-write_u64}

-- What the program reads of a personal position: its shares and its debt.
abbrev pub Holds : Bytes → ℕ → ℕ → Type 0
Holds bytes shares debt = (read_deposited_shares bytes ≡ ok shares) × (read_debt bytes ≡ ok debt)

record Parts (d : Bytes) (shares debt : ℕ) : Type 0 where
  long : 120 ≤ length d
  tag : text_eq (take 8 d) pp_discriminator ≡ true
  shares_here : from_le_bytes (take 8 (drop 104 d)) ≡ shares
  debt_here : from_le_bytes (take 8 (drop 112 d)) ≡ debt

Parts-read : (d : Bytes) (shares debt : ℕ) → Holds d shares debt → Parts d shares debt
unfolding read_deposited_shares read_debt
Parts-read d shares debt (h, k) =
    let (l, t₁) = >>-eq-ok (require (leb 120 (length d)) invalid_position_pda) _ k in
    let (t, t₂) =
      >>-eq-ok (require (text_eq (take 8 d) pp_discriminator) invalid_position_pda) _ t₁ in
    let (l', u₁) = >>-eq-ok (require (leb 112 (length d)) invalid_position_pda) _ h in
    let (t', u₂) =
      >>-eq-ok (require (text_eq (take 8 d) pp_discriminator) invalid_position_pda) _ u₁ in
    record {
      long = leb→le 120 (length d) (require-true _ _ l);
      tag = require-true _ _ t;
      shares_here = ok_injective u₂;
      debt_here = ok_injective t₂;
    }

le→leb : (a b : ℕ) → a ≤ b → leb a b ≡ true
le→leb a b h = ground arith

Holds-written : (d : Bytes) (shares debt : ℕ) → Parts d shares debt → Holds d shares debt
unfolding read_deposited_shares read_debt
Holds-written d shares debt p =
    let h = p.long in
    let short : leb 112 (length d) ≡ true = le→leb 112 (length d) (omega (arith, h)) in
    let long : leb 120 (length d) ≡ true = le→leb 120 (length d) h in
    (rw (short, p.tag, p.shares_here) refl, rw (long, p.tag, p.debt_here) refl)

-- Writing one of the two numbers.
write_shares :
    (d : Bytes) (shares debt v : ℕ)
    → v < 2 ^ 64
    → Parts d shares debt
    → Parts (write_u64 104 v d) v debt
unfolding write_u64
write_shares d shares debt v h p =
    let l = p.long in
    let same = length-write_u64 104 v d (omega (arith, l)) in
    record {
      long = omega (arith, same, l);
      tag =
          ap (λ t. text_eq t pp_discriminator)
            (slice_before 0 8 104 d _ (omega arith) (omega (arith, l)))
          ∙ p.tag;
      shares_here = read-write_u64 104 v d (omega (arith, l)) h;
      debt_here =
          ap (λ t. from_le_bytes (take 8 t)) (drop-write_u64 104 v d (omega (arith, l)))
          ∙ p.debt_here;
    }

write_debt :
    (d : Bytes) (shares debt v : ℕ)
    → v < 2 ^ 64
    → Parts d shares debt
    → Parts (write_u64 112 v d) shares v
unfolding write_u64
write_debt d shares debt v h p =
    let l = p.long in
    let same = length-write_u64 112 v d (omega (arith, l)) in
    record {
      long = omega (arith, same, l);
      tag =
          ap (λ t. text_eq t pp_discriminator)
            (slice_before 0 8 112 d _ (omega arith) (omega (arith, l)))
          ∙ p.tag;
      shares_here =
          ap from_le_bytes (slice_before 104 8 112 d _ (omega arith) (omega (arith, l)))
          ∙ p.shares_here;
      debt_here = read-write_u64 112 v d (omega (arith, l)) h;
    }

-- The payload of an instruction with one or two amounts.
amount_read :
    (tag rest : Bytes) (amount : ℕ)
    → length tag ≡ 8
    → amount < 2 ^ 64
    → from_le_bytes (take 8 (drop 8 (tag ++ (to_le_bytes 8 amount ++ rest)))) ≡ amount
amount_read tag rest amount h bounded =
    ap (λ t. from_le_bytes (take 8 t)) (drop-append tag (to_le_bytes 8 amount ++ rest) 8 h)
    ∙ ap from_le_bytes (take-append (to_le_bytes 8 amount) rest 8 (length-to_le_bytes 8 amount))
    ∙ from_le_bytes-to_le_bytes 8 amount (omega (arith, bounded))

set_bytes-same : (key : Pubkey) (b : Bytes) (s : Store) → (set_bytes key b s key).bytes ≡ b
unfolding set_bytes
set_bytes-same key b s = rw (==_refl key) refl

set_bytes-other : (key k : Pubkey) (b : Bytes) (s : Store) → ¬ (k ≡ key) → set_bytes key b s k ≡ s k
unfolding set_bytes
set_bytes-other key k b s h = elim (Bool-cases (k == key)) [
  | inl same ↦ absurd (h (==→eq k key same))
  | inr other ↦ rw (set_bytes, other) refl
]

-- One account holds other numbers, and every other account is as it was.
abbrev pub Moved : Pubkey → ℕ → ℕ → Store → Store → Type 0
Moved pp shares debt s s' =
    Holds (s' pp).bytes shares debt × ((k : Pubkey) → ¬ (k ≡ pp) → s' k ≡ s k)

set_bytes-Moved :
    (pp : Pubkey) (b : Bytes) (shares debt : ℕ) (s : Store)
    → Parts b shares debt
    → Moved pp shares debt s (set_bytes pp b s)
set_bytes-Moved pp b shares debt s p = (
  subst (λ t. Holds t shares debt) (sym (set_bytes-same pp b s)) (Holds-written b shares debt p),
  λ k h. set_bytes-other pp k b s h,
)

module _ (s : Store) (pp : Pubkey) (shares debt amount : ℕ)
    (now : Holds (s pp).bytes shares debt) where
  parts : Parts (s pp).bytes shares debt
  parts = Parts-read (s pp).bytes shares debt now

  changed_shares :
      (change : ℕ → ℕ → ℕ)
      → change shares amount < 2 ^ 64
      → Parts (change_u64 104 (λ n. change n amount) (s pp).bytes) (change shares amount) debt
  unfolding change_u64
  changed_shares change h =
      let l = parts.long in
      rw (change_u64, le→leb 112 (length (s pp).bytes) (omega (arith, l)), parts.shares_here)
        (write_shares (s pp).bytes shares debt (change shares amount) h parts)

  changed_debt :
      (change : ℕ → ℕ → ℕ)
      → change debt amount < 2 ^ 64
      → Parts (change_u64 112 (λ n. change n amount) (s pp).bytes) shares (change debt amount)
  unfolding change_u64
  changed_debt change h =
      rw (change_u64, le→leb 120 (length (s pp).bytes) parts.long, parts.debt_here)
        (write_debt (s pp).bytes shares debt (change debt amount) h parts)

last_amount_read :
    (amount : ℕ) → amount < 2 ^ 64 → from_le_bytes (take 8 (to_le_bytes 8 amount)) ≡ amount
last_amount_read amount bounded =
    ap (λ t. from_le_bytes (take 8 t)) (sym (append-nil (to_le_bytes 8 amount)))
    ∙ ap from_le_bytes (take-append (to_le_bytes 8 amount) [] 8 (length-to_le_bytes 8 amount))
    ∙ from_le_bytes-to_le_bytes 8 amount (omega (arith, bounded))

saturating_add_u64-exact : (a b : ℕ) → a + b < 2 ^ 64 → saturating_add_u64 a b ≡ a + b
saturating_add_u64-exact a b h = ground arith

-- An instruction of the program, run on the stand-in.
abbrev pub mocked : Instruction → Store → Store
mocked ix = process_instruction ix.metas ix.payload

length-two : (a b : ℕ) → length (to_le_bytes 8 a ++ to_le_bytes 8 b) ≡ 16
length-two a b =
    let l = length-append (to_le_bytes 8 a) (to_le_bytes 8 b) in
    let la = length-to_le_bytes 8 a in let lb = length-to_le_bytes 8 b in omega (arith, l, la, lb)

module _ (rt : Runtime) (wallet shares_key nav_ata wsol_ata : Pubkey) (m : MarketAddresses)
    (amount min_out : ℕ) (bounded : amount < 2 ^ 64) (pp : Pubkey) (s : Store) where
  buy_processed :
      mocked (build_buy_ix rt wallet pp shares_key nav_ata wsol_ata amount min_out m) s
      ≡ set_bytes pp (change_u64 104 (λ n. saturating_add_u64 n amount) (s pp).bytes) s
  unfolding process_instruction change_account build_buy_ix nth_key text_eq
  buy_processed =
      let l = length-two amount min_out in
      let e =
        amount_read (30 ∷ 205 ∷ 124 ∷ 67 ∷ 20 ∷ 142 ∷ 236 ∷ 136 ∷ []) (to_le_bytes 8 min_out) amount
          refl bounded in
      rw (l, e) refl

  sell_processed :
      mocked (build_sell_ix rt wallet pp shares_key nav_ata wsol_ata amount min_out m) s
      ≡ set_bytes pp (change_u64 104 (λ n. saturating_sub_u64 n amount) (s pp).bytes) s
  unfolding process_instruction change_account build_sell_ix nth_key text_eq
  sell_processed =
      let l = length-two amount min_out in
      let e =
        amount_read (223 ∷ 239 ∷ 212 ∷ 254 ∷ 255 ∷ 120 ∷ 53 ∷ 1 ∷ []) (to_le_bytes 8 min_out) amount
          refl bounded in
      rw (l, e) refl

  borrow_processed :
      mocked (build_borrow_ix rt wallet pp wsol_ata amount m) s
      ≡ set_bytes pp (change_u64 112 (λ n. saturating_add_u64 n amount) (s pp).bytes) s
  unfolding process_instruction change_account build_borrow_ix nth_key text_eq
  borrow_processed = rw (length-to_le_bytes 8 amount, last_amount_read amount bounded) refl

  repay_processed :
      mocked (build_repay_ix rt wallet pp wsol_ata amount m) s
      ≡ set_bytes pp (change_u64 112 (λ n. saturating_sub_u64 n amount) (s pp).bytes) s
  unfolding process_instruction change_account build_repay_ix nth_key text_eq
  repay_processed = rw (length-to_le_bytes 8 amount, last_amount_read amount bounded) refl

  -- Let a personal position hold its two numbers, and let neither sum leave 64 bits. On the
  -- stand-in, the program's purchase adds the amount to the shares, its sale takes it from them, its
  -- loan adds it to the debt and its repayment takes it from the debt (down to 0), as the program's
  -- own readers see them; the other number and every other account stay as they were.
  pub mock_matches :
      (shares debt : ℕ)
      → Holds (s pp).bytes shares debt
      → shares + amount < 2 ^ 64
      → debt + amount < 2 ^ 64
      → Moved pp
          (shares + amount)
          debt
          s
          (mocked (build_buy_ix rt wallet pp shares_key nav_ata wsol_ata amount min_out m) s)
        × Moved pp
            (shares - amount)
            debt
            s
            (mocked (build_sell_ix rt wallet pp shares_key nav_ata wsol_ata amount min_out m) s)
        × Moved pp shares
            (debt + amount)
            s
            (mocked (build_borrow_ix rt wallet pp wsol_ata amount m) s)
        × Moved pp shares
            (debt - amount)
            s
            (mocked (build_repay_ix rt wallet pp wsol_ata amount m) s)
  mock_matches shares debt now hs hd = (
    subst (Moved pp (shares + amount) debt s) (sym buy_processed) (
        set_bytes-Moved pp _ (shares + amount) debt s (
          subst (λ n. Parts (change_u64 104 (λ k. saturating_add_u64 k amount) (s pp).bytes) n debt)
            (saturating_add_u64-exact shares amount hs)
            (changed_shares s pp shares debt amount now saturating_add_u64
              (rw (saturating_add_u64-exact shares amount hs) hs)))),
    subst (Moved pp (shares - amount) debt s) (sym sell_processed) (
        set_bytes-Moved pp _ (shares - amount) debt s
          (changed_shares s pp shares debt amount now saturating_sub_u64 (omega (arith, hs)))),
    subst (Moved pp shares (debt + amount) s) (sym borrow_processed) (
        set_bytes-Moved pp _ shares (debt + amount) s (
          subst
            (λ n. Parts (change_u64 112 (λ k. saturating_add_u64 k amount) (s pp).bytes) shares n)
            (saturating_add_u64-exact debt amount hd)
            (changed_debt s pp shares debt amount now saturating_add_u64
              (rw (saturating_add_u64-exact debt amount hd) hd)))),
    subst (Moved pp shares (debt - amount) s) (sym repay_processed) (
        set_bytes-Moved pp _ shares (debt - amount) s
          (changed_debt s pp shares debt amount now saturating_sub_u64 (omega (arith, hd)))),
  )
