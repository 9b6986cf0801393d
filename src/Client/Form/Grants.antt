-- ===== src/Client/Form/Grants.antt =====
-- The grants that the form of crates/tui/src/app.rs spells, and the check of the program on them:
-- `validate_delegated_permissions` of programs/hardig/src/instructions/mod.rs.
use hardig.Base.{
  ℕ, ◌<◌, ◌≡◌, refl, sym, ◌∙◌, arith, Bool, true, false, ◌||◌, Option, none, some, List, [], ◌∷◌,
  ◌++◌, ◌==◌, ◌/=◌, if◌then◌else◌, bit_and, subst,
}
use hardig.Error.{ok}
use hardig.Runtime.{Text, codes}
use hardig.State.{
  KeyCreatorOrigin, allowed_permissions, perm_limited_borrow, perm_limited_sell, perm_manage_keys,
}
use hardig.Decimal.{u8_text, all_below, all_below_sound}
use hardig.Permissions.{has_any, complement_u8, validate_limits, validate_delegated_permissions}
use hardig.Format.{unwrap_or}
use hardig.Keys.Authorize.{Grant}
use hardig.Client.{Host, Field, find_field}
use hardig.Client.Texts.{starts_with, trim, parse_unsigned, number_or_zero, time_fields_to_slots}
use hardig.Client.Attempt.{
  built, field_value, >>=-eq-built, or_refuse-eq-built, refuse_if-eq-built, built_injective,
}
use hardig.Client.Build.Keys.{sol_or_zero, refill_of, check_limit, form_grant, form_permissions}
use hardig.Client.Form.Perms.{limit_fields, rebuilt_fields}

-- The fields of the form for given ticks: the wallet, the permissions, the limits and the label.
abbrev shape : Bool → Bool → Text → Text → List Field → Text → List Field
shape s b wallet perms old name =
    (codes "Target Wallet (pubkey)", wallet)
    ∷ (codes "Permissions", perms)
    ∷ ((if s then limit_fields old (codes "Sell") else [])
        ++ ((if b then limit_fields old (codes "Borrow") else [])
            ++ ((codes "Label (optional)", name) ∷ [])))

module _ (host : Host) (wallet perms name : Text) (old : List Field) where
  no_sell_refill :
      (b : Bool)
      → refill_of
          (shape false b wallet perms old name)
          (codes "Sell Refill Days")
          (codes "Sell Refill Hours")
          (codes "Sell Refill Minutes")
        ≡ built 0
  unfolding refill_of find_field starts_with limit_fields time_fields_to_slots number_or_zero
  no_sell_refill true = refl
  no_sell_refill false = refl

  no_borrow_refill :
      (s : Bool)
      → refill_of
          (shape s false wallet perms old name)
          (codes "Borrow Refill Days")
          (codes "Borrow Refill Hours")
          (codes "Borrow Refill Minutes")
        ≡ built 0
  unfolding refill_of find_field starts_with limit_fields time_fields_to_slots number_or_zero
  no_borrow_refill true = refl
  no_borrow_refill false = refl

  no_sell_capacity :
      (b : Bool)
      → sol_or_zero host (find_field (shape false b wallet perms old name) (codes "Sell Capacity"))
        ≡ 0
  unfolding sol_or_zero find_field starts_with limit_fields
  no_sell_capacity true = refl
  no_sell_capacity false = refl

  no_borrow_capacity :
      (s : Bool)
      → sol_or_zero host
          (find_field (shape s false wallet perms old name) (codes "Borrow Capacity"))
        ≡ 0
  unfolding sol_or_zero find_field starts_with limit_fields
  no_borrow_capacity true = refl
  no_borrow_capacity false = refl

  no_totals :
      (s b : Bool)
      → (sol_or_zero host (find_field (shape s b wallet perms old name) (codes "Total Sell Limit"))
          ≡ 0)
        × (sol_or_zero host
              (find_field (shape s b wallet perms old name) (codes "Total Borrow Limit"))
            ≡ 0)
  unfolding sol_or_zero find_field starts_with limit_fields
  no_totals true true = (refl, refl)
  no_totals true false = (refl, refl)
  no_totals false true = (refl, refl)
  no_totals false false = (refl, refl)

limits_valid :
    (limited : Bool) (capacity refill total : ℕ) (label : Text)
    → check_limit limited capacity refill label ≡ built tt
    → (limited ≡ false → (capacity ≡ 0) × (refill ≡ 0))
    → total ≡ 0
    → validate_limits limited capacity refill total ≡ ok tt
unfolding check_limit validate_limits
limits_valid true capacity refill total label h absent t = ground (arith, h)
limits_valid false capacity refill total label h absent t =
    let (c, r) = absent refl in ground (arith, c, r, t)

mask_ok : ℕ → Bool
mask_ok p =
    has_any p perm_manage_keys
    || bit_and p (complement_u8 (allowed_permissions KeyCreatorOrigin.admin)) == 0

mask_table : all_below 256 mask_ok ≡ true
unfolding all_below mask_ok allowed_permissions
mask_table = refl

masked :
    (p : ℕ)
    → p < 256
    → has_any p perm_manage_keys ≡ false
    → (bit_and p (complement_u8 (allowed_permissions KeyCreatorOrigin.admin)) == 0) ≡ true
unfolding mask_ok
masked p h m = or_right _ _ (all_below_sound 256 mask_ok p mask_table h) m
  where
    or_right : (a b : Bool) → (a || b) ≡ true → a ≡ false → b ≡ true
    or_right true b h p = cc
    or_right false b h p = h

grant_valid :
    (p sc sr bc br ts tb : ℕ)
    → p < 256
    → (p == 0) ≡ false
    → has_any p perm_manage_keys ≡ false
    → validate_limits (has_any p perm_limited_sell) sc sr ts ≡ ok tt
    → validate_limits (has_any p perm_limited_borrow) bc br tb ≡ ok tt
    → validate_delegated_permissions KeyCreatorOrigin.admin p sc sr bc br ts tb ≡ ok tt
unfolding validate_delegated_permissions
grant_valid p sc sr bc br ts tb h z m sell borrow =
    let nonzero : (p /= 0) ≡ true = ground (arith, z) in simp (nonzero, masked p h m, sell, borrow)

-- What a grant consists of that the form has built.
record GrantParts (host : Host) (fields : List Field) (p : ℕ) (g : Grant) : Type 0 where
  permissions : g.permissions ≡ p
  sell_refill :
      refill_of fields
        (codes "Sell Refill Days")
        (codes "Sell Refill Hours")
        (codes "Sell Refill Minutes")
      ≡ built g.sell_refill_period_slots
  borrow_refill :
      refill_of fields
        (codes "Borrow Refill Days")
        (codes "Borrow Refill Hours")
        (codes "Borrow Refill Minutes")
      ≡ built g.borrow_refill_period_slots
  sell_capacity :
      g.sell_bucket_capacity ≡ sol_or_zero host (find_field fields (codes "Sell Capacity"))
  borrow_capacity :
      g.borrow_bucket_capacity ≡ sol_or_zero host (find_field fields (codes "Borrow Capacity"))
  sell_total : g.total_sell_limit ≡ sol_or_zero host (find_field fields (codes "Total Sell Limit"))
  borrow_total :
      g.total_borrow_limit ≡ sol_or_zero host (find_field fields (codes "Total Borrow Limit"))
  sell_checked :
      check_limit
        (has_any p perm_limited_sell)
        g.sell_bucket_capacity
        g.sell_refill_period_slots
        (codes "LimSell")
      ≡ built tt
  borrow_checked :
      check_limit
        (has_any p perm_limited_borrow)
        g.borrow_bucket_capacity
        g.borrow_refill_period_slots
        (codes "LimBorrow")
      ≡ built tt

form_grant-parts :
    (host : Host) (fields : List Field) (p : ℕ) (g : Grant)
    → form_grant host fields p ≡ built g
    → GrantParts host fields p g
unfolding form_grant
form_grant-parts host fields p g ran =
    let (sr, sell, t₁) =
      >>=-eq-built
        (refill_of fields (codes "Sell Refill Days") (codes "Sell Refill Hours")
          (codes "Sell Refill Minutes"))
        _ ran in
    let (br, borrow, t₂) =
      >>=-eq-built
        (refill_of fields (codes "Borrow Refill Days") (codes "Borrow Refill Hours")
          (codes "Borrow Refill Minutes"))
        _ t₁ in
    let (u, checked_sell, t₃) =
      >>=-eq-built (check_limit (has_any p perm_limited_sell) _ sr (codes "LimSell")) _ t₂ in
    let (v, checked_borrow, t₄) =
      >>=-eq-built (check_limit (has_any p perm_limited_borrow) _ br (codes "LimBorrow")) _ t₃ in
    subst (GrantParts host fields p) (built_injective t₄) (record {
      permissions = refl;
      sell_refill = sell;
      borrow_refill = borrow;
      sell_capacity = refl;
      borrow_capacity = refl;
      sell_total = refl;
      borrow_total = refl;
      sell_checked = checked_sell;
      borrow_checked = checked_borrow;
    })

reads : ℕ → Bool
reads p = elim (parse_unsigned 256 (trim (u8_text p))) [ none ↦ false | some q ↦ q == p ]

reads_table : all_below 256 reads ≡ true
unfolding all_below reads parse_unsigned trim u8_text
reads_table = refl

reads_lem :
    (p : ℕ) (o : Option ℕ) {q : ℕ}
    → elim o as (λ _. Bool) [ none ↦ false | some q ↦ q == p ] ≡ true
    → o ≡ some q
    → q ≡ p
reads_lem p none h e = cc
reads_lem p (some r) h e = ground (arith, h, e)

-- The permissions that the form reads back are the ticked ones.
form_permissions-rebuilt :
    (wallet : Text) (rest : List Field) (bits p : ℕ)
    → bits < 256
    → form_permissions (
        rebuilt_fields bits
          ((codes "Target Wallet (pubkey)", wallet) ∷ (codes "Permissions", u8_text bits) ∷ rest))
      ≡ built p
    → (p ≡ bits) × ((p == 0) ≡ false) × (has_any p perm_manage_keys ≡ false)
unfolding form_permissions rebuilt_fields field_value reads
form_permissions-rebuilt wallet rest bits p h ran =
    let (q, read, t₁) = or_refuse-eq-built (parse_unsigned 256 (trim (u8_text bits))) _ _ ran in
    let (nonzero, t₂) = refuse_if-eq-built (q == 0) _ _ t₁ in
    let (delegable, t₃) = refuse_if-eq-built (has_any q perm_manage_keys) _ _ t₂ in
    let e = built_injective t₃ in
    (
      sym e ∙ reads_lem bits _ (all_below_sound 256 reads bits reads_table h) read,
      subst (λ x. (x == 0) ≡ false) e nonzero,
      subst (λ x. has_any x perm_manage_keys ≡ false) e delegable,
    )

module _ (host : Host) (wallet : Text) (rest : List Field) (bits : ℕ) (g : Grant) where
  abbrev form : List Field
  form = (codes "Target Wallet (pubkey)", wallet) ∷ (codes "Permissions", u8_text bits) ∷ rest

  absent_sell :
      (s b : Bool) (name : Text)
      → GrantParts host (shape s b wallet (u8_text bits) form name) bits g
      → s ≡ false
      → (g.sell_bucket_capacity ≡ 0) × (g.sell_refill_period_slots ≡ 0)
  absent_sell true b name parts e = cc
  absent_sell false b name parts e = (
    parts.sell_capacity ∙ no_sell_capacity host wallet (u8_text bits) name form b,
    built_injective (sym parts.sell_refill ∙ no_sell_refill host wallet (u8_text bits) name form b),
  )

  absent_borrow :
      (s b : Bool) (name : Text)
      → GrantParts host (shape s b wallet (u8_text bits) form name) bits g
      → b ≡ false
      → (g.borrow_bucket_capacity ≡ 0) × (g.borrow_refill_period_slots ≡ 0)
  absent_borrow s true name parts e = cc
  absent_borrow s false name parts e = (
    parts.borrow_capacity ∙ no_borrow_capacity host wallet (u8_text bits) name form s,
    built_injective
        (sym parts.borrow_refill ∙ no_borrow_refill host wallet (u8_text bits) name form s),
  )

  parts_valid :
      (s b : Bool) (name : Text)
      → (bits == 0) ≡ false
      → bits < 256
      → has_any bits perm_manage_keys ≡ false
      → has_any bits perm_limited_sell ≡ s
      → has_any bits perm_limited_borrow ≡ b
      → GrantParts host (shape s b wallet (u8_text bits) form name) bits g
      → validate_delegated_permissions KeyCreatorOrigin.admin bits g.sell_bucket_capacity
          g.sell_refill_period_slots g.borrow_bucket_capacity g.borrow_refill_period_slots
          g.total_sell_limit g.total_borrow_limit
        ≡ ok tt
  parts_valid s b name z h m es eb parts =
      grant_valid bits _ _ _ _ _ _ h z m
        (limits_valid _ _ _ _ _ parts.sell_checked
          (λ off. absent_sell s b name parts (sym es ∙ off))
          (parts.sell_total ∙ (no_totals host wallet (u8_text bits) name form s b).0))
        (limits_valid _ _ _ _ _ parts.borrow_checked
          (λ off. absent_borrow s b name parts (sym eb ∙ off))
          (parts.borrow_total ∙ (no_totals host wallet (u8_text bits) name form s b).1))

  rebuilt-parts :
      GrantParts host (rebuilt_fields bits form) bits g
      → GrantParts host
          (shape
            (has_any bits perm_limited_sell)
            (has_any bits perm_limited_borrow)
            wallet
            (u8_text bits)
            form
            (unwrap_or (find_field form (codes "Label (optional)")) []))
          bits
          g
  unfolding rebuilt_fields
  rebuilt-parts parts = parts

  -- What the form of a new key with the ticks `bits` (a byte) sends, if it sends anything, grants
  -- exactly the ticked permissions, and its numbers pass the program's check of delegated keys: a form
  -- never asks for a grant that the program refuses for its numbers.
  pub form_grant-validates :
      (p : ℕ)
      → bits < 256
      → form_permissions (rebuilt_fields bits form) ≡ built p
      → form_grant host (rebuilt_fields bits form) p ≡ built g
      → (p ≡ bits)
        × (validate_delegated_permissions KeyCreatorOrigin.admin g.permissions
              g.sell_bucket_capacity g.sell_refill_period_slots g.borrow_bucket_capacity
              g.borrow_refill_period_slots g.total_sell_limit g.total_borrow_limit
            ≡ ok tt)
  form_grant-validates p h read granted =
      let (e, nonzero, delegable) = form_permissions-rebuilt wallet rest bits p h read in
      let parts =
        form_grant-parts host (rebuilt_fields bits form) bits g
          (subst (λ x. form_grant host (rebuilt_fields bits form) x ≡ built g) e granted) in
      (
        e,
        rw (parts.permissions) (
            parts_valid _ _ _ (subst (λ x. (x == 0) ≡ false) e nonzero) h
              (subst (λ x. has_any x perm_manage_keys ≡ false) e delegable) refl refl
              (rebuilt-parts parts)),
      )
