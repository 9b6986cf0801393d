-- ===== src/Client/Build/Promo.antt =====
-- The builders of crates/tui/src/app.rs for promotions: build_create_promo,
-- build_update_promo_toggle_active and build_update_promo_max_claims.
use hardig.Base.{
  ℕ, zero, suc, true, false, not, ◌&&◌, Option, none, some, List, [], ◌∷◌, ◌++◌, ltb, ◌==◌,
  if◌then◌else◌, to_le_bytes, u32_mod,
}
use hardig.Runtime.{Runtime, Pubkey, Bytes, Text, AccountMeta, codes, byte_len}
use hardig.State.{max_image_uri_len}
use hardig.Decimal.{u64_text}
use hardig.Mayflower.Cpi.{writable, readonly}
use hardig.Promo.{PromoTerms, promo_seeds}
use hardig.Client.{Host, App, PromoEntry, PendingAction, find_field}
use hardig.Client.Texts.{
  trim, parse_unsigned, is_empty, permissions_name, short_pubkey, hex_byte, lamports_to_sol,
  slots_to_human,
}
use hardig.Client.Attempt.{Attempt, built, ◌>>=◌, ◌>>◌, or_refuse, refuse_if, or_panic, field_value}
use hardig.Client.Build.{sighash, config_pda, hardig_ix, string_bytes, text_or_empty}
use hardig.Client.Build.Keys.{sol_or_zero, refill_of}

-- `.and_then(|v| v.trim().parse().ok())` for `u32`
unfoldable pub parse_u32 : Option Text → Option ℕ
unfolding trim parse_unsigned
parse_u32 none = none
parse_u32 (some v) = parse_unsigned u32_mod (trim v)

abbrev pub or_zero : Option ℕ → ℕ
or_zero none = 0
or_zero (some n) = n

module _ (host : Host) where
  -- The percentage of the field, or 100 where it is missing or cannot be parsed.
  unfoldable pub percentage : Option Text → host.f64
  unfolding trim
  percentage none = host.to_f64 100
  percentage (some v) = elim (host.parse_f64 (trim v)) [ none ↦ host.to_f64 100 | some p ↦ p ]

  -- In basis points
  unfoldable pub initial_fill : Option Text → Attempt ℕ
  unfolding percentage
  initial_fill field =
      let hundred = host.to_f64 100 in
      let pct = percentage field in
      do
        refuse_if (not (host.f64_le (host.to_f64 0) pct && host.f64_le pct hundred))
            (codes "Initial Fill % must be between 0 and 100")
        built (host.f64_as_u16 (host.f64_mul pct hundred))

  -- The arguments of `create_promo` that the form spells.
  unfoldable pub form_terms : App → Attempt PromoTerms
  unfolding field_value trim sol_or_zero refill_of find_field parse_u32 initial_fill
  form_terms app = do
    let fields = app.form_fields
    name_text ← field_value fields 0
    let name_suffix = trim name_text
    refuse_if (is_empty name_suffix) (codes "Name suffix is required")
    refuse_if (ltb 32 (byte_len name_suffix)) (
        codes "Name suffix too long ("
        ++ u64_text (byte_len name_suffix)
        ++ codes " bytes, max 32)")
    refuse_if (app.perm_bits == 0) (codes "Permissions cannot be zero")
    borrow_refill ←
        refill_of fields (codes "Borrow Refill Days") (codes "Borrow Refill Hours")
          (codes "Borrow Refill Minutes")
    sell_refill ←
        refill_of fields (codes "Sell Refill Days") (codes "Sell Refill Hours")
          (codes "Sell Refill Minutes")
    fill ← initial_fill (find_field fields (codes "Initial Fill"))
    let image_uri = trim (text_or_empty (find_field fields (codes "Image URI")))
    refuse_if (ltb max_image_uri_len (byte_len image_uri)) (
        codes "Image URI too long ("
        ++ u64_text (byte_len image_uri)
        ++ codes " chars, max "
        ++ u64_text max_image_uri_len
        ++ codes ")")
    built (record {
      name_suffix = name_suffix;
      permissions = app.perm_bits;
      borrow_capacity = sol_or_zero host (find_field fields (codes "Borrow Capacity"));
      borrow_refill_period = borrow_refill;
      sell_capacity = sol_or_zero host (find_field fields (codes "Sell Capacity"));
      sell_refill_period = sell_refill;
      total_borrow_limit = sol_or_zero host (find_field fields (codes "Total Borrow Limit"));
      total_sell_limit = sol_or_zero host (find_field fields (codes "Total Sell Limit"));
      min_deposit_lamports = sol_or_zero host (find_field fields (codes "Min Deposit"));
      max_claims = or_zero (parse_u32 (find_field fields (codes "Max Claims")));
      initial_fill_bps = fill;
      image_uri = image_uri;
      market_name = text_or_empty app.market_name_override;
    })

  -- The lines of the description behind the permissions. A period whose text overflows panics.
  unfoldable pub terms_lines : PromoTerms → Attempt (List Text)
  unfolding slots_to_human lamports_to_sol
  terms_lines t = do
    borrow ←
        (if ltb 0 t.borrow_capacity
          then (or_panic (slots_to_human t.borrow_refill_period) >>= λ period. built (
              (codes "Borrow: " ++ lamports_to_sol t.borrow_capacity ++ codes " SOL / " ++ period)
              ∷ []))
          else built [])
    sell ←
        (if ltb 0 t.sell_capacity
          then (or_panic (slots_to_human t.sell_refill_period) >>= λ period. built (
              (codes "Sell: " ++ lamports_to_sol t.sell_capacity ++ codes " SOL / " ++ period)
              ∷ []))
          else built [])
    let deposit =
        (if ltb 0 t.min_deposit_lamports
          then (codes "Min deposit: " ++ lamports_to_sol t.min_deposit_lamports ++ codes " SOL")
            ∷ []
          else [])
    let claims =
        (if ltb 0 t.max_claims
          then codes "Max claims: " ++ u64_text t.max_claims
          else codes "Max claims: unlimited")
    let fill =
        (if ltb t.initial_fill_bps 10_000
          then (codes "Initial fill: "
              ++ host.f64_text (host.f64_div (host.to_f64 t.initial_fill_bps) (host.to_f64 100))
              ++ codes "%")
            ∷ []
          else [])
    built (borrow ++ sell ++ deposit ++ claims ∷ fill)

-- The arguments of `create_promo` in the order of their declaration.
unfoldable pub terms_bytes : PromoTerms → Bytes
unfolding string_bytes
terms_bytes t =
    string_bytes t.name_suffix
    ++ (t.permissions
        ∷ (to_le_bytes 8 t.borrow_capacity
            ++ (to_le_bytes 8 t.borrow_refill_period
                ++ (to_le_bytes 8 t.sell_capacity
                    ++ (to_le_bytes 8 t.sell_refill_period
                        ++ (to_le_bytes 8 t.total_borrow_limit
                            ++ (to_le_bytes 8 t.total_sell_limit
                                ++ (to_le_bytes 8 t.min_deposit_lamports
                                    ++ (to_le_bytes 4 t.max_claims
                                        ++ (to_le_bytes 2 t.initial_fill_bps
                                            ++ (string_bytes t.image_uri
                                                ++ string_bytes t.market_name)))))))))))

-- `self.promos.get(idx)`
unfoldable pub promo_at : List PromoEntry → ℕ → Option PromoEntry
promo_at [] i = none
promo_at (p ∷ ps) zero = some p
promo_at (p ∷ ps) (suc i) = promo_at ps i

module _ (rt : Runtime) (host : Host) where
  unfoldable pub create_promo_action : App → Attempt PendingAction
  unfolding form_terms terms_lines terms_bytes permissions_name sighash
  create_promo_action app = do
    t ← form_terms host app
    position_pda ← or_refuse app.position_pda (codes "No position loaded")
    admin_key_asset ← or_refuse app.my_asset (codes "No key asset")
    pos ← or_refuse app.position (codes "No position loaded")
    lines ← terms_lines host t
    let promo_pda =
        (rt.find_program_address (promo_seeds pos.authority_seed t.name_suffix) rt.program_id).0
    built (record {
      description =
          codes "Create Promo"
            ∷ (codes "Name: " ++ t.name_suffix)
            ∷ (codes "Permissions: " ++ permissions_name t.permissions ++ hex_byte t.permissions)
            ∷ lines
          ++ (codes "Promo PDA: " ++ short_pubkey rt promo_pda) ∷ [];
      instructions =
          hardig_ix rt (sighash host (codes "create_promo") ++ terms_bytes t) (
            writable app.keypair true
            ∷ readonly admin_key_asset false
            ∷ readonly position_pda false
            ∷ writable promo_pda false
            ∷ readonly (config_pda rt) false
            ∷ readonly rt.system_id false
            ∷ [])
          ∷ [];
      extra_signers = [];
    })

  unfoldable pub update_metas : App → Pubkey → Pubkey → Pubkey → List AccountMeta
  update_metas app admin_key_asset position_pda promo_pda =
      writable app.keypair true
      ∷ readonly admin_key_asset false
      ∷ readonly position_pda false
      ∷ writable promo_pda false
      ∷ readonly (config_pda rt) false
      ∷ []

  unfoldable pub toggle_active_action : App → Attempt PendingAction
  unfolding promo_at update_metas sighash
  toggle_active_action app = do
    entry ← or_refuse (promo_at app.promos app.promo_cursor) (codes "No promo selected")
    position_pda ← or_refuse app.position_pda (codes "No position loaded")
    admin_key_asset ← or_refuse app.my_asset (codes "No key asset")
    let new_active = not entry.config.active
    built (record {
      description =
          codes "Update Promo"
          ∷ (codes "Promo: " ++ entry.config.name_suffix)
          ∷ (codes "Set status: " ++ (if new_active then codes "Active" else codes "Paused"))
          ∷ [];
      instructions =
          hardig_ix rt
            (sighash host (codes "update_promo") ++ 1 ∷ (if new_active then 1 else 0) ∷ 0 ∷ [])
            (update_metas app admin_key_asset position_pda entry.pda)
          ∷ [];
      extra_signers = [];
    })

  unfoldable pub max_claims_action : App → Attempt PendingAction
  unfolding promo_at find_field parse_u32 update_metas sighash
  max_claims_action app = do
    entry ← or_refuse (promo_at app.promos app.promo_cursor) (codes "No promo selected")
    new_max ←
        or_refuse (parse_u32 (find_field app.form_fields (codes "Max Claims")))
          (codes "Invalid max claims value")
    position_pda ← or_refuse app.position_pda (codes "No position loaded")
    admin_key_asset ← or_refuse app.my_asset (codes "No key asset")
    built (record {
      description =
          codes "Update Promo"
          ∷ (codes "Promo: " ++ entry.config.name_suffix)
          ∷ (codes "Set max claims: "
              ++ (if new_max == 0 then codes "unlimited" else u64_text new_max))
          ∷ [];
      instructions =
          hardig_ix rt (sighash host (codes "update_promo") ++ 0 ∷ 1 ∷ to_le_bytes 4 new_max)
            (update_metas app admin_key_asset position_pda entry.pda)
          ∷ [];
      extra_signers = [];
    })
