-- ===== src/Tests/Lives.antt =====
-- Examples of sequences of instructions: a promotion, a position and the configuration.
use hardig.Base.{replicate, arith, ◌+◌, ◌≡◌, refl, true, none, some, [], ◌∷◌, to_le_bytes, inr}
use hardig.Error.{ok}
use hardig.Runtime.{Store, Pubkey, codes}
use hardig.State.{PositionState, PromoConfig, ProtocolConfig}
use hardig.Trade.Buy.{buy_cpi}
use hardig.Promo.{
  PromoTerms, create_promo, create_promo_handler, new_promo, promo_seeds, promo_constraint,
  update_promo, set_active, set_max_claims,
}
use hardig.Promo.Created.{Created, create_promo_effect}
use hardig.Promo.Claim.{
  ClaimAccounts, Claim, claim_promo_key, claim_handler, claim_constraints, claim_mint,
  claim_deposit, claimed_key_state,
}
use hardig.Promo.Claims.{
  Claimed, claim_effect, PromoStep, PromoSteps, claims_counted, WithinClaims, SameTerms,
}
use hardig.Position.{PositionStep, PositionSteps}
use hardig.Position.Changes.{SameBinding, SameControl, InRange}
use hardig.Position.Reach.{binding_permanent, admin_permanent, locked_permanent}
use hardig.Protocol.{transfer_admin, accept_admin}
use hardig.Protocol.Admin.{
  ConfigStep, ConfigSteps, Permitted, ConfigStep-Permitted, collection_final,
}
use hardig.Protocol.Migrate.Layout.{
  migrated, v0_layout, v1_layout, v2_layout, migrated-v0_layout, migrated-v1_layout,
}
use hardig.Tests.World.{
  world, clock, store, trade, manage, position, config, admin_key, holder, key_collection, effect,
  set,
}
use hardig.Tests.Running.{trading, managing}

abbrev new_key : Pubkey
new_key = 26

-- Keys that borrow 200 in 1000 slots, at most three of them, for a deposit of 10.
abbrev promo : PromoConfig
promo = record {
  authority_seed = admin_key;
  permissions = 0x80;
  borrow_capacity = 200;
  borrow_refill_period = 1000;
  sell_capacity = 0;
  sell_refill_period = 0;
  min_deposit_lamports = 10;
  max_claims = 3;
  claims_count = 1;
  active = true;
  total_borrow_limit = 500;
  total_sell_limit = 0;
  initial_fill_bps = 2_500;
  name_suffix = codes "Promo";
  image_uri = [];
  market_name = [];
  bump = 254;
}

abbrev claim_accounts : ClaimAccounts
claim_accounts = record {
  trade = trade new_key none;
  promo_key = 105;
  promo = promo;
  claim_receipt_key = 105;
  key_state_key = 109;
  collection = key_collection;
  mpl_core_program = 12;
}

abbrev claimed : Claim
claimed = record {
  promo = record promo { claims_count = 2 };
  receipt = record { claimer = holder; promo = 105; bump = 254 };
  key_state = claimed_key_state world clock new_key admin_key promo;
  position = record position { deposited_nav = 550 };
}

abbrev after_claim : Store
after_claim =
    effect (buy_cpi world (trade new_key none) 50)
      (set new_key (record { owner = 12; lamports = 1; bytes = 1 ∷ to_le_bytes 32 holder }) store)

claimed_run : claim_promo_key world clock claim_accounts 50 store ≡ ok (claimed, after_claim)
unfolding trading managing claim_promo_key claim_handler claim_constraints claim_mint claim_deposit
    promo_constraint promo_seeds
claimed_run = refl

claim_effect_example : Claimed world clock claim_accounts 50 store claimed after_claim
claim_effect_example =
    claim_effect world clock claim_accounts 50 store claimed after_claim claimed_run

-- The claim, and then the maximum lowered to the two keys that are out.
abbrev lowered : PromoConfig
lowered = record promo { claims_count = 2; max_claims = 2 }

lowered_run :
    update_promo world
      (manage admin_key)
      105
      (record promo { claims_count = 2 })
      none
      (some 2)
      store
    ≡ ok lowered
unfolding managing update_promo set_active set_max_claims promo_constraint promo_seeds
lowered_run = refl

promo_steps : PromoSteps world 1 promo lowered
promo_steps =
    PromoSteps.step 1 0 promo (record promo { claims_count = 2 }) lowered
      (PromoStep.claim clock claim_accounts 50 store after_claim claimed claimed_run)
      (PromoSteps.step 0 0 (record promo { claims_count = 2 }) lowered lowered
        (PromoStep.update (manage admin_key) 105 none (some 2) store
          (record promo { claims_count = 2 }) lowered lowered_run)
        (PromoSteps.stay lowered))

claims_counted_example : (2 ≡ 1 + 1) × WithinClaims lowered × SameTerms promo lowered
claims_counted_example = claims_counted world 1 promo lowered (inr (omega arith)) promo_steps

position_step : PositionStep world 0 position (record position { deposited_nav = 550 })
position_step = PositionStep.claims clock claim_accounts 50 store after_claim claimed claimed_run

position_steps : PositionSteps world 0 position (record position { deposited_nav = 550 })
position_steps =
    PositionSteps.step 0 0 position (record position { deposited_nav = 550 })
      (record position { deposited_nav = 550 }) position_step
      (PositionSteps.stay (record position { deposited_nav = 550 }))

binding_permanent_example :
    SameBinding position (record position { deposited_nav = 550 })
    × InRange (record position { deposited_nav = 550 })
binding_permanent_example =
    binding_permanent world 0 position (record position { deposited_nav = 550 })
      (record { nav = omega arith; debt = omega arith }) position_steps

admin_permanent_example : admin_key ≡ admin_key
admin_permanent_example =
    admin_permanent world position (record position { deposited_nav = 550 }) position_steps

-- The same claim on a position whose recovery settings are locked.
abbrev locked : PositionState
locked = record position { recovery_config_locked = true }

abbrev locked_accounts : ClaimAccounts
locked_accounts = record claim_accounts {
  trade = record (trade new_key none) { position = locked };
}

abbrev locked_claim : Claim
locked_claim = record claimed { position = record locked { deposited_nav = 550 } }

locked_run : claim_promo_key world clock locked_accounts 50 store ≡ ok (locked_claim, after_claim)
unfolding trading managing claim_promo_key claim_handler claim_constraints claim_mint claim_deposit
    promo_constraint promo_seeds
locked_run = refl

locked_permanent_example : SameControl locked (record locked { deposited_nav = 550 })
locked_permanent_example =
    locked_permanent world locked (record locked { deposited_nav = 550 }) refl
      (PositionSteps.step 0 0 locked (record locked { deposited_nav = 550 })
        (record locked { deposited_nav = 550 })
        (PositionStep.claims clock locked_accounts 50 store after_claim locked_claim locked_run)
        (PositionSteps.stay (record locked { deposited_nav = 550 })))

-- The admin 20 nominates 60, who accepts.
abbrev nominated : ProtocolConfig
nominated = record config { pending_admin = 60 }

abbrev handed_over : ProtocolConfig
handed_over = record config { admin = 60 }

nominate_step : ConfigStep world 20 config nominated
unfolding transfer_admin
nominate_step = ConfigStep.nominate 20 106 60 config nominated refl

accept_step : ConfigStep world 60 nominated handed_over
unfolding accept_admin
accept_step = ConfigStep.accept 60 106 nominated handed_over refl

ConfigStep-Permitted_example : Permitted 60 nominated handed_over
ConfigStep-Permitted_example = ConfigStep-Permitted world 60 nominated handed_over accept_step

collection_final_example : key_collection ≡ key_collection
collection_final_example =
    collection_final world (20 ∷ 60 ∷ []) config handed_over (λ e. omega arith)
      (ConfigSteps.step 20 (60 ∷ []) config nominated handed_over nominate_step (
        ConfigSteps.step 60 [] nominated handed_over handed_over accept_step
          (ConfigSteps.stay handed_over)))

-- The terms of the promotion above.
abbrev terms : PromoTerms
terms = record {
  name_suffix = codes "Promo";
  permissions = 0x80;
  borrow_capacity = 200;
  borrow_refill_period = 1000;
  sell_capacity = 0;
  sell_refill_period = 0;
  total_borrow_limit = 500;
  total_sell_limit = 0;
  min_deposit_lamports = 10;
  max_claims = 3;
  initial_fill_bps = 2_500;
  image_uri = [];
  market_name = [];
}

create_promo_effect_example :
    Created world (manage admin_key) 105 terms store (record promo { claims_count = 0 })
unfolding managing create_promo create_promo_handler new_promo promo_seeds
create_promo_effect_example =
    create_promo_effect world (manage admin_key) 105 terms store (record promo { claims_count = 0 })
      (omega arith) refl

migrated-v0_layout_example :
    migrated (v0_layout (replicate 8 7) 20 254) ≡ v2_layout (replicate 8 7) 20 0 0 254
migrated-v0_layout_example = migrated-v0_layout (replicate 8 7) 20 254 refl

migrated-v1_layout_example :
    migrated (v1_layout (replicate 8 7) 20 31 254) ≡ v2_layout (replicate 8 7) 20 31 0 254
migrated-v1_layout_example = migrated-v1_layout (replicate 8 7) 20 31 254 refl (omega arith)
