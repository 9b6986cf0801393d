-- ===== src/Entry/Trade/Selected.antt =====
-- The state of the client right after `select_active_position` of crates/tui/src/app.rs.
use hardig.Base.{ℕ, ◌≡◌, refl, sym, ◌∙◌, true, Option, some, List, [], ◌∷◌, ◌/=◌, subst}
use hardig.Error.{ok}
use hardig.Runtime.{Runtime, Store, Pubkey, default_key}
use hardig.State.{PositionState, KeyState, ProtocolConfig, MarketConfig, config_seed}
use hardig.Anchor.{Anchor, load_optional}
use hardig.Mayflower.Cpi.{derive_log_account}
use hardig.Client.{Host, App, DiscoveredPosition, push_log}
use hardig.Client.Attempt.{built}
use hardig.Client.Build.{config_pda, get_ata}
use hardig.Client.Build.Trade.{Loaded, loaded, key_state_meta}
use hardig.Client.Chain.{Rpc}
use hardig.Client.Select.{
  Accounts, position_at, read_position, read_market_config, market_config_key, load_position,
  select_active_position, selected_line,
}
use hardig.Entry.Trade.InSync.{InSync}

-- What the chain holds for the position that is selected.
pub record OnChain (rt : Runtime) (anchor : Anchor) (s : Store) (dp : DiscoveredPosition)
    (p : PositionState) (c : ProtocolConfig) (mc : MarketConfig) (k : Option KeyState)
    : Type 0 where
  pub position_owned : (s dp.position_pda).owner ≡ rt.program_id
  pub position_here : anchor.position_state (s dp.position_pda).bytes ≡ some p
  pub seed_agrees : dp.admin_asset ≡ p.authority_seed
  pub config_owned : (s (config_pda rt)).owner ≡ rt.program_id
  pub config_here : anchor.protocol_config (s (config_pda rt)).bytes ≡ some c
  pub config_bump :
      rt.create_program_address (config_seed ∷ (c.bump ∷ []) ∷ []) rt.program_id
      ≡ some (config_pda rt)
  pub market_set : (p.market_config /= default_key) ≡ true
  pub market_owned : (s p.market_config).owner ≡ rt.program_id
  pub market_here : anchor.market_config (s p.market_config).bytes ≡ some mc
  pub key_state_here :
      load_optional rt anchor.key_state s (key_state_meta rt dp.key_state_pda).pubkey ≡ ok k

module _ (rt : Runtime) (host : Host) (anchor : Anchor) (rpc : Rpc) (s : Store)
    (positions key_states : Accounts) where
  -- What a trade finds after the selection.
  abbrev pub selected_loaded : DiscoveredPosition → PositionState → MarketConfig → Loaded
  selected_loaded dp p mc = record {
    position_pda = dp.position_pda;
    key_asset = dp.key_asset;
    mc_pda = p.market_config;
    mc = mc;
  }

  load_position-InSync :
      (app : App) (dp : DiscoveredPosition) (p : PositionState) (c : ProtocolConfig)
      (mc : MarketConfig) (k : Option KeyState)
      → app.log_pda ≡ derive_log_account rt
      → ((w m : Pubkey) → rt.associated_token_address w m ≡ get_ata rt w m)
      → OnChain rt anchor s dp p c mc k
      → InSync rt anchor s
          (load_position rt host anchor rpc dp p (some mc) key_states app)
          (selected_loaded dp p mc)
          p
          c
          k
  unfolding load_position
  load_position-InSync app dp p c mc k log ata on = record {
    position_owned = on.position_owned;
    position_read = on.position_here;
    config_owned = on.config_owned;
    config_read = on.config_here;
    config_bump = on.config_bump;
    market_owned = on.market_owned;
    market_read = on.market_here;
    market_of_position = refl;
    program_pda_derived = rw (on.seed_agrees) refl;
    pp_derived = refl;
    escrow_derived = refl;
    log_derived = log;
    wsol_derived = sym (ata _ _);
    nav_derived = sym (ata _ _);
    key_state_read = on.key_state_here;
  }

  load_position-loaded :
      (app : App) (dp : DiscoveredPosition) (p : PositionState) (mc : MarketConfig)
      → (p.market_config /= default_key) ≡ true
      → loaded (load_position rt host anchor rpc dp p (some mc) key_states app)
        ≡ built (selected_loaded dp p mc)
  unfolding load_position loaded market_config_key
  load_position-loaded app dp p mc set = rw set refl

  push_log-InSync :
      (msg : List ℕ) (app : App) (l : Loaded) (p : PositionState) (c : ProtocolConfig)
      (k : Option KeyState)
      → InSync rt anchor s app l p c k
      → InSync rt anchor s (push_log msg app) l p c k
  unfolding push_log
  push_log-InSync msg app l p c k sync = record {
    position_owned = sync.position_owned;
    position_read = sync.position_read;
    config_owned = sync.config_owned;
    config_read = sync.config_read;
    config_bump = sync.config_bump;
    market_owned = sync.market_owned;
    market_read = sync.market_read;
    market_of_position = sync.market_of_position;
    program_pda_derived = sync.program_pda_derived;
    pp_derived = sync.pp_derived;
    escrow_derived = sync.escrow_derived;
    log_derived = sync.log_derived;
    wsol_derived = sync.wsol_derived;
    nav_derived = sync.nav_derived;
    key_state_read = sync.key_state_read;
  }

  loaded-push_log : (msg : List ℕ) (app : App) → loaded (push_log msg app) ≡ loaded app
  unfolding loaded push_log
  loaded-push_log msg app = refl

  select_active_position-found :
      (app : App) (index : ℕ) (dp : DiscoveredPosition) (p : PositionState) (mc : MarketConfig)
      → position_at app.discovered_positions index ≡ some dp
      → read_position anchor dp.position_pda positions ≡ some p
      → (p.market_config /= default_key) ≡ true
      → rpc.get_account p.market_config ≡ some (s p.market_config)
      → anchor.market_config (s p.market_config).bytes ≡ some mc
      → select_active_position rt host anchor rpc index positions key_states app
        ≡ push_log
            (selected_line rt host anchor rpc dp p)
            (load_position rt host anchor rpc dp p (some mc) key_states app)
  unfolding select_active_position read_market_config market_config_key
  select_active_position-found app index dp p mc found here set answered read =
      rw
        (
          select_active_position, found, here, market_config_key, set, read_market_config, answered,
          read,
        )
        refl

  -- Let a discovered position be selected whose accounts the node reports as they are on the chain,
  -- with a market configuration, and whose seed is the one that was discovered; let the client's log
  -- address be the derived one, and token accounts be at the addresses that the client derives. Then the
  -- selection loads everything that a trade needs, and the state of the client is in step with the
  -- chain.
  pub select_active_position-InSync :
      (app : App) (index : ℕ) (dp : DiscoveredPosition) (p : PositionState) (c : ProtocolConfig)
      (mc : MarketConfig) (k : Option KeyState)
      → position_at app.discovered_positions index ≡ some dp
      → read_position anchor dp.position_pda positions ≡ some p
      → rpc.get_account p.market_config ≡ some (s p.market_config)
      → app.log_pda ≡ derive_log_account rt
      → ((w m : Pubkey) → rt.associated_token_address w m ≡ get_ata rt w m)
      → OnChain rt anchor s dp p c mc k
      → (loaded (select_active_position rt host anchor rpc index positions key_states app)
          ≡ built (selected_loaded dp p mc))
        × InSync rt anchor s
            (select_active_position rt host anchor rpc index positions key_states app)
            (selected_loaded dp p mc)
            p
            c
            k
  select_active_position-InSync app index dp p c mc k found here answered log ata on =
      let e =
        select_active_position-found app index dp p mc found here on.market_set answered
          on.market_here in
      subst
        (λ after.
          (loaded after ≡ built (selected_loaded dp p mc))
          × InSync rt anchor s after (selected_loaded dp p mc) p c k)
        (sym e)
        (
          loaded-push_log _ _ ∙ load_position-loaded app dp p mc on.market_set,
          push_log-InSync _ _ _ p c k (load_position-InSync app dp p c mc k log ata on),
        )
