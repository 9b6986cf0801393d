-- ===== src/Anchor.antt =====
-- The account framework, as far as the program and its client share it: how an account of the
-- program is read. The readers of the account types, which the framework generates from
-- programs/hardig/src/state/mod.rs and state/promo.rs, are the argument `Anchor`.
use hardig.Base.{Option, none, some, ◌==◌, if◌then◌else◌}
use hardig.Error.{Result, ok, err, ◌>>=◌, ◌>>◌, constrain, constraint}
use hardig.Runtime.{Runtime, Store, Pubkey, Bytes}
use hardig.State.{PositionState, ProtocolConfig, MarketConfig, KeyState, PromoConfig}

-- `T::try_deserialize` of the account types.
pub record Anchor : Type 0 where
  pub position_state : Bytes → Option PositionState
  pub protocol_config : Bytes → Option ProtocolConfig
  pub market_config : Bytes → Option MarketConfig
  pub key_state : Bytes → Option KeyState
  pub promo_config : Bytes → Option PromoConfig

-- `Account<T>`: the account belongs to the program and holds a `T`.
unfoldable pub load {ℓ} : {A : Type ℓ} → Runtime → (Bytes → Option A) → Store → Pubkey → Result A
load rt read s key = do
  constrain ((s key).owner == rt.program_id)
  elim (read (s key).bytes) [ none ↦ err constraint | some a ↦ ok a ]

-- `Option<Account<T>>`, absent where the program's own address stands in its place.
unfoldable pub load_optional {ℓ} :
    {A : Type ℓ} → Runtime → (Bytes → Option A) → Store → Pubkey → Result (Option A)
unfolding load
load_optional rt read s key =
    if key == rt.program_id then ok none else load rt read s key >>= λ a. ok (some a)
