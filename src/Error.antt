-- ===== src/Error.antt =====
-- The error codes of programs/hardig/src/errors.rs, what an instruction may fail with, and the
-- result of fallible code.
use hardig.Base.{ℕ, ◌≡◌, refl, Bool, true, false, Option, none, some}

-- `enum HardigError`
pub data HardigError : Type 0 where
  unauthorized admin_only insufficient_permission key_not_held : HardigError
  invalid_key wrong_position : HardigError
  cannot_create_second_admin cannot_revoke_admin_key key_already_authorized : HardigError
  invalid_key_role : HardigError
  insufficient_funds borrow_capacity_exceeded reinvest_spread_too_high : HardigError
  invalid_mayflower_account slippage_exceeded invalid_ata : HardigError
  rate_limit_exceeded total_limit_exceeded : HardigError
  collection_not_created collection_already_created already_migrated : HardigError
  invalid_nft_mint invalid_position_pda position_already_exists : HardigError
  name_too_long image_uri_too_long : HardigError
  recovery_not_configured recovery_lockout_not_expired recovery_config_locked : HardigError
  invalid_lockout old_recovery_asset_required : HardigError
  max_claims_below_current promo_inactive promo_max_claims_reached : HardigError
  invalid_initial_fill : HardigError
  invalid_artwork_receipt untrusted_provider artwork_receipt_position_mismatch : HardigError

-- What ends an instruction: a code of the program; a constraint of the account framework without
-- a code of the program; a panic (overflow checks are on in the release profile); an error of a
-- called program.
pub data Error : Type 0 where
  custom : HardigError → Error
  constraint : Error
  panic : Error
  external : ℕ → Error

pub data Result {ℓ} (A : Type ℓ) : Type ℓ where
  ok : A → Result A
  err : Error → Result A

-- `?` on a result that later steps use, and on one that they do not.
abbrev pub ◌>>=◌ {κ ℓ} : {X : Type κ} {Y : Type ℓ} → Result X → (X → Result Y) → Result Y
ok x >>= next = next x
err problem >>= next = err problem

abbrev pub ◌>>◌ {κ ℓ} : {X : Type κ} {Y : Type ℓ} → Result X → Result Y → Result Y
first >> second = first >>= λ _. second

infixl 5 ◌>>=◌ ◌>>◌
-- `require!(b, e)`
abbrev pub require : Bool → HardigError → Result (Unit {0})
require true e = ok tt
require false e = err (custom e)

-- A constraint that carries no code of the program.
abbrev pub constrain : Bool → Result (Unit {0})
constrain true = ok tt
constrain false = err constraint

-- `o.ok_or(e)?`
abbrev pub ok_or {ℓ} : {A : Type ℓ} → Option A → HardigError → Result A
ok_or none e = err (custom e)
ok_or (some a) e = ok a

-- Unchecked arithmetic, which panics on overflow.
abbrev pub or_panic {ℓ} : {A : Type ℓ} → Option A → Result A
or_panic none = err panic
or_panic (some a) = ok a

-- Inversion of a successful step.
pub >>=-eq-ok {κ ℓ} :
    {X : Type κ} {Y : Type ℓ} (first : Result X) (next : X → Result Y) {y : Y}
    → (first >>= next) ≡ ok y
    → (x : X) × (first ≡ ok x) × (next x ≡ ok y)
>>=-eq-ok (err problem) next ran = cc
>>=-eq-ok (ok x) next ran = (x, refl, ran)

-- The same for a guard, and for a value that may be missing.
pub require-eq-ok {ℓ} :
    {A : Type ℓ} (b : Bool) (e : HardigError) (k : Result A) {a : A}
    → (require b e >> k) ≡ ok a
    → (b ≡ true) × (k ≡ ok a)
require-eq-ok true e k h = (refl, h)
require-eq-ok false e k h = cc

pub ok_or-eq-ok {ℓ κ} :
    {A : Type ℓ} {B : Type κ} (o : Option A) (e : HardigError) (f : A → Result B) {b : B}
    → (ok_or o e >>= f) ≡ ok b
    → (a : A) × (o ≡ some a) × (f a ≡ ok b)
ok_or-eq-ok (some a) e f h = (a, refl, h)
ok_or-eq-ok none e f h = cc

-- The same for a check that returns nothing.
pub >>-eq-ok {ℓ} :
    {A : Type ℓ} (m : Result (Unit {0})) (k : Result A) {a : A}
    → (m >> k) ≡ ok a
    → (m ≡ ok tt) × (k ≡ ok a)
>>-eq-ok (ok tt) k h = (refl, h)
>>-eq-ok (err e) k h = cc

pub require-true : (b : Bool) (e : HardigError) → require b e ≡ ok tt → b ≡ true
require-true true e h = refl
require-true false e h = cc

pub constrain-true : (b : Bool) → constrain b ≡ ok tt → b ≡ true
constrain-true true h = refl
constrain-true false h = cc

pub ok_injective {ℓ} : {A : Type ℓ} {a b : A} → ok a ≡ ok b → a ≡ b
ok_injective h = cc
