-- ===== src/Client/Attempt.antt =====
-- The early returns of crates/tui/src/app.rs: a builder of an instruction ends with a line for the
-- log (`self.push_log(…); return`), with a panic, or with what it has built.
use hardig.Base.{ℕ, zero, suc, ◌≡◌, refl, Bool, true, false, Option, none, some, List, [], ◌∷◌}
use hardig.Runtime.{Text}
use hardig.Client.{App, Field, PendingAction, push_log, goto_confirm}

pub data Attempt {ℓ} (A : Type ℓ) : Type ℓ where
  built : A → Attempt A
  refused : Text → Attempt A
  panicked : Attempt A

infixl 5 ◌>>=◌ ◌>>◌
abbrev pub ◌>>=◌ {κ ℓ} : {X : Type κ} {Y : Type ℓ} → Attempt X → (X → Attempt Y) → Attempt Y
built x >>= next = next x
refused msg >>= next = refused msg
panicked >>= next = panicked

abbrev pub ◌>>◌ {κ ℓ} : {X : Type κ} {Y : Type ℓ} → Attempt X → Attempt Y → Attempt Y
first >> second = first >>= λ _. second

-- `match value { Some(v) => v, None => { self.push_log(msg); return; } }`
abbrev pub or_refuse {ℓ} : {A : Type ℓ} → Option A → Text → Attempt A
or_refuse none msg = refused msg
or_refuse (some a) msg = built a

-- `if bad { self.push_log(msg); return; }`
abbrev pub refuse_if : Bool → Text → Attempt (Unit {0})
refuse_if true msg = refused msg
refuse_if false msg = built tt

-- A value whose computation panics where it is `none`.
abbrev pub or_panic {ℓ} : {A : Type ℓ} → Option A → Attempt A
or_panic none = panicked
or_panic (some a) = built a

-- `self.form_fields[i].1`
unfoldable pub field_value : List Field → ℕ → Attempt Text
field_value [] i = panicked
field_value ((label, value) ∷ fields) zero = built value
field_value (_ ∷ fields) (suc i) = field_value fields i

-- The end of a builder: the refusal goes to the log, the action to the confirmation screen.
unfoldable pub settle : Attempt PendingAction → App → Option App
unfolding push_log goto_confirm
settle (built action) app = some (goto_confirm action app)
settle (refused msg) app = some (push_log msg app)
settle panicked app = none

-- Inversion of a step that has built something.
pub >>=-eq-built {κ ℓ} :
    {X : Type κ} {Y : Type ℓ} (first : Attempt X) (next : X → Attempt Y) {y : Y}
    → (first >>= next) ≡ built y
    → (x : X) × (first ≡ built x) × (next x ≡ built y)
>>=-eq-built (built x) next ran = (x, refl, ran)
>>=-eq-built (refused msg) next ran = cc
>>=-eq-built panicked next ran = cc

pub or_refuse-eq-built {κ ℓ} :
    {X : Type κ} {Y : Type ℓ} (o : Option X) (msg : Text) (next : X → Attempt Y) {y : Y}
    → (or_refuse o msg >>= next) ≡ built y
    → (x : X) × (o ≡ some x) × (next x ≡ built y)
or_refuse-eq-built (some x) msg next ran = (x, refl, ran)
or_refuse-eq-built none msg next ran = cc

pub or_panic-eq-built {κ ℓ} :
    {X : Type κ} {Y : Type ℓ} (o : Option X) (next : X → Attempt Y) {y : Y}
    → (or_panic o >>= next) ≡ built y
    → (x : X) × (o ≡ some x) × (next x ≡ built y)
or_panic-eq-built (some x) next ran = (x, refl, ran)
or_panic-eq-built none next ran = cc

pub refuse_if-eq-built {ℓ} :
    {Y : Type ℓ} (b : Bool) (msg : Text) (next : Attempt Y) {y : Y}
    → (refuse_if b msg >> next) ≡ built y
    → (b ≡ false) × (next ≡ built y)
refuse_if-eq-built false msg next ran = (refl, ran)
refuse_if-eq-built true msg next ran = cc

pub built_injective {ℓ} : {A : Type ℓ} {a b : A} → built a ≡ built b → a ≡ b
built_injective h = cc
