-- ===== src/Client/Form/Kept.antt =====
-- What the keys of the form of crates/tui/src/app.rs keep: the focus, the cursor of the
-- permissions, and the field that spells them. This file has the fields and the focus; `Ticks` the
-- permissions, `Typing` the handler.
pub mod Ticks
pub mod Typing
use hardig.Base.{
  ℕ, zero, suc, ◌+◌, ◌-◌, ◌%◌, ◌<◌, ◌≤◌, ◌≡◌, refl, sym, ap, ◌∙◌, arith, Bool, true, false, ◌&&◌,
  ◌||◌, Option, none, some, List, [], ◌∷◌, ◌++◌, length, take, ltb, ◌==◌, if◌then◌else◌, Bool-cases,
  ==→eq, inl, inr,
}
use hardig.Runtime.{Text}
use hardig.State.{perm_manage_keys}
use hardig.Decimal.{u8_text}
use hardig.Permissions.{has_any}
use hardig.Client.{App, Field, FormKind}
use hardig.Client.Form.{value_of, set_value, store_input, focus, is_kind}

-- The form has a field for the permissions.
abbrev pub has_perms : App → Bool
has_perms app =
    is_kind FormKind.authorize_key app.form_kind || is_kind FormKind.create_promo app.form_kind

-- The second field spells the ticked permissions, and so does the input while it has the focus.
pub record Ticked (app : App) : Type 0 where
  pub long : 1 < length app.form_fields
  pub spelled : value_of app.form_fields 1 ≡ some (u8_text app.perm_bits)
  pub typed : app.input_field ≡ 1 → app.input_buf ≡ u8_text app.perm_bits

-- What every key keeps: the focus is on a field, the cursor on one of the seven permissions, no
-- ticked permission is the managing of keys, and the field of the permissions spells them.
pub record FormOk (app : App) : Type 0 where
  pub focused : app.input_field < length app.form_fields
  pub cursor : app.perm_cursor ≤ 6
  pub byte : app.perm_bits < 256
  pub delegable : has_any app.perm_bits perm_manage_keys ≡ false
  pub ticked : has_perms app ≡ true → Ticked app

pub length-set_value :
    (fields : List Field) (i : ℕ) (v : Text) → length (set_value fields i v) ≡ length fields
unfolding set_value
length-set_value [] i v = refl
length-set_value (f ∷ fields) zero v = refl
length-set_value (f ∷ fields) (suc i) v = omega (arith, length-set_value fields i v)

pub value_of-set_value :
    (fields : List Field) (i : ℕ) (v : Text)
    → i < length fields
    → value_of (set_value fields i v) i ≡ some v
unfolding set_value value_of
value_of-set_value [] i v h = absurd (omega arith)
value_of-set_value (f ∷ fields) zero v h = refl
value_of-set_value (f ∷ fields) (suc i) v h = value_of-set_value fields i v (omega arith)

pub value_of-set_value_other :
    (fields : List Field) (i j : ℕ) (v : Text)
    → ¬ (i ≡ j)
    → value_of (set_value fields i v) j ≡ value_of fields j
unfolding set_value value_of
value_of-set_value_other [] i j v h = refl
value_of-set_value_other (f ∷ fields) zero zero v h = absurd (h refl)
value_of-set_value_other (f ∷ fields) zero (suc j) v h = refl
value_of-set_value_other (f ∷ fields) (suc i) zero v h = refl
value_of-set_value_other (f ∷ fields) (suc i) (suc j) v h =
    value_of-set_value_other fields i j v (λ e. h (ap suc e))

pub value_of-in_range :
    (fields : List Field) (i : ℕ) → i < length fields → (v : Text) × (value_of fields i ≡ some v)
unfolding value_of
value_of-in_range [] i h = absurd (omega arith)
value_of-in_range (f ∷ fields) zero h = (f.1, refl)
value_of-in_range (f ∷ fields) (suc i) h = value_of-in_range fields i (omega arith)

some_injective : {a b : Text} → some a ≡ some b → a ≡ b
some_injective h = cc

-- A step of a handler that does not panic and keeps the form in order.
abbrev pub Kept : Option App → Type 0
Kept after = (app : App) × (after ≡ some app) × FormOk app

pub focus-FormOk :
    (i : ℕ) (app : App) → FormOk app → i < length app.form_fields → Kept (focus i app)
unfolding focus
focus-FormOk i app fine inside =
    let (v, here) = value_of-in_range app.form_fields i inside in
    (
      record app { input_field = i; input_buf = v },
      rw (focus, here) refl,
      record {
        focused = inside;
        cursor = fine.cursor;
        byte = fine.byte;
        delegable = fine.delegable;
        ticked = λ perms. record {
          long = (fine.ticked perms).long;
          spelled = (fine.ticked perms).spelled;
          typed = λ e.
              some_injective
                (sym here ∙ ap (value_of app.form_fields) e ∙ (fine.ticked perms).spelled);
        };
      },
    )

abbrev pub stored : App → App
stored app = record app { form_fields = set_value app.form_fields app.input_field app.input_buf }

stored-spelled :
    (app : App)
    → FormOk app
    → has_perms app ≡ true
    → value_of (stored app).form_fields 1 ≡ some (u8_text app.perm_bits)
stored-spelled app fine perms = elim (Bool-cases (app.input_field == 1)) [
  | inl here ↦
      (let e = ==→eq app.input_field 1 here in
        ap (value_of (stored app).form_fields) (sym e)
        ∙ value_of-set_value app.form_fields app.input_field app.input_buf fine.focused
        ∙ ap some ((fine.ticked perms).typed e))
  | inr elsewhere ↦
      (value_of-set_value_other app.form_fields app.input_field 1 app.input_buf
          (λ e. absurd (ground (arith, e, elsewhere)))
        ∙ (fine.ticked perms).spelled)
]

pub stored-FormOk : (app : App) → FormOk app → FormOk (stored app)
stored-FormOk app fine =
    let same = length-set_value app.form_fields app.input_field app.input_buf in
    let long = fine.focused in
    record {
      focused = omega (arith, same, long);
      cursor = fine.cursor;
      byte = fine.byte;
      delegable = fine.delegable;
      ticked = λ perms. record {
        long = (let l = (fine.ticked perms).long in omega (arith, same, l));
        spelled = stored-spelled app fine perms;
        typed = (fine.ticked perms).typed;
      };
    }

pub store_input-stored : (app : App) → FormOk app → store_input app ≡ some (stored app)
unfolding store_input
store_input-stored app fine = let h = fine.focused in ground (arith, h)
