-- ===== src/Client/Enter/Ready/Stays.antt =====
-- The keys of the form other than Enter and Esc, in crates/tui/src/app.rs, and the screen.
use hardig.Base.{
  ℕ, ◌-◌, ◌≡◌, refl, Bool, true, false, ◌&&◌, Option, none, some, length, ltb, leb, ◌==◌,
  if◌then◌else◌, bit_xor, subst,
}
use hardig.Runtime.{Runtime, Pubkey, Text, codes}
use hardig.Decimal.{u8_text}
use hardig.Anchor.{Anchor}
use hardig.Client.{Host, App, Screen, FormKind}
use hardig.Client.Texts.{is_empty}
use hardig.Client.Chain.{Rpc}
use hardig.Client.Form.{KeyCode, then_do, store_input, focus, value_of, set_value, is_kind}
use hardig.Client.Form.Perms.{
  clamp_focus, sync_perm_field, toggle_perm, toggle_at, nth_perm, perm_char, rebuilt_fields,
  perm_order,
}
use hardig.Client.Form.Keys.{
  field_index, is_perm_field, promo_view_key, settings_view_key, edit_key, handle_form,
}
use hardig.Client.Form.Kept.Typing.{IsTyping}

-- A result that is not a panic shows the screen.
abbrev pub Shows : Screen → Option App → Type 0
Shows s none = Unit
Shows s (some b) = b.screen ≡ s

Shows-if :
    (s : Screen) (test : Bool) (x y : Option App)
    → Shows s x
    → Shows s y
    → Shows s (if test then x else y)
Shows-if s true x y h k = h
Shows-if s false x y h k = k

focus-Shows : (i : ℕ) (app : App) → Shows app.screen (focus i app)
unfolding focus
focus-Shows i app = at_field (value_of app.form_fields i)
  where
    at_field :
        (r : Option Text)
        → Shows app.screen (elim r as (λ _. Option App) [
          | none ↦ none
          | some value ↦ some (record app { input_field = i; input_buf = value })
        ])
    at_field none = tt
    at_field (some value) = refl

then_do-Shows :
    (s : Screen) (r : Option App) (next : App → Option App)
    → Shows s r
    → ((b : App) → b.screen ≡ s → Shows s (next b))
    → Shows s (then_do r next)
then_do-Shows s none next h k = tt
then_do-Shows s (some b) next h k = k b h

refocus-Shows : (s : Screen) (i : ℕ) (b : App) → b.screen ≡ s → Shows s (focus i b)
refocus-Shows s i b h = subst (λ t. Shows t (focus i b)) h (focus-Shows i b)

store_input-Shows : (app : App) → Shows app.screen (store_input app)
unfolding store_input
store_input-Shows app =
    Shows-if app.screen (ltb app.input_field (length app.form_fields)) _ _ refl tt

clamp-Shows : (app : App) → Shows app.screen (clamp_focus app)
unfolding clamp_focus
clamp-Shows app =
    Shows-if app.screen (leb (length app.form_fields) app.input_field) _ _
      (focus-Shows (length app.form_fields - 1) app) refl

sync-Shows : (app : App) → Shows app.screen (sync_perm_field app)
unfolding sync_perm_field
sync-Shows app =
    Shows-if app.screen (ltb 1 (length app.form_fields)) _ _
      (Shows-if app.screen (is_kind FormKind.create_promo app.form_kind) _ _ refl (
        clamp-Shows (record app {
          form_fields =
              rebuilt_fields app.perm_bits (set_value app.form_fields 1 (u8_text app.perm_bits));
          input_buf = if app.input_field == 1 then u8_text app.perm_bits else app.input_buf;
        })))
      tt

toggle_at-Shows : (i : ℕ) (app : App) → Shows app.screen (toggle_at i app)
unfolding toggle_at toggle_perm
toggle_at-Shows i app = at_bit (nth_perm perm_order i)
  where
    at_bit :
        (r : Option ℕ)
        → Shows app.screen
            (elim r as (λ _. Option App) [ none ↦ none | some bit ↦ toggle_perm bit app ])
    at_bit none = tt
    at_bit (some bit) = sync-Shows (record app { perm_bits = bit_xor app.perm_bits bit })

perm_char-Shows : (c : ℕ) (app : App) → Shows app.screen (perm_char c app)
unfolding perm_char
perm_char-Shows c app =
    Shows-if app.screen (c == b' ') _ _ (toggle_at-Shows app.perm_cursor app)
      (Shows-if app.screen (leb b'1' c && leb c b'7') _ _ (toggle_at-Shows (c - b'1') app) refl)

module _ (rt : Runtime) (host : Host) (anchor : Anchor) (rpc : Rpc) (fresh : Pubkey) where
  promo_view-Shows :
      (key : KeyCode) (app : App)
      → IsTyping key
      → Shows app.screen (promo_view_key rt host anchor rpc fresh key app)
  unfolding promo_view_key
  promo_view-Shows KeyCode.enter app h = absurd h
  promo_view-Shows KeyCode.esc app h = absurd h
  promo_view-Shows KeyCode.tab app h = refl
  promo_view-Shows KeyCode.back_tab app h = refl
  promo_view-Shows KeyCode.backspace app h = refl
  promo_view-Shows KeyCode.up app h = refl
  promo_view-Shows KeyCode.down app h = refl
  promo_view-Shows KeyCode.left app h = refl
  promo_view-Shows KeyCode.right app h = refl
  promo_view-Shows KeyCode.other app h = refl
  promo_view-Shows (KeyCode.char c) app h =
      Shows-if app.screen (c == b'm') _ _
        (at_claims (field_index app.form_fields (codes "Max Claims"))) refl
    where
      at_claims :
          (r : Option ℕ)
          → Shows app.screen (elim r as (λ _. Option App) [
            | none ↦ some (record app {
              form_readonly = false;
              form_info = some (codes "Enter new max claims value (0 = unlimited)");
            })
            | some i ↦ focus i (record app {
              form_readonly = false;
              form_info = some (codes "Enter new max claims value (0 = unlimited)");
            })
          ])
      at_claims none = refl
      at_claims (some i) = focus-Shows i (record app {
        form_readonly = false;
        form_info = some (codes "Enter new max claims value (0 = unlimited)");
      })

  settings_view-Shows :
      (key : KeyCode) (app : App)
      → IsTyping key
      → Shows app.screen (settings_view_key rt host anchor rpc fresh key app)
  unfolding settings_view_key
  settings_view-Shows KeyCode.enter app h = absurd h
  settings_view-Shows KeyCode.esc app h = absurd h
  settings_view-Shows KeyCode.tab app h = refl
  settings_view-Shows KeyCode.back_tab app h = refl
  settings_view-Shows KeyCode.backspace app h = refl
  settings_view-Shows KeyCode.up app h = refl
  settings_view-Shows KeyCode.down app h = refl
  settings_view-Shows KeyCode.left app h = refl
  settings_view-Shows KeyCode.right app h = refl
  settings_view-Shows KeyCode.other app h = refl
  settings_view-Shows (KeyCode.char c) app h = refl

  edit-Shows :
      (key : KeyCode) (app : App)
      → IsTyping key
      → Shows app.screen (edit_key rt host anchor rpc fresh key app)
  unfolding edit_key
  edit-Shows KeyCode.enter app h = absurd h
  edit-Shows KeyCode.esc app h = absurd h
  edit-Shows KeyCode.tab app h = Shows-if app.screen (is_empty app.form_fields) _ _ refl (
      then_do-Shows app.screen (store_input app) _ (store_input-Shows app)
        (refocus-Shows app.screen _))
  edit-Shows KeyCode.back_tab app h = Shows-if app.screen (is_empty app.form_fields) _ _ refl (
      then_do-Shows app.screen (store_input app) _ (store_input-Shows app)
        (refocus-Shows app.screen _))
  edit-Shows KeyCode.backspace app h = Shows-if app.screen (is_perm_field app) _ _ refl refl
  edit-Shows KeyCode.up app h = Shows-if app.screen (is_perm_field app) _ _ refl refl
  edit-Shows KeyCode.left app h = Shows-if app.screen (is_perm_field app) _ _ refl refl
  edit-Shows KeyCode.down app h =
      Shows-if app.screen (is_perm_field app && ltb app.perm_cursor 6) _ _ refl refl
  edit-Shows KeyCode.right app h =
      Shows-if app.screen (is_perm_field app && ltb app.perm_cursor 6) _ _ refl refl
  edit-Shows (KeyCode.char c) app h =
      Shows-if app.screen (is_perm_field app) _ _ (perm_char-Shows c app) refl
  edit-Shows KeyCode.other app h = refl

  pub handle_form-Shows :
      (key : KeyCode) (app : App)
      → IsTyping key
      → Shows app.screen (handle_form rt host anchor rpc fresh key app)
  unfolding handle_form
  handle_form-Shows key app h =
      Shows-if app.screen app.form_readonly _ _
        (Shows-if app.screen (is_kind FormKind.update_promo app.form_kind) _ _
          (promo_view-Shows key app h) (settings_view-Shows key app h))
        (edit-Shows key app h)
