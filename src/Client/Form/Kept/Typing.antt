-- ===== src/Client/Form/Kept/Typing.antt =====
-- The keys of `handle_form` of crates/tui/src/app.rs other than Enter and Esc.
use hardig.Base.{
  ℕ, suc, ◌+◌, ◌-◌, ◌%◌, ◌<◌, ◌≤◌, ◌≡◌, refl, arith, Bool, true, false, ◌&&◌, inl, inr, Option,
  none, some, List, [], ◌∷◌, ◌++◌, length, ltb, ◌==◌, if◌then◌else◌, Bool-cases, Option-cases,
  ==→eq,
}
use hardig.Runtime.{Runtime, Pubkey, Text, codes}
use hardig.Anchor.{Anchor}
use hardig.Client.{Host, App, Field, FormKind}
use hardig.Client.Texts.{is_empty, starts_with}
use hardig.Client.Chain.{Rpc}
use hardig.Client.Form.{KeyCode, then_do, focus, store_input, pop, is_kind}
use hardig.Client.Form.Perms.{perm_char}
use hardig.Client.Form.Keys.{
  field_index, promo_view_key, settings_view_key, is_perm_field, edit_key, handle_form,
}
use hardig.Client.Form.Kept.{
  FormOk, Kept, has_perms, focus-FormOk, stored, stored-FormOk, store_input-stored,
  length-set_value,
}
use hardig.Client.Form.Kept.Ticks.{perm_char-Kept}

-- Every key but Enter, which may leave the form for the confirmation, and Esc, which leaves it.
abbrev pub IsTyping : KeyCode → Type 0
IsTyping KeyCode.enter = ⊥
IsTyping KeyCode.esc = ⊥
IsTyping _ = Unit

and_left : (a b : Bool) → (a && b) ≡ true → a ≡ true
and_left true b h = refl
and_left false b h = cc

and_right : (a b : Bool) → (a && b) ≡ true → b ≡ true
and_right true b h = h
and_right false b h = cc

nonempty : (fields : List Field) (i : ℕ) → i < length fields → is_empty fields ≡ false
nonempty [] i h = absurd (omega arith)
nonempty (f ∷ fields) i h = refl

chosen-lt :
    (here : Bool) (rest : Option ℕ) (i n : ℕ)
    → (if here then some 0 else elim rest [ none ↦ none | some j ↦ some (suc j) ]) ≡ some i
    → ((j : ℕ) → rest ≡ some j → j < n)
    → i < suc n
chosen-lt true rest i n h below = ground (arith, h)
chosen-lt false none i n h below = cc
chosen-lt false (some j) i n h below = let b = below j refl in ground (arith, h, b)

field_index-lt :
    (fields : List Field) (prefix : Text) (i : ℕ)
    → field_index fields prefix ≡ some i
    → i < length fields
unfolding field_index
field_index-lt [] prefix i h = cc
field_index-lt ((label, v) ∷ fields) prefix i h =
    chosen-lt (starts_with prefix label) (field_index fields prefix) i (length fields) h
      (field_index-lt fields prefix)

Kept-if : (b : Bool) {x y : Option App} → Kept x → Kept y → Kept (if b then x else y)
Kept-if true kept_x kept_y = kept_x
Kept-if false kept_x kept_y = kept_y

module _ (app : App) (fine : FormOk app) where
  -- The input may change where the focus is not on the field of the permissions.
  input-FormOk : (buf : Text) → is_perm_field app ≡ false → FormOk (record app { input_buf = buf })
  unfolding is_perm_field
  input-FormOk buf elsewhere = record {
    focused = fine.focused;
    cursor = fine.cursor;
    byte = fine.byte;
    delegable = fine.delegable;
    ticked = λ perms. record {
      long = (fine.ticked perms).long;
      spelled = (fine.ticked perms).spelled;
      typed = λ e. absurd (ground (arith, perms, e, elsewhere));
    };
  }

  cursor-FormOk : (i : ℕ) → i ≤ 6 → FormOk (record app { perm_cursor = i })
  cursor-FormOk i h = record {
    focused = fine.focused;
    cursor = h;
    byte = fine.byte;
    delegable = fine.delegable;
    ticked = λ perms. record {
      long = (fine.ticked perms).long;
      spelled = (fine.ticked perms).spelled;
      typed = (fine.ticked perms).typed;
    };
  }

  move-Kept : (i : ℕ) → i < length app.form_fields → Kept (then_do (store_input app) (focus i))
  move-Kept i inside =
      let same = length-set_value app.form_fields app.input_field app.input_buf in
      rw (store_input-stored app fine)
        (focus-FormOk i (stored app) (stored-FormOk app fine) (omega (arith, same, inside)))

  tab-Kept :
      Kept (then_do (store_input app) (focus ((app.input_field + 1) % length app.form_fields)))
  tab-Kept =
      let h = fine.focused in
      move-Kept ((app.input_field + 1) % length app.form_fields) (omega (arith, h))

  back_tab-Kept : Kept (
      then_do
        (store_input app)
        (focus (if app.input_field == 0 then length app.form_fields - 1 else app.input_field - 1)))
  back_tab-Kept =
      let h = fine.focused in
      move-Kept (if app.input_field == 0 then length app.form_fields - 1 else app.input_field - 1)
        (ground (arith, h))

  char-Kept :
      (c : ℕ)
      → Kept (
          if is_perm_field app
          then perm_char c app
          else some (record app { input_buf = app.input_buf ++ c ∷ [] }))
  unfolding is_perm_field
  char-Kept c = elim (Bool-cases (is_perm_field app)) [
    | inl here ↦ rw here (
        perm_char-Kept c app fine (and_left _ _ here)
          (==→eq app.input_field 1 (and_right (has_perms app) _ here)))
    | inr elsewhere ↦ rw elsewhere (_, refl, input-FormOk (app.input_buf ++ c ∷ []) elsewhere)
  ]

  backspace-Kept :
      Kept (
        if is_perm_field app then some app else some (record app { input_buf = pop app.input_buf }))
  backspace-Kept = elim (Bool-cases (is_perm_field app)) [
    | inl here ↦ rw here (app, refl, fine)
    | inr elsewhere ↦ rw elsewhere (_, refl, input-FormOk (pop app.input_buf) elsewhere)
  ]

  left-Kept : Kept (
      if is_perm_field app
      then some (record app { perm_cursor = app.perm_cursor - 1 })
      else some app)
  left-Kept = elim (Bool-cases (is_perm_field app)) [
    | inl here ↦
        rw here
          (_, refl, cursor-FormOk (app.perm_cursor - 1) (let h = fine.cursor in omega (arith, h)))
    | inr elsewhere ↦ rw elsewhere (app, refl, fine)
  ]

  right-Kept : Kept (
      if is_perm_field app && ltb app.perm_cursor 6
      then some (record app { perm_cursor = app.perm_cursor + 1 })
      else some app)
  right-Kept = elim (Bool-cases (is_perm_field app && ltb app.perm_cursor 6)) [
    | inl here ↦ rw here (
      _,
      refl,
      cursor-FormOk (app.perm_cursor + 1)
          (let h = and_right (is_perm_field app) _ here in ground (arith, h)),
    )
    | inr elsewhere ↦ rw elsewhere (app, refl, fine)
  ]

module _ (rt : Runtime) (host : Host) (anchor : Anchor) (rpc : Rpc) (fresh : Pubkey) where
  edit_key-Kept :
      (key : KeyCode) (app : App)
      → IsTyping key
      → FormOk app
      → Kept (edit_key rt host anchor rpc fresh key app)
  unfolding edit_key
  edit_key-Kept KeyCode.enter app typing fine = absurd typing
  edit_key-Kept KeyCode.esc app typing fine = absurd typing
  edit_key-Kept KeyCode.tab app typing fine =
      rw (nonempty app.form_fields app.input_field fine.focused) (tab-Kept app fine)
  edit_key-Kept KeyCode.back_tab app typing fine =
      rw (nonempty app.form_fields app.input_field fine.focused) (back_tab-Kept app fine)
  edit_key-Kept KeyCode.left app typing fine = left-Kept app fine
  edit_key-Kept KeyCode.up app typing fine = left-Kept app fine
  edit_key-Kept KeyCode.right app typing fine = right-Kept app fine
  edit_key-Kept KeyCode.down app typing fine = right-Kept app fine
  edit_key-Kept KeyCode.backspace app typing fine = backspace-Kept app fine
  edit_key-Kept (KeyCode.char c) app typing fine = char-Kept app fine c
  edit_key-Kept KeyCode.other app typing fine = (app, refl, fine)

  abbrev editing : App → App
  editing app = record app {
    form_readonly = false;
    form_info = some (codes "Enter new max claims value (0 = unlimited)");
  }

  editing-FormOk : (app : App) → FormOk app → FormOk (editing app)
  editing-FormOk app fine = record {
    focused = fine.focused;
    cursor = fine.cursor;
    byte = fine.byte;
    delegable = fine.delegable;
    ticked = λ perms. record {
      long = (fine.ticked perms).long;
      spelled = (fine.ticked perms).spelled;
      typed = (fine.ticked perms).typed;
    };
  }

  promo_char-Kept :
      (c : ℕ) (app : App)
      → FormOk app
      → Kept (promo_view_key rt host anchor rpc fresh (KeyCode.char c) app)
  unfolding promo_view_key
  promo_char-Kept c app fine = elim (Bool-cases (c == b'm')) [
    | inr other ↦ rw (promo_view_key, other) (app, refl, fine)
    | inl m ↦ elim (Option-cases (field_index app.form_fields (codes "Max Claims"))) [
      | inl missing ↦ rw (promo_view_key, m, missing) (editing app, refl, editing-FormOk app fine)
      | inr (i, here) ↦
          rw (promo_view_key, m, here)
            (focus-FormOk i (editing app) (editing-FormOk app fine)
              (field_index-lt app.form_fields (codes "Max Claims") i here))
    ]
  ]

  promo_view-Kept :
      (key : KeyCode) (app : App)
      → IsTyping key
      → FormOk app
      → Kept (promo_view_key rt host anchor rpc fresh key app)
  unfolding promo_view_key
  promo_view-Kept KeyCode.enter app typing fine = absurd typing
  promo_view-Kept KeyCode.esc app typing fine = absurd typing
  promo_view-Kept KeyCode.tab app typing fine = (app, refl, fine)
  promo_view-Kept KeyCode.back_tab app typing fine = (app, refl, fine)
  promo_view-Kept KeyCode.left app typing fine = (app, refl, fine)
  promo_view-Kept KeyCode.up app typing fine = (app, refl, fine)
  promo_view-Kept KeyCode.right app typing fine = (app, refl, fine)
  promo_view-Kept KeyCode.down app typing fine = (app, refl, fine)
  promo_view-Kept KeyCode.backspace app typing fine = (app, refl, fine)
  promo_view-Kept (KeyCode.char c) app typing fine = promo_char-Kept c app fine
  promo_view-Kept KeyCode.other app typing fine = (app, refl, fine)

  settings_view-Kept :
      (key : KeyCode) (app : App)
      → IsTyping key
      → FormOk app
      → Kept (settings_view_key rt host anchor rpc fresh key app)
  unfolding settings_view_key
  settings_view-Kept KeyCode.enter app typing fine = absurd typing
  settings_view-Kept KeyCode.esc app typing fine = absurd typing
  settings_view-Kept KeyCode.tab app typing fine = (app, refl, fine)
  settings_view-Kept KeyCode.back_tab app typing fine = (app, refl, fine)
  settings_view-Kept KeyCode.left app typing fine = (app, refl, fine)
  settings_view-Kept KeyCode.up app typing fine = (app, refl, fine)
  settings_view-Kept KeyCode.right app typing fine = (app, refl, fine)
  settings_view-Kept KeyCode.down app typing fine = (app, refl, fine)
  settings_view-Kept KeyCode.backspace app typing fine = (app, refl, fine)
  settings_view-Kept (KeyCode.char c) app typing fine = (app, refl, fine)
  settings_view-Kept KeyCode.other app typing fine = (app, refl, fine)

  -- A key other than Enter and Esc never makes the form panic, and it keeps the form in order: the focus
  -- stays on a field, the cursor on one of the seven permissions, the managing of keys is never ticked,
  -- and the field of the permissions spells the ticked ones.
  pub handle_form-FormOk :
      (key : KeyCode) (app : App)
      → IsTyping key
      → FormOk app
      → (after : App) × (handle_form rt host anchor rpc fresh key app ≡ some after) × FormOk after
  unfolding handle_form
  handle_form-FormOk key app typing fine =
      Kept-if app.form_readonly
        (Kept-if (is_kind FormKind.update_promo app.form_kind) (promo_view-Kept key app typing fine)
          (settings_view-Kept key app typing fine))
        (edit_key-Kept key app typing fine)
