-- ===== src/Client/Form/Kept/Ticks.antt =====
-- The keys that toggle a permission in the form of crates/tui/src/app.rs.
use hardig.Base.{
  subst, sym, zero, suc, List, [], ◌∷◌, length, none, some, ◌<◌, Option, ℕ, ◌-◌, ◌≤◌, ◌≡◌, refl,
  ◌∙◌, arith, Bool, true, false, not, ◌&&◌, ◌||◌, inl, inr, ltb, leb, ◌==◌, if◌then◌else◌, bit_xor,
  Bool-cases,
}
use hardig.State.{perm_manage_keys}
use hardig.Format.{unwrap_or}
use hardig.Decimal.{u8_text, all_below, all_below_sound}
use hardig.Permissions.{has_any}
use hardig.Client.{App, Field, FormKind}
use hardig.Client.Form.{value_of, set_value, is_kind}
use hardig.Client.Form.Perms.{
  perm_order, nth_perm, toggle_at, rebuilt_fields, clamp_focus, sync_perm_field, toggle_perm,
  perm_char,
}
use hardig.Client.Form.Kept.{FormOk, Kept, has_perms, length-set_value, value_of-set_value}

-- The bits that may be ticked: a byte without the managing of keys.
abbrev pub tickable : ℕ → Bool
tickable bits = ltb bits 256 && not (has_any bits perm_manage_keys)

abbrev keeps_tickable : ℕ → ℕ → Bool
keeps_tickable bit bits = not (tickable bits) || tickable (bit_xor bits bit)

abbrev bit_at : ℕ → ℕ
bit_at i = unwrap_or (nth_perm perm_order i) 0

toggle_table : all_below 7 (λ i. all_below 256 (keeps_tickable (bit_at i))) ≡ true
unfolding all_below
toggle_table = refl

tickable-of : (bits : ℕ) → bits < 256 → has_any bits perm_manage_keys ≡ false → tickable bits ≡ true
tickable-of bits h m = ground (arith, h, m)

tickable-parts :
    (bits : ℕ) → tickable bits ≡ true → (bits < 256) × (has_any bits perm_manage_keys ≡ false)
tickable-parts bits h = ground (arith, h)

toggle-tickable :
    (i bits : ℕ)
    → i ≤ 6
    → bits < 256
    → has_any bits perm_manage_keys ≡ false
    → (bit_xor bits (bit_at i) < 256) × (has_any (bit_xor bits (bit_at i)) perm_manage_keys ≡ false)
toggle-tickable i bits hi h m =
    let row =
      all_below_sound 7 (λ j. all_below 256 (keeps_tickable (bit_at j))) i toggle_table
        (omega arith) in
    let cell = all_below_sound 256 (keeps_tickable (bit_at i)) bits row h in
    tickable-parts (bit_xor bits (bit_at i)) (or_elim (tickable bits) _ cell (tickable-of bits h m))
  where
    or_elim : (a b : Bool) → (not a || b) ≡ true → a ≡ true → b ≡ true
    or_elim true b h p = h
    or_elim false b h p = cc

module _ (bits : ℕ) where
  length-rebuilt_fields :
      (fields : List Field) → 1 < length fields → 1 < length (rebuilt_fields bits fields)
  unfolding rebuilt_fields
  length-rebuilt_fields [] h = absurd (omega arith)
  length-rebuilt_fields (f ∷ []) h = absurd (omega arith)
  length-rebuilt_fields (f ∷ g ∷ fields) h = omega arith

  rebuilt_fields-spelled :
      (fields : List Field)
      → 1 < length fields
      → value_of (rebuilt_fields bits fields) 1 ≡ value_of fields 1
  unfolding rebuilt_fields value_of
  rebuilt_fields-spelled [] h = absurd (omega arith)
  rebuilt_fields-spelled (f ∷ []) h = absurd (omega arith)
  rebuilt_fields-spelled (f ∷ g ∷ fields) h = refl

clamp_focus-inside :
    (app : App) → app.input_field < length app.form_fields → clamp_focus app ≡ some app
unfolding clamp_focus
clamp_focus-inside app h = ground (arith, h)

-- The state with the new text in the second field and in the input.
abbrev respelled : App → App
respelled app = record app {
  form_fields = set_value app.form_fields 1 (u8_text app.perm_bits);
  input_buf = if app.input_field == 1 then u8_text app.perm_bits else app.input_buf;
}

abbrev rebuilt : App → App
rebuilt app = record (respelled app) {
  form_fields = rebuilt_fields app.perm_bits (respelled app).form_fields;
}

module _ (app : App) (focused : app.input_field ≡ 1) (long : 1 < length app.form_fields)
    (cursor : app.perm_cursor ≤ 6) (byte : app.perm_bits < 256)
    (delegable : has_any app.perm_bits perm_manage_keys ≡ false) where
  respelled_long : 1 < length (respelled app).form_fields
  respelled_long =
      let same = length-set_value app.form_fields 1 (u8_text app.perm_bits) in omega (arith, same)

  respelled-FormOk : FormOk (respelled app)
  respelled-FormOk = record {
    focused = (let l = respelled_long in omega (arith, l, focused));
    cursor = cursor;
    byte = byte;
    delegable = delegable;
    ticked = λ perms. record {
      long = respelled_long;
      spelled = value_of-set_value app.form_fields 1 (u8_text app.perm_bits) long;
      typed = λ e. rw e refl;
    };
  }

  rebuilt-FormOk : FormOk (rebuilt app)
  rebuilt-FormOk =
      let l = length-rebuilt_fields app.perm_bits (respelled app).form_fields respelled_long in
      record {
        focused = omega (arith, l, focused);
        cursor = cursor;
        byte = byte;
        delegable = delegable;
        ticked = λ perms. record {
          long = l;
          spelled =
              rebuilt_fields-spelled app.perm_bits (respelled app).form_fields respelled_long
              ∙ value_of-set_value app.form_fields 1 (u8_text app.perm_bits) long;
          typed = λ e. rw e refl;
        };
      }

  sync_perm_field-Kept : Kept (sync_perm_field app)
  unfolding sync_perm_field
  sync_perm_field-Kept = elim (Bool-cases (is_kind FormKind.create_promo app.form_kind)) [
    | inl promo ↦ (respelled app, ground (arith, long, promo), respelled-FormOk)
    | inr other ↦ (
      rebuilt app,
      ground (arith, long, other, clamp_focus-inside (rebuilt app) (rebuilt-FormOk).focused),
      rebuilt-FormOk,
    )
  ]

toggle_perm-Kept :
    (i : ℕ) (app : App)
    → FormOk app
    → has_perms app ≡ true
    → app.input_field ≡ 1
    → i ≤ 6
    → Kept (toggle_perm (bit_at i) app)
unfolding toggle_perm
toggle_perm-Kept i app fine perms focused hi =
    let kept = toggle-tickable i app.perm_bits hi fine.byte fine.delegable in
    sync_perm_field-Kept (record app { perm_bits = bit_xor app.perm_bits (bit_at i) }) focused
      (fine.ticked perms).long fine.cursor kept.0 kept.1

nth_perm-in_range :
    (bits : List ℕ) (i : ℕ)
    → i < length bits
    → nth_perm bits i ≡ some (unwrap_or (nth_perm bits i) 0)
nth_perm-in_range [] i h = absurd (omega (arith, h))
nth_perm-in_range (bit ∷ bits) zero h = refl
nth_perm-in_range (bit ∷ bits) (suc i) h = nth_perm-in_range bits i (omega (arith, h))

toggle_at-Kept :
    (i : ℕ) (app : App)
    → FormOk app
    → has_perms app ≡ true
    → app.input_field ≡ 1
    → i ≤ 6
    → Kept (toggle_at i app)
unfolding toggle_at
toggle_at-Kept i app fine perms focused hi =
    subst (λ r. Kept (elim r as (λ _. Option App) [ none ↦ none | some bit ↦ toggle_perm bit app ]))
      (sym (nth_perm-in_range perm_order i (omega (arith, hi))))
      (toggle_perm-Kept i app fine perms focused hi)

pub perm_char-Kept :
    (c : ℕ) (app : App)
    → FormOk app
    → has_perms app ≡ true
    → app.input_field ≡ 1
    → Kept (perm_char c app)
unfolding perm_char
perm_char-Kept c app fine perms focused = elim (Bool-cases (c == b' ')) [
  | inl space ↦ rw space (toggle_at-Kept app.perm_cursor app fine perms focused fine.cursor)
  | inr not_space ↦ elim (Bool-cases (leb b'1' c && leb c b'7')) [
    | inl digit ↦
        rw (not_space, digit)
          (toggle_at-Kept (c - b'1') app fine perms focused (ground (arith, digit)))
    | inr neither ↦ rw (not_space, neither) (app, refl, fine)
  ]
]
