-- ===== src/Client/Form/Perms.antt =====
-- The field of the permissions in the form of crates/tui/src/app.rs: `sync_perm_field` and the keys
-- that toggle a permission.
use hardig.Base.{
  ℕ, zero, suc, ◌-◌, ◌&&◌, Option, none, some, List, [], ◌∷◌, ◌++◌, length, take, ltb, leb, ◌==◌,
  if◌then◌else◌, bit_xor,
}
use hardig.Runtime.{Text, codes}
use hardig.State.{
  perm_buy, perm_sell, perm_borrow, perm_repay, perm_reinvest, perm_limited_sell,
  perm_limited_borrow,
}
use hardig.Decimal.{u8_text}
use hardig.Format.{unwrap_or}
use hardig.Permissions.{has_any}
use hardig.Client.{App, Field, FormKind, find_field}
use hardig.Client.Form.{set_value, focus, is_kind}

-- `PERM_ORDER`
abbrev pub perm_order : List ℕ
perm_order =
    perm_buy ∷ perm_sell ∷ perm_borrow ∷ perm_repay ∷ perm_reinvest ∷ perm_limited_sell
    ∷ perm_limited_borrow ∷ []

-- `PERM_ORDER[i]`, which panics out of range.
abbrev pub nth_perm : List ℕ → ℕ → Option ℕ
nth_perm [] i = none
nth_perm (bit ∷ bits) zero = some bit
nth_perm (bit ∷ bits) (suc i) = nth_perm bits i

-- The four fields of one limit, with the values that they had.
unfoldable pub limit_fields : List Field → Text → List Field
unfolding find_field
limit_fields old label =
    (
      label ++ codes " Capacity (SOL)",
      unwrap_or (find_field old (label ++ codes " Capacity")) (codes "0"),
    )
    ∷ (
      label ++ codes " Refill Days",
      unwrap_or (find_field old (label ++ codes " Refill Days")) (codes "0"),
    )
    ∷ (
      label ++ codes " Refill Hours",
      unwrap_or (find_field old (label ++ codes " Refill Hours")) (codes "0"),
    )
    ∷ (
      label ++ codes " Refill Minutes",
      unwrap_or (find_field old (label ++ codes " Refill Minutes")) (codes "0"),
    )
    ∷ []

-- The fields behind the first two, for the permissions that are ticked.
unfoldable pub rebuilt_fields : ℕ → List Field → List Field
unfolding limit_fields find_field
rebuilt_fields perm_bits fields =
    take 2 fields
    ++ ((if has_any perm_bits perm_limited_sell then limit_fields fields (codes "Sell") else [])
        ++ ((if has_any perm_bits perm_limited_borrow
              then limit_fields fields (codes "Borrow")
              else [])
            ++ ((
              codes "Label (optional)",
              unwrap_or (find_field fields (codes "Label (optional)")) [],
            )
                ∷ [])))

-- The focus moves to the last field where its own is gone.
unfoldable pub clamp_focus : App → Option App
unfolding focus
clamp_focus app =
    let last = focus (length app.form_fields - 1) app in
    if leb (length app.form_fields) app.input_field then last else some app

unfoldable pub sync_perm_field : App → Option App
unfolding set_value rebuilt_fields clamp_focus
sync_perm_field app =
    let val = u8_text app.perm_bits in
    let fields = set_value app.form_fields 1 val in
    let synced = record app {
      form_fields = fields;
      input_buf = if app.input_field == 1 then val else app.input_buf;
    } in
    let rebuilt =
      clamp_focus (record synced { form_fields = rebuilt_fields app.perm_bits fields }) in
    if ltb 1 (length app.form_fields)
    then (if is_kind FormKind.create_promo app.form_kind then some synced else rebuilt)
    else none

-- `self.perm_bits ^= bit; self.sync_perm_field()`
unfoldable pub toggle_perm : ℕ → App → Option App
unfolding sync_perm_field
toggle_perm bit app = sync_perm_field (record app { perm_bits = bit_xor app.perm_bits bit })

unfoldable pub toggle_at : ℕ → App → Option App
unfolding toggle_perm
toggle_at i app = elim (nth_perm perm_order i) [ none ↦ none | some bit ↦ toggle_perm bit app ]

-- The keys that toggle a permission: the space bar the one under the cursor, a digit its own.
unfoldable pub perm_char : ℕ → App → Option App
unfolding toggle_at
perm_char c app =
    if c == b' '
    then toggle_at app.perm_cursor app
    else if leb b'1' c && leb c b'7'
    then toggle_at (c - b'1') app
    else some app
