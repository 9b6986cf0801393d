-- ===== src/Protocol/Migrate/Layout.antt =====
-- The layouts before and after programs/hardig/src/instructions/migrate_config.rs, field by field.
use mathlib.Core.List.{append_assoc}
use hardig.Base.{
  ℕ, zero, suc, ◌+◌, ◌<◌, ◌^◌, ◌==◌, eq→==, false, ◌≡◌, refl, sym, ap, ◌∙◌, arith, [], ◌∷◌, ◌++◌,
  length, take, drop, slice, replicate, get_or, from_le_bytes, length-to_le_bytes,
  from_le_bytes-to_le_bytes, take-append, drop-append, length-append,
}
use hardig.Runtime.{Bytes, Pubkey, default_key}
use hardig.State.{config_size}
use hardig.Mayflower.Cpi.{key_bytes}
use hardig.Protocol.Migrate.{old_fields, migrated_bytes, resize, write_at, v0_size}

-- `[discriminator(8)][admin(32)][bump(1)]`, and the two layouts with more fields.
unfoldable pub v0_layout : Bytes → Pubkey → ℕ → Bytes
v0_layout discriminator admin bump = (discriminator ++ key_bytes admin) ++ bump ∷ []

unfoldable pub v1_layout : Bytes → Pubkey → Pubkey → ℕ → Bytes
v1_layout discriminator admin collection bump =
    (discriminator ++ key_bytes admin) ++ (key_bytes collection ++ bump ∷ [])

unfoldable pub v2_layout : Bytes → Pubkey → Pubkey → Pubkey → ℕ → Bytes
v2_layout discriminator admin collection pending_admin bump =
    (discriminator ++ key_bytes admin)
    ++ (key_bytes collection ++ (key_bytes pending_admin ++ bump ∷ []))

-- A field in the middle is replaced by one of the same length.
write_at-append :
    (a old new c : Bytes) (n : ℕ)
    → length a ≡ n
    → length new ≡ length old
    → write_at n new (a ++ (old ++ c)) ≡ a ++ (new ++ c)
write_at-append a old new c n h k =
    let before = take-append a (old ++ c) n h in
    let whole : length (a ++ old) ≡ n + length new = length-append a old ∙ omega (arith, h, k) in
    let after : drop (n + length new) (a ++ (old ++ c)) ≡ c =
      ap (drop (n + length new)) (sym (append_assoc a old c))
      ∙ drop-append (a ++ old) c (n + length new) whole in
    append_assoc (take n (a ++ (old ++ c))) new (drop (n + length new) (a ++ (old ++ c)))
    ∙ ap (λ x. x ++ (new ++ drop (n + length new) (a ++ (old ++ c)))) before
    ∙ ap (λ x. a ++ (new ++ x)) after

-- The three writes, over 40, 32, 32 bytes and one.
writes :
    (a x y c p : Bytes) (z b : ℕ)
    → length a ≡ 40
    → length x ≡ 32
    → length y ≡ 32
    → length c ≡ 32
    → length p ≡ 32
    → write_at 104 (b ∷ []) (write_at 72 p (write_at 40 c (a ++ (x ++ (y ++ z ∷ [])))))
      ≡ a ++ (c ++ (p ++ b ∷ []))
writes a x y c p z b ha hx hy hc hp =
    let first = write_at-append a x c (y ++ z ∷ []) 40 ha (hc ∙ sym hx) in
    let second =
      write_at-append (a ++ c) y p (z ∷ []) 72 (length-append a c ∙ omega (arith, ha, hc))
        (hp ∙ sym hy) in
    let third =
      write_at-append ((a ++ c) ++ p) (z ∷ []) (b ∷ []) [] 104
        (length-append (a ++ c) p ∙ omega (arith, length-append a c, ha, hc, hp)) refl in
    ap (λ t. write_at 104 (b ∷ []) (write_at 72 p t)) (first ∙ sym (append_assoc a c (y ++ z ∷ [])))
    ∙ ap (write_at 104 (b ∷ [])) (second ∙ sym (append_assoc (a ++ c) p (z ∷ [])))
    ∙ third
    ∙ append_assoc (a ++ c) p (b ∷ [])
    ∙ append_assoc a c (p ++ b ∷ [])

-- Growing the account fills it with zeros.
resize-append :
    (a t u w : Bytes)
    → t ++ replicate config_size 0 ≡ u ++ w
    → length (a ++ u) ≡ config_size
    → resize config_size (a ++ t) ≡ a ++ u
resize-append a t u w e h =
    ap (take config_size)
      (append_assoc a t (replicate config_size 0) ∙ ap (λ x. a ++ x) e ∙ sym (append_assoc a u w))
    ∙ take-append (a ++ u) w config_size h

head_length :
    (discriminator : Bytes) (admin : Pubkey)
    → length discriminator ≡ 8
    → length (discriminator ++ key_bytes admin) ≡ 40
head_length discriminator admin h =
    length-append discriminator (key_bytes admin) ∙ omega (arith, h, length-to_le_bytes 32 admin)

migrated_bytes_v0 :
    (discriminator : Bytes) (admin : Pubkey) (bump : ℕ)
    → length discriminator ≡ 8
    → migrated_bytes default_key bump (v0_layout discriminator admin bump)
      ≡ v2_layout discriminator admin default_key default_key bump
unfolding migrated_bytes v0_layout v2_layout
migrated_bytes_v0 discriminator admin bump h =
    let a = discriminator ++ key_bytes admin in
    let ha = head_length discriminator admin h in
    let x = bump ∷ replicate 31 0 in
    let y : Bytes = replicate 32 0 in
    let grown =
      resize-append a (bump ∷ []) (x ++ (y ++ 0 ∷ [])) (replicate 41 0) refl
        (length-append a (x ++ (y ++ 0 ∷ [])) ∙ omega (arith, ha)) in
    ap
      (λ t.
        write_at 104 (bump ∷ [])
          (write_at 72 (key_bytes default_key) (write_at 40 (key_bytes default_key) t)))
      grown
    ∙ writes a x y (key_bytes default_key) (key_bytes default_key) 0 bump ha refl refl
        (length-to_le_bytes 32 default_key) (length-to_le_bytes 32 default_key)

migrated_bytes_v1 :
    (discriminator : Bytes) (admin collection : Pubkey) (bump : ℕ)
    → length discriminator ≡ 8
    → migrated_bytes collection bump (v1_layout discriminator admin collection bump)
      ≡ v2_layout discriminator admin collection default_key bump
unfolding migrated_bytes v1_layout v2_layout
migrated_bytes_v1 discriminator admin collection bump h =
    let a = discriminator ++ key_bytes admin in
    let ha = head_length discriminator admin h in
    let k = key_bytes collection in
    let hk = length-to_le_bytes 32 collection in
    let y = bump ∷ replicate 31 0 in
    let grown =
      resize-append a (k ++ bump ∷ []) (k ++ (y ++ 0 ∷ [])) (replicate 73 0)
        (append_assoc k (bump ∷ []) (replicate 105 0)
          ∙ sym (append_assoc k (y ++ 0 ∷ []) (replicate 73 0)))
        (length-append a (k ++ (y ++ 0 ∷ []))
          ∙ omega (arith, ha, hk, length-append k (y ++ 0 ∷ []))) in
    ap (λ t. write_at 104 (bump ∷ []) (write_at 72 (key_bytes default_key) (write_at 40 k t))) grown
    ∙ writes a k y k (key_bytes default_key) 0 bump ha hk refl hk
        (length-to_le_bytes 32 default_key)

get_or-append : (a s : Bytes) (x d n : ℕ) → length a ≡ n → get_or (a ++ x ∷ s) n d ≡ x
get_or-append [] s x d zero h = refl
get_or-append [] s x d (suc n) h = absurd (omega arith)
get_or-append (y ∷ a) s x d zero h = absurd (omega arith)
get_or-append (y ∷ a) s x d (suc n) h = get_or-append a s x d n (omega (arith, h))

-- What the migration writes over an account, the fields as it reads them.
abbrev pub migrated : Bytes → Bytes
migrated bytes = migrated_bytes (old_fields bytes).0 (old_fields bytes).1 bytes

old_fields_v0 :
    (a : Bytes) (bump : ℕ) → length a ≡ 40 → old_fields (a ++ bump ∷ []) ≡ (default_key, bump)
unfolding old_fields
old_fields_v0 a bump h =
    let whole : length (a ++ bump ∷ []) ≡ 41 = length-append a (bump ∷ []) ∙ omega (arith, h) in
    rw (eq→== _ _ whole, get_or-append a [] bump 0 40 h) refl

old_fields_v1 :
    (a : Bytes) (collection : Pubkey) (bump : ℕ)
    → length a ≡ 40
    → collection < 256 ^ 32
    → old_fields (a ++ (key_bytes collection ++ bump ∷ [])) ≡ (collection, bump)
unfolding old_fields
old_fields_v1 a collection bump h small =
    let k = key_bytes collection in
    let hk = length-to_le_bytes 32 collection in
    let whole : length (a ++ (k ++ bump ∷ [])) ≡ 73 =
      length-append a (k ++ bump ∷ []) ∙ omega (arith, h, hk, length-append k (bump ∷ [])) in
    let other : (length (a ++ (k ++ bump ∷ [])) == v0_size) ≡ false = ground (arith, whole) in
    let field : from_le_bytes (slice (a ++ (k ++ bump ∷ [])) 40 72) ≡ collection =
      ap (λ t. from_le_bytes (take 32 t)) (drop-append a (k ++ bump ∷ []) 40 h)
      ∙ ap from_le_bytes (take-append k (bump ∷ []) 32 hk)
      ∙ from_le_bytes-to_le_bytes 32 collection small in
    let last : get_or (a ++ (k ++ bump ∷ [])) 72 0 ≡ bump =
      ap (λ t. get_or t 72 0) (sym (append_assoc a k (bump ∷ [])))
      ∙ get_or-append (a ++ k) [] bump 0 72 (length-append a k ∙ omega (arith, h, hk)) in
    rw (other, field, last) refl

-- An account of the first layout is migrated to the current one: the discriminator, the admin and
-- the bump stay, and there is no collection and no nomination.
pub migrated-v0_layout :
    (discriminator : Bytes) (admin : Pubkey) (bump : ℕ)
    → length discriminator ≡ 8
    → migrated (v0_layout discriminator admin bump)
      ≡ v2_layout discriminator admin default_key default_key bump
unfolding v0_layout
migrated-v0_layout discriminator admin bump h =
    ap (λ (f : Pubkey × ℕ). migrated_bytes f.0 f.1 (v0_layout discriminator admin bump))
      (old_fields_v0 (discriminator ++ key_bytes admin) bump (head_length discriminator admin h))
    ∙ migrated_bytes_v0 discriminator admin bump h

-- An account of the second layout, whose collection fits 32 bytes, is migrated to the current one:
-- the discriminator, the admin, the collection and the bump stay, and there is no nomination.
pub migrated-v1_layout :
    (discriminator : Bytes) (admin collection : Pubkey) (bump : ℕ)
    → length discriminator ≡ 8
    → collection < 256 ^ 32
    → migrated (v1_layout discriminator admin collection bump)
      ≡ v2_layout discriminator admin collection default_key bump
unfolding v1_layout
migrated-v1_layout discriminator admin collection bump h small =
    ap (λ (f : Pubkey × ℕ). migrated_bytes f.0 f.1 (v1_layout discriminator admin collection bump))
      (old_fields_v1 (discriminator ++ key_bytes admin) collection bump
        (head_length discriminator admin h) small)
    ∙ migrated_bytes_v1 discriminator admin collection bump h
