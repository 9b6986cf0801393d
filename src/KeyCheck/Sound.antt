-- ===== src/KeyCheck/Sound.antt =====
-- Properties of `validate_key` of programs/hardig/src/instructions/validate_key.rs.
use hardig.Base.{
  ℕ, ◌≤◌, ◌<◌, ◌≡◌, refl, ap, ◌∙◌, arith, true, Option, none, some, List, [], ◌∷◌, length, get_or,
  slice, from_le_bytes, ==→eq, leb→le,
}
use hardig.Error.{ok, require-eq-ok, ok_or-eq-ok}
use hardig.Runtime.{Runtime, Store, Pubkey, Text, Attribute, codes, text_eq}
use hardig.Decimal.{parse_u8-lt}
use hardig.Permissions.{has_any}
use hardig.KeyCheck.{find_attribute, parse_value, check_attributes, validate_key}

pub text_eq→eq : (s t : Text) → text_eq s t ≡ true → s ≡ t
unfolding text_eq
text_eq→eq [] [] h = refl
text_eq→eq [] (d ∷ t) h = cc
text_eq→eq (c ∷ s) [] h = cc
text_eq→eq (c ∷ s) (d ∷ t) h = ground (arith, text_eq→eq s t)

pub text_eq_refl : (s : Text) → text_eq s s ≡ true
unfolding text_eq
text_eq_refl [] = refl
text_eq_refl (c ∷ s) = ground (arith, text_eq_refl s)

-- The asset `key` is a key of the position `seed`, held by `signer`, with the permissions `p`.
pub record IsKeyOf (rt : Runtime) (s : Store) (signer key seed collection : Pubkey) (p : ℕ)
    : Type 0 where
  pub program : (s key).owner ≡ rt.mpl_core_id
  pub kind : rt.asset_kind (get_or (s key).bytes 0 0) ≡ some rt.asset_v1
  pub long : 66 ≤ length (s key).bytes
  pub owner : from_le_bytes (slice (s key).bytes 1 33) ≡ signer
  pub tag : get_or (s key).bytes 33 0 ≡ 2
  pub authority : from_le_bytes (slice (s key).bytes 34 66) ≡ collection
  pub attributes : List Attribute
  pub fetched : rt.fetch_attributes (s key) ≡ some attributes
  pub position : Attribute
  pub bound : find_attribute (codes "position") attributes ≡ some position
  pub names_position : position.value ≡ rt.key_text seed
  pub grants : parse_value (find_attribute (codes "permissions") attributes) ≡ some p

parse_value-lt : (a : Option Attribute) (p : ℕ) → parse_value a ≡ some p → p < 256
unfolding parse_value
parse_value-lt none p h = cc
parse_value-lt (some a) p h = parse_u8-lt a.value p h

module _ (rt : Runtime) (s : Store) (signer key seed : Pubkey) (required : ℕ)
    (collection : Pubkey) where
  -- The tests on the bytes of the asset, read off a successful run.
  check_inverted :
      (p : ℕ)
      → validate_key rt s signer key seed required collection ≡ ok p
      → ((s key).owner ≡ rt.mpl_core_id)
        × (rt.asset_kind (get_or (s key).bytes 0 0) ≡ some rt.asset_v1)
        × (66 ≤ length (s key).bytes)
        × (from_le_bytes (slice (s key).bytes 1 33) ≡ signer)
        × (get_or (s key).bytes 33 0 ≡ 2)
        × (from_le_bytes (slice (s key).bytes 34 66) ≡ collection)
        × ((l : List Attribute) × (rt.fetch_attributes (s key) ≡ some l)
            × (check_attributes rt l seed required ≡ ok p))
  unfolding validate_key
  check_inverted p h =
      let (h₁, t₁) = require-eq-ok _ _ _ h in
      let (_, t₂) = require-eq-ok _ _ _ t₁ in
      let (k, h₃, t₃) = ok_or-eq-ok _ _ _ t₂ in
      let (h₄, t₄) = require-eq-ok _ _ _ t₃ in
      let (_, t₅) = require-eq-ok _ _ _ t₄ in
      let (h₆, t₆) = require-eq-ok _ _ _ t₅ in
      let (h₇, t₇) = require-eq-ok _ _ _ t₆ in
      let (h₈, t₈) = require-eq-ok _ _ _ t₇ in
      let (h₉, t₉) = require-eq-ok _ _ _ t₈ in
      let (l, h', t') = ok_or-eq-ok _ _ _ t₉ in
      (
        ==→eq _ _ h₁,
        h₃ ∙ ap some (==→eq k rt.asset_v1 h₄),
        leb→le _ _ h₆,
        ==→eq _ _ h₉,
        ==→eq _ _ h₇,
        ==→eq _ _ h₈,
        (l, h', t'),
      )

  attributes_inverted :
      (l : List Attribute) (p : ℕ)
      → check_attributes rt l seed required ≡ ok p
      → (parse_value (find_attribute (codes "permissions") l) ≡ some p)
        × (has_any p required ≡ true)
        × ((a : Attribute) × (find_attribute (codes "position") l ≡ some a)
            × (text_eq a.value (rt.key_text seed) ≡ true))
  unfolding check_attributes
  attributes_inverted l p h = ground arith

  -- A key that passes is an asset of the collection that the signer holds, is bound to the
  -- position, and grants one of the required permissions; what is returned is its permission byte.
  pub validate_key_sound :
      (p : ℕ)
      → validate_key rt s signer key seed required collection ≡ ok p
      → IsKeyOf rt s signer key seed collection p × (has_any p required ≡ true)
  validate_key_sound p h =
      let (program, kind, long, owner, tag, authority, (l, fetched, checked)) =
        check_inverted p h in
      let (grants, allowed, (a, bound, named)) = attributes_inverted l p checked in
      (
        record {
          program = program;
          kind = kind;
          long = long;
          owner = owner;
          tag = tag;
          authority = authority;
          attributes = l;
          fetched = fetched;
          position = a;
          bound = bound;
          names_position = text_eq→eq _ _ named;
          grants = grants;
        },
        allowed,
      )

  -- Whoever shows an asset of the collection that they hold, bound to the position and granting
  -- one of the required permissions, passes the check, with the asset's permission byte.
  pub validate_key_complete :
      (p : ℕ)
      → IsKeyOf rt s signer key seed collection p
      → has_any p required ≡ true
      → validate_key rt s signer key seed required collection ≡ ok p
  unfolding validate_key check_attributes
  validate_key_complete p k h =
      ground
        (arith, text_eq_refl (rt.key_text seed), ap (text_eq k.position.value) k.names_position)

  -- What is returned is a byte with one of the required permissions.
  pub validate_key_grants :
      (p : ℕ)
      → validate_key rt s signer key seed required collection ≡ ok p
      → (p < 256) × (has_any p required ≡ true)
  validate_key_grants p h =
      let (k, allowed) = validate_key_sound p h in (parse_value-lt _ p k.grants, allowed)
