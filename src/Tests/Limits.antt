-- ===== src/Tests/Limits.antt =====
-- Examples of the limiter, the check of keys and the rules for delegated keys.
use hardig.Base.{
  some, ◌++◌, ◌+◌, ◌-◌, ◌*◌, ◌/◌, ◌%◌, ◌^◌, arith, ◌≤◌, ◌<◌, ◌≡◌, ◌↔◌, refl, [], ◌∷◌, leb,
  if◌then◌else◌, true, max,
}
use hardig.Error.{ok, err, custom, rate_limit_exceeded}
use hardig.State.{RateBucket, KeyCreatorOrigin, available_now, perm_manage_keys}
use hardig.Permissions.{has_any, validate_delegated_permissions}
use hardig.Permissions.Delegable.{Grantable, LimitsFit, validate_delegated_permissions_iff}
use hardig.RateLimit.{consume_rate_limit, consume_total_limit}
use hardig.RateLimit.Bounds.{IsValid, consume_rate_limit-available_now}
use hardig.RateLimit.Window.{
  consume_all, consume_all_bounded, consume_total_all, consume_total_all_capped,
}
use hardig.KeyCheck.{validate_key}
use hardig.KeyCheck.Sound.{IsKeyOf, validate_key_sound, validate_key_complete}
use hardig.Mayflower.{calculate_borrow_capacity}
use hardig.Mayflower.Price.{borrow_capacity_safe}
use hardig.Format.{json_escape}
use hardig.Format.Json.{Mode, json_read, json_read-json_escape}
use hardig.Runtime.{codes}
use hardig.Tests.World.{world, store, holder, admin_key, key_collection, bucket}
use hardig.Tests.Running.{managing}

consume_rate_limit-available_now_example : consume_rate_limit bucket 40 900 ≡ (
    if leb 40 (available_now bucket 900)
    then ok (record bucket { level = available_now bucket 900 - 40; last_update = 900 })
    else err (custom rate_limit_exceeded))
consume_rate_limit-available_now_example = consume_rate_limit-available_now bucket 40 900

bucket-IsValid : IsValid bucket
bucket-IsValid = record { capacity_fits = omega arith; level_capped = omega arith }

-- At slot 900 the level is 30, of which 25 go; at slot 1000 it is 25 again.
abbrev drained : RateBucket
drained = record bucket { level = 0; last_update = 1000 }

consume_all_bounded_example : (800 ≤ 1000) × ((50 + 0) * 1000 ≤ 10 * 1000 + 200 * (1000 - 800))
unfolding consume_all consume_rate_limit
consume_all_bounded_example =
    consume_all_bounded ((900, 25) ∷ (1000, 25) ∷ []) bucket drained bucket-IsValid
      (omega arith, (omega arith, tt)) refl

consume_total_all_capped_example : (90 ≡ 30 + (25 + (35 + 0))) × (90 ≤ 100)
unfolding consume_total_all consume_total_limit
consume_total_all_capped_example =
    consume_total_all_capped 100 (25 ∷ 35 ∷ []) 30 90 (omega arith) (omega arith) refl

validate_delegated_permissions_iff_example :
    (validate_delegated_permissions KeyCreatorOrigin.admin 0x81 0 0 200 1000 0 100 ≡ ok tt) ↔ (
      Grantable KeyCreatorOrigin.admin 0x81
      × LimitsFit (0x81 / 64 % 2) 0 0 0
      × LimitsFit (0x81 / 128 % 2) 200 1000 100)
validate_delegated_permissions_iff_example =
    validate_delegated_permissions_iff KeyCreatorOrigin.admin 0x81 0 0 200 1000 0 100 (omega arith)

validate_key_sound_example :
    IsKeyOf world store holder admin_key admin_key key_collection 0x3f
    × (has_any 0x3f perm_manage_keys ≡ true)
unfolding managing
validate_key_sound_example =
    validate_key_sound world store holder admin_key admin_key perm_manage_keys key_collection 0x3f
      refl

validate_key_complete_example :
    validate_key world store holder admin_key admin_key perm_manage_keys key_collection ≡ ok 0x3f
unfolding managing
validate_key_complete_example =
    validate_key_complete world store holder admin_key admin_key perm_manage_keys key_collection
      0x3f validate_key_sound_example.0 refl

borrow_capacity_safe_example :
    (400 < 2 ^ 64)
    × (100 + 400 ≡ max 100 (500 * 1_000_000_000 / 1_000_000_000))
    × ((100 + 300) * 1_000_000_000 ≤ max (100 * 1_000_000_000) (500 * 1_000_000_000))
unfolding calculate_borrow_capacity
borrow_capacity_safe_example = borrow_capacity_safe 500 1_000_000_000 100 400 300 refl (omega arith)

json_read-json_escape_example :
    json_read Mode.plain (json_escape (codes "a \"b\"\n\\\t" ++ 7 ∷ 0xe4 ∷ []))
    ≡ some (codes "a \"b\"\n\\\t" ++ 7 ∷ 0xe4 ∷ [])
json_read-json_escape_example = json_read-json_escape (codes "a \"b\"\n\\\t" ++ 7 ∷ 0xe4 ∷ [])
