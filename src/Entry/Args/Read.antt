-- ===== src/Entry/Args/Read.antt =====
-- The arguments that crates/tui/src/app.rs writes, under the readers of Entry/Args.
use mathlib.Core.List.{append-nil}
use hardig.Base.{
  ℕ, ◌<◌, ◌^◌, ◌≡◌, refl, sym, ap, ◌∙◌, arith, some, [], ◌++◌, length, take-append, drop-append,
  length-take, to_le_bytes,
}
use hardig.Error.{ok}
use hardig.Runtime.{Bytes, Text, codes}
use hardig.KeyCheck.Sound.{text_eq_refl}
use hardig.Promo.{utf8}
use hardig.Client.{Host}
use hardig.Client.Build.{sighash}
use hardig.Entry.{Borsh}
use hardig.Entry.Args.{dispatch, read_two_u64, read_one_u64, read_u64_u16}

length-sighash :
    (host : Host)
    → ((b : Bytes) → length (host.sha256 b) ≡ 32)
    → (name : Text) → length (sighash host name) ≡ 8
unfolding sighash
length-sighash host digest name = omega (
  arith,
  length-take 8 (host.sha256 (utf8 (codes "global:" ++ name))),
  digest (utf8 (codes "global:" ++ name)),
)

-- An entry point finds its arguments behind its own discriminator.
pub dispatch-sighash :
    (host : Host)
    → ((b : Bytes) → length (host.sha256 b) ≡ 32)
    → (name : Text) (args : Bytes) → dispatch host name (sighash host name ++ args) ≡ ok args
unfolding dispatch
dispatch-sighash host digest name args =
    let eight = length-sighash host digest name in
    rw
      (
        take-append (sighash host name) args 8 eight,
        drop-append (sighash host name) args 8 eight,
        text_eq_refl (sighash host name),
      )
      refl

module _ (borsh : Borsh) where
  read_last_uint : (n x : ℕ) → x < 256 ^ n → borsh.read_uint n (to_le_bytes n x) ≡ some (x, [])
  read_last_uint n x h =
      ap (borsh.read_uint n) (sym (append-nil (to_le_bytes n x))) ∙ borsh.read_uint_le n x [] h

  pub read_two_u64-le :
      (a b : ℕ)
      → a < 2 ^ 64
      → b < 2 ^ 64
      → read_two_u64 borsh (to_le_bytes 8 a ++ to_le_bytes 8 b) ≡ ok (a, b)
  unfolding read_two_u64
  read_two_u64-le a b ha hb =
      rw (borsh.read_uint_le 8 a (to_le_bytes 8 b) (omega arith), read_last_uint 8 b (omega arith))
        refl

  pub read_one_u64-le : (a : ℕ) → a < 2 ^ 64 → read_one_u64 borsh (to_le_bytes 8 a) ≡ ok a
  unfolding read_one_u64
  read_one_u64-le a ha = rw (read_last_uint 8 a (omega arith)) refl

  pub read_u64_u16-le :
      (a b : ℕ)
      → a < 2 ^ 64
      → b < 2 ^ 16
      → read_u64_u16 borsh (to_le_bytes 8 a ++ to_le_bytes 2 b) ≡ ok (a, b)
  unfolding read_u64_u16
  read_u64_u16-le a b ha hb =
      rw (borsh.read_uint_le 8 a (to_le_bytes 2 b) (omega arith), read_last_uint 2 b (omega arith))
        refl
