-- ===== src/Entry/Args.antt =====
-- The arguments of the entry points of programs/hardig/src/lib.rs, read in the order of their
-- declaration behind the discriminator of eight bytes.
pub mod Read
use hardig.Base.{ℕ, ◌+◌, Bool, true, Option, none, some, List, [], ◌∷◌, ◌++◌, take, drop}
use hardig.Error.{Result, ok, err, ◌>>=◌, ◌>>◌, constrain, constraint}
use hardig.Runtime.{Bytes, Text, codes, text_eq}
use hardig.Client.{Host}
use hardig.Client.Build.{sighash}
use hardig.Entry.{Borsh}

-- What the framework returns where an argument cannot be read.
abbrev pub read_or_fail {ℓ} : {A : Type ℓ} → Option A → Result A
read_or_fail none = err constraint
read_or_fail (some a) = ok a

-- The bytes behind the discriminator of the entry point.
unfoldable pub dispatch : Host → Text → Bytes → Result Bytes
unfolding sighash
dispatch host name payload = do
  constrain (text_eq (take 8 payload) (sighash host name))
  ok (drop 8 payload)

module _ (borsh : Borsh) where
  unfoldable pub read_two_u64 : Bytes → Result (ℕ × ℕ)
  read_two_u64 bytes = do
    (amount, rest) ← read_or_fail (borsh.read_uint 8 bytes)
    (min_out, _) ← read_or_fail (borsh.read_uint 8 rest)
    ok (amount, min_out)

  unfoldable pub read_one_u64 : Bytes → Result ℕ
  read_one_u64 bytes = do (amount, _) ← read_or_fail (borsh.read_uint 8 bytes); ok amount

  unfoldable pub read_u64_u16 : Bytes → Result (ℕ × ℕ)
  read_u64_u16 bytes = do
    (min_out, rest) ← read_or_fail (borsh.read_uint 8 bytes)
    (max_spread_bps, _) ← read_or_fail (borsh.read_uint 2 rest)
    ok (min_out, max_spread_bps)
