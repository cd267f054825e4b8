-- ===== src/Result.antt =====
-- `anyhow::Result`: the `bail!` messages of the modelled code, the panics, and a fuel that ran out.
use mpt_flat_poc.Prelude.{Option, none, some}

pub data Error : Type 0 where
  -- "truncated compact subtree record"
  truncated : Error
  -- "trailing bytes in …"
  trailing_bytes : Error
  -- "compact subtree nibble path too long", "nibble path too long"
  path_too_long : Error
  -- "invalid nibble path"
  invalid_nibble : Error
  -- "invalid compact subtree node tag", "invalid node-ref tag"
  invalid_tag : Error
  -- "… on an account with opaque (unmaterialized) storage …"
  opaque_storage : Error
  -- "… op does not match the existing node kind at this key"
  kind_mismatch : Error
  -- "oversized unsplittable …"
  oversized : Error
  -- "key terminates at a frontier branch; …"
  key_ends : Error
  -- "value op on a promoted account leaf"
  promoted_value : Error
  -- `unreachable!`, `expect`, an index out of range
  panicked : Error
  -- the recursion's fuel ran out: no counterpart in the program
  out_of_fuel : Error

pub data Result {ℓ} (A : Type ℓ) : Type ℓ where
  ok : A → Result A
  err : Error → Result A

infixl 5 ◌>>=◌ ◌>>◌
abbrev pub ◌>>=◌ {ℓ κ} : {A : Type ℓ} {B : Type κ} → Result A → (A → Result B) → Result B
ok a >>= f = f a
err e >>= f = err e

abbrev pub ◌>>◌ {ℓ κ} : {A : Type ℓ} {B : Type κ} → Result A → Result B → Result B
m >> k = m >>= λ _. k

-- `o.expect(…)`, `o.unwrap()`.
abbrev pub expect {ℓ} : {A : Type ℓ} → Option A → Result A
expect none = err panicked
expect (some a) = ok a
