-- ===== src/Error.antt =====
-- `FlushError` and `FlushResult` of crates/flushdb-types/src/error.rs. A message that the source
-- formats is kept as its fixed part; `duplicate_token` keeps the token's bytes.
use flushdb.Base.{ℕ, ◌≡◌, refl, String}
use flushdb.Base.Bytes.{Bytes}

pub data FlushError : Type 0 where
  io : String → FlushError
  key_too_long : String → ℕ → ℕ → FlushError
  invalid_key : String → FlushError
  not_found : Bytes → FlushError
  precondition_failed : String → FlushError
  crc_mismatch : ℕ → ℕ → FlushError
  corrupted_data : String → FlushError
  duplicate_token : Bytes → FlushError
  resource_exhausted : String → String → FlushError
  epoch_fenced : ℕ → ℕ → FlushError
  invalid_argument : String → FlushError

pub data FlushResult {ℓ} (A : Type ℓ) : Type ℓ where
  ok : A → FlushResult A
  err : FlushError → FlushResult A

-- The `?` operator.
infixl 5 ◌>>=◌ ◌>>◌
abbrev pub ◌>>=◌ {ℓ κ} :
    {A : Type ℓ} {B : Type κ} → FlushResult A → (A → FlushResult B) → FlushResult B
ok a >>= f = f a
err e >>= f = err e

abbrev pub ◌>>◌ {ℓ} : {B : Type ℓ} → FlushResult (Unit {0}) → FlushResult B → FlushResult B
m >> k = m >>= λ _. k

-- A chain that succeeds has succeeded at its first step.
pub >>=-eq-ok {ℓ κ} :
    {A : Type ℓ} {B : Type κ} (first : FlushResult A) (next : A → FlushResult B) {result : B}
    → (first >>= next) ≡ ok result
    → (x : A) × (first ≡ ok x) × (next x ≡ ok result)
>>=-eq-ok (err failure) next succeeded = cc
>>=-eq-ok (ok x) next succeeded = (x, refl, succeeded)

pub ok_inj {ℓ} : {A : Type ℓ} {a b : A} → ok a ≡ ok b → a ≡ b
ok_inj h = cc h
