-- ===== src/Base/Run.antt =====
-- What a run of C code comes to: a value, a call of `exit` with a failure, or a loop that is still
-- going when the fuel of the model is used up.

pub data Run {ℓ} (A : Type ℓ) : Type ℓ where
  done : A → Run A
  exited : Run A
  running : Run A

infixl 5 ◌>>=◌
abbrev pub ◌>>=◌ {ℓ κ} : {A : Type ℓ} {B : Type κ} → Run A → (A → Run B) → Run B
done a >>= f = f a
exited >>= f = exited
running >>= f = running
