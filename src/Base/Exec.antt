-- ===== src/Base/Exec.antt =====
-- Methods that mutate an object and may raise: an action returns its result beside the state that
-- it leaves, also where it raises.
use smg_secure_microgrid.Base.Errors.{Error, Result, ok, err}

abbrev pub Exec {ℓ} : Type ℓ → Type ℓ → Type ℓ
Exec S A = S → Result A × S

module _ {ℓ} {S A B : Type ℓ} where
  abbrev pub continue : Result A → (A → Exec S B) → Exec S B
  continue (ok a) f s = f a s
  continue (err e) f s = (err e, s)

  infixl 5 ◌>>=◌ ◌>>◌
  abbrev pub ◌>>=◌ : Exec S A → (A → Exec S B) → Exec S B
  ◌>>=◌ m f s = continue (m s).0 f (m s).1

  abbrev pub ◌>>◌ : Exec S A → Exec S B → Exec S B
  m >> n = m >>= λ _. n

module _ {ℓ} {S A : Type ℓ} where
  abbrev pub pure : A → Exec S A
  pure a s = (ok a, s)

  abbrev pub raise : Error → Exec S A
  raise e s = (err e, s)

  abbrev pub lift : Result A → Exec S A
  lift r s = (r, s)

  -- `try: m  except: h`, where `h` sees the exception and the state that `m` left.
  abbrev pub try : Exec S A → (Error → Exec S A) → Exec S A
  try m h s = recover (m s).0 (m s).1
    where
      recover : Result A → Exec S A
      recover (ok a) t = (ok a, t)
      recover (err e) t = h e t
