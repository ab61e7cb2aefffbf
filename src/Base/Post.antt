-- ===== src/Base/Post.antt =====
-- Postconditions of a block from those of its parts: what follows an action, run on the action's
-- result and on the state that it left.
use mathlib.Core.Path.{◌≡◌, refl, ap}
use mathlib.Core.Bool.{Bool, true, false}
use mathlib.Core.Option.{Option, none, some}
use mathlib.Core.Logic.{◌⊎◌, inl, inr}
use smg_secure_microgrid.Base.Errors.{Error, Result, ok, err, guard, of_option}
use smg_secure_microgrid.Base.Strings.{Bytes, same, same_sound}
use smg_secure_microgrid.Base.Exec.{Exec, continue, try, ◌>>=◌}

module _ {S A B : Type 0} (P : Result B → S → Type 0) where
  pub continue_post :
      (r : Result A) (s : S) (f : A → Exec S B)
      → ((e : Error) → r ≡ err e → P (err e) s)
      → ((a : A) → r ≡ ok a → P (f a s).0 (f a s).1)
      → P (continue r f s).0 (continue r f s).1
  continue_post (ok a) s f on_err on_ok = on_ok a refl
  continue_post (err e) s f on_err on_ok = on_err e refl

module _ {S A : Type 0} (P : Result A → S → Type 0) where
  -- A handled block: its own result, or the handler's on the state that it left.
  pub try_post :
      (m : Exec S A) (h : Error → Exec S A) (s : S)
      → ((a : A) → (m s).0 ≡ ok a → P (ok a) (m s).1)
      → ((e : Error) → (m s).0 ≡ err e → P (h e (m s).1).0 (h e (m s).1).1)
      → P (try m h s).0 (try m h s).1
  try_post m h s on_ok on_err = go (m s).0 refl
    where
      go : (r : Result A) → (m s).0 ≡ r → P (try m h s).0 (try m h s).1
      go (ok a) e = rw e (on_ok a e)
      go (err x) e = rw e (on_err x e)

-- A property of the state that an action keeps, whether it returns or raises.
module _ {S : Type 0} (P : S → Type 0) where
  abbrev pub Keeps : {A : Type 0} → Exec S A → Type 0
  Keeps m = (s : S) → P s → P (m s).1

  pub >>=-Keeps :
      {A B : Type 0} (m : Exec S A) (f : A → Exec S B)
      → Keeps m
      → ((a : A) → Keeps (f a))
      → Keeps (m >>= f)
  >>=-Keeps m f km kf s h =
      continue_post (λ _ t. P t) (m s).0 (m s).1 f (λ e _. km s h) (λ a _. kf a (m s).1 (km s h))

  pub try-Keeps :
      {A : Type 0} (m : Exec S A) (h : Error → Exec S A)
      → Keeps m
      → ((e : Error) → Keeps (h e))
      → Keeps (try m h)
  try-Keeps m h km kh s p =
      try_post (λ _ t. P t) m h s (λ a _. km s p) (λ e _. kh e (m s).1 (km s p))

-- A step that returned hands its result on.
pub continue-ok :
    {S A B : Type 0} (r : Result A) (s : S) (f : A → Exec S B) {a : A}
    → r ≡ ok a
    → continue r f s ≡ f a s
continue-ok r s f e = ap (λ x. continue x f s) e

pub continue-err :
    {S A B : Type 0} (r : Result A) (s : S) (f : A → Exec S B) {x : Error}
    → r ≡ err x
    → continue r f s ≡ (err x, s)
continue-err r s f e = ap (λ x. continue x f s) e

pub >>=-ok :
    {S A B : Type 0} (m : Exec S A) (f : A → Exec S B) (s : S) {a : A} {t : S}
    → m s ≡ (ok a, t)
    → (m >>= f) s ≡ f a t
>>=-ok m f s e = ap (λ p. continue p.0 f p.1) e

-- What tests that passed have shown.
pub of_option-ok :
    {A : Type 0} (e : Error) (o : Option A) (x : A) → of_option e o ≡ ok x → o ≡ some x
of_option-ok e none x h = cc
of_option-ok e (some y) x h = cc

pub guard-ok : (a b : Bytes) (e : Error) (u : Unit {0}) → guard (same a b) e ≡ ok u → a ≡ b
guard-ok a b e u h = go (same a b) refl h
  where
    go : (t : Bool) → same a b ≡ t → guard t e ≡ ok u → a ≡ b
    go true q h' = same_sound a b q
    go false q h' = cc

pub Result-cases :
    {A : Type 0} (r : Result A) → ((a : A) × (r ≡ ok a)) ⊎ ((e : Error) × (r ≡ err e))
Result-cases (ok a) = inl (a, refl)
Result-cases (err e) = inr (e, refl)
