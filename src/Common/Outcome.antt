-- ===== src/Common/Outcome.antt =====
-- Outcomes of code that follows pointers and loops. `fault` is a read outside the bytes that a
-- pointer may reach, which C++ leaves undefined; `diverged` says that the rounds given to a loop
-- ran out.
use mathlib.Core.Logic.{◌⊎◌, inl, inr}
use mathlib.Core.Path.{◌≡◌, refl}

pub data Run {ℓ} (A : Type ℓ) : Type ℓ where
  ok : A → Run A
  fault diverged : Run A

infixl 5 ◌>>=◌
abbrev pub ◌>>=◌ {ℓ κ} : {A : Type ℓ} {B : Type κ} → Run A → (A → Run B) → Run B
ok a >>= f = f a
fault >>= f = fault
diverged >>= f = diverged

pub ok-injective {ℓ} : {A : Type ℓ} {a b : A} → ok a ≡ ok b → a ≡ b
ok-injective h = cc

-- The code returns, and its result meets `P`.
abbrev pub Returns {ℓ} : {A : Type ℓ} → Run A → (A → Type 0) → Type 0
Returns (ok a) P = P a
Returns fault P = ⊥
Returns diverged P = ⊥

pub >>=-Returns {ℓ κ} :
    {A : Type ℓ} {B : Type κ} (m : Run A) (f : A → Run B) (P : A → Type 0) (Q : B → Type 0)
    → Returns m P
    → ((a : A) → P a → Returns (f a) Q)
    → Returns (m >>= f) Q
>>=-Returns (ok a) f P Q h k = k a h
>>=-Returns fault f P Q h k = absurd h
>>=-Returns diverged f P Q h k = absurd h

pub Returns-weaken {ℓ} :
    {A : Type ℓ} (m : Run A) (P : A → Type 0) → Returns m P → Returns m (λ _. Unit)
Returns-weaken (ok a) P h = tt
Returns-weaken fault P h = h
Returns-weaken diverged P h = h

pub Returns-ok {ℓ} :
    {A : Type ℓ} (m : Run A) (P : A → Type 0) → Returns m P → (a : A) × (m ≡ ok a) × P a
Returns-ok (ok a) P h = (a, refl, h)
Returns-ok fault P h = absurd h
Returns-ok diverged P h = absurd h

pub Returns-of_eq {ℓ} :
    {A : Type ℓ} {m : Run A} (P : A → Type 0) {a : A} → m ≡ ok a → P a → Returns m P
Returns-of_eq P e h = rw e h

pub Run-cases {ℓ} :
    {A : Type ℓ} (m : Run A) → ((a : A) × (m ≡ ok a)) ⊎ ((m ≡ fault) ⊎ (m ≡ diverged))
Run-cases (ok a) = inl (a, refl)
Run-cases fault = inr (inl refl)
Run-cases diverged = inr (inr refl)

abbrev pub map_run {ℓ κ} : {A : Type ℓ} {B : Type κ} → (A → B) → Run A → Run B
map_run f (ok a) = ok (f a)
map_run f fault = fault
map_run f diverged = diverged

pub Returns-map {ℓ} :
    {A : Type ℓ} (m : Run A) (P Q : A → Type 0) → ((a : A) → P a → Q a) → Returns m P → Returns m Q
Returns-map (ok a) P Q k h = k a h
Returns-map fault P Q k h = h
Returns-map diverged P Q k h = h

pub Returns-at {ℓ} :
    {A : Type ℓ} {m : Run A} (P : A → Type 0) {a : A} → Returns m P → m ≡ ok a → P a
Returns-at P h e = rw e at h
