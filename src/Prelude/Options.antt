-- ===== src/Prelude/Options.antt =====
-- Chains of steps each of which may give none.
use mathlib.Core.Path.{◌≡◌, refl}
use mathlib.Core.Bool.{Bool, true, false, ◌&&◌}
use mathlib.Core.Option.{Option, none, some}

infixl 5 ◌>>=◌
abbrev pub ◌>>=◌ {ℓ κ} : {A : Type ℓ} {B : Type κ} → Option A → (A → Option B) → Option B
none >>= f = none
some a >>= f = f a

-- What is given, if anything is, has a property.
abbrev pub Yields {ℓ κ} : {A : Type ℓ} → (A → Type κ) → Option A → Type κ
Yields P none = Unit
Yields P (some a) = P a

pub Yields->>= {ℓ κ μ ν} :
    {A : Type ℓ} {B : Type μ} (P : A → Type κ) (Q : B → Type ν) (o : Option A) (f : A → Option B)
    → Yields P o
    → ((a : A) → P a → Yields Q (f a))
    → Yields Q (o >>= f)
Yields->>= P Q none f h k = tt
Yields->>= P Q (some a) f h k = k a h

-- Two chains that agree behind the same step, and behind the same two steps.
>>=_agree {ℓ κ μ ν π} :
    {B : Type ℓ} {C : Type μ} {C' : Type ν} {E : Type π} (Q : B → Type κ) (o : Option B)
    (g : B → Option C) (k : C → Option E) (h : B → C') (l : C' → Option E)
    → Yields Q o
    → ((b : B) → Q b → (g b >>= k) ≡ l (h b))
    → ((o >>= g) >>= k) ≡ ((o >>= λ b. some (h b)) >>= l)
>>=_agree Q none g k h l y agree = refl
>>=_agree Q (some b) g k h l y agree = agree b y

pub >>=_agree_twice {ℓ κ μ ν π σ τ} :
    {A : Type ℓ} {B : Type κ} {C : Type μ} {C' : Type ν} {E : Type π} (P : A → Type σ)
    (Q : A → B → Type τ) (o : Option A) (f : A → Option B) (g : A → B → Option C) (k : C → Option E)
    (h : A → B → C') (l : C' → Option E)
    → Yields P o
    → ((a : A) → Yields (Q a) (f a))
    → ((a : A) (b : B) → P a → Q a b → (g a b >>= k) ≡ l (h a b))
    → ((o >>= λ a. f a >>= g a) >>= k) ≡ ((o >>= λ a. f a >>= λ b. some (h a b)) >>= l)
>>=_agree_twice P Q none f g k h l y z agree = refl
>>=_agree_twice P Q (some a) f g k h l y z agree =
    >>=_agree (Q a) (f a) (g a) k (h a) l (z a) (λ b q. agree a b y q)

abbrev pub is_some {ℓ} : {A : Type ℓ} → Option A → Bool
is_some none = false
is_some (some a) = true

pub is_some->>= {ℓ κ μ} :
    {A : Type ℓ} {B : Type κ} (P : A → Type μ) (o : Option A) (f : A → Option B) (b : Bool)
    → Yields P o
    → ((a : A) → P a → is_some (f a) ≡ b)
    → is_some (o >>= f) ≡ (is_some o && b)
is_some->>= P none f b h k = refl
is_some->>= P (some a) f b h k = k a h

pub is_some-then {ℓ κ} :
    {A : Type ℓ} {B : Type κ} (o : Option A) (f : A → B)
    → is_some (o >>= λ a. some (f a)) ≡ is_some o
is_some-then none f = refl
is_some-then (some a) f = refl

-- What is yielded, if there is something.
pub given {ℓ κ} :
    {A : Type ℓ} (P : A → Type κ) (o : Option A)
    → is_some o ≡ true
    → Yields P o
    → (a : A) × (o ≡ some a) × P a
given P none h y = absurd cc
given P (some a) h y = (a, refl, y)
