-- ===== src/Server/Results.antt =====
-- Predicates on the results of the chains of steps in source/windows/server.cpp.
use datapath.Base.{if◌then◌else◌, ◌>>=◌, ◌≡◌, refl, Bool, true, false, Option, none, some}

-- A predicate on a result, where there is one.
abbrev pub Holds {ℓ κ} : {A : Type ℓ} → (A → Type κ) → Option A → Type κ
Holds P none = Unit
Holds P (some a) = P a

pub Holds-bind {ℓ κ λ1 μ} :
    {A : Type ℓ} {B : Type κ} (P : A → Type λ1) (Q : B → Type μ) (o : Option A) (f : A → Option B)
    → Holds P o
    → ((a : A) → P a → Holds Q (f a))
    → Holds Q (o >>= f)
Holds-bind P Q none f h g = tt
Holds-bind P Q (some a) f h g = g a h

pub Holds-any {ℓ κ μ} :
    {A : Type ℓ} {B : Type κ} (Q : B → Type μ) (o : Option A) (f : A → Option B)
    → ((a : A) → Holds Q (f a))
    → Holds Q (o >>= f)
Holds-any Q none f g = tt
Holds-any Q (some a) f g = g a

pub Holds-if {ℓ μ} :
    {A : Type ℓ} (Q : A → Type μ) (b : Bool) (x y : Option A)
    → Holds Q x
    → Holds Q y
    → Holds Q (if b then x else y)
Holds-if Q true x y p q = p
Holds-if Q false x y p q = q

pub Holds-cases {ℓ μ} :
    {A : Type ℓ} (Q : A → Type μ) (b : Bool) (x y : Option A)
    → (b ≡ true → Holds Q x)
    → (b ≡ false → Holds Q y)
    → Holds Q (if b then x else y)
Holds-cases Q true x y p q = p refl
Holds-cases Q false x y p q = q refl

pub Holds-both {ℓ κ μ} :
    {A : Type ℓ} (P : A → Type κ) (Q : A → Type μ) (o : Option A)
    → Holds P o
    → Holds Q o
    → Holds (λ a. P a × Q a) o
Holds-both P Q none p q = tt
Holds-both P Q (some a) p q = (p, q)

pub Holds-map {ℓ κ μ} :
    {A : Type ℓ} (P : A → Type κ) (Q : A → Type μ) (o : Option A)
    → Holds P o
    → ((a : A) → P a → Q a)
    → Holds Q o
Holds-map P Q none p f = tt
Holds-map P Q (some a) p f = f a p
