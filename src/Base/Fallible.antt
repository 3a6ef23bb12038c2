-- ===== src/Base/Fallible.antt =====
-- Fallible code: `1` with a value, or `0` with the message that `snprintf` leaves in `err`.
use Prim.{Unit, tt}
use mathlib.Core.Path.{◌≡◌, refl}
use mathlib.Core.Bool.{Bool, true, false}
use dstudio.Base.Tests.{if◌then◌else◌}

pub data Outcome {ℓ κ} (E : Type κ) (A : Type ℓ) : Type (ℓ ⊔ κ) where
  ok : A → Outcome E A
  err : E → Outcome E A

infixl 5 ◌>>=◌ ◌>>◌
abbrev pub ◌>>=◌ {ℓ κ μ} :
    {E : Type κ} {A : Type ℓ} {B : Type μ} → Outcome E A → (A → Outcome E B) → Outcome E B
ok a >>= f = f a
err e >>= f = err e

abbrev pub ◌>>◌ {ℓ κ} : {E : Type κ} {B : Type ℓ} → Outcome E (Unit {0}) → Outcome E B → Outcome E B
ok a >> k = k
err e >> k = err e

-- `if (bad) { snprintf(err, ...); return 0; }`
abbrev pub refuse {κ} : {E : Type κ} → Bool → E → Outcome E (Unit {0})
refuse true e = err e
refuse false e = ok tt

pub refuse-eq-ok {κ} :
    {E : Type κ} (b : Bool) (e : E) {u : Unit {0}} → refuse b e ≡ ok u → b ≡ false
refuse-eq-ok true e h = cc
refuse-eq-ok false e h = refl

-- Inversion of a chain that succeeds.
pub >>-eq-ok {ℓ κ} :
    {E : Type κ} {B : Type ℓ} (m : Outcome E (Unit {0})) (k : Outcome E B) {b : B}
    → (m >> k) ≡ ok b
    → (m ≡ ok tt) × (k ≡ ok b)
>>-eq-ok (ok tt) k h = (refl, h)
>>-eq-ok (err e) k h = cc

pub >>=-eq-ok {ℓ κ μ} :
    {A : Type ℓ} {C : Type μ} {E : Type κ} {c : C} (first : Outcome E A) (next : A → Outcome E C)
    → (first >>= next) ≡ ok c
    → (done : A) × (first ≡ ok done) × (next done ≡ ok c)
>>=-eq-ok (err e) next h = cc
>>=-eq-ok (ok done) next h = (done, refl, h)

-- A proof about `if b then x else y` that succeeds, by its branches.
pub if-eq-ok {ℓ κ μ} :
    {E : Type κ} {A : Type ℓ} {P : Type μ} (b : Bool) (x y : Outcome E A) {a : A}
    → (if b then x else y) ≡ ok a
    → (b ≡ true → x ≡ ok a → P)
    → (y ≡ ok a → P)
    → P
if-eq-ok true x y h first second = first refl h
if-eq-ok false x y h first second = second h

pub err-ne-ok {ℓ κ} : {E : Type κ} {A : Type ℓ} (e : E) (a : A) → err e ≡ ok a → ⊥
err-ne-ok e a h = cc
