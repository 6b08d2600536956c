-- ===== src/Prelude/Results.antt =====
-- Rust's `Result<A, E>`, its chaining by `?`, and the inversion lemmas. `stuck` is no Rust value: a
-- loop of the model ran out of its fuel, or the code panics. Each theorem on a loop says that it does
-- not run out.
use mathlib.Core.Path.{◌≡◌, refl, ap, subst}
use mathlib.Core.Logic.{◌≢◌, ◌⊎◌, inl, inr}
use mathlib.Core.Option.{Option, none, some}

pub data Result {ℓ κ} (E : Type κ) (A : Type ℓ) : Type (ℓ ⊔ κ) where
  ok : A → Result E A
  err : E → Result E A
  stuck : Result E A

infixl 5 ◌>>=◌
abbrev pub ◌>>=◌ {ℓ κ μ} :
    {E : Type κ} {A : Type ℓ} {B : Type μ} → Result E A → (A → Result E B) → Result E B
ok a >>= f = f a
err e >>= f = err e
stuck >>= f = stuck

-- `Option::ok_or`.
abbrev pub ok_or {ℓ κ} : {E : Type κ} {A : Type ℓ} → Option A → E → Result E A
ok_or none e = err e
ok_or (some a) e = ok a

-- `Result::map_err`.
abbrev pub map_err {ℓ κ μ} :
    {E : Type κ} {F : Type μ} {A : Type ℓ} → (E → F) → Result E A → Result F A
map_err f (ok a) = ok a
map_err f (err e) = err (f e)
map_err f stuck = stuck

-- A chain that succeeds: its first step gave a value, and the rest succeeded on it.
pub >>=-eq-ok {ℓ κ μ} :
    {Fault : Type κ} {In : Type ℓ} {Out : Type μ} (step : Result Fault In)
    (next : In → Result Fault Out) {y : Out}
    → (step >>= next) ≡ ok y
    → (x : In) × (step ≡ ok x) × (next x ≡ ok y)
>>=-eq-ok stuck next e = cc
>>=-eq-ok (err fault) next e = cc
>>=-eq-ok (ok x) next e = (x, refl, e)

pub map_err-eq-ok {ℓ κ μ} :
    {E : Type κ} {F : Type μ} {A : Type ℓ} (f : E → F) (m : Result E A) {a : A}
    → map_err f m ≡ ok a
    → m ≡ ok a
map_err-eq-ok f (ok a) h = cc
map_err-eq-ok f (err e) h = cc
map_err-eq-ok f stuck h = cc

pub >>=-ne-stuck {ℓ κ μ} :
    {E : Type κ} {A : Type ℓ} {B : Type μ} (m : Result E A) (f : A → Result E B)
    → m ≢ stuck
    → ((a : A) → m ≡ ok a → f a ≢ stuck)
    → (m >>= f) ≢ stuck
>>=-ne-stuck (ok a) f hm hf = hf a refl
>>=-ne-stuck (err e) f hm hf = λ p. cc
>>=-ne-stuck stuck f hm hf = absurd (hm refl)

pub map_err-ne-stuck {ℓ κ μ} :
    {E : Type κ} {F : Type μ} {A : Type ℓ} (f : E → F) (m : Result E A)
    → m ≢ stuck
    → map_err f m ≢ stuck
map_err-ne-stuck f (ok a) h = λ p. cc
map_err-ne-stuck f (err e) h = λ p. cc
map_err-ne-stuck f stuck h = absurd (h refl)

pub >>=-eq-err {ℓ κ μ} :
    {E : Type κ} {A : Type ℓ} {B : Type μ} (m : Result E A) (f : A → Result E B) {e : E}
    → (m >>= f) ≡ err e
    → (m ≡ err e) ⊎ ((a : A) × (m ≡ ok a) × (f a ≡ err e))
>>=-eq-err (ok a) f h = inr (a, refl, h)
>>=-eq-err (err x) f h = inl (cc)
>>=-eq-err stuck f h = cc

pub >>=_assoc {ℓ κ μ ν} :
    {E : Type κ} {A : Type ℓ} {B : Type μ} {C : Type ν} (m : Result E A) (f : A → Result E B)
    (g : B → Result E C)
    → ((m >>= f) >>= g) ≡ (m >>= λ a. f a >>= g)
>>=_assoc (ok a) f g = refl
>>=_assoc (err e) f g = refl
>>=_assoc stuck f g = refl

pub Result-cases {ℓ κ} :
    {E : Type κ} {A : Type ℓ} (m : Result E A)
    → ((a : A) × (m ≡ ok a)) ⊎ (((e : E) × (m ≡ err e)) ⊎ (m ≡ stuck))
Result-cases (ok a) = inl (a, refl)
Result-cases (err e) = inr (inl (e, refl))
Result-cases stuck = inr (inr refl)

-- What holds of the value of a result holds of the value of an equal one.
pub subst_ok {ℓ κ μ} :
    {E : Type κ} {A : Type ℓ} (Q : A → Type μ) {a b : A}
    → ◌≡◌ {A = Result E A} (ok a) (ok b)
    → Q a
    → Q b
subst_ok Q {a} same = subst Q (ap (λ r. elim r [ ok x ↦ x | _ ↦ a ]) same)

pub ok_or-some {ℓ κ} :
    {E : Type κ} {A : Type ℓ} (o : Option A) (e : E) {a : A} → ok_or o e ≡ ok a → o ≡ some a
ok_or-some none e h = cc
ok_or-some (some b) e h = subst_ok (λ a. some b ≡ some a) h refl

pub ok_or-ne-stuck {ℓ κ} : {E : Type κ} {A : Type ℓ} (o : Option A) (e : E) → ok_or o e ≢ stuck
ok_or-ne-stuck none e = λ p. cc
ok_or-ne-stuck (some a) e = λ p. cc
