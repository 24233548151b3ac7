-- ===== src/Run.antt =====
-- How a call ends: with a value, in `bug()` or `die()` of utility.c (both exit with status 2),
-- or in a run-time check of Checked C that fails and stops the program.
use checkedc_vsftpd.Base.{◌≡◌, refl}

infixl 5 ◌>>=◌
pub data Fault : Type 0 where
  bug die bounds : Fault

pub data Run {κ} (T : Type κ) : Type κ where
  fault : Fault → Run T
  ok : T → Run T

-- The next call runs on the value, if there is one.
abbrev pub ◌>>=◌ {κ μ} : {T : Type κ} {U : Type μ} → Run T → (T → Run U) → Run U
fault stop >>= next = fault stop
ok value >>= next = next value

abbrev pub map_run {κ μ} : {T : Type κ} {U : Type μ} → (T → U) → Run T → Run U
map_run g (fault stop) = fault stop
map_run g (ok value) = ok (g value)

-- The run ends normally, in a value of which `Holds` holds.
abbrev pub Returns {κ μ} : {T : Type κ} → Run T → (T → Type μ) → Type (κ ⊔ μ)
Returns {T} call Holds = (value : T) × (call ≡ ok value) × Holds value

pub >>=-Returns {ℓ κ μ ν} :
    {A : Type ℓ} {B : Type κ} {P : A → Type μ} {Q : B → Type ν} (r : Run A) (f : A → Run B)
    → Returns r P
    → ((a : A) → P a → Returns (f a) Q)
    → Returns (r >>= f) Q
>>=-Returns r f (a, e, p) k = rw e (k a p)

-- Two runs that go on alike after the first step, but for the shape of the result.
pub >>=-map_run {ℓ κ μ} :
    {A : Type ℓ} {B : Type κ} {C : Type μ} (r : Run A) (f : A → Run C) (g : A → Run B) (h : B → C)
    → ((a : A) → f a ≡ map_run h (g a))
    → (r >>= f) ≡ map_run h (r >>= g)
>>=-map_run (ok a) f g h k = k a
>>=-map_run (fault e) f g h k = refl

-- The value of a run, or the default.
abbrev pub value {ℓ} : {A : Type ℓ} → A → Run A → A
value d (ok a) = a
value d (fault e) = d

-- What a run returns is its value.
pub Returns-value {ℓ κ} :
    {A : Type ℓ} {P : A → Type κ} (r : Run A) (d : A) → Returns r P → P (value d r)
Returns-value r d (a, e, p) = rw e p
