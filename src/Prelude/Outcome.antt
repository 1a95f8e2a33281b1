-- ===== src/Prelude/Outcome.antt =====
-- How a method of the program ends: it returns with its object's new state, or it stops on a
-- failure and leaves the object in the state it had at that point.

use mathlib.Core.Path.{◌≡◌, refl}

pub data Failure : Type 0 where
  null_pointer : Failure  -- a null or an indeterminate pointer is used
  double_delete : Failure  -- a message is deleted twice
  runtime_error : Failure  -- `cRuntimeError` is thrown
  end_simulation : Failure  -- `endSimulation` throws `cTerminationException`
  out_of_fuel : Failure  -- no C++ outcome: the model's bound on rounds is used up

pub data Outcome {ℓ} (S : Type ℓ) : Type ℓ where
  done : S → Outcome S
  stop : Failure → S → Outcome S

infixl 5 ◌>>=◌
abbrev pub ◌>>=◌ {ℓ} : {S : Type ℓ} → Outcome S → (S → Outcome S) → Outcome S
done s >>= f = f s
stop e s >>= f = stop e s

-- The state in which the method leaves the object.
abbrev pub final {ℓ} : {S : Type ℓ} → Outcome S → S
final (done s) = s
final (stop e s) = s

-- The method returns, in a state with the property.
abbrev pub Ends {ℓ} : {S : Type ℓ} → Outcome S → (S → Type 0) → Type 0
Ends (done s) P = P s
Ends (stop e s) P = ⊥

pub >>=-done {ℓ} : {S : Type ℓ} (m : Outcome S) → (m >>= λ s. done s) ≡ m
>>=-done (done s) = refl
>>=-done (stop e s) = refl

-- Total correctness of one method after another.
pub >>=-Ends {ℓ} :
    {S : Type ℓ} (P Q : S → Type 0) (m : Outcome S) (f : S → Outcome S)
    → Ends m P
    → ((s : S) → P s → Ends (f s) Q)
    → Ends (m >>= f) Q
>>=-Ends P Q (done s) f h k = k s h
>>=-Ends P Q (stop e s) f h k = h

pub Ends-mono {ℓ} :
    {S : Type ℓ} (P Q : S → Type 0) (m : Outcome S) → Ends m P → ((s : S) → P s → Q s) → Ends m Q
Ends-mono P Q (done s) h k = k s h
Ends-mono P Q (stop e s) h k = h

-- The state in which a method returns.
pub Ends-done {ℓ} :
    {S : Type ℓ} (P : S → Type 0) (o : Outcome S) → Ends o P → (t : S) × (o ≡ done t) × P t
Ends-done P (done t) h = (t, refl, h)
Ends-done P (stop e t) h = absurd h

-- If the method returns, then in a state with the property.
abbrev pub Then {ℓ} : {S : Type ℓ} → Outcome S → (S → Type 0) → Type 0
Then (done s) P = P s
Then (stop e s) P = Unit {0}

pub Then-mono {ℓ} :
    {S : Type ℓ} (P Q : S → Type 0) (m : Outcome S) → Then m P → ((s : S) → P s → Q s) → Then m Q
Then-mono P Q (done s) h k = k s h
Then-mono P Q (stop e s) h k = tt

pub >>=-Then {ℓ} :
    {S : Type ℓ} (P Q : S → Type 0) (m : Outcome S) (f : S → Outcome S)
    → Then m P
    → ((s : S) → P s → Then (f s) Q)
    → Then (m >>= f) Q
>>=-Then P Q (done s) f h k = k s h
>>=-Then P Q (stop e s) f h k = tt

-- What never returns.
pub >>=-stop {ℓ} :
    {S : Type ℓ} (P : S → Type 0) (m : Outcome S) (e : Failure) → Then (m >>= λ s. stop e s) P
>>=-stop P (done s) e = tt
>>=-stop P (stop f s) e = tt
