-- ===== src/Plugins/Ensures.antt =====
-- What a result or an outcome ensures, kept by the chains of cmd/nodereaper/main.go.
use node_reaper.Base.{refl, inl, inr, ◌≡◌, ◌⊎◌, Result, ok, err, ◌>>=◌, ◌≢◌}
use node_reaper.Plugins.{Outcome, returned, refused, panicked, of_result, ◌>>>◌}

-- A predicate on the result, if there is one.
abbrev pub Ensures : {A : Type 0} → (A → Type 0) → Result A → Type 0
Ensures P (ok a) = P a
Ensures P (err e) = Unit

abbrev pub EnsuresOutcome : {A : Type 0} → (A → Type 0) → Outcome A → Type 0
EnsuresOutcome P (returned a) = P a
EnsuresOutcome P (refused e) = Unit
EnsuresOutcome P panicked = Unit

pub Ensures->>= :
    {A B : Type 0} {P : A → Type 0} (Q : B → Type 0) (r : Result A) (f : A → Result B)
    → Ensures P r
    → ((a : A) → P a → Ensures Q (f a))
    → Ensures Q (r >>= f)
Ensures->>= Q (ok a) f h k = k a h
Ensures->>= Q (err e) f h k = tt

-- For a step of which nothing is known.
pub Ensures-any :
    {A B : Type 0} (Q : B → Type 0) (r : Result A) (f : A → Result B)
    → ((a : A) → Ensures Q (f a))
    → Ensures Q (r >>= f)
Ensures-any Q (ok a) f k = k a
Ensures-any Q (err e) f k = tt

pub EnsuresOutcome->>> :
    {A B : Type 0} {P : A → Type 0} (Q : B → Type 0) (o : Outcome A) (f : A → Outcome B)
    → EnsuresOutcome P o
    → ((a : A) → P a → EnsuresOutcome Q (f a))
    → EnsuresOutcome Q (o >>> f)
EnsuresOutcome->>> Q (returned a) f h k = k a h
EnsuresOutcome->>> Q (refused e) f h k = tt
EnsuresOutcome->>> Q panicked f h k = tt

pub returned-cases :
    {A : Type 0} (o : Outcome A) → ((a : A) × (o ≡ returned a)) ⊎ ((a : A) → o ≢ returned a)
returned-cases (returned a) = inl (a, refl)
returned-cases (refused e) = inr (λ a h. cc)
returned-cases panicked = inr (λ a h. cc)

-- A chain whose first part returns nothing returns nothing.
pub >>>-stuck :
    {A B : Type 0} (o : Outcome A) (f : A → Outcome B) (b : B)
    → ((a : A) → o ≢ returned a)
    → (o >>> f) ≢ returned b
>>>-stuck (returned a) f b stuck = absurd (stuck a refl)
>>>-stuck (refused e) f b stuck = λ h. cc
>>>-stuck panicked f b stuck = λ h. cc

pub any_outcome : {A : Type 0} (o : Outcome A) → EnsuresOutcome (λ a. Unit) o
any_outcome (returned a) = tt
any_outcome (refused e) = tt
any_outcome panicked = tt

pub of_result-Ensures :
    {A : Type 0} (P : A → Type 0) (r : Result A) → Ensures P r → EnsuresOutcome P (of_result r)
of_result-Ensures P (ok a) h = h
of_result-Ensures P (err e) h = tt
