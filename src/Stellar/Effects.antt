-- ===== src/Stellar/Effects.antt =====
-- Asynchronous code as actions on the outer world: `await` is the bind of `do`, and a thrown value
-- ends the action.
use privacy_layer_confidenti.Base.{String, ◌≡◌, refl, ap, ◌⊎◌, inl, inr}
use privacy_layer_confidenti.Js.Value.{end}
use privacy_layer_confidenti.Core.Errors.{Thrown, error_instance}
use privacy_layer_confidenti.Core.Operations.{Attempt, answered, raised, Action}

-- Code that may throw, but awaits nothing.
abbrev pub attempt_then {ℓ κ} : {A : Type ℓ} {B : Type κ} → Attempt A → (A → Attempt B) → Attempt B
attempt_then (answered a) f = f a
attempt_then (raised e) f = raised e

abbrev pub resume {ℓ κ} :
    {W : Type 0} {A : Type ℓ} {B : Type κ} → (A → Action W B) → Attempt A × W → Attempt B × W
resume f (answered a, w) = f a w
resume f (raised e, w) = (raised e, w)

infixl 5 ◌>>=◌ ◌>>◌
abbrev pub ◌>>=◌ {ℓ κ} :
    {W : Type 0} {A : Type ℓ} {B : Type κ} → Action W A → (A → Action W B) → Action W B
(m >>= f) w = resume f (m w)

abbrev pub ◌>>◌ {ℓ κ} :
    {W : Type 0} {A : Type ℓ} {B : Type κ} → Action W A → Action W B → Action W B
m >> k = m >>= λ _. k

abbrev pub done {ℓ} : {W : Type 0} {A : Type ℓ} → A → Action W A
done a w = (answered a, w)

abbrev pub throw {ℓ} : {W : Type 0} {A : Type ℓ} → Thrown → Action W A
throw e w = (raised e, w)

-- Runs code that awaits nothing.
abbrev pub lift {ℓ} : {W : Type 0} {A : Type ℓ} → Attempt A → Action W A
lift r w = (r, w)

-- `new Error(message)`
abbrev pub error_object : String → Thrown
error_object message = error_instance message end

pub Attempt-cases {ℓ} :
    {A : Type ℓ} (r : Attempt A) → ((a : A) × (r ≡ answered a)) ⊎ ((e : Thrown) × (r ≡ raised e))
Attempt-cases (answered a) = inl (a, refl)
Attempt-cases (raised e) = inr (e, refl)

-- Inversion of a bind that answered.
pub attempt_then-eq-answered {ℓ κ} :
    {A : Type ℓ} {B : Type κ} (r : Attempt A) (f : A → Attempt B) {b : B}
    → attempt_then r f ≡ answered b
    → (a : A) × (r ≡ answered a) × (f a ≡ answered b)
attempt_then-eq-answered (answered a) f h = (a, refl, h)
attempt_then-eq-answered (raised e) f h = cc

pub resume-answer {ℓ κ} :
    {W : Type 0} {A : Type ℓ} {B : Type κ} (f : A → Action W B) (r : Attempt A × W) {b : B}
    → (resume f r).0 ≡ answered b
    → (a : A) × (r.0 ≡ answered a) × ((f a r.1).0 ≡ answered b)
resume-answer f (answered a, w) h = (a, refl, h)
resume-answer f (raised e, w) h = cc

abbrev value_or {ℓ} : {A : Type ℓ} → A → Attempt A → A
value_or d (answered a) = a
value_or d (raised e) = d

pub answered_inj {ℓ} : {A : Type ℓ} {a b : A} → answered a ≡ answered b → a ≡ b
answered_inj {a = a} h = ap (value_or a) h

-- What the action answers, when it answers, has the property.
abbrev pub Ensures {ℓ κ} : {W : Type 0} {A : Type ℓ} → (A → Type κ) → Action W A → Type (ℓ ⊔ κ)
Ensures {W = W} {A = A} Q m = (w : W) (a : A) → (m w).0 ≡ answered a → Q a

pub Ensures-bind {ℓ κ μ} :
    {W : Type 0} {A : Type ℓ} {B : Type κ} (Q : B → Type μ) (m : Action W A) (f : A → Action W B)
    → ((w : W) (a : A) → (m w).0 ≡ answered a → Ensures Q (f a))
    → Ensures Q (m >>= f)
Ensures-bind Q m f rest w b h =
    let (a, answer, last) = resume-answer f (m w) h in rest w a answer (m w).1 b last

pub Ensures-done {ℓ κ} :
    {W : Type 0} {A : Type ℓ} (Q : A → Type κ) (x : A) → Q x → Ensures Q (done {W = W} x)
Ensures-done Q x q w a h = rw (← answered_inj h) q

pub Ensures-lift {ℓ κ} :
    {W : Type 0} {A : Type ℓ} (Q : A → Type κ) (r : Attempt A)
    → ((a : A) → r ≡ answered a → Q a)
    → Ensures Q (lift {W = W} r)
Ensures-lift Q r q w a h = q a h

abbrev pub caught {ℓ} :
    {W : Type 0} {A : Type ℓ} → (Thrown → Action W A) → Attempt A × W → Attempt A × W
caught handler (answered a, w) = (answered a, w)
caught handler (raised e, w) = handler e w

-- `try { … } catch (error) { … }`
abbrev pub try_catch {ℓ} :
    {W : Type 0} {A : Type ℓ} → Action W A → (Thrown → Action W A) → Action W A
try_catch m handler w = caught handler (m w)

resume-at {ℓ κ} :
    {W : Type 0} {A : Type ℓ} {B : Type κ} (f : A → Action W B) (r : Attempt A) (w : W) (a : A)
    → r ≡ answered a
    → resume f (r, w) ≡ f a w
resume-at f r w a h = rw h refl

-- A bind whose first action answers goes on with the answer.
pub >>=-at {ℓ κ} :
    {W : Type 0} {A : Type ℓ} {B : Type κ} (m : Action W A) (f : A → Action W B) (w : W) (a : A)
    → (m w).0 ≡ answered a
    → (m >>= f) w ≡ f a (m w).1
>>=-at m f w a h = resume-at f (m w).0 (m w).1 a h
