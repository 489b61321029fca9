-- ===== src/Stellar/Merkle/Carries.antt =====
-- What an action of packages/stellar/src/transact/merkle carries from the world before it to the
-- world after it, whether it answers or throws.
use privacy_layer_confidenti.Core.Operations.{Attempt, answered, raised, Action}
use privacy_layer_confidenti.Stellar.Effects.{◌>>=◌, resume, done, caught}

module _ {V : Type 0} where
  -- What holds once the action answered or threw.
  abbrev pub Post : {A : Type 0} → (A → V → Type 0) → (V → Type 0) → Attempt A × V → Type 0
  Post Q E (answered a, v) = Q a v
  Post Q E (raised e, v) = E v

  abbrev pub Carries :
      {A : Type 0} → (V → Type 0) → Action V A → (A → V → Type 0) → (V → Type 0) → Type 0
  Carries P m Q E = (v : V) → P v → Post Q E (m v)

  pub Post-resume :
      {A B : Type 0} (R : A → V → Type 0) (Q : B → V → Type 0) (E : V → Type 0) (f : A → Action V B)
      → ((a : A) → Carries (R a) (f a) Q E)
      → (r : Attempt A × V) → Post R E r
      → Post Q E (resume f r)
  Post-resume R Q E f rest (answered a, v) h = rest a v h
  Post-resume R Q E f rest (raised e, v) h = h

  pub Carries-bind :
      {A B : Type 0} (P : V → Type 0) (R : A → V → Type 0) (Q : B → V → Type 0) (E : V → Type 0)
      (m : Action V A) (f : A → Action V B)
      → Carries P m R E
      → ((a : A) → Carries (R a) (f a) Q E)
      → Carries P (m >>= f) Q E
  Carries-bind P R Q E m f first rest v h = Post-resume R Q E f rest (m v) (first v h)

  pub Post-caught :
      {A : Type 0} (Q : A → V → Type 0) (E F : V → Type 0) (a : A) (r : Attempt A × V)
      → Post Q E r
      → ((v : V) → E v → Q a v)
      → Post Q F (caught (λ _. done a) r)
  Post-caught Q E F a (answered b, v) h rule = h
  Post-caught Q E F a (raised e, v) h rule = rule v h

  pub Post-same :
      {A : Type 0} (E : V → Type 0) (r : Attempt A) (v : V) → E v → Post (λ _. E) E (r, v)
  Post-same E (answered a) v h = h
  Post-same E (raised e) v h = h

  pub Post-world : {A : Type 0} (E : V → Type 0) (r : Attempt A × V) → Post (λ _. E) E r → E r.1
  Post-world E (answered a, v) h = h
  Post-world E (raised e, v) h = h

  pub Post-weaken :
      {A : Type 0} (Q : A → V → Type 0) (E F : V → Type 0) (r : Attempt A × V)
      → ((v : V) → E v → F v)
      → Post Q E r
      → Post Q F r
  Post-weaken Q E F (answered a, v) f h = h
  Post-weaken Q E F (raised e, v) f h = f v h
