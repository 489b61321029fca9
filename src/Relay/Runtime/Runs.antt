-- ===== src/Relay/Runtime/Runs.antt =====
-- Rules for the runs of Relay/Runtime.antt: what a run that returned has gone through, and which
-- conditions on the port calls every run keeps.
use privacy_layer_confidenti.Base.{
  ◌≡◌, refl, ap, Bool, true, false, List, [], ◌∷◌, ◌⊎◌, inl, inr, if◌then◌else◌,
}
use privacy_layer_confidenti.Relay.Reasons.{Thrown}
use privacy_layer_confidenti.Base.{String}
use privacy_layer_confidenti.Relay.Runtime.{
  Result, ok, threw, Port, Call, State, Run, pure, fail, call, continue, ◌>>=◌, handle, catch,
}

module _ {W A B : Type 0} where
  continue-eq-ok :
      (r : Result A) (f : A → Run W B) (s : State W) {b : B} {s' : State W}
      → continue r f s ≡ (ok b, s')
      → (a : A) × (r ≡ ok a) × (f a s ≡ (ok b, s'))
  continue-eq-ok (ok a) f s h = (a, refl, h)
  continue-eq-ok (threw e) f s h = cc

  pub bind-eq-ok :
      (m : Run W A) (f : A → Run W B) (s : State W) {b : B} {s' : State W}
      → (m >>= f) s ≡ (ok b, s')
      → (a : A) × (t : State W) × (m s ≡ (ok a, t)) × (f a t ≡ (ok b, s'))
  unfolding ◌>>=◌
  bind-eq-ok m f s h =
      let (a, e, k) = continue-eq-ok (m s).0 f (m s).1 h in
      (a, (m s).1, ap (λ r. (r, (m s).1)) e, k)

module _ {W A : Type 0} where
  handle-eq-ok :
      (r : Result A) (h : Thrown → Run W A) (s : State W) {a : A} {s' : State W}
      → handle r h s ≡ (ok a, s')
      → (r ≡ ok a) ⊎ ((e : Thrown) × (h e s ≡ (ok a, s')))
  handle-eq-ok (ok b) h s k = inl (cc)
  handle-eq-ok (threw e) h s k = inr (e, k)

  -- A `try` that returned has returned by itself, or its handler has.
  pub catch-eq-ok :
      (m : Run W A) (h : Thrown → Run W A) (s : State W) {a : A} {s' : State W}
      → catch m h s ≡ (ok a, s')
      → ((m s).0 ≡ ok a) ⊎ ((e : Thrown) × (h e (m s).1 ≡ (ok a, s')))
  unfolding catch
  catch-eq-ok m h s k = handle-eq-ok (m s).0 h (m s).1 k

  pub if-eq-ok :
      (b : Bool) (m n : Run W A) (s : State W) {a : A} {s' : State W}
      → (if b then m else n) s ≡ (ok a, s')
      → (m s ≡ (ok a, s')) ⊎ (n s ≡ (ok a, s'))
  if-eq-ok true m n s h = inl h
  if-eq-ok false m n s h = inr h

  pub eta-eq-ok : (m : Run W A) (s : State W) {a : A} → (m s).0 ≡ ok a → m s ≡ (ok a, (m s).1)
  eta-eq-ok m s e = ap (λ r. (r, (m s).1)) e

-- Each call of a journal meets `P` with the calls made before it.
abbrev pub Journal : (Call → List Call → Type 0) → List Call → Type 0
Journal P [] = Unit
Journal P (c ∷ cs) = P c cs × Journal P cs

-- Each port call of the run `m` meets `P` with the calls made before it, whether `m` returns or
-- throws: what holds of a journal, and is kept by a call that meets `P`, holds after the run.
pub record Makes {W A : Type 0} (P : Call → List Call → Type 0) (m : Run W A) : Type 1 where
  pub at :
      (I : List Call → Type 0)
      → ((c : Call) (cs : List Call) → P c cs → I cs → I (c ∷ cs))
      → (s : State W) → I s.calls
      → I (m s).1.calls

module _ {W A : Type 0} {P : Call → List Call → Type 0} where
  pub Makes-pure : (a : A) → Makes {W = W} P (pure a)
  unfolding pure
  Makes-pure a = record { at = λ I keep s h. h }

  pub Makes-fail : (message : String) → Makes {W = W} P (fail {A = A} message)
  unfolding fail
  Makes-fail message = record { at = λ I keep s h. h }

  pub Makes-call :
      (c : Call) (port : Port W A) → ((cs : List Call) → P c cs) → Makes P (call c port)
  unfolding call
  Makes-call c port p = record { at = λ I keep s h. keep c s.calls (p s.calls) h }

  pub Makes-if :
      (b : Bool) (m n : Run W A)
      → (b ≡ true → Makes P m)
      → (b ≡ false → Makes P n)
      → Makes P (if b then m else n)
  Makes-if true m n yes_m no_n = yes_m refl
  Makes-if false m n yes_m no_n = no_n refl

  Makes-handle :
      (r : Result A) (h : Thrown → Run W A) → ((e : Thrown) → Makes P (h e)) → Makes P (handle r h)
  Makes-handle (ok a) h k = record { at = λ I keep s q. q }
  Makes-handle (threw e) h k = k e

  pub Makes-catch :
      (m : Run W A) (h : Thrown → Run W A)
      → Makes P m
      → ((e : Thrown) → Makes P (h e))
      → Makes P (catch m h)
  unfolding catch
  Makes-catch m h k l = record {
    at = λ I keep s q. (Makes-handle (m s).0 h l).at I keep (m s).1 (k.at I keep s q);
  }

module _ {W A B : Type 0} {P : Call → List Call → Type 0} where
  Makes-continue :
      (r : Result A) (f : A → Run W B) → ((a : A) → Makes P (f a)) → Makes P (continue r f)
  Makes-continue (ok a) f k = k a
  Makes-continue (threw e) f k = record { at = λ I keep s q. q }

  pub Makes-bind :
      (m : Run W A) (f : A → Run W B) → Makes P m → ((a : A) → Makes P (f a)) → Makes P (m >>= f)
  unfolding ◌>>=◌
  Makes-bind m f k l = record {
    at = λ I keep s q. (Makes-continue (m s).0 f l).at I keep (m s).1 (k.at I keep s q);
  }

  -- The same, where the rest may use what `m` returns.
  Makes-continue_of :
      (r : Result A) (f : A → Run W B)
      → ((a : A) → r ≡ ok a → Makes P (f a))
      → Makes P (continue r f)
  Makes-continue_of (ok a) f k = k a refl
  Makes-continue_of (threw e) f k = record { at = λ I keep s q. q }

  pub Makes-bind_of :
      (m : Run W A) (f : A → Run W B)
      → Makes P m
      → ((a : A) (s : State W) → (m s).0 ≡ ok a → Makes P (f a))
      → Makes P (m >>= f)
  unfolding ◌>>=◌
  Makes-bind_of m f k l = record {
    at = λ I keep s q.
        (Makes-continue_of (m s).0 f (λ a e. l a s e)).at I keep (m s).1 (k.at I keep s q);
  }

module _ {W A : Type 0} {P : Call → List Call → Type 0} (m : Run W A) where
  pub Makes-Journal : Makes P m → (s : State W) → Journal P s.calls → Journal P (m s).1.calls
  Makes-Journal k s h = k.at (Journal P) (λ c cs p q. (p, q)) s h

module _ {W A : Type 0} {P Q : Call → List Call → Type 0} (m : Run W A) where
  pub Makes-weaken : ((c : Call) (cs : List Call) → P c cs → Q c cs) → Makes P m → Makes Q m
  Makes-weaken sub k = record { at = λ I keep. k.at I (λ c cs p. keep c cs (sub c cs p)) }

-- The same of a run that starts from a journal that meets `F`.
pub record MakesFrom {W A : Type 0} (F : List Call → Type 0) (P : Call → List Call → Type 0)
    (m : Run W A) : Type 1 where
  pub at :
      (I : List Call → Type 0)
      → ((c : Call) (cs : List Call) → P c cs → I cs → I (c ∷ cs))
      → (s : State W) → F s.calls
      → I s.calls
      → I (m s).1.calls

module _ {W A : Type 0} {F : List Call → Type 0} {P : Call → List Call → Type 0} where
  pub MakesFrom-any : (m : Run W A) → Makes P m → MakesFrom F P m
  MakesFrom-any m h = record { at = λ I keep s f q. h.at I keep s q }

  pub MakesFrom-if :
      (b : Bool) (m n : Run W A)
      → (b ≡ true → MakesFrom F P m)
      → (b ≡ false → MakesFrom F P n)
      → MakesFrom F P (if b then m else n)
  MakesFrom-if true m n yes_m no_n = yes_m refl
  MakesFrom-if false m n yes_m no_n = no_n refl

  pub MakesFrom-call :
      (c : Call) (port : Port W A)
      → ((cs : List Call) → F cs → P c cs)
      → MakesFrom F P (call c port)
  unfolding call
  MakesFrom-call c port p = record { at = λ I keep s f q. keep c s.calls (p s.calls f) q }

module _ {W A B : Type 0} {P : Call → List Call → Type 0} where
  MakesFrom-continue :
      (G : A → List Call → Type 0) (r : Result A) (f : A → Run W B) (s : State W)
      (I : List Call → Type 0)
      → ((c : Call) (cs : List Call) → P c cs → I cs → I (c ∷ cs))
      → ((a : A) → r ≡ ok a → G a s.calls)
      → ((a : A) → MakesFrom (G a) P (f a))
      → I s.calls
      → I (continue r f s).1.calls
  MakesFrom-continue G (ok a) f s I keep g k q = (k a).at I keep s (g a refl) q
  MakesFrom-continue G (threw e) f s I keep g k q = q

module _ {W A B : Type 0} {F : List Call → Type 0} {P : Call → List Call → Type 0} where
  -- The rest starts from what holds of the journal once `m` has returned.
  pub MakesFrom-bind :
      (G : A → List Call → Type 0) (m : Run W A) (f : A → Run W B)
      → MakesFrom F P m
      → ((s : State W) (a : A) → F s.calls → (m s).0 ≡ ok a → G a (m s).1.calls)
      → ((a : A) → MakesFrom (G a) P (f a))
      → MakesFrom F P (m >>= f)
  unfolding ◌>>=◌
  MakesFrom-bind G m f k g l = record {
    at = λ I keep s h q.
        MakesFrom-continue G (m s).0 f (m s).1 I keep (λ a e. g s a h e) l (k.at I keep s h q);
  }

module _ {W A : Type 0} {P : Call → List Call → Type 0} where
  -- From any journal.
  pub MakesFrom-all : (m : Run W A) → MakesFrom (λ _. Unit) P m → Makes P m
  MakesFrom-all m h = record { at = λ I keep s q. h.at I keep s tt q }

pub ruleset makes_rules = (Makes-pure, Makes-fail, Makes-call, Makes-if, Makes-catch, Makes-bind)
