-- ===== src/Effect/Moves.antt =====
-- What an action may do to the state, in a relation that composes: a rule for each way to build one.
use mafuta.Base.{
  Bool, true, false, Option, none, some, List, [], ◌∷◌, if◌then◌else◌, ◌≡◌, refl, ap, subst,
}
use mafuta.Errors.{Error}
use mafuta.Effect.{
  Result, ok, err, Action, resume, recover, pure, throw, gets, modify, ensure, require, or_else,
  ◌>>=◌, for_each,
}

pub record Composes {S : Type 0} (R : S → S → Type 0) : Type 0 where
  pub stay : (s : S) → R s s
  pub follow : (s t u : S) → R s t → R t u → R s u

-- `m` takes each state to a related one, whether it returns or throws.
pub record Moves {S A : Type 0} (R : S → S → Type 0) (m : Action S A) : Type 0 where
  pub at : (s : S) → R s (m s).1

pub Moves-result :
    {S A : Type 0} (R : S → S → Type 0) (m : Action S A) (s t : S) (r : Result A)
    → Moves R m
    → m s ≡ (r, t)
    → R s t
Moves-result R m s t r k e = subst (R s) (ap (λ p. p.1) e) (k.at s)

recover-state :
    {S A : Type 0} (R : S → S → Type 0) (a : A) (r : Result A) (s t : S)
    → R s t
    → R s (recover a (r, t)).1
recover-state R a (ok b) s t h = h
recover-state R a (err e) s t h = h

module _ {S : Type 0} {R : S → S → Type 0} (c : Composes R) where
  module _ {A : Type 0} where
    pub Moves-pure : (a : A) → Moves R (pure a)
    unfolding pure
    Moves-pure a = record { at = c.stay }

    pub Moves-throw : (e : Error) → Moves R (throw {A = A} e)
    unfolding throw
    Moves-throw e = record { at = c.stay }

    pub Moves-gets : (f : S → A) → Moves R (gets f)
    unfolding gets
    Moves-gets f = record { at = c.stay }

    pub Moves-require : (o : Option A) (e : Error) → Moves R (require o e)
    unfolding require
    Moves-require none e = record { at = c.stay }
    Moves-require (some a) e = record { at = c.stay }

  pub Moves-ensure : (b : Bool) (e : Error) → Moves R (ensure b e)
  unfolding ensure
  Moves-ensure true e = record { at = c.stay }
  Moves-ensure false e = record { at = c.stay }

  pub Moves-modify : (f : S → S) → ((s : S) → R s (f s)) → Moves R (modify f)
  unfolding modify
  Moves-modify f h = record { at = h }

  pub Moves-if :
      {A : Type 0} (b : Bool) (m n : Action S A)
      → Moves R m
      → Moves R n
      → Moves R (if b then m else n)
  Moves-if true m n km kn = km
  Moves-if false m n km kn = kn

  module _ {A B : Type 0} where
    Moves-resume :
        (r : Result A) (f : A → Action S B) (s : S)
        → ((a : A) → Moves R (f a))
        → R s (resume f r s).1
    Moves-resume (ok a) f s kf = (kf a).at s
    Moves-resume (err e) f s kf = c.stay s

    pub Moves-bind :
        (m : Action S A) (f : A → Action S B)
        → Moves R m
        → ((a : A) → Moves R (f a))
        → Moves R (m >>= f)
    unfolding ◌>>=◌
    Moves-bind m f km kf = record {
      at = λ s. let (r, t) = m s in c.follow s t _ (km.at s) (Moves-resume r f t kf);
    }

    -- For a test that the rest may rely on.
    pub Moves-bind_require :
        (o : Option A) (e : Error) (f : A → Action S B)
        → ((a : A) → o ≡ some a → Moves R (f a))
        → Moves R (require o e >>= f)
    unfolding ◌>>=◌
    Moves-bind_require none e f kf = record { at = c.stay }
    Moves-bind_require (some a) e f kf = record { at = (kf a refl).at }

  module _ {A B D : Type 0} where
    -- For two steps that move together.
    resume-pair :
        (f : A → Action S B) (g : A → B → Action S D) (r : Result A) (s t : S)
        → ((a : A) (b : B) → Moves R (g a b))
        → R s (resume f r t).1
        → R s (resume (λ a. f a >>= g a) r t).1
    unfolding ◌>>=◌
    resume-pair f g (ok a) s t kg h =
        let (q, u) = f a t in c.follow s u _ h (Moves-resume q (g a) u (kg a))
    resume-pair f g (err e) s t kg h = h

    pub Moves-bind_pair :
        (m : Action S A) (f : A → Action S B) (g : A → B → Action S D)
        → Moves R (m >>= f)
        → ((a : A) (b : B) → Moves R (g a b))
        → Moves R (m >>= λ a. f a >>= g a)
    unfolding ◌>>=◌
    Moves-bind_pair m f g kf kg = record {
      at = λ s. let (r, t) = m s in resume-pair f g r s t kg (kf.at s);
    }

  pub Moves-bind_ensure :
      {B : Type 0} (b : Bool) (e : Error) (f : Unit {0} → Action S B)
      → (b ≡ true → Moves R (f tt))
      → Moves R (ensure b e >>= f)
  unfolding ◌>>=◌
  Moves-bind_ensure true e f kf = record { at = (kf refl).at }
  Moves-bind_ensure false e f kf = record { at = c.stay }

  pub Moves-or_else : {A : Type 0} (m : Action S A) (a : A) → Moves R m → Moves R (or_else m a)
  unfolding or_else
  Moves-or_else m a km = record { at = λ s. let (r, t) = m s in recover-state R a r s t (km.at s) }

  pub Moves-for_each :
      {A B : Type 0} (f : A → Action S B) (xs : List A)
      → ((a : A) → Moves R (f a))
      → Moves R (for_each f xs)
  unfolding for_each
  Moves-for_each f [] kf = record { at = c.stay }
  Moves-for_each f (x ∷ xs) kf =
      Moves-bind _ _ (kf x)
        (λ b. Moves-bind _ _ (Moves-for_each f xs kf) (λ bs. record { at = c.stay }))

pub ruleset moves_rules = (
  Moves-pure, Moves-throw, Moves-gets, Moves-require, Moves-ensure, Moves-modify, Moves-if,
  Moves-bind, Moves-or_else, Moves-for_each,
)
