-- ===== src/Effect/Ok.antt =====
-- What is known of the parts of an action that has returned.
use mafuta.Base.{Bool, true, false, Option, none, some, ◌≡◌, refl, ap}
use mafuta.Errors.{Error}
use mafuta.Effect.{Result, ok, err, Action, resume, pure, gets, ensure, require, ◌>>=◌}

module _ {S : Type 0} where
  module _ {A B : Type 0} where
    resume-ok :
        (q : Result A) (u : S) (f : A → Action S B) (s' : S) (b : B)
        → resume f q u ≡ (ok b, s')
        → (a : A) × (q ≡ ok a) × (f a u ≡ (ok b, s'))
    resume-ok (ok a) u f s' b e = (a, refl, e)
    resume-ok (err x) u f s' b e = cc

    pub bind-ok :
        (m : Action S A) (f : A → Action S B) (s s' : S) (b : B)
        → (m >>= f) s ≡ (ok b, s')
        → (a : A) × (u : S) × (m s ≡ (ok a, u)) × (f a u ≡ (ok b, s'))
    unfolding ◌>>=◌
    bind-ok m f s s' b e =
        let (q, u) = m s in
        let (a, qa, fa) = resume-ok q u f s' b e in (a, u, ap (λ x. (x, u)) qa, fa)

  pub pure-ok : {A : Type 0} (a b : A) (s s' : S) → pure a s ≡ (ok b, s') → (a ≡ b) × (s ≡ s')
  unfolding pure
  pure-ok a b s s' h = (cc, cc)

  pub gets-ok :
      {A : Type 0} (f : S → A) (a : A) (s s' : S) → gets f s ≡ (ok a, s') → (f s ≡ a) × (s ≡ s')
  unfolding gets
  gets-ok f a s s' h = (cc, cc)

  pub ensure-ok :
      (b : Bool) (e : Error) (s s' : S) (u : Unit {0})
      → ensure b e s ≡ (ok u, s')
      → (b ≡ true) × (s ≡ s')
  unfolding ensure
  ensure-ok true e s s' u h = (refl, cc)
  ensure-ok false e s s' u h = cc

  pub require-ok :
      {A : Type 0} (o : Option A) (e : Error) (s s' : S) (a : A)
      → require o e s ≡ (ok a, s')
      → (o ≡ some a) × (s ≡ s')
  unfolding require
  require-ok none e s s' a h = cc
  require-ok (some x) e s s' a h = (cc, cc)
