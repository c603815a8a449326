-- ===== src/Effect.antt =====
-- Asynchronous methods that read and write shared state and may throw. What was written before a
-- throw stays written, so the state comes back beside the error too.
pub mod Moves
pub mod Ok
use mafuta.Base.{Bool, true, false, Option, none, some, List, [], ◌∷◌}
use mafuta.Errors.{Error}

pub data Result (A : Type 0) : Type 0 where
  ok : A → Result A
  err : Error → Result A

abbrev pub Action : Type 0 → Type 0 → Type 0
Action S A = S → Result A × S

module _ {S A : Type 0} where
  unfoldable pub pure : A → Action S A
  pure a s = (ok a, s)

  unfoldable pub throw : Error → Action S A
  throw e s = (err e, s)

  -- Reads a part of the state.
  unfoldable pub gets : (S → A) → Action S A
  gets f s = (ok (f s), s)

  -- `if (o === null) throw e`
  unfoldable pub require : Option A → Error → Action S A
  require none e s = (err e, s)
  require (some a) e s = (ok a, s)

module _ {S : Type 0} where
  unfoldable pub modify : (S → S) → Action S (Unit {0})
  modify f s = (ok tt, f s)

  -- `if (!b) throw e`
  unfoldable pub ensure : Bool → Error → Action S (Unit {0})
  ensure true e s = (ok tt, s)
  ensure false e s = (err e, s)

module _ {S A B : Type 0} where
  abbrev resume : (A → Action S B) → Result A → Action S B
  resume f (ok a) s = f a s
  resume f (err e) s = (err e, s)

  infixl 5 ◌>>=◌ ◌>>◌
  -- Opening this opens the actions above too.
  unfoldable pub ◌>>=◌ : Action S A → (A → Action S B) → Action S B
  unfolding pure throw gets require modify ensure
  ◌>>=◌ m f s = let (r, s') = m s in resume f r s'

  abbrev pub ◌>>◌ : Action S A → Action S B → Action S B
  m >> n = m >>= λ _. n

-- `try { m } catch { return h }`
module _ {S A : Type 0} where
  abbrev recover : A → Result A × S → Result A × S
  recover a (ok b, s) = (ok b, s)
  recover a (err e, s) = (ok a, s)

  unfoldable pub or_else : Action S A → A → Action S A
  or_else m a s = recover a (m s)

-- `for (const x of xs) results.push(await f(x))`
unfoldable pub for_each : {S A B : Type 0} → (A → Action S B) → List A → Action S (List B)
unfolding ◌>>=◌
for_each f [] = pure []
for_each f (x ∷ xs) = do b ← f x; bs ← for_each f xs; pure (b ∷ bs)
