-- ===== src/Store/Yields.antt =====
-- What an action's result satisfies when the action returns.
use gopayrollengine.Base.{◌≡◌, refl, ap, sym, Bool, true, false, if◌then◌else◌}
use gopayrollengine.Base.Result.{Result, ok, err, ok-injective}
use gopayrollengine.Store.Monad.{Store, M, pure, lift, ◌>>=◌, bind-ok}

pub record Yields {ℓ} {A : Type ℓ} (Q : A → Type 0) (m : M A) : Type ℓ where
  pub at : (s t : Store) (a : A) → m s ≡ (ok a, t) → Q a

moved {ℓ} : {A : Type ℓ} (Q : A → Type 0) (a b : A) → a ≡ b → Q a → Q b
moved Q a b e q = rw (sym e) q

module _ {ℓ} {A : Type ℓ} {Q : A → Type 0} where
  pub Yields-pure : (a : A) → Q a → Yields Q (pure a)
  unfolding pure
  Yields-pure a q = record { at = λ s t b h. moved Q a b (ok-injective (ap (λ p. p.0) h)) q }

  pub Yields-if :
      (b : Bool) (m n : M A)
      → (b ≡ true → Yields Q m)
      → (b ≡ false → Yields Q n)
      → Yields Q (if b then m else n)
  Yields-if true m n km kn = km refl
  Yields-if false m n km kn = kn refl

  pub Yields-lift : (r : Result A) → ((a : A) → r ≡ ok a → Q a) → Yields Q (lift r)
  unfolding lift
  Yields-lift r k = record { at = λ s t a h. k a (ap (λ p. p.0) h) }

module _ {ℓ κ} {A : Type ℓ} {B : Type κ} {Q : B → Type 0} where
  pub Yields-bind : (m : M A) (f : A → M B) → ((a : A) → Yields Q (f a)) → Yields Q (m >>= f)
  Yields-bind m f k = record {
    at = λ s t b h. let (a, s', _, e) = bind-ok m f s h in (k a).at s' t b e;
  }

  pub Yields-bind-lift :
      (r : Result A) (f : A → M B) → ((a : A) → r ≡ ok a → Yields Q (f a)) → Yields Q (lift r >>= f)
  unfolding ◌>>=◌
  Yields-bind-lift (ok a) f k = k a refl
  Yields-bind-lift (err x) f k = record { at = λ s t b h. absurd cc }

  -- The rest of the block may use what the result of the first step satisfies.
  pub Yields-chain :
      (R : A → Type 0) (m : M A) (f : A → M B)
      → Yields R m
      → ((a : A) → R a → Yields Q (f a))
      → Yields Q (m >>= f)
  Yields-chain R m f first k = record {
    at = λ s t b h.
        let (a, s', e, rest) = bind-ok m f s h in (k a (first.at s s' a e)).at s' t b rest;
  }
