-- ===== src/Store/Gives.antt =====
-- What an action's result satisfies when it starts in a store of which something is known.
use gopayrollengine.Base.{◌≡◌, refl, ap, subst, Bool, true, false, Option, none, some}
use gopayrollengine.Base.Result.{ok, Error, ok-injective}
use gopayrollengine.Store.Monad.{Store, M, pure, gets, or_fail, fail_if, ◌>>=◌, bind-ok}
use gopayrollengine.Store.Keeps.{Keeps}

-- What a result satisfies where an action starts from the tables of the start and returns.
pub record Gives {ℓ} {A : Type ℓ} (P : Store → Type 0) (Q : A → Type 0) (m : M A) : Type ℓ where
  pub at : (s t : Store) (a : A) → P s → m s ≡ (ok a, t) → Q a

module _ {ℓ κ} {A : Type ℓ} {B : Type κ} {P : Store → Type 0} {Q : B → Type 0} where
  pub Gives-chain :
      (R : A → Type 0) (m : M A) (f : A → M B)
      → Keeps P m
      → Gives P R m
      → ((a : A) → R a → Gives P Q (f a))
      → Gives P Q (m >>= f)
  Gives-chain R m f k first rest = record {
    at = λ s t b h e.
        let (a, s', here, there) = bind-ok m f s e in
        (rest a (first.at s s' a h here)).at s' t b (subst P (ap (λ r. r.1) here) (k.at s h)) there;
  }

  pub Gives-step :
      (m : M A) (f : A → M B) → Keeps P m → ((a : A) → Gives P Q (f a)) → Gives P Q (m >>= f)
  Gives-step m f k rest = record {
    at = λ s t b h e.
        let (a, s', here, there) = bind-ok m f s e in
        (rest a).at s' t b (subst P (ap (λ r. r.1) here) (k.at s h)) there;
  }

  -- The last write, after which only a value is made.
  pub Gives-last :
      (R : A → Type 0) (m : M A) (g : A → B)
      → Gives P R m
      → ((a : A) → R a → Q (g a))
      → Gives P Q (m >>= λ a. pure (g a))
  unfolding pure
  Gives-last R m g first rest = record {
    at = λ s t b h e.
        let (a, s', here, there) = bind-ok m (λ a. pure (g a)) s e in
        subst Q (ok-injective (ap (λ r. r.0) there)) (rest a (first.at s s' a h here));
  }

pub Gives-gets :
    {A : Type 0} {P : Store → Type 0} (Q : A → Type 0) (f : Store → A)
    → ((s : Store) → P s → Q (f s))
    → Gives P Q (gets f)
unfolding gets
Gives-gets Q f k = record { at = λ s t a h e. subst Q (ok-injective (ap (λ r. r.0) e)) (k s h) }

pub Gives-or_fail :
    {A : Type 0} {P : Store → Type 0} (o : Option A) (x : Error)
    → Gives P (λ a. o ≡ some a) (or_fail o x)
unfolding or_fail
Gives-or_fail none x = record { at = λ s t a h e. absurd cc }
Gives-or_fail (some b) x = record { at = λ s t a h e. ap some (ok-injective (ap (λ r. r.0) e)) }

pub Gives-fail_if :
    {P : Store → Type 0} (c : Bool) (x : Error)
    → Gives P (λ (a : Unit {0}). c ≡ false) (fail_if c x)
unfolding fail_if
Gives-fail_if true x = record { at = λ s t a h e. absurd cc }
Gives-fail_if false x = record { at = λ s t a h e. refl }
