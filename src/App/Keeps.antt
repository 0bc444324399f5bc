-- ===== src/App/Keeps.antt =====
-- Invariants of methods, one rule for each way to build a method.
use webhook_relay_api.Prelude.{Bool, true, false, if◌then◌else◌}
use webhook_relay_api.Result.{Error, runtime_error, Result, ok, err}
use webhook_relay_api.App.{App, Exec, pure, raise, lift, after, ◌>>=◌, get_db, close}

-- The method keeps `P`, whether it returns or raises.
pub record Keeps {S A : Type 0} (P : S → Type 0) (method : Exec S A) : Type 0 where
  pub at : (before : S) → P before → P (method before).1

module _ {S A : Type 0} {P : S → Type 0} where
  pub Keeps-lift : (result : Result A) → Keeps P (lift result)
  Keeps-lift result = record { at = λ before holds. holds }

  pub Keeps-raise : (error : Error) → Keeps P (raise {A = A} error)
  Keeps-raise error = record { at = λ before holds. holds }

  pub Keeps-pure : (value : A) → Keeps P (pure value)
  Keeps-pure value = record { at = λ before holds. holds }

  pub Keeps-if : (b : Bool) (m n : Exec S A) → Keeps P m → Keeps P n → Keeps P (if b then m else n)
  Keeps-if true m n k l = k
  Keeps-if false m n k l = l

module _ {S A B : Type 0} {P : S → Type 0} where
  after-keeps :
      (r : Result A) (s : S) (f : A → Exec S B)
      → ((a : A) → Keeps P (f a))
      → P s
      → P (after r s f).1
  after-keeps (ok a) s f k h = (k a).at s h
  after-keeps (err e) s f k h = h

  pub Keeps-bind :
      (first : Exec S A) (rest : A → Exec S B)
      → Keeps P first
      → ((a : A) → Keeps P (rest a))
      → Keeps P (first >>= rest)
  Keeps-bind first rest k l = record {
    at = λ s h. let (r, s') = first s in after-keeps r s' rest l (k.at s h);
  }

-- A transaction keeps `P` of the database if its body does.
module _ {Db A : Type 0} (P : Db → Type 0) where
  abbrev pub CommitsTo : Result (A × Db) → Type 0
  CommitsTo (ok (a, d)) = P d
  CommitsTo (err e) = Unit

  close-keeps : (app : App Db) (r : Result (A × Db)) → P app.db → CommitsTo r → P (close app r).1.db
  close-keeps app (ok (a, d)) h c = c
  close-keeps app (err e) h c = h

  pub Keeps-get_db :
      (body : Db → Result (A × Db))
      → ((d : Db) → P d → CommitsTo (body d))
      → Keeps (λ (app : App Db). P app.db) (get_db body)
  unfolding get_db
  Keeps-get_db body k = record { at = λ app h. at_session body k app.session app h }
    where
      at_session :
          (body : Db → Result (A × Db))
          → ((d : Db) → P d → CommitsTo (body d))
          → (b : Bool) (app : App Db) → P app.db
          → P (
              (if b
                then close app (body app.db)
                else (err (runtime_error "Database not initialized"), app)).1.db)
      at_session body k true app h = close-keeps app (body app.db) h (k app.db h)
      at_session body k false app h = h

pub ruleset keeps_rules = (Keeps-pure, Keeps-raise, Keeps-lift, Keeps-if, Keeps-bind)
