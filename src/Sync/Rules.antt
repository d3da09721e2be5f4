-- ===== src/Sync/Rules.antt =====
-- Rules for what a call of the synchronisation tasks maintains, whatever its outcome.
use stratosync.Common.{◌≡◌, refl, Bool, true, false, if◌then◌else◌}
use stratosync.State.Tables.{Db, Exec}
use stratosync.State.Preserve.{Keeps}
use stratosync.Sync.World.{
  World, Fault, Outcome, done, fault, Act, return, throw, logged, attempt, on_db, bind_outcome,
  ◌>>=◌,
}

pub record Maintains {A : Type 0} (P : World → Type 0) (m : Act A) : Type 0 where
  pub at : (w : World) → P w → P (m w).1

-- The state after a call and what follows it, where the answer says something of the state.
pub bound :
    (P : World → Type 0) {A B : Type 0} (r : Outcome A) (f : A → Act B) (w : World)
    → ((a : A) → (r ≡ done a) → P (f a w).1)
    → P w
    → P (bind_outcome r f w).1
bound P (done a) f w k p = k a refl
bound P (fault e) f w k p = p

-- One of two outcomes of a call.
pub chosen :
    (P : World → Type 0) {A : Type 0} (b : Bool) (x y : Outcome A × World)
    → P x.1
    → P y.1
    → P (if b then x else y).1
chosen P true x y p q = p
chosen P false x y p q = q

pub picked :
    (P : World → Type 0) {A : Type 0} (b : Bool) (m n : Act A) (w : World)
    → P (m w).1
    → P (n w).1
    → P ((if b then m else n) w).1
picked P true m n w p q = p
picked P false m n w p q = q

module _ {P : World → Type 0} where
  pub Maintains-return : {A : Type 0} (a : A) → Maintains P (return a)
  Maintains-return a = record { at = λ w h. h }

  pub Maintains-throw : {A : Type 0} (e : Fault) → Maintains P (throw {A = A} e)
  Maintains-throw e = record { at = λ w h. h }

  Maintains-outcome :
      {A B : Type 0} (r : Outcome A) (f : A → Act B)
      → ((a : A) → Maintains P (f a))
      → Maintains P (bind_outcome r f)
  Maintains-outcome (done a) f k = k a
  Maintains-outcome (fault e) f k = record { at = λ w h. h }

  pub Maintains-bind :
      {A B : Type 0} (m : Act A) (f : A → Act B)
      → Maintains P m
      → ((a : A) → Maintains P (f a))
      → Maintains P (m >>= f)
  Maintains-bind m f k l = record {
    at = λ w h. let (r, w') = m w in (Maintains-outcome r f l).at w' (k.at w h);
  }

  pub Maintains-if :
      {A : Type 0} (b : Bool) (m n : Act A)
      → Maintains P m
      → Maintains P n
      → Maintains P (if b then m else n)
  Maintains-if true m n k l = k
  Maintains-if false m n k l = l

  pub Maintains-attempt :
      {A B : Type 0} (m : Act A) (f : Outcome A → Act B)
      → Maintains P m
      → ((o : Outcome A) → Maintains P (f o))
      → Maintains P (attempt m f)
  Maintains-attempt m f k l = record { at = λ w h. (l (m w).0).at _ (k.at w h) }

  pub Maintains-logged : {A : Type 0} (m : Act A) → Maintains P m → Maintains P (logged m)
  Maintains-logged m k = record { at = k.at }

-- What is true of the database.
pub record OfDb (Q : Db → Type 0) (w : World) : Type 0 where
  pub db : Q w.db

pub Maintains-on_db :
    {Q : Db → Type 0} {A : Type 0} (m : Exec A) → Keeps Q m → Maintains (OfDb Q) (on_db m)
Maintains-on_db m k = record { at = λ w h. record { db = k.at w.db h.db } }

-- A call that leaves the database alone.
pub Maintains-aside :
    {Q : Db → Type 0} {A : Type 0} (m : Act A)
    → ((w : World) → Q w.db → Q (m w).1.db)
    → Maintains (OfDb Q) m
Maintains-aside m h = record { at = λ w q. record { db = h w q.db } }
