-- ===== src/Fuse/Leaves.antt =====
-- What holds of the end of a handler, from the ends of its parts.
use stratosync.Common.{ℕ, ◌≡◌, refl}
use stratosync.Fuse.Handler.{Fs, Reply, okay, refused, Handler, bind_reply, ◌>>=◌}

-- What holds of the end of a call and what follows it.
module _ {A B : Type 0} (P : Reply B × Fs → Type 0) (f : A → Handler B) where
  staged_reply :
      (r : Reply A) (t : Fs)
      → ((a : A) → r ≡ okay a → P (f a t))
      → ((e : ℕ) → r ≡ refused e → P (refused e, t))
      → P (bind_reply r f t)
  staged_reply (okay a) t k l = k a refl
  staged_reply (refused e) t k l = l e refl

  pub staged :
      (m : Handler A) (s : Fs)
      → ((a : A) → (m s).0 ≡ okay a → P (f a (m s).1))
      → ((e : ℕ) → (m s).0 ≡ refused e → P (refused e, (m s).1))
      → P ((m >>= f) s)
  staged m s k l = staged_reply (m s).0 (m s).1 k l
