-- ===== src/State/Generation.antt =====
-- The poll generation and the change token of a mount share one column of `change_tokens`.
use stratosync.Common.{
  ℕ, String, ◌≡◌, refl, true, false, Option, none, some, List, [], ◌∷◌, ◌++◌, arith, update, first,
  some_of, ◌==◌, unwrap_or, Bool-cases, inl, inr,
}
use stratosync.State.Tables.{TokenRow, Db, ok}
use stratosync.State.Statement.{has_mount}
use stratosync.State.Poll.{
  set_change_token, get_change_token, set_poll_generation, get_poll_generation,
}

token_of : Option TokenRow → Option String
token_of none = none
token_of (some t) = some t.token

module _ (m : ℕ) (new : TokenRow) (here : new.mount_id ≡ m) where
  pub first-update :
      (ts : List TokenRow)
      → some_of (λ t. t.mount_id == m) ts ≡ true
      → first (λ t. t.mount_id == m) (update (λ t. t.mount_id == m) (λ _. new) ts) ≡ some new
  first-update [] h = cc
  first-update (t ∷ ts) h = ground (arith, first-update ts)

  first-append :
      (ts : List TokenRow)
      → some_of (λ t. t.mount_id == m) ts ≡ false
      → first (λ t. t.mount_id == m) (ts ++ new ∷ []) ≡ some new
  first-append [] h = ground arith
  first-append (t ∷ ts) h = ground (arith, first-append ts)

abbrev pub token_row : ℕ → ℕ → String → TokenRow
token_row now m token = record { mount_id = m; token = token; updated_at = now }

-- A stored change token is the one read back.
set-get_change_token :
    (now m : ℕ) (token : String) (db : Db)
    → has_mount m db ≡ true
    → get_change_token m (set_change_token now m token db).1
      ≡ (ok (some token), (set_change_token now m token db).1)
unfolding set_change_token get_change_token
set-get_change_token now m token db h =
    elim (Bool-cases (some_of (λ t. t.mount_id == m) db.tokens)) [
      | inl there ↦ rw (there, first-update m (token_row now m token) refl db.tokens there)
      | inr absent ↦ rw (absent, h, first-append m (token_row now m token) refl db.tokens absent)
    ]

-- The poll generation and the change token are one cell: whatever token is stored for a mount, the
-- generation read next is the number that the token's text spells, and 0 where it spells none. So a
-- stored generation is read back, and a token of the remote starts the generations again.
pub set_change_token-generation :
    (show : ℕ → String) (parse : String → Option ℕ) (now m gen : ℕ) (token : String) (db : Db)
    → has_mount m db ≡ true
    → parse (show gen) ≡ some gen
    → ((get_poll_generation show parse m (set_change_token now m token db).1).0
        ≡ ok (unwrap_or (parse token) 0))
      × ((get_poll_generation show parse m (set_poll_generation show parse now m gen db).1).0
          ≡ ok gen)
unfolding set_poll_generation get_poll_generation
set_change_token-generation show parse now m gen token db h k =
    let got = λ (t : String). set-get_change_token now m t db h in
    (rw (got token), rw (got (show gen), k))
