-- ===== src/Sync/Headers.antt =====
-- crates/stratosync-daemon/src/fuse/header_cache.rs: the first bytes of large files, one file for each
-- inode. A read of a file gives all the bytes that it is asked for, as far as there are any.
use stratosync.Common.{
  ℕ, ◌+◌, ◌<◌, ◌≡◌, refl, min, Bool, false, ◌||◌, Option, none, some, List, [], length, take, drop,
  arith, get, put, remove, get-put, get-put_other, get-remove, get-remove_same, some_of, ◌==◌, ltb,
  leb, if◌then◌else◌, Bool-cases, inl, inr, Option-cases,
}
use stratosync.Sync.World.{World, Act, done, fault, disk}

abbrev is_stuck : ℕ → World → Bool
is_stuck i w = some_of (λ h. h == i) w.stuck

-- `u64::MAX`, where `saturating_add` stops.
abbrev max_u64 : ℕ
max_u64 = 18446744073709551615

abbrev within : ℕ → ℕ → List ℕ → Option (List ℕ)
within offset n bytes =
    if ltb (length bytes) (min (offset + n) max_u64)
    then none
    else some (take n (drop offset bytes))

unfoldable pub read_header : ℕ → ℕ → ℕ → Act (Option (List ℕ))
read_header i offset n w =
    if n == 0
    then (done (some []), w)
    else if is_stuck i w
    then (fault disk, w)
    else elim (get i w.headers) [
      | none ↦ (done none, w)
      | some bytes ↦ (done (within offset n bytes), w)
    ]

-- The file is replaced as a whole.
unfoldable pub write_header : ℕ → List ℕ → Act Unit
write_header i bytes w =
    if is_stuck i w
    then (fault disk, w)
    else (done tt, record w { headers = put i bytes w.headers })

-- Errors are logged.
unfoldable pub invalidate_header : ℕ → Act Unit
invalidate_header i w =
    if is_stuck i w then (done tt, w) else (done tt, record w { headers = remove i w.headers })

-- What a read is to give, of bytes that are there.
abbrev pub expected : ℕ → ℕ → List ℕ → Option (List ℕ)
expected offset n bytes =
    if n == 0 || leb (offset + n) (length bytes) then some (take n (drop offset bytes)) else none

within_lem :
    (offset n : ℕ) (bytes : List ℕ)
    → length bytes < max_u64
    → within offset n bytes
      ≡ (if leb (offset + n) (length bytes) then some (take n (drop offset bytes)) else none)
within_lem offset n bytes small = ground arith

-- What a read gives depends on the header of its own file only.
read_lem :
    (i offset n : ℕ) (v w : World)
    → v.stuck ≡ w.stuck
    → get i v.headers ≡ get i w.headers
    → (read_header i offset n v).0 ≡ (read_header i offset n w).0
unfolding read_header
read_lem i offset n v w same_stuck same = elim (Bool-cases (n == 0)) [
  | inl z ↦ rw z
  | inr z ↦ elim (Bool-cases (is_stuck i w)) [
    | inl bad ↦ rw (z, same_stuck, bad)
    | inr free ↦ elim (Option-cases (get i w.headers)) [
      | inl h ↦ rw (z, same_stuck, free, same, h)
      | inr h ↦ rw (z, same_stuck, free, same, h.1)
    ]
  ]
]

not_covered : (offset n : ℕ) → (n == 0) ≡ false → leb (offset + n) 0 ≡ false
not_covered offset n z = ground arith

module _ (i : ℕ) (w : World) (free : is_stuck i w ≡ false) where
  read-write :
      (offset n : ℕ) (bytes : List ℕ)
      → length bytes < max_u64
      → (read_header i offset n (write_header i bytes w).1).0 ≡ done (expected offset n bytes)
  unfolding read_header write_header
  read-write offset n bytes small = elim (Bool-cases (n == 0)) [
    | inl z ↦ let zero_n : n ≡ 0 = ground arith in rw (free, zero_n)
    | inr z ↦ rw (free, z, free, get-put i bytes w.headers, within_lem offset n bytes small)
  ]

  read-invalidate :
      (offset n : ℕ)
      → (read_header i offset n (invalidate_header i w).1).0 ≡ done (expected offset n [])
  unfolding read_header invalidate_header
  read-invalidate offset n = elim (Bool-cases (n == 0)) [
    | inl z ↦ let zero_n : n ≡ 0 = ground arith in rw (free, zero_n)
    | inr z ↦ rw (free, z, free, get-remove_same i w.headers, not_covered offset n z)
  ]

  read-other :
      (j offset n : ℕ) (bytes : List ℕ)
      → (j == i) ≡ false
      → ((read_header j offset n (write_header i bytes w).1).0 ≡ (read_header j offset n w).0)
        × ((read_header j offset n (invalidate_header i w).1).0 ≡ (read_header j offset n w).0)
  unfolding write_header invalidate_header
  read-other j offset n bytes apart = (
    rw free (
        read_lem j offset n (record w { headers = put i bytes w.headers }) w refl
          (get-put_other i j bytes w.headers apart)),
    rw free (
        read_lem j offset n (record w { headers = remove i w.headers }) w refl
          (get-remove i j w.headers apart)),
  )

-- While the disk takes the operations of a file, its reads after a write of fewer than 2^64 - 1 bytes give
-- all the bytes that they ask for if the header covers them, and else nothing; after its invalidation
-- they give nothing, but for reads of no bytes. Neither changes what the reads of another file give.
pub read_header-write_header :
    (i j offset n : ℕ) (bytes : List ℕ) (w : World)
    → is_stuck i w ≡ false
    → (j == i) ≡ false
    → length bytes < max_u64
    → ((read_header i offset n (write_header i bytes w).1).0 ≡ done (expected offset n bytes))
      × ((read_header i offset n (invalidate_header i w).1).0 ≡ done (expected offset n []))
      × ((read_header j offset n (write_header i bytes w).1).0 ≡ (read_header j offset n w).0)
      × ((read_header j offset n (invalidate_header i w).1).0 ≡ (read_header j offset n w).0)
read_header-write_header i j offset n bytes w free apart small = (
  read-write i w free offset n bytes small,
  read-invalidate i w free offset n,
  (read-other i w free j offset n bytes apart).0,
  (read-other i w free j offset n bytes apart).1,
)
