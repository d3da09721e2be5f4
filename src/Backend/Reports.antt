-- ===== src/Backend/Reports.antt =====
-- The changes that `GoogleDriveDelta::changes_since` reports of what it has read.
use stratosync.Common.{
  ℕ, ◌≡◌, ◌↔◌, refl, sym, subst, ◌∙◌, arith, String, true, false, Option, none, some, List, [], ◌∷◌,
  lookup, unwrap_or, Bool-cases, inl, inr,
}
use stratosync.Poller.Delta.{RemoteChange, added, deleted}
use stratosync.Backend.Parents.{Entry, IdMap, resolve_path}
use stratosync.Backend.Chains.{IsUnder, resolve_path_iff}
use stratosync.Backend.Drive.{
  DriveFile, DriveChange, convert, gone, here, metadata, of_removed, of_file,
}

no_path : {path : String} → none ≡ some path → ⊥
no_path e = cc

module _ (root : String) (parse_time : String → Option ℕ) (ids : IdMap) where
  -- A file with a parent has a path if fewer than a hundred steps lead from it to the root.
  pub data HasPath : String → List String → String → Type 0 where
    has_path :
        {name p path : String} {ps : List String}
        → IsUnder root ids 100 p (name ∷ []) path
        → HasPath name (p ∷ ps) path

  HasPath-resolve_path :
      {name path : String} {parents : List String}
      → HasPath name parents path
      → resolve_path root ids name parents ≡ some path
  HasPath-resolve_path (has_path {name = name} {p = p} {path = path} {ps = ps} u) =
      (resolve_path_iff root ids name p ps path).0.1 u

  resolve_path-HasPath :
      (name : String) (parents : List String) (path : String)
      → resolve_path root ids name parents ≡ some path
      → HasPath name parents path
  resolve_path-HasPath name [] path e =
      absurd (no_path (sym (resolve_path_iff root ids name "" [] path).1 ∙ e))
  resolve_path-HasPath name (p ∷ ps) path e =
      has_path ((resolve_path_iff root ids name p ps path).0.0 e)

  pub data Reported (c : DriveChange) : RemoteChange → Type 0 where
    stands :
        {f : DriveFile} {path : String}
        → c.removed ≡ false
        → c.file ≡ some f
        → f.trashed ≡ false
        → HasPath f.name (unwrap_or f.parents []) path
        → Reported c (added (metadata root parse_time ids f path))
    trashed :
        {f : DriveFile} {path : String}
        → c.removed ≡ false
        → c.file ≡ some f
        → f.trashed ≡ true
        → HasPath f.name (unwrap_or f.parents []) path
        → Reported c (deleted path (some f.id))
    removed :
        {name path : String} {parents : List String}
        → c.removed ≡ true
        → lookup c.file_id ids ≡ some (name, parents)
        → HasPath name parents path
        → Reported c (deleted path (some c.file_id))

  gone-Reported :
      (id : String) (o : Option String) (r : RemoteChange)
      → gone root parse_time ids id o ≡ some r
      → (path : String) × (o ≡ some path) × (r ≡ deleted path (some id))
  gone-Reported id none r e = cc
  gone-Reported id (some path) r e = (path, refl, cc)

  here-Reported :
      (f : DriveFile) (o : Option String) (r : RemoteChange)
      → here root parse_time ids f o ≡ some r
      → (path : String) × (o ≡ some path) × (r ≡ added (metadata root parse_time ids f path))
  here-Reported f none r e = cc
  here-Reported f (some path) r e = (path, refl, cc)

  of_removed-Reported :
      (c : DriveChange) (entry : Option Entry) (r : RemoteChange)
      → c.removed ≡ true
      → lookup c.file_id ids ≡ entry
      → of_removed root parse_time ids c.file_id entry ≡ some r
      → Reported c r
  of_removed-Reported c none r a b e = cc
  of_removed-Reported c (some (name, parents)) r a b e =
      let (path, o, same) = gone-Reported c.file_id (resolve_path root ids name parents) r e in
      subst (Reported c) (sym same) (removed a b (resolve_path-HasPath name parents path o))

  of_file-Reported :
      (c : DriveChange) (file : Option DriveFile) (r : RemoteChange)
      → c.removed ≡ false
      → c.file ≡ file
      → of_file root parse_time ids file ≡ some r
      → Reported c r
  of_file-Reported c none r a b e = cc
  of_file-Reported c (some f) r a b e = elim (Bool-cases f.trashed) [
    | inl t ↦
        let (path, o, same) =
          gone-Reported f.id (resolve_path root ids f.name (unwrap_or f.parents [])) r
            (ground arith) in
        subst (Reported c) (sym same) (trashed a b t (resolve_path-HasPath f.name _ path o))
    | inr t ↦
        let (path, o, same) =
          here-Reported f (resolve_path root ids f.name (unwrap_or f.parents [])) r
            (ground arith) in
        subst (Reported c) (sym same) (stands a b t (resolve_path-HasPath f.name _ path o))
  ]

  convert-Reported :
      (c : DriveChange) (r : RemoteChange) → convert root parse_time ids c ≡ some r → Reported c r
  unfolding convert
  convert-Reported c r e = elim (Bool-cases c.removed) [
    | inl a ↦ of_removed-Reported c (lookup c.file_id ids) r a refl (ground arith)
    | inr a ↦ of_file-Reported c c.file r a refl (ground arith)
  ]

  Reported-convert :
      {c : DriveChange} {r : RemoteChange} → Reported c r → convert root parse_time ids c ≡ some r
  unfolding convert
  Reported-convert {c = c} (stands a b k h) = rw (a, b, k, HasPath-resolve_path h)
  Reported-convert {c = c} (trashed a b k h) = rw (a, b, k, HasPath-resolve_path h)
  Reported-convert {c = c} (removed a b h) = rw (a, b, HasPath-resolve_path h)

-- A change that was read is reported as an addition exactly if it is not a removal, holds a file that is
-- not in the trash, and fewer than a hundred steps lead from the file's first parent to the root,
-- by the ids that are known: the metadata has the path of these steps. It is reported as a deletion
-- exactly if it holds a file in the trash with such a path, or is a removal of an id that is
-- known, with such a path.
pub convert_iff :
    (root : String) (parse_time : String → Option ℕ) (ids : IdMap) (c : DriveChange)
    (r : RemoteChange)
    → (convert root parse_time ids c ≡ some r) ↔ Reported root parse_time ids c r
convert_iff root parse_time ids c r =
    (convert-Reported root parse_time ids c r, Reported-convert root parse_time ids)
