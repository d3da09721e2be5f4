-- ===== src/Backend/Parents.antt =====
-- `GoogleDriveDelta::resolve_path` of crates/stratosync-core/src/backend/delta.rs: the path of a file by
-- the ids of its parents.
use Prim.Native.String
use stratosync.Common.{
  ℕ, zero, suc, String, Option, none, some, List, [], ◌∷◌, str_eq, Texts, lookup, if◌then◌else◌,
}

-- `id_map`: the name and the parents of an id.
abbrev pub Entry : Type 0
Entry = String × List String

abbrev pub IdMap : Type 0
IdMap = Texts Entry

-- `join("/")`
abbrev pub join : List String → String
join [] = ""
join (s ∷ []) = s
join (s ∷ t ∷ ss) = let rest = join (t ∷ ss) in String.◌++◌ s (String.◌++◌ "/" rest)

-- From an id that is not the root to its first parent, with the name on the way.
abbrev pub step_up : Option Entry → (String → String → Option String) → Option String
step_up none go = none
step_up (some (name, [])) go = none
step_up (some (name, g ∷ gs)) go = go name g

module _ (root : String) (ids : IdMap) where
  -- At most `left` steps; the components of the path stand in their order.
  unfoldable pub climb : ℕ → String → List String → Option String
  climb zero current components = none
  climb (suc left) current components =
      let go = λ (name g : String). climb left g (name ∷ components) in
      if str_eq current root then some (join components) else step_up (lookup current ids) go

  -- The first parent counts: a file of Google Drive has one.
  unfoldable pub resolve_path : String → List String → Option String
  resolve_path name [] = none
  resolve_path name (p ∷ ps) = climb 100 p (name ∷ [])
