-- ===== src/Backend/Pages.antt =====
-- What a call of `GoogleDriveDelta::changes_since` reads, and what it reports of that.
use stratosync.Common.{
  ◌==◌, ℕ, ◌↔◌, ◌≡◌, refl, ap, sym, ◌∙◌, arith, String, Bool, true, false, Option, none, some, List,
  [], ◌∷◌, ◌++◌, Bool-cases, Option-cases, inl, inr,
}
use mathlib.Core.List.{append_assoc}
use stratosync.Types.SyncError.{SyncError}
use stratosync.Sync.World.{Outcome, done, fault, backend}
use stratosync.Poller.Delta.{RemoteChange}
use stratosync.Backend.Http.{Http, page, status}
use stratosync.Backend.Parents.{IdMap}
use stratosync.Backend.Drive.{
  Drive, DriveChange, DrivePage, Fetched, collected, running, failed, collect, learn, asked,
  converted, changes_since, next_page, finish, authorised,
}

module _ (d : Drive) where
  -- The changes that the answers hold and the token behind the last page, where a 401 counts as no
  -- answer once, if the token is refreshed.
  pub data Reads : Bool → List (Http DrivePage) → List DriveChange → String → Type 0 where
    last :
        {retried : Bool} {p : DrivePage} {rest : List (Http DrivePage)} {token : String}
        → p.new_start_page_token ≡ some token
        → Reads retried (page p ∷ rest) p.changes token
    more :
        {retried : Bool} {p : DrivePage} {rest : List (Http DrivePage)} {raw : List DriveChange}
        {next token : String}
        → p.new_start_page_token ≡ none
        → p.next_page_token ≡ some next
        → Reads retried rest raw token
        → Reads retried (page p ∷ rest) (p.changes ++ raw) token
    again :
        {code : ℕ} {body : String} {rest : List (Http DrivePage)} {raw : List DriveChange}
        {token : String}
        → code ≡ 401
        → d.refresh ≡ none
        → Reads true rest raw token
        → Reads false (status code body ∷ rest) raw token

learn-append :
    (xs ys : List DriveChange) (ids : IdMap) → learn (xs ++ ys) ids ≡ learn ys (learn xs ids)
learn-append [] ys ids = refl
learn-append (c ∷ xs) ys ids = elim (Option-cases c.file) [
  | inl e ↦ rw (e, learn-append xs ys ids)
  | inr (f, e) ↦ rw (e, learn-append xs ys _)
]

module _ (d : Drive) where
  Reads-collect :
      {retried : Bool} {answers : List (Http DrivePage)} {raw : List DriveChange} {token : String}
      → Reads d retried answers raw token
      → (before : List DriveChange) (ids : IdMap)
      → collect d answers retried before ids ≡ collected (before ++ raw) (learn raw ids) token
  unfolding collect
  Reads-collect (last e) before ids = rw e
  Reads-collect (more {p = p} {raw = raw} e n r) before ids = rw (
    e,
    n,
    Reads-collect r (before ++ p.changes) (learn p.changes ids),
    append_assoc before p.changes raw,
    learn-append p.changes raw ids,
  )
  Reads-collect (again c e r) before ids = rw (c, e, Reads-collect r before ids)

  -- What a loop that has ended has read.
  record Read (retried : Bool) (answers : List (Http DrivePage)) (before : List DriveChange)
      (ids : IdMap) (raw : List DriveChange) (known : IdMap) (token : String) : Type 0 where
    own : List DriveChange
    reads : Reads d retried answers own token
    all : raw ≡ before ++ own
    learnt : known ≡ learn own ids

  paged :
      (p : DrivePage) (rest : List (Http DrivePage)) (retried : Bool) (before : List DriveChange)
      (ids : IdMap) (raw : List DriveChange) (known : IdMap) (token : String)
      → (collect d rest retried (before ++ p.changes) (learn p.changes ids)
            ≡ collected raw known token
          → Read retried rest (before ++ p.changes) (learn p.changes ids) raw known token)
      → (start next : Option String) → p.new_start_page_token ≡ start
      → p.next_page_token ≡ next
      → next_page d
          (collect d rest retried (before ++ p.changes) (learn p.changes ids))
          (before ++ p.changes)
          (learn p.changes ids)
          start
          next
        ≡ collected raw known token
      → Read retried (page p ∷ rest) before ids raw known token
  paged p rest retried before ids raw known token later none none s n e = cc
  paged p rest retried before ids raw known token later none (some u) s n e =
      let r = later e in
      record {
        own = p.changes ++ r.own;
        reads = more s n r.reads;
        all = r.all ∙ append_assoc before p.changes r.own;
        learnt = r.learnt ∙ sym (learn-append p.changes r.own ids);
      }
  paged p rest retried before ids raw known token later (some t) next s n e = record {
    own = p.changes;
    reads = last (s ∙ cc);
    all = cc;
    learnt = cc;
  }

  collect-Read :
      (answers : List (Http DrivePage)) (retried : Bool) (before : List DriveChange) (ids : IdMap)
      (raw : List DriveChange) (known : IdMap) (token : String)
      → collect d answers retried before ids ≡ collected raw known token
      → Read retried answers before ids raw known token
  unfolding collect
  collect-Read [] retried before ids raw known token e = cc
  collect-Read (Http.unsent m ∷ rest) retried before ids raw known token e = cc
  collect-Read (Http.unread m ∷ rest) retried before ids raw known token e = cc
  collect-Read (status code body ∷ rest) true before ids raw known token e = absurd (ground arith)
  collect-Read (status code body ∷ rest) false before ids raw known token e =
      elim (Bool-cases (code == 401)) [
        | inr c ↦ absurd (ground arith)
        | inl c ↦ elim (Option-cases d.refresh) [
          | inr (x, g) ↦ absurd (ground arith)
          | inl g ↦
              let r = collect-Read rest true before ids raw known token (ground arith) in
              record {
                own = r.own;
                reads = again (ground arith) g r.reads;
                all = r.all;
                learnt = r.learnt;
              }
        ]
      ]
  collect-Read (page p ∷ rest) retried before ids raw known token e =
      let later =
        collect-Read rest retried (before ++ p.changes) (learn p.changes ids) raw known token in
      paged p rest retried before ids raw known token later p.new_start_page_token p.next_page_token
        refl refl e

  finished :
      (f : Fetched) (out : List RemoteChange) (token : String)
      → finish d f ≡ some (done (out, token))
      → (raw : List DriveChange) × (ids : IdMap) × (f ≡ collected raw ids token)
        × (out ≡ converted d.root_folder_id d.parse_time (asked d raw ids) raw)
  finished running out token e = cc
  finished (failed x) out token e = cc
  finished (collected raw ids t) out token e = (raw, ids, cc, cc)

  returned :
      (answers : List (Http DrivePage)) (out : List RemoteChange) (token : String)
      → finish d (collect d answers false [] []) ≡ some (done (out, token))
      → (raw : List DriveChange) × Reads d false answers raw token
        × (out ≡ converted d.root_folder_id d.parse_time (asked d raw (learn raw [])) raw)
  returned answers out token e =
      let (raw, ids, f, o) = finished (collect d answers false [] []) out token e in
      let r = collect-Read answers false [] [] raw ids token f in
      (
        r.own,
        r.reads,
        o
            ∙ ap (λ p. converted d.root_folder_id d.parse_time (asked d p ids) p) r.all
            ∙ ap (λ k. converted d.root_folder_id d.parse_time (asked d r.own k) r.own) r.learnt,
      )

  failing :
      (x : SyncError) (y : List RemoteChange × String)
      → ◌≡◌ {A = Option (Outcome (List RemoteChange × String))}
          (some (fault (backend x)))
          (some (done y))
      → ⊥
  failing x y e = cc

  abbrev pub IsRead : List (Http DrivePage) → List RemoteChange → String → Type 0
  IsRead answers out token =
      (d.valid ≡ none)
      × (raw : List DriveChange) × Reads d false answers raw token
      × (out ≡ converted d.root_folder_id d.parse_time (asked d raw (learn raw [])) raw)

-- A call for the changes returns some, and a token, exactly if the token of the session is valid and the
-- answers are pages up to the first that has a new token, the one returned, where each page before it
-- names a next one, with at most one 401 among them, after which the token of the session is refreshed.
-- What it returns are the changes of all these pages, in their order, each converted by the ids of all of
-- them and of the parents that were asked for.
pub changes_since_iff :
    (d : Drive) (answers : List (Http DrivePage)) (out : List RemoteChange) (token : String)
    → (changes_since d answers ≡ some (done (out, token))) ↔ IsRead d answers out token
unfolding changes_since
changes_since_iff d answers out token = (
  λ e. elim (Option-cases d.valid) [
    | inl v ↦
        let e' = sym (ap (λ o. authorised d o (collect d answers false [] [])) v) ∙ e in
        let (raw, reads, o) = returned d answers out token e' in (v, raw, reads, o)
    | inr (x, v) ↦
        absurd
          (failing d x _ (sym (ap (λ o. authorised d o (collect d answers false [] [])) v) ∙ e))
  ],
  λ (v, raw, reads, o).
      ap (λ o. authorised d o (collect d answers false [] [])) v
      ∙ ap (finish d) (Reads-collect d reads [] [])
      ∙ ap (λ o. some (done (o, token))) (sym o),
)
