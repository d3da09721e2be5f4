-- ===== src/Backend/Forms.antt =====
-- The two forms in which Microsoft Graph names the folder of an item.
use Prim.Native.Char.{code}
use Prim.Native.String.{◌++◌, len, slice}
use text.Mathlib.Text.{starts_with, find?}
use text.Mathlib.TextPositions.{starts_with-append, slice-append_right, len-append}
use text.Mathlib.TextEquality.{starts_with_iff}
use text.Mathlib.TextLemmas.{
  append_assoc, append_cancel_left, nil-append, cons-append, head-eq_of_cons-eq,
}
use stratosync.Common.{
  ◌≡◌, ap, sym, ◌∙◌, arith, String, false, none, some, str_eq, if◌then◌else◌, Bool-cases, inl, inr,
  eq_iff,
}
use stratosync.Backend.Onedrive.{
  OneDriveItem, strip_prefix, after_id, from_slash, root_form, specific_drive, or_other, of_name,
  of_parent, in_folder, strip_onedrive_root_prefix, resolve_item_path,
}

strip_prefix-append : (s t : String) → strip_prefix (s ++ t) s ≡ some t
strip_prefix-append s t = rw (starts_with-append s t, len-append s t, slice-append_right s t)

-- What the two forms have in common ends before these characters.
apart : (a b : String) → "/drive" ++ ("/" ++ a) ≡ "/drive" ++ ("s" ++ b) → ⊥
apart a b e =
    let e' : "/" ++ a ≡ "s" ++ b = append_cancel_left "/drive" ("/" ++ a) ("s" ++ b) e in
    let e'' : String.◌∷◌ "/" a ≡ String.◌∷◌ "s" b =
      sym (ap (λ t. String.◌∷◌ "/" t) (nil-append a))
      ∙ sym (cons-append "/" "" a)
      ∙ e'
      ∙ cons-append "s" "" b
      ∙ ap (λ t. String.◌∷◌ "s" t) (nil-append b) in
    let same : code "/" ≡ code "s" = ap code (head-eq_of_cons-eq e'') in omega arith

default_form : (a : String) → "/drive/root" ++ a ≡ "/drive" ++ ("/" ++ ("root" ++ a))
default_form a =
    append_assoc "/drive" "/root" a ∙ ap (λ t. "/drive" ++ t) (append_assoc "/" "root" a)

specific_form : (x : String) → "/drives/" ++ x ≡ "/drive" ++ ("s" ++ ("/" ++ x))
specific_form x = append_assoc "/drive" "s/" x ∙ ap (λ t. "/drive" ++ t) (append_assoc "s" "/" x)

not_default : (x : String) → starts_with ("/drives/" ++ x) "/drive/root:" ≡ false
not_default x = elim (Bool-cases (starts_with ("/drives/" ++ x) "/drive/root:")) [
  | inr h ↦ h
  | inl h ↦
      let (a, e) = (starts_with_iff ("/drives/" ++ x) "/drive/root:").0 h in
      absurd (
        apart ("root" ++ (":" ++ a)) ("/" ++ x) (
          sym (default_form (":" ++ a))
          ∙ sym (append_assoc "/drive/root" ":" a)
          ∙ e
          ∙ specific_form x))
]

not_root : (x : String) → str_eq ("/drives/" ++ x) "/drive/root" ≡ false
not_root x = elim (Bool-cases (str_eq ("/drives/" ++ x) "/drive/root")) [
  | inr h ↦ h
  | inl h ↦ absurd (
      apart ("root" ++ "") ("/" ++ x)
        (sym (default_form "") ∙ sym ((eq_iff _ _).0 h) ∙ specific_form x))
]

slice_after : (s t : String) → slice (s ++ t) (len s) (len (s ++ t)) ≡ t
slice_after s t = ap (slice (s ++ t) (len s)) (len-append s t) ∙ slice-append_right s t

strip_specific :
    (id rest : String)
    → find? (id ++ ("/root:" ++ rest)) "/" ≡ some (len id)
    → strip_onedrive_root_prefix ("/drives/" ++ (id ++ ("/root:" ++ rest))) ≡ some rest
unfolding strip_onedrive_root_prefix
strip_specific id rest h =
    let x = id ++ ("/root:" ++ rest) in
    let raw = "/drives/" ++ x in
    ap (λ b. or_other raw (if b then some (slice raw 12 (len raw)) else none)) (not_default x)
    ∙ ap (λ b. if b then some "" else specific_drive (strip_prefix raw "/drives/")) (not_root x)
    ∙ ap specific_drive (strip_prefix-append "/drives/" x)
    ∙ ap (from_slash x) h
    ∙ ap after_id (slice_after id ("/root:" ++ rest))
    ∙ ap (root_form ("/root:" ++ rest)) (strip_prefix-append "/root:" rest)

strip_default : (rest : String) → strip_onedrive_root_prefix ("/drive/root:" ++ rest) ≡ some rest
unfolding strip_onedrive_root_prefix
strip_default rest =
    ap (or_other ("/drive/root:" ++ rest)) (strip_prefix-append "/drive/root:" rest)

-- An item with a name has the same path below the root of the mount in both forms in which its folder may be
-- named: by the drive of the account, and by the id of a drive, where the first slash behind `/drives/`
-- ends the id. The path is that of the rest of the folder's name.
pub resolve_item_path-forms :
    (root id rest name : String) (item : OneDriveItem)
    → item.name ≡ some name
    → item.parent_reference ≡ some (some ("/drives/" ++ (id ++ ("/root:" ++ rest))))
    → find? (id ++ ("/root:" ++ rest)) "/" ≡ some (len id)
    → (resolve_item_path root item ≡ in_folder root name (some rest))
      × (resolve_item_path root
            (record item { parent_reference = some (some ("/drive/root:" ++ rest)) })
          ≡ in_folder root name (some rest))
unfolding resolve_item_path
resolve_item_path-forms root id rest name item n p h = (
  ap (λ m. of_name root m item.parent_reference) n
      ∙ ap (of_parent root name) p
      ∙ ap (in_folder root name) (strip_specific id rest h),
  ap (λ m. of_name root m (some (some ("/drive/root:" ++ rest)))) n
      ∙ ap (in_folder root name) (strip_default rest),
)
