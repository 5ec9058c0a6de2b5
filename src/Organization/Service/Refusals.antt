-- ===== src/Organization/Service/Refusals.antt =====
-- What a command refused for its own fields answers, and that it changes nothing.
use go_web_service.Prelude.{
  ℕ, String, ◌≡◌, refl, Bool, true, false, Option, none, some, arith, if◌then◌else◌, ◌==◌, Error,
  Sentinel, Result, err, is, join_errors,
}
use go_web_service.Database.{Database}
use go_web_service.Data.Status.{bare}
use go_web_service.Organization.Backend.{Backend}
use go_web_service.Organization.Code.{matches_code}
use go_web_service.Organization.Entities.{
  CreateOrganization, EditOrganization, TransferOrganization, invalid, valid_code, valid_name,
  valid_parent, validate_create, validate_edit, validate_transfer,
}
use go_web_service.Organization.Service.{
  matched_status, accepted, create_organization, edit_organization, transfer_organization,
}

-- What a validation refuses is the invalid command's error.
abbrev pub AreInvalid : Option Error → Type 0
AreInvalid none = Unit
AreInvalid (some e) = is e Sentinel.invalid_command ≡ true

join_errors-AreInvalid :
    (a b : Option Error) → AreInvalid a → AreInvalid b → AreInvalid (join_errors a b)
unfolding is
join_errors-AreInvalid none none h k = tt
join_errors-AreInvalid none (some e) h k = k
join_errors-AreInvalid (some e) none h k = h
join_errors-AreInvalid (some e) (some f) h k = ground arith

checked : (b : Bool) (reason : String) → AreInvalid (if b then none else some (invalid reason))
unfolding is
checked true reason = tt
checked false reason = refl

valid_code-AreInvalid : (code : String) → AreInvalid (valid_code code)
unfolding valid_code
valid_code-AreInvalid code = checked (matches_code code) _

unchecked : (b : Bool) (reason : String) → AreInvalid (if b then some (invalid reason) else none)
unfolding is
unchecked true reason = refl
unchecked false reason = tt

valid_name-AreInvalid : (name : String) → AreInvalid (valid_name name)
unfolding valid_name
valid_name-AreInvalid name = unchecked (name == "") _

valid_parent-AreInvalid :
    (is_uuid : String → Bool) (p : Option String) → AreInvalid (valid_parent is_uuid p)
unfolding valid_parent
valid_parent-AreInvalid is_uuid none = tt
valid_parent-AreInvalid is_uuid (some p) = checked (is_uuid p) _

edit-AreInvalid : (e : EditOrganization) → AreInvalid (validate_edit e)
unfolding validate_edit
edit-AreInvalid e =
    join_errors-AreInvalid (valid_code e.code) (valid_name e.name) (valid_code-AreInvalid e.code)
      (valid_name-AreInvalid e.name)

create-AreInvalid :
    (is_uuid : String → Bool) (c : CreateOrganization) → AreInvalid (validate_create is_uuid c)
unfolding validate_create
create-AreInvalid is_uuid c =
    join_errors-AreInvalid (join_errors (valid_code c.code) (valid_name c.name))
      (valid_parent is_uuid c.parent_id)
      (join_errors-AreInvalid (valid_code c.code) (valid_name c.name) (valid_code-AreInvalid c.code)
        (valid_name-AreInvalid c.name))
      (valid_parent-AreInvalid is_uuid c.parent_id)

transfer_by :
    (is_uuid : String → Bool) (b : Bool) (p : Option String) (reason : String)
    → AreInvalid (if b then valid_parent is_uuid p else some (invalid reason))
unfolding is
transfer_by is_uuid true p reason = valid_parent-AreInvalid is_uuid p
transfer_by is_uuid false p reason = refl

transfer-AreInvalid :
    (is_uuid : String → Bool) (t : TransferOrganization) → AreInvalid (validate_transfer is_uuid t)
unfolding validate_transfer
transfer-AreInvalid is_uuid t = transfer_by is_uuid t.present t.parent_id _

-- The refused command's answer: 400, and the state as it was.
abbrev pub IsRefused : {S A : Type 0} → Error → Result A × S → S → Type 0
IsRefused {S} {A} e r db = (r ≡ (err e, db)) × (matched_status e ≡ some (bare 400))

accepted-IsRefused :
    {S A : Type 0} (v : Option Error) (command : S → Result A × S) (db : S) {e : Error}
    → AreInvalid v
    → v ≡ some e
    → IsRefused e (accepted v command db) db
unfolding matched_status
accepted-IsRefused none command db h k = cc
accepted-IsRefused (some x) command db h k = (ground arith, ground arith)

module _ {Tree : Type 0} (b : Backend Tree) (is_uuid : String → Bool) (db : Database Tree) where
  -- A create, an edit or a transfer that its own fields refuse never reaches the store: the database
  -- stays as it was and the domain's matcher answers the refusal 400.
  pub invalid-matched_status :
      (id : String) (version : ℕ) (c : CreateOrganization) (e : EditOrganization)
      (t : TransferOrganization) (x y z : Error)
      → validate_create is_uuid c ≡ some x
      → validate_edit e ≡ some y
      → validate_transfer is_uuid t ≡ some z
      → IsRefused x (create_organization b is_uuid c db) db
        × IsRefused y (edit_organization b is_uuid id version e db) db
        × IsRefused z (transfer_organization b is_uuid id version t db) db
  unfolding create_organization edit_organization transfer_organization
  invalid-matched_status id version c e t x y z h k l = (
    accepted-IsRefused (validate_create is_uuid c) _ db (create-AreInvalid is_uuid c) h,
    accepted-IsRefused (validate_edit e) _ db (edit-AreInvalid e) k,
    accepted-IsRefused (validate_transfer is_uuid t) _ db (transfer-AreInvalid is_uuid t) l,
  )
