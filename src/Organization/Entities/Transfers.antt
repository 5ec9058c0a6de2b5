-- ===== src/Organization/Entities/Transfers.antt =====
-- What a transfer's body may say, once it is decoded and validated.
use go_web_service.Prelude.{
  String, ◌≡◌, subst, Bool, Option, none, some, Option-cases, List, arith, Result, ok, inl, inr,
}
use go_web_service.Organization.Entities.{
  TransferOrganization, JsonValue, null, text, other, unmarshal_transfer, unknown_key, raw_parent,
  decode_parent, validate_transfer,
}

-- The new parent that the body names, by the value under its key.
pub data Names : Option JsonValue → Option String → Type 0 where
  root : Names (some null) none
  parent : (s : String) → Names (some (text s)) (some s)

ok-injective : {A : Type 0} {a b : A} → ◌≡◌ {A = Result A} (ok a) (ok b) → a ≡ b
ok-injective h = ground arith

decoded-Names :
    (is_uuid : String → Bool) (value : Option JsonValue) {t : TransferOrganization}
    → decode_parent value ≡ ok t
    → validate_transfer is_uuid t ≡ none
    → Names value t.parent_id
unfolding decode_parent validate_transfer
decoded-Names is_uuid none {t} h k = absurd (ground arith)
decoded-Names is_uuid (some null) {t} h k =
    subst (λ (x : TransferOrganization). Names (some null) x.parent_id) (ok-injective h) root
decoded-Names is_uuid (some (text s)) {t} h k =
    subst (λ (x : TransferOrganization). Names (some (text s)) x.parent_id) (ok-injective h)
      (parent s)
decoded-Names is_uuid (some (other e)) h k = absurd (ground arith)

-- A transfer that is decoded and validated carried the key parent_id and no other key, and moves to
-- the root exactly where the key's value is null: a body that omits the key is never such a move.
pub unmarshal_transfer-Names :
    (is_uuid : String → Bool) (raw : List (String × JsonValue)) {t : TransferOrganization}
    → unmarshal_transfer (ok raw) ≡ ok t
    → validate_transfer is_uuid t ≡ none
    → (unknown_key raw ≡ none) × Names (raw_parent raw) t.parent_id
unfolding unmarshal_transfer
unmarshal_transfer-Names is_uuid raw h k = elim (Option-cases (unknown_key raw)) [
  | inl known ↦
      (known, decoded-Names is_uuid (raw_parent raw) (rw (unmarshal_transfer, known) at h) k)
  | inr (key, unknown) ↦ absurd (ground arith)
]
