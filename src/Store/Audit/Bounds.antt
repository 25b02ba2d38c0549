-- ===== src/Store/Audit/Bounds.antt =====
-- The bound of the audit trail: `appendAuditLocked` of internal/store/memory.go.
use moltenhub.Base.{
  ◌++◌, ℕ, zero, suc, ◌-◌, ◌≤◌, ◌≡◌, inl, inr, false, List, [], ◌∷◌, length, drop, ltb, Bool-cases,
  arith,
}
use moltenhub.Base.Text.{Text, text_eq}
use moltenhub.Base.Dict.{get-put_self, get-put}
use moltenhub.Model.Value.{Metadata}
use moltenhub.Model.Clock.{Time}
use moltenhub.Store.State.{MemoryStore}
use moltenhub.Store.Activity.{keep_last}
use moltenhub.Store.Audit.{append_audit, audit_of, audit_limit}

length-drop {ℓ} : {A : Type ℓ} (n : ℕ) (xs : List A) → length (drop n xs) ≡ length xs - n
length-drop zero xs = omega arith
length-drop (suc n) [] = omega arith
length-drop (suc n) (x ∷ xs) = omega (arith, length-drop n xs)

length-keep_last {ℓ} : {A : Type ℓ} (n : ℕ) (xs : List A) → length (keep_last n xs) ≤ n
length-keep_last n xs = elim (Bool-cases (ltb n (length xs))) [
  | inl long ↦ rw long (ground (arith, length-drop (length xs - n) xs))
  | inr short ↦ rw short (ground arith)
]

-- After an event is recorded for an organization its trail has at most 200 events, and the trails
-- of the others are as they were.
pub append_audit-audit_of :
    (org actor category action subject : Text) (details : Metadata) (now : Time) (s : MemoryStore)
    (other : Text)
    → text_eq org other ≡ false
    → let t = append_audit org actor category action subject details now s in
      (length (audit_of t.ledger org) ≤ audit_limit)
      × (audit_of t.ledger other ≡ audit_of s.ledger other)
unfolding append_audit
append_audit-audit_of org actor category action subject details now s other apart = (
  rw (get-put_self s.audit_by_org org _)
      (length-keep_last audit_limit (audit_of s.ledger org ++ _ ∷ [])),
  rw (get-put s.audit_by_org org other _, apart),
)
