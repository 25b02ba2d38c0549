-- ===== src/Store/Trust/Consent.antt =====
-- Operations on one trust edge: an edge that is active exactly while both of its sides approve
-- stays so, and keeps its ends.
use moltenhub.Base.{◌≡◌, Bool, true, false, ◌&&◌, arith, if◌then◌else◌}
use moltenhub.Base.Text.{Text}
use moltenhub.Model.{TrustEdge, Status, pending}
use moltenhub.Model.Clock.{Time}
use moltenhub.Store.State.{Directory}
use moltenhub.Store.Roles.{is_active}
use moltenhub.Store.Trust.Edge.{
  apply_trust_request, apply_agent_trust_request, force_active, activate, settle, approve_side,
  reopen, is_closed,
}
use moltenhub.Store.Trust.Decide.{approve_edge, close_edge}

pub record IsConsistent (e : TrustEdge) : Type 0 where
  pub consent : is_active e.state ≡ (e.left_approved && e.right_approved)

-- The identity of an edge: its id and its two ends.
pub record SameEnds (e f : TrustEdge) : Type 0 where
  pub same_id : f.edge_id ≡ e.edge_id
  pub same_left : f.left_id ≡ e.left_id
  pub same_right : f.right_id ≡ e.right_id

settle-IsConsistent : (now : Time) (e : TrustEdge) → IsConsistent (settle now e)
unfolding settle
settle-IsConsistent now e = ground arith

module _ (e : TrustEdge) (now : Time) where
  pub apply_trust_request-IsConsistent :
      (left : Bool) → IsConsistent (apply_trust_request e left now)
  unfolding apply_trust_request
  apply_trust_request-IsConsistent left = settle-IsConsistent now (approve_side left (reopen e))

  pub apply_trust_request-SameEnds : (left : Bool) → SameEnds e (apply_trust_request e left now)
  unfolding apply_trust_request
  apply_trust_request-SameEnds true = ground arith
  apply_trust_request-SameEnds false = ground arith

  pub apply_agent_trust_request-IsConsistent :
      (left can_approve : Bool) → IsConsistent (apply_agent_trust_request e left can_approve now)
  unfolding apply_agent_trust_request
  apply_agent_trust_request-IsConsistent left can_approve =
      settle-IsConsistent now (if can_approve then approve_side left (reopen e) else reopen e)

  pub apply_agent_trust_request-SameEnds :
      (left can_approve : Bool) → SameEnds e (apply_agent_trust_request e left can_approve now)
  unfolding apply_agent_trust_request
  apply_agent_trust_request-SameEnds true can_approve = ground arith
  apply_agent_trust_request-SameEnds false can_approve = ground arith

  pub force_active-IsConsistent :
      (d : Directory) (super : Bool) (actor : Text)
      → IsConsistent e
      → IsConsistent (force_active d super actor now e)
  unfolding force_active
  force_active-IsConsistent d super actor c = ground arith

  pub force_active-SameEnds :
      (d : Directory) (super : Bool) (actor : Text) → SameEnds e (force_active d super actor now e)
  unfolding force_active
  force_active-SameEnds d super actor = ground arith

  pub activate-IsConsistent : IsConsistent (activate now e)
  unfolding activate
  activate-IsConsistent = ground arith

  pub activate-SameEnds : SameEnds e (activate now e)
  unfolding activate
  activate-SameEnds = ground arith

  pub approve_edge-IsConsistent : (left : Bool) → IsConsistent (approve_edge left now e)
  unfolding approve_edge
  approve_edge-IsConsistent left =
      settle-IsConsistent now
        (approve_side left (if is_closed e.state then record e { state = pending } else e))

  pub approve_edge-SameEnds : (left : Bool) → SameEnds e (approve_edge left now e)
  unfolding approve_edge
  approve_edge-SameEnds true = ground arith
  approve_edge-SameEnds false = ground arith

  pub close_edge-IsConsistent :
      (state : Status) → is_active state ≡ false → IsConsistent (close_edge state now e)
  unfolding close_edge
  close_edge-IsConsistent state h = ground arith

  pub close_edge-SameEnds : (state : Status) → SameEnds e (close_edge state now e)
  unfolding close_edge
  close_edge-SameEnds state = ground arith
