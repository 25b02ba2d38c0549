-- ===== src/Store/Trust/Edge.antt =====
-- One trust edge: the pair that it joins, and how requests and decisions change it, in
-- internal/store/memory.go.
use moltenhub.Base.{Bool, true, false, ◌&&◌, ◌||◌, [], ◌∷◌, ◌++◌, if◌then◌else◌}
use moltenhub.Base.Text.{Text, text, text_eq, text_le}
use moltenhub.Model.{
  TrustEdge, EdgeType, unknown, Status, unset, pending, active, blocked, revoked, expired, deleted,
}
use moltenhub.Model.Clock.{Time}
use moltenhub.Store.State.{Directory}
use moltenhub.Store.Roles.{can_manage_agent_by_id}

unfoldable pub canonical_pair : Text → Text → Text × Text
canonical_pair a b = if text_le a b then (a, b) else (b, a)

-- pairKey: the pair in canonical order, joined by a NUL byte.
unfoldable pub pair_key : Text → Text → Text
unfolding canonical_pair
pair_key a b = let (left, right) = canonical_pair a b in left ++ 0 ∷ right

abbrev pub is_closed : Status → Bool
is_closed blocked = true
is_closed revoked = true
is_closed _ = false

-- A blocked or revoked edge starts again with no approval.
unfoldable pub reopen : TrustEdge → TrustEdge
reopen e =
    if is_closed e.state
    then record e { state = pending; left_approved = false; right_approved = false }
    else e

unfoldable pub approve_side : Bool → TrustEdge → TrustEdge
approve_side true e = record e { left_approved = true }
approve_side false e = record e { right_approved = true }

-- Active if both sides have approved, and pending otherwise.
unfoldable pub settle : Time → TrustEdge → TrustEdge
settle now e = record e {
  state = if e.left_approved && e.right_approved then active else pending;
  updated_at = now;
}

unfoldable pub apply_trust_request : TrustEdge → Bool → Time → TrustEdge
unfolding reopen approve_side settle
apply_trust_request e is_left now = settle now (approve_side is_left (reopen e))

unfoldable pub apply_agent_trust_request : TrustEdge → Bool → Bool → Time → TrustEdge
unfolding reopen approve_side settle
apply_agent_trust_request e is_left can_approve now =
    settle now (if can_approve then approve_side is_left (reopen e) else reopen e)

unfoldable pub opposite : TrustEdge → Text → Text
opposite e id = if text_eq e.left_id id then e.right_id else e.left_id

unfoldable pub state_text : Status → Text
state_text unset = []
state_text pending = text "pending"
state_text active = text "active"
state_text blocked = text "blocked"
state_text revoked = text "revoked"
state_text expired = text "expired"
state_text deleted = text "deleted"

-- The zero value that a missing map entry reads as.
abbrev pub no_edge : TrustEdge
no_edge = record {
  edge_id = [];
  edge_type = unknown [];
  left_id = [];
  right_id = [];
  state = unset;
  left_approved = false;
  right_approved = false;
  created_by = [];
  created_at = 0;
  updated_at = 0;
}

unfoldable pub new_edge : EdgeType → Text → Text → Text → Text → Time → TrustEdge
new_edge kind edge_id left right actor now = record {
  edge_id = edge_id;
  edge_type = kind;
  left_id = left;
  right_id = right;
  state = pending;
  left_approved = false;
  right_approved = false;
  created_by = actor;
  created_at = now;
  updated_at = now;
}

unfoldable pub manages_both : Directory → TrustEdge → Text → Bool
manages_both d e actor =
    can_manage_agent_by_id d e.left_id actor && can_manage_agent_by_id d e.right_id actor

unfoldable pub activate : Time → TrustEdge → TrustEdge
activate now e = record e {
  left_approved = true;
  right_approved = true;
  state = active;
  updated_at = now;
}

-- An actor who may manage both sides, or a super admin, needs no second approval.
unfoldable pub force_active : Directory → Bool → Text → Time → TrustEdge → TrustEdge
unfolding manages_both activate
force_active d super actor now e = if super || manages_both d e actor then activate now e else e
