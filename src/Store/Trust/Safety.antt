-- ===== src/Store/Trust/Safety.antt =====
-- Every operation on trust keeps both graphs well formed, so an active edge in the store has the
-- approval of both sides.
use moltenhub.Base.{
  ◌≡◌, refl, ◌∙◌, inl, inr, Bool, not, ◌&&◌, ◌||◌, Option, none, some, Bool-cases, Option-cases,
}
use moltenhub.Base.Text.{Text, text_eq}
use moltenhub.Base.Dict.{get}
use moltenhub.Model.{TrustEdge, EdgeType, org, agent, unknown, Agent, admin}
use moltenhub.Model.Value.{Metadata}
use moltenhub.Model.Clock.{Time}
use moltenhub.Store.State.{MemoryStore, Trusts}
use moltenhub.Store.Roles.{can_request_agent_trust, has_role_at_least, membership_role}
use moltenhub.Store.Audit.{append_audit}
use moltenhub.Store.Trust.Edge.{canonical_pair, pair_key, apply_agent_trust_request, new_edge}
use moltenhub.Store.Trust.Request.{
  join_org, join_agent, create_or_join_org, create_or_join_agent, agent_request,
  create_or_join_trust, is_missing,
}
use moltenhub.Store.Trust.Consent.{
  SameEnds, apply_trust_request-IsConsistent, apply_trust_request-SameEnds,
  apply_agent_trust_request-IsConsistent, apply_agent_trust_request-SameEnds,
  force_active-IsConsistent, force_active-SameEnds,
}
use moltenhub.Store.Trust.Graph.{IsGraph, update-IsGraph, request-IsGraph}

pub record IsTrusted (t : Trusts) : Type 0 where
  pub org_graph : IsGraph t.org_trusts t.org_trust_by_pair
  pub agent_graph : IsGraph t.agent_trusts t.agent_trust_by_pair

-- The id that the caller draws for a new edge names no edge yet.
pub record IsFresh (t : Trusts) (id : Text) : Type 0 where
  pub fresh_org : get t.org_trusts id ≡ none
  pub fresh_agent : get t.agent_trusts id ≡ none

pub trusts-append_audit :
    (side actor category action subject : Text) (details : Metadata) (now : Time) (s : MemoryStore)
    → (append_audit side actor category action subject details now s).trusts ≡ s.trusts
unfolding append_audit
trusts-append_audit side actor category action subject details now s = refl

SameEnds-trans : {e f g : TrustEdge} → SameEnds e f → SameEnds f g → SameEnds e g
SameEnds-trans a b = record {
  same_id = b.same_id ∙ a.same_id;
  same_left = b.same_left ∙ a.same_left;
  same_right = b.same_right ∙ a.same_right;
}

join_org-IsTrusted :
    (o : Option Text) (side left right actor id : Text) (now : Time) (s : MemoryStore)
    → get s.org_trust_by_pair (pair_key left right) ≡ o
    → IsFresh s.trusts id
    → IsTrusted s.trusts
    → IsTrusted (join_org o (pair_key left right) side left right actor id now s).1.trusts
unfolding join_org
join_org-IsTrusted none side left right actor id now s e fresh t =
    simp trusts-append_audit (record {
      org_graph =
          request-IsGraph _ _ t.org_graph _ (new_edge org id left right actor now) _ fresh.fresh_org
            refl (apply_trust_request-SameEnds _ now _) (apply_trust_request-IsConsistent _ now _);
      agent_graph = t.agent_graph;
    })
join_org-IsTrusted (some old) side left right actor id now s e fresh t =
    let (f, found, joins) = t.org_graph.indexed (pair_key left right) old e in
    simp trusts-append_audit (
      rw found (record {
        org_graph =
            update-IsGraph _ _ t.org_graph old f _ found (apply_trust_request-SameEnds f now _)
              (apply_trust_request-IsConsistent f now _);
        agent_graph = t.agent_graph;
      }))

join_agent-IsTrusted :
    (o : Option Text) (org_id : Text) (can_approve : Bool) (side left right actor id : Text)
    (now : Time) (super : Bool) (s : MemoryStore)
    → get s.agent_trust_by_pair (pair_key left right) ≡ o
    → IsFresh s.trusts id
    → IsTrusted s.trusts
    → IsTrusted
        (join_agent o
          (pair_key left right)
          org_id
          can_approve
          side
          left
          right
          actor
          id
          now
          super
          s).1.trusts
unfolding join_agent
join_agent-IsTrusted none org_id can_approve side left right actor id now super s e fresh t =
    let asked =
      apply_agent_trust_request (new_edge agent id left right actor now) (text_eq side left)
        can_approve now in
    simp trusts-append_audit (record {
      org_graph = t.org_graph;
      agent_graph =
          request-IsGraph _ _ t.agent_graph _ (new_edge agent id left right actor now) _
            fresh.fresh_agent refl
            (SameEnds-trans (apply_agent_trust_request-SameEnds _ now _ can_approve)
              (force_active-SameEnds asked now s.directory super actor))
            (force_active-IsConsistent asked now s.directory super actor
              (apply_agent_trust_request-IsConsistent _ now _ can_approve));
    })
join_agent-IsTrusted (some old) org_id can_approve side left right actor id now super s e fresh t =
    let (f, found, joins) = t.agent_graph.indexed (pair_key left right) old e in
    let asked = apply_agent_trust_request f (text_eq side f.left_id) can_approve now in
    simp trusts-append_audit (
      rw found (record {
        org_graph = t.org_graph;
        agent_graph =
            update-IsGraph _ _ t.agent_graph old f _ found
              (SameEnds-trans (apply_agent_trust_request-SameEnds f now _ can_approve)
                (force_active-SameEnds asked now s.directory super actor))
              (force_active-IsConsistent asked now s.directory super actor
                (apply_agent_trust_request-IsConsistent f now _ can_approve));
      }))

create_or_join_org-IsTrusted :
    (side peer actor id : Text) (now : Time) (super : Bool) (s : MemoryStore)
    → IsFresh s.trusts id
    → IsTrusted s.trusts
    → IsTrusted (create_or_join_org side peer actor id now super s).1.trusts
unfolding create_or_join_org
create_or_join_org-IsTrusted side peer actor id now super s fresh t =
    let pair = canonical_pair side peer in
    elim (Bool-cases (is_missing (get s.orgs pair.0) || is_missing (get s.orgs pair.1))) [
      | inl missing ↦ rw (missing, create_or_join_org) t
      | inr there ↦
          elim (Bool-cases
            (not super && not (has_role_at_least (membership_role s.directory side actor) admin))) [
              | inl refused ↦ rw (there, create_or_join_org) (rw (refused, create_or_join_org) t)
              | inr granted ↦
                  rw (there, create_or_join_org)
                    (rw (granted, create_or_join_org)
                      (join_org-IsTrusted _ side pair.0 pair.1 actor id now s refl fresh t))
            ]
    ]

agent_request-IsTrusted :
    (side_agent : Agent) (side peer actor id : Text) (now : Time) (super : Bool) (s : MemoryStore)
    → IsFresh s.trusts id
    → IsTrusted s.trusts
    → IsTrusted (agent_request side_agent side peer actor id now super s).1.trusts
unfolding agent_request
agent_request-IsTrusted side_agent side peer actor id now super s fresh t =
    let pair = canonical_pair side peer in
    elim (Bool-cases (not super && not (can_request_agent_trust s.directory side_agent actor))) [
      | inl refused ↦ rw (refused, agent_request) t
      | inr granted ↦
          rw (granted, agent_request)
            (join_agent-IsTrusted _ _ _ side pair.0 pair.1 actor id now super s refl fresh t)
    ]

create_or_join_agent-IsTrusted :
    (side peer actor id : Text) (now : Time) (super : Bool) (s : MemoryStore)
    → IsFresh s.trusts id
    → IsTrusted s.trusts
    → IsTrusted (create_or_join_agent side peer actor id now super s).1.trusts
unfolding create_or_join_agent
create_or_join_agent-IsTrusted side peer actor id now super s fresh t =
    let pair = canonical_pair side peer in
    elim (Bool-cases (is_missing (get s.agents pair.0) || is_missing (get s.agents pair.1))) [
      | inl missing ↦ rw (missing, create_or_join_agent) t
      | inr there ↦ elim (Option-cases (get s.agents side)) [
        | inl nobody ↦ rw (there, create_or_join_agent) (rw (nobody, create_or_join_agent) t)
        | inr (a, found) ↦
            rw (there, create_or_join_agent)
              (rw (found, create_or_join_agent)
                (agent_request-IsTrusted a side peer actor id now super s fresh t))
      ]
    ]

pub create_or_join_trust-IsTrusted :
    (kind : EdgeType) (side peer actor id : Text) (now : Time) (super : Bool) (s : MemoryStore)
    → IsFresh s.trusts id
    → IsTrusted s.trusts
    → IsTrusted (create_or_join_trust kind side peer actor id now super s).1.trusts
unfolding create_or_join_trust
create_or_join_trust-IsTrusted (unknown _) side peer actor id now super s fresh t = t
create_or_join_trust-IsTrusted org side peer actor id now super s fresh t =
    elim (Bool-cases (text_eq side peer)) [
      | inl self ↦ rw (self, create_or_join_trust) t
      | inr two ↦
          rw (two, create_or_join_trust)
            (create_or_join_org-IsTrusted side peer actor id now super s fresh t)
    ]
create_or_join_trust-IsTrusted agent side peer actor id now super s fresh t =
    elim (Bool-cases (text_eq side peer)) [
      | inl self ↦ rw (self, create_or_join_trust) t
      | inr two ↦
          rw (two, create_or_join_trust)
            (create_or_join_agent-IsTrusted side peer actor id now super s fresh t)
    ]
