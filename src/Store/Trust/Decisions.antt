-- ===== src/Store/Trust/Decisions.antt =====
-- Decisions on edges keep both graphs well formed, and so does every history of requests and
-- decisions.
use moltenhub.Base.{
  ◌≡◌, refl, ap, ◌∙◌, inl, inr, Bool, not, ◌&&◌, ◌||◌, some, [], arith, Bool-cases, Option-cases,
  is_empty,
}
use moltenhub.Base.Text.{Text, text_eq}
use moltenhub.Base.Dict.{Dict, get}
use moltenhub.Model.{TrustEdge, EdgeType, org, agent, unknown, blocked, revoked}
use moltenhub.Model.Value.{Metadata}
use moltenhub.Model.Clock.{Time}
use moltenhub.Store.State.{Result-cases, MemoryStore, Trusts, Directory, ok}
use moltenhub.Store.Roles.{can_request_agent_trust}
use moltenhub.Store.Queue.{live_agent}
use moltenhub.Store.Trust.Edge.{activate, manages_both}
use moltenhub.Store.Trust.Request.{create_or_join_agent_trust}
use moltenhub.Store.Trust.Decide.{
  load_edge_for_actor, load_org_edge, load_agent_edge, is_agent, store_edge, decided,
  approve_loaded, approve_edge, close_edge, approve_trust, block_trust, revoke_trust,
}
use moltenhub.Store.Trust.Consent.{
  IsConsistent, SameEnds, activate-IsConsistent, activate-SameEnds, approve_edge-IsConsistent,
  approve_edge-SameEnds, close_edge-IsConsistent, close_edge-SameEnds,
}
use moltenhub.Store.Trust.Graph.{store-IsGraph}
use moltenhub.Store.Trust.Safety.{
  IsTrusted, IsFresh, trusts-append_audit, create_or_join_trust-IsTrusted,
}

-- The edges of a kind.
abbrev pub edges_of : EdgeType → Trusts → Dict TrustEdge
edges_of org t = t.org_trusts
edges_of agent t = t.agent_trusts
edges_of (unknown _) t = []

load_org_edge_ok :
    (e f : TrustEdge) (actor : Text) (super : Bool) (d : Directory) (left : Bool) (side : Text)
    → load_org_edge e actor super d ≡ ok (f, left, side)
    → e ≡ f
unfolding load_org_edge
load_org_edge_ok e f actor super d left side h = ground arith

load_agent_edge_ok :
    (e f : TrustEdge) (actor : Text) (super : Bool) (d : Directory) (left : Bool) (side : Text)
    → load_agent_edge e actor super d ≡ ok (f, left, side)
    → e ≡ f
unfolding load_agent_edge
load_agent_edge_ok e f actor super d left side h = ground arith

-- What an actor may decide on is stored under the id.
pub load_edge_for_actor_ok :
    (kind : EdgeType) (id actor : Text) (super : Bool) (s : MemoryStore) (e : TrustEdge)
    (left : Bool) (side : Text)
    → load_edge_for_actor kind id actor super s ≡ ok (e, left, side)
    → get (edges_of kind s.trusts) id ≡ some e
unfolding load_edge_for_actor
load_edge_for_actor_ok (unknown _) id actor super s e left side h = cc
load_edge_for_actor_ok org id actor super s e left side h =
    elim (Option-cases (get s.org_trusts id)) [
      | inl missing ↦ ground arith
      | inr (f, found) ↦
          found
          ∙ ap (λ (x : TrustEdge). some x)
              (load_org_edge_ok f e actor super s.directory left side
                (rw (found, load_edge_for_actor) at h))
    ]
load_edge_for_actor_ok agent id actor super s e left side h =
    elim (Option-cases (get s.agent_trusts id)) [
      | inl missing ↦ ground arith
      | inr (f, found) ↦
          found
          ∙ ap (λ (x : TrustEdge). some x)
              (load_agent_edge_ok f e actor super s.directory left side
                (rw (found, load_edge_for_actor) at h))
    ]

store_edge-IsTrusted :
    (kind : EdgeType) (id : Text) (e f : TrustEdge) (t : Trusts)
    → get (edges_of kind t) id ≡ some e
    → SameEnds e f
    → IsConsistent f
    → IsTrusted t
    → IsTrusted (store_edge kind f t)
unfolding store_edge get
store_edge-IsTrusted org id e f t found same c v = record {
  org_graph = store-IsGraph _ _ v.org_graph id e f found same c;
  agent_graph = v.agent_graph;
}
store_edge-IsTrusted agent id e f t found same c v = record {
  org_graph = v.org_graph;
  agent_graph = store-IsGraph _ _ v.agent_graph id e f found same c;
}
store_edge-IsTrusted (unknown _) id e f t found same c v = cc

decided-IsTrusted :
    (kind : EdgeType) (side actor action : Text) (details : Metadata) (now : Time) (id : Text)
    (e f : TrustEdge) (s : MemoryStore)
    → get (edges_of kind s.trusts) id ≡ some e
    → SameEnds e f
    → IsConsistent f
    → IsTrusted s.trusts
    → IsTrusted (decided kind side actor action details now f s).1.trusts
unfolding decided
decided-IsTrusted kind side actor action details now id e f s found same c v =
    simp trusts-append_audit (store_edge-IsTrusted kind id e f s.trusts found same c v)

approve_loaded-IsTrusted :
    (kind : EdgeType) (actor : Text) (now : Time) (super : Bool) (id : Text) (e : TrustEdge)
    (left : Bool) (side : Text) (s : MemoryStore)
    → get (edges_of kind s.trusts) id ≡ some e
    → IsTrusted s.trusts
    → IsTrusted (approve_loaded kind actor now super e left side s).1.trusts
unfolding approve_loaded
approve_loaded-IsTrusted kind actor now super id e left side s found v =
    elim (Bool-cases (is_agent kind && (super || manages_both s.directory e actor))) [
      | inl both ↦
          rw (both, approve_loaded)
            (decided-IsTrusted kind side actor _ _ now id e (activate now e) s found
              (activate-SameEnds e now) (activate-IsConsistent e now) v)
      | inr one ↦
          rw (one, approve_loaded)
            (decided-IsTrusted kind side actor _ _ now id e (approve_edge left now e) s found
              (approve_edge-SameEnds e now left) (approve_edge-IsConsistent e now left) v)
    ]

module _ (kind : EdgeType) (id actor : Text) (now : Time) (super : Bool) (s : MemoryStore)
    (v : IsTrusted s.trusts) where
  pub approve_trust-IsTrusted : IsTrusted (approve_trust kind id actor now super s).1.trusts
  unfolding approve_trust
  approve_trust-IsTrusted = elim (Result-cases (load_edge_for_actor kind id actor super s)) [
    | inr (x, refused) ↦ rw (refused, approve_trust) v
    | inl ((e, left, side), loaded) ↦
        rw (loaded, approve_trust)
          (approve_loaded-IsTrusted kind actor now super id e left side s
            (load_edge_for_actor_ok kind id actor super s e left side loaded) v)
  ]

  pub block_trust-IsTrusted : IsTrusted (block_trust kind id actor now super s).1.trusts
  unfolding block_trust
  block_trust-IsTrusted = elim (Result-cases (load_edge_for_actor kind id actor super s)) [
    | inr (x, refused) ↦ rw (refused, block_trust) v
    | inl ((e, left, side), loaded) ↦
        rw (loaded, block_trust)
          (decided-IsTrusted kind side actor _ _ now id e (close_edge blocked now e) s
            (load_edge_for_actor_ok kind id actor super s e left side loaded)
            (close_edge-SameEnds e now blocked) (close_edge-IsConsistent e now blocked refl) v)
  ]

  pub revoke_trust-IsTrusted : IsTrusted (revoke_trust kind id actor now super s).1.trusts
  unfolding revoke_trust
  revoke_trust-IsTrusted = elim (Result-cases (load_edge_for_actor kind id actor super s)) [
    | inr (x, refused) ↦ rw (refused, revoke_trust) v
    | inl ((e, left, side), loaded) ↦
        rw (loaded, revoke_trust)
          (decided-IsTrusted kind side actor _ _ now id e (close_edge revoked now e) s
            (load_edge_for_actor_ok kind id actor super s e left side loaded)
            (close_edge-SameEnds e now revoked) (close_edge-IsConsistent e now revoked refl) v)
  ]

pub create_or_join_agent_trust-IsTrusted :
    (org_id uuid peer actor id : Text) (now : Time) (super : Bool) (s : MemoryStore)
    → IsFresh s.trusts id
    → IsTrusted s.trusts
    → IsTrusted (create_or_join_agent_trust org_id uuid peer actor id now super s).1.trusts
unfolding create_or_join_agent_trust
create_or_join_agent_trust-IsTrusted org_id uuid peer actor id now super s fresh v =
    elim (Option-cases (live_agent s.agents uuid)) [
      | inl nobody ↦ rw (nobody, create_or_join_agent_trust) v
      | inr (a, found) ↦
          elim (Bool-cases (not (is_empty org_id) && not (text_eq a.org_id org_id))) [
            | inl elsewhere ↦
                rw (found, create_or_join_agent_trust)
                  (rw (elsewhere, create_or_join_agent_trust) v)
            | inr here ↦
                elim (Bool-cases (not super && not (can_request_agent_trust s.directory a actor))) [
                  | inl refused ↦
                      rw (found, create_or_join_agent_trust)
                        (rw (here, create_or_join_agent_trust)
                          (rw (refused, create_or_join_agent_trust) v))
                  | inr granted ↦ elim (Option-cases (live_agent s.agents peer)) [
                    | inl nobody ↦
                        rw (found, create_or_join_agent_trust)
                          (rw (here, create_or_join_agent_trust)
                            (rw (granted, create_or_join_agent_trust)
                              (rw (nobody, create_or_join_agent_trust) v)))
                    | inr (b, there) ↦
                        rw (found, create_or_join_agent_trust)
                          (rw (here, create_or_join_agent_trust)
                            (rw (granted, create_or_join_agent_trust)
                              (rw (there, create_or_join_agent_trust)
                                (create_or_join_trust-IsTrusted agent uuid peer actor id now super s
                                  fresh v))))
                  ]
                ]
          ]
    ]
