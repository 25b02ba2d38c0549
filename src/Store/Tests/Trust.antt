-- ===== src/Store/Tests/Trust.antt =====
-- Trust between the two sample agents: requested and blocked.
use moltenhub.Base.{
  ◌≡◌, refl, ap, sym, ◌⊎◌, inl, inr, true, false, not, ◌||◌, ◌&&◌, some, [], ◌∷◌, ◌++◌, arith,
  Bool-cases, subst,
}
use moltenhub.Base.Text.{
  Text, text, text_eq, text_eq_iff, text_le, trim_space, trim_func, drop_while,
}
use moltenhub.Base.Dict.{get, put}
use moltenhub.Model.{Organization, TrustEdge, org, agent, active, pending, blocked, revoked}
use moltenhub.Store.State.{MemoryStore, Trusts, new_memory_store, ok}
use moltenhub.Store.Roles.{
  can_manage_agent, membership_role, has_role_at_least, role_rank, org_human_key,
}
use moltenhub.Store.Queue.{live_agent}
use moltenhub.Store.Publish.{can_publish_locked, orgs_differ, hosted_agent_pair_allowed, trusted}
use moltenhub.Store.Publish.Laws.{can_publish_locked_comm, block_trust-can_publish}
use moltenhub.Store.Trust.Edge.{
  pair_key, canonical_pair, new_edge, apply_trust_request, apply_agent_trust_request, force_active,
  activate, approve_side, reopen, settle,
}
use moltenhub.Store.Trust.Pairs.{pair_key_injective, pair_key_comm, IsPlain}
use moltenhub.Store.Trust.Request.{
  create_or_join_agent_trust, create_or_join_trust, create_or_join_agent, agent_request, join_agent,
  create_or_join_org_trust, create_or_join_org, join_org,
}
use moltenhub.Store.Trust.Decide.{
  block_trust, close_edge, approve_edge, load_edge_for_actor, load_agent_edge, decided,
  load_org_edge, store_edge, approve_trust, approve_loaded, approve_org_trust, block_org_trust,
  is_agent,
}
use moltenhub.Store.Trust.Consent.{IsConsistent}
use moltenhub.Store.Trust.Orgs.{OrgAsked, asks, starts, requests_both_sides}
use moltenhub.Store.Trust.Reopen.{one_side_after_close}
use moltenhub.Store.Audit.{append_audit}
use moltenhub.Store.Trust.Safety.{IsTrusted, trusts-append_audit}
use moltenhub.Store.Trust.History.{
  TrustStep, TrustReach, TrustReach-IsTrusted, HasConsent, can_publish_consent,
}
use moltenhub.Store.Tests.{ann, bob, with_agents}

-- A super admin's request needs no second approval.
abbrev agreed : MemoryStore
agreed =
    (create_or_join_agent_trust [] (text "a") (text "b") (text "h1") (text "e1") 200 true
      with_agents).1

to_agreed : TrustReach new_memory_store agreed
unfolding new_memory_store get
to_agreed =
    TrustReach.next (TrustReach.next TrustReach.here (TrustStep.elsewhere with_agents refl)) (
      TrustStep.requests_agent [] (text "a") (text "b") (text "h1") (text "e1") 200 true
        (record { fresh_org = refl; fresh_agent = refl }))

abbrev edge : TrustEdge
edge = record {
  edge_id = text "e1";
  edge_type = agent;
  left_id = text "a";
  right_id = text "b";
  state = active;
  left_approved = true;
  right_approved = true;
  created_by = text "h1";
  created_at = 200;
  updated_at = 200;
}

abbrev edges : Trusts
edges = record {
  org_trusts = [];
  org_trust_by_pair = [];
  agent_trusts = (text "e1", edge) ∷ [];
  agent_trust_by_pair = (text "a" ++ 0 ∷ text "b", text "e1") ∷ [];
}

agreed_trusts : agreed.trusts ≡ edges
unfolding create_or_join_agent_trust create_or_join_trust create_or_join_agent agent_request
    join_agent live_agent new_memory_store get put text_eq text_le canonical_pair pair_key
    force_active activate apply_agent_trust_request approve_side reopen settle new_edge
agreed_trusts = simp trusts-append_audit refl

edges_publish : can_publish_locked edges ann bob ≡ true
unfolding can_publish_locked hosted_agent_pair_allowed orgs_differ trusted get text_eq text_le
    canonical_pair pair_key trim_space trim_func drop_while
edges_publish = refl

can_publish_consent_example :
    HasConsent agreed.agent_trusts (pair_key (text "a") (text "b"))
    × ((orgs_differ (trim_space []) (trim_space []) ≡ false)
        ⊎ HasConsent agreed.org_trusts (pair_key (trim_space []) (trim_space [])))
can_publish_consent_example = can_publish_consent ann bob to_agreed (rw agreed_trusts edges_publish)

abbrev settled : MemoryStore
settled = record with_agents { trusts = agreed.trusts }

settled_at : get settled.agent_trust_by_pair (pair_key (text "a") (text "b")) ≡ some (text "e1")
unfolding get text_eq text_le canonical_pair pair_key
settled_at = rw agreed_trusts refl

block_accepted :
    (block_trust agent (text "e1") (text "h2") 300 false settled).0
    ≡ ok (close_edge blocked 300 edge)
unfolding block_trust load_edge_for_actor load_agent_edge get text_eq can_manage_agent
    membership_role org_human_key has_role_at_least role_rank decided new_memory_store
block_accepted = rw agreed_trusts refl

block_trust-can_publish_example :
    (can_publish_locked
        (block_trust agent (text "e1") (text "h2") 300 false settled).1.trusts
        ann
        bob
      ≡ false)
    × (can_publish_locked
          (block_trust agent (text "e1") (text "h2") 300 false settled).1.trusts
          bob
          ann
        ≡ false)
block_trust-can_publish_example =
    block_trust-can_publish (text "e1") (text "h2") 300 false settled ann bob
      (TrustReach-IsTrusted to_agreed) settled_at (close_edge blocked 300 edge) block_accepted

pair_key_injective_example :
    ((text "a" ≡ text "b") × (text "b" ≡ text "a"))
    ⊎ ((text "a" ≡ text "a") × (text "b" ≡ text "b"))
pair_key_injective_example =
    pair_key_injective (text "a") (text "b") (text "b") (text "a") plain_a plain_b plain_b plain_a
      (pair_key_comm (text "a") (text "b"))
  where
    plain_a : IsPlain (text "a")
    plain_a = ground arith

    plain_b : IsPlain (text "b")
    plain_b = ground arith

can_publish_locked_comm_example :
    can_publish_locked agreed.trusts ann bob ≡ can_publish_locked agreed.trusts bob ann
can_publish_locked_comm_example = can_publish_locked_comm agreed.trusts ann bob

-- Two organizations, of which each asks for trust in the other.
abbrev organization : Text → Organization
organization id = record {
  org_id = id;
  handle = id;
  display_name = id;
  metadata = [];
  created_at = 1;
  created_by = text "h";
}

abbrev with_two_orgs : MemoryStore
with_two_orgs = record new_memory_store {
  directory = record new_memory_store.directory {
    orgs = (text "o", organization (text "o")) ∷ (text "p", organization (text "p")) ∷ [];
  };
}

abbrev one_asked : MemoryStore
one_asked =
    (create_or_join_org_trust (text "o") (text "p") (text "h") (text "e") 8 true with_two_orgs).1

abbrev both_asked : MemoryStore
both_asked =
    (create_or_join_org_trust (text "p") (text "o") (text "k") (text "f") 9 true one_asked).1

abbrev asked_edge : TrustEdge
asked_edge = apply_trust_request (new_edge org (text "e") (text "o") (text "p") (text "h") 8) true 8

abbrev agreed_edge : TrustEdge
agreed_edge = apply_trust_request asked_edge false 9

both_ask :
    OrgAsked
      (text "o")
      (text "p")
      ((false || text_eq (text "o") (text "o")) || text_eq (text "p") (text "o"))
      ((false || not (text_eq (text "o") (text "o"))) || not (text_eq (text "p") (text "o")))
      both_asked
unfolding create_or_join_org_trust create_or_join_trust create_or_join_org join_org new_memory_store
    get put text_eq text_le canonical_pair pair_key apply_trust_request new_edge append_audit
    approve_side reopen settle
both_ask =
    asks (text "p") (text "o") (text "k") (text "f") 9 true false agreed_edge
      (asks (text "o") (text "p") (text "h") (text "e") 8 true true asked_edge
        (starts with_two_orgs refl) refl refl)
      refl refl

requests_both_sides_example :
    trusted both_asked.org_trust_by_pair both_asked.org_trusts (pair_key (text "o") (text "p")) ≡ (
      ((false || text_eq (text "o") (text "o")) || text_eq (text "p") (text "o"))
      && ((false || not (text_eq (text "o") (text "o"))) || not (text_eq (text "p") (text "o"))))
requests_both_sides_example = requests_both_sides both_ask

-- The trust is blocked, and the left side approves it.
abbrev org_edge : TrustEdge
org_edge = record {
  edge_id = text "e";
  edge_type = org;
  left_id = text "o";
  right_id = text "p";
  state = active;
  left_approved = true;
  right_approved = true;
  created_by = text "h";
  created_at = 7;
  updated_at = 7;
}

abbrev with_org_edge : MemoryStore
with_org_edge = record with_two_orgs {
  trusts = record with_two_orgs.trusts {
    org_trusts = (text "e", org_edge) ∷ [];
    org_trust_by_pair = (text "o" ++ 0 ∷ text "p", text "e") ∷ [];
  };
}

org_edge-IsTrusted : IsTrusted with_org_edge.trusts
unfolding get new_memory_store pair_key canonical_pair text_le text_eq
org_edge-IsTrusted = record {
  org_graph = record {
    keyed = λ id e h. ground (arith, text_eq_iff (text "e") id);
    consistent = λ id e h. elim (Bool-cases (text_eq (text "e") id)) [
      | inl here ↦
          let same : org_edge ≡ e = ground arith in
          subst (λ x. IsConsistent x) same (record { consent = refl })
      | inr there ↦ absurd (ground arith)
    ];
    indexed = λ key id h. elim (Bool-cases (text_eq (text "o" ++ 0 ∷ text "p") key)) [
      | inl here ↦
          let it : text "e" ≡ id = ground arith in
          (
            org_edge,
            ap (get with_org_edge.org_trusts) (sym it),
            (text_eq_iff (text "o" ++ 0 ∷ text "p") key).0 here,
          )
      | inr there ↦ absurd (ground arith)
    ];
  };
  agent_graph = record {
    keyed = λ id e h. cc;
    consistent = λ id e h. cc;
    indexed = λ key id h. cc;
  };
}

abbrev with_blocked : MemoryStore
with_blocked = (block_org_trust (text "e") (text "k") 8 true with_org_edge).1

one_side_after_close_example :
    (((close_edge blocked 8 org_edge).state ≡ blocked)
      ⊎ ((close_edge blocked 8 org_edge).state ≡ revoked))
    × ((approve_edge true 9 (close_edge blocked 8 org_edge)).state ≡ pending)
    × (get (approve_org_trust (text "e") (text "h") 9 true with_blocked).1.org_trusts (text "e")
        ≡ some (approve_edge true 9 (close_edge blocked 8 org_edge)))
unfolding block_trust approve_trust approve_loaded load_edge_for_actor load_org_edge decided
    store_edge close_edge is_agent get put text_eq new_memory_store append_audit
one_side_after_close_example =
    one_side_after_close (text "e") (text "k") 8 true with_org_edge with_blocked
      (close_edge blocked 8 org_edge) (text "h") 9 true
      (approve_org_trust (text "e") (text "h") 9 true with_blocked).1
      (approve_edge true 9 (close_edge blocked 8 org_edge)) org_edge-IsTrusted (inl refl) (inl refl)
