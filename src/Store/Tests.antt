-- ===== src/Store/Tests.antt =====
-- Sample data for the tests of the store: two agents of no organization with different owners, a
-- message from one to the other, and the stores that it goes through.
mod Messages
mod Leases
mod Trust
mod Peers
mod Accounts
mod Agents
use moltenhub.Base.{Option, none, some, [], ◌∷◌}
use moltenhub.Base.Text.{Text, text}
use moltenhub.Model.{Agent, Message, Status, active, unset}
use moltenhub.Model.Clock.{Time}
use moltenhub.Store.State.{MemoryStore, new_memory_store}
use moltenhub.Store.Messages.{create_or_get_message_record}
use moltenhub.Store.Queue.{enqueue, dequeue}
use moltenhub.Store.Leases.{lease_message}

abbrev pub sample_agent : Text → Text → Text → Agent
sample_agent uuid org human = record {
  agent_uuid = uuid;
  agent_id = uuid;
  handle = uuid;
  handle_finalized_at = none;
  org_id = org;
  owner_human_id = some human;
  host_agent_uuid = [];
  token_hash = [];
  status = active;
  metadata = [];
  created_by = human;
  created_at = 100;
  revoked_at = none;
}

abbrev pub ann : Agent
ann = sample_agent (text "a") [] (text "h1")

abbrev pub bob : Agent
bob = sample_agent (text "b") [] (text "h2")

abbrev pub hello : Message
hello = record {
  message_id = text "m1";
  from_agent_uuid = text "a";
  to_agent_uuid = text "b";
  from_agent_id = text "a";
  to_agent_id = text "b";
  from_agent_uri = [];
  to_agent_uri = [];
  sender_org_id = [];
  receiver_org_id = [];
  receiver_peer_id = [];
  content_type = text "text/plain";
  payload = text "hello";
  client_msg_id = some (text "c1");
  created_at = 500;
}

abbrev pub with_agents : MemoryStore
with_agents = record new_memory_store {
  directory = record {
    orgs = [];
    memberships = [];
    membership_by_org_user = [];
    agents = (text "a", ann) ∷ (text "b", bob) ∷ [];
  };
}

abbrev pub with_record : MemoryStore
with_record = (create_or_get_message_record hello 500 with_agents).1

abbrev pub with_message : MemoryStore
with_message = (enqueue hello with_record).1

abbrev pub with_taken : MemoryStore
with_taken = (dequeue (text "b") with_message).1

abbrev pub with_lease : MemoryStore
with_lease = (lease_message (text "m1") (text "b") (text "d1") 600 900 with_taken).1
