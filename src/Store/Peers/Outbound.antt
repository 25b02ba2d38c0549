-- ===== src/Store/Peers/Outbound.antt =====
-- The messages that wait for delivery to a peer in internal/store/memory.go.
pub mod Due
use moltenhub.Base.{
  ℕ, ◌+◌, Bool, true, false, not, ◌&&◌, none, some, List, [], ◌∷◌, ◌++◌, ltb, ◌==◌, take, length,
  is_empty, if◌then◌else◌,
}
use moltenhub.Base.Text.{Text, text_eq, text_le, trim_space}
use moltenhub.Base.Dict.{Dict, get, put, remove, get_or}
use moltenhub.Model.{PeerOutboundMessage, Message, Status, pending, active}
use moltenhub.Model.Clock.{Time}
use moltenhub.Store.State.{
  MemoryStore, Peers, Outcome, ok, err, peer_instance_not_found, message_not_found,
}
use moltenhub.Store.Peers.{with_peers}
use moltenhub.Store.Trust.Request.{is_missing}

new_outbound : Text → Text → Message → Time → PeerOutboundMessage
new_outbound peer_id outbound_id message now = record {
  outbound_id = outbound_id;
  peer_id = peer_id;
  message_id = message.message_id;
  message = message;
  status = pending;
  created_at = now;
  updated_at = now;
  attempt_count = 0;
  next_attempt_at = now;
  last_attempt_at = none;
  last_error = [];
  last_delivered_at = none;
}

abbrev pub outbounds_of : Peers → Text → List Text
outbounds_of p peer_id = get_or p.peer_outbound_by_peer peer_id []

unfoldable pub enqueue_peer_outbound :
    Text → Text → Message → Time → MemoryStore → Outcome PeerOutboundMessage
unfolding new_outbound
enqueue_peer_outbound peer_id outbound_id message now s =
    if is_missing (get s.peer_instances peer_id)
    then (err peer_instance_not_found, s)
    else let o = new_outbound peer_id outbound_id message now in
      (
        ok o,
        with_peers s (record s.peers {
          peer_outbounds = put s.peer_outbounds outbound_id o;
          peer_outbound_by_peer =
              put s.peer_outbound_by_peer peer_id
                (outbounds_of s.peers peer_id ++ outbound_id ∷ []);
        }),
      )

abbrev is_pending : Status → Bool
is_pending pending = true
is_pending _ = false

unfoldable pub is_due : Time → PeerOutboundMessage → Bool
is_due now o = is_pending o.status && not (ltb now o.next_attempt_at)

text_lt : Text → Text → Bool
text_lt a b = text_le a b && not (text_eq a b)

-- By peer, then by time, then by id.
due_before : PeerOutboundMessage → PeerOutboundMessage → Bool
unfolding text_lt
due_before a b =
    if text_eq a.peer_id b.peer_id
    then (if a.next_attempt_at == b.next_attempt_at
        then text_lt a.outbound_id b.outbound_id
        else ltb a.next_attempt_at b.next_attempt_at)
    else text_lt a.peer_id b.peer_id

unfoldable pub insert_due :
    PeerOutboundMessage → List PeerOutboundMessage → List PeerOutboundMessage
unfolding due_before
insert_due o [] = o ∷ []
insert_due o (x ∷ xs) = if due_before x o then x ∷ insert_due o xs else o ∷ x ∷ xs

unfoldable pub collect_due : Time → Dict PeerOutboundMessage → List PeerOutboundMessage
collect_due now [] = []
collect_due now ((k, o) ∷ os) =
    let rest = collect_due now os in if is_due now o then insert_due o rest else rest

-- The limit that applies: 32 in place of a limit that is not positive.
abbrev pub due_limit : ℕ → ℕ
due_limit limit = if limit == 0 then 32 else limit

-- A negative limit is 0 here.
unfoldable pub list_due_peer_outbounds : Time → ℕ → MemoryStore → List PeerOutboundMessage
list_due_peer_outbounds now limit s =
    let out = collect_due now s.peer_outbounds in
    if ltb (due_limit limit) (length out) then take (due_limit limit) out else out

unfoldable pub mark_peer_outbound_retry :
    Text → Text → Time → Time → MemoryStore → Outcome PeerOutboundMessage
mark_peer_outbound_retry outbound_id reason next now s =
    elim (get s.peer_outbounds (trim_space outbound_id)) [
      | none ↦ (err message_not_found, s)
      | some existing ↦
          let o = record existing {
            attempt_count = existing.attempt_count + 1;
            last_attempt_at = some now;
            last_error = trim_space reason;
            next_attempt_at = next;
            updated_at = now;
          } in
          (
            ok o,
            with_peers s (record s.peers { peer_outbounds = put s.peer_outbounds o.outbound_id o }),
          )
    ]

unfoldable pub without : Text → List Text → List Text
without id [] = []
without id (j ∷ js) = let rest = without id js in if text_eq j id then rest else j ∷ rest

drop_outbound : PeerOutboundMessage → Peers → Peers
unfolding without
drop_outbound o p =
    let filtered = without o.outbound_id (outbounds_of p o.peer_id) in
    record p {
      peer_outbounds = remove p.peer_outbounds o.outbound_id;
      peer_outbound_by_peer =
          if is_empty filtered
          then remove p.peer_outbound_by_peer o.peer_id
          else put p.peer_outbound_by_peer o.peer_id filtered;
    }

unfoldable pub mark_peer_outbound_delivered :
    Text → Time → MemoryStore → Outcome PeerOutboundMessage
unfolding drop_outbound
mark_peer_outbound_delivered outbound_id now s =
    elim (get s.peer_outbounds (trim_space outbound_id)) [
      | none ↦ (err message_not_found, s)
      | some existing ↦
          let o = record existing {
            attempt_count = existing.attempt_count + 1;
            last_attempt_at = some now;
            last_delivered_at = some now;
            status = active;
            updated_at = now;
          } in
          (ok o, with_peers s (drop_outbound o s.peers))
    ]
