-- ===== src/Store/Audit/Labels.antt =====
-- The label that an audit event has in an activity log: `auditActivityLabelLocked` of
-- internal/store/memory.go and what it calls.
use moltenhub.Base.{
  zero, suc, Bool, true, false, ◌&&◌, ◌||◌, not, none, some, List, [], ◌∷◌, ◌++◌, is_empty,
  if◌then◌else◌,
}
use moltenhub.Base.Text.{Text, text, text_eq, trim_space, to_lower}
use moltenhub.Base.Dict.{Dict, get}
use moltenhub.Model.{Agent, AuditEvent, Status, active}
use moltenhub.Model.Value.{
  Value, boolean, number, string, strings, list, Items, nil, cons, Metadata, value_at,
}
use moltenhub.Store.Activity.{string_value}

unfoldable pub audit_event_detail_string : Metadata → Text → Text
audit_event_detail_string details key = string_value (value_at details key)

is_true : Value → Bool
is_true (boolean b) = b
is_true (string t) =
    let word = to_lower (trim_space t) in
    text_eq word (text "1") || text_eq word (text "true") || text_eq word (text "yes")
is_true (number zero) = false
is_true (number (suc n)) = true
is_true _ = false

unfoldable pub audit_event_detail_bool : Metadata → Text → Bool
unfolding is_true
audit_event_detail_bool details key = is_true (value_at details key)

append_value : List Text → Text → List Text
append_value rest raw = let t = trim_space raw in if is_empty t then rest else t ∷ rest

values_of_texts : List Text → List Text
unfolding append_value
values_of_texts [] = []
values_of_texts (t ∷ ts) = append_value (values_of_texts ts) t

value_of_item : Value → List Text → List Text
unfolding append_value
value_of_item (string t) rest = append_value rest t
value_of_item _ rest = rest

values_of_items : Items → List Text
unfolding value_of_item
values_of_items nil = []
values_of_items (cons v items) = value_of_item v (values_of_items items)

value_texts : Value → List Text
unfolding values_of_texts values_of_items value_of_item
value_texts (strings ts) = values_of_texts ts
value_texts (list items) = values_of_items items
value_texts v = value_of_item v []

unfoldable pub audit_event_detail_string_slice : Metadata → Text → List Text
unfolding value_texts
audit_event_detail_string_slice details key = value_texts (value_at details key)

-- The public flag must be the Boolean true.
metadata_public_strict : Value → Bool
metadata_public_strict (boolean b) = b
metadata_public_strict _ = false

abbrev is_active : Status → Bool
is_active active = true
is_active _ = false

unfoldable pub public_agent_handle : Dict Agent → Text → Text
unfolding metadata_public_strict
public_agent_handle agents raw =
    let uuid = trim_space raw in
    if is_empty uuid then [] else elim (get agents uuid) [
      | none ↦ []
      | some agent ↦
          if is_active agent.status
            && metadata_public_strict (value_at agent.metadata (text "public"))
          then trim_space agent.handle
          else []
    ]

changed_key_label : Metadata → Text → Text
changed_key_label details key =
    if text_eq key (text "emoji")
    then text "updated emoji"
    else if text_eq key (text "bio") || text_eq key (text "profile_markdown")
    then text "updated bio"
    else if text_eq key (text "skills")
    then (let added = audit_event_detail_string_slice details (text "skills_added") in
        let removed = audit_event_detail_string_slice details (text "skills_removed") in
        if not (is_empty added) && is_empty removed
        then text "added new skills"
        else if not (is_empty removed) && is_empty added
        then text "removed skills"
        else text "updated skills")
    else if text_eq key (text "activities")
    then text "posted activity"
    else if text_eq key (text "hire_me")
    then text "updated availability"
    else if text_eq key (text "public")
    then text "updated visibility"
    else text "updated profile"

only_key_label : Metadata → List Text → Text
unfolding changed_key_label
only_key_label details (key ∷ []) = changed_key_label details key
only_key_label details _ = text "updated profile"

unfoldable pub metadata_audit_activity_label : Metadata → Text
unfolding only_key_label
metadata_audit_activity_label details =
    only_key_label details (audit_event_detail_string_slice details (text "changed_keys"))

unfoldable pub message_publish_activity_label : Dict Agent → Metadata → Text
message_publish_activity_label agents details =
    let first = audit_event_detail_bool details (text "first_message") in
    let handle =
      public_agent_handle agents (audit_event_detail_string details (text "to_agent_uuid")) in
    let peer = audit_event_detail_string details (text "receiver_peer_id") in
    if not (is_empty handle)
    then (if first then text "sent first message to " else text "sent message to ") ++ handle
    else if not (is_empty peer)
    then (if first then text "sent first message to peer" else text "sent message to peer")
    else (if first then text "sent first message" else text "sent message")

unfoldable pub message_receive_activity_label : Dict Agent → Metadata → Text
message_receive_activity_label agents details =
    let handle =
      public_agent_handle agents (audit_event_detail_string details (text "from_agent_uuid")) in
    if is_empty handle then text "received message" else text "received message from " ++ handle

default_label : AuditEvent → Text
default_label event =
    let category = trim_space event.category in
    let action = trim_space event.action in
    if is_empty category
    then action
    else if is_empty action
    then category
    else category ++ (text ":" ++ action)

agent_label : AuditEvent → Text
unfolding default_label
agent_label event =
    let action_is = λ (a : Text). text_eq event.action a in
    if action_is (text "create")
    then text "created agent"
    else if action_is (text "register")
    then text "bound to hub"
    else if action_is (text "set_metadata") || action_is (text "set_metadata_self")
    then metadata_audit_activity_label event.details
    else if action_is (text "finalize_handle_self")
    then text "finalized handle"
    else if action_is (text "rotate_token")
    then text "rotated auth token"
    else if action_is (text "revoke") || action_is (text "delete")
    then text "deactivated profile"
    else default_label event

message_label : Dict Agent → AuditEvent → Text
unfolding default_label
message_label agents event =
    let action_is = λ (a : Text). text_eq event.action a in
    if action_is (text "publish") || action_is (text "publish_replay") || action_is (text "forward")
    then message_publish_activity_label agents event.details
    else if action_is (text "lease") || action_is (text "ack")
    then message_receive_activity_label agents event.details
    else if action_is (text "nack") || action_is (text "lease_expire")
    then text "message delivery retry"
    else if action_is (text "publish_abort")
    then text "aborted message publish"
    else default_label event

unfoldable pub audit_activity_label : Dict Agent → AuditEvent → Text
unfolding agent_label message_label default_label
audit_activity_label agents event =
    if text_eq event.category (text "agent")
    then agent_label event
    else if text_eq event.category (text "agent_bind")
    then (if text_eq event.action (text "redeem")
        then text "completed bind"
        else default_label event)
    else if text_eq event.category (text "message")
    then message_label agents event
    else default_label event
