-- ===== src/Store/Messages/Linked.antt =====
-- Records and deliveries point at one another: a record is stored under its message's id, and each
-- delivery is of a message that has a record.
use moltenhub.Base.{◌≡◌, subst, ◌≢◌, inl, inr, none, some, arith, Bool-cases, Option-cases}
use moltenhub.Base.Text.{Text, text_eq, text_eq_iff}
use moltenhub.Base.Dict.{Dict, get, put, remove, get-put, get-remove}
use moltenhub.Model.{MessageRecord, MessageDelivery}

pub record IsLinked (records : Dict MessageRecord) (ds : Dict MessageDelivery) : Type 0 where
  pub keyed : (id : Text) (r : MessageRecord) → get records id ≡ some r → r.message.message_id ≡ id
  pub recorded :
      (id : Text) (d : MessageDelivery) → get ds id ≡ some d → get records d.message_id ≢ none

pub record_of :
    {V : Type 0} (m : Dict V) (id : Text) → get m id ≢ none → (r : V) × (get m id ≡ some r)
record_of m id h = elim (Option-cases (get m id)) [ inl e ↦ absurd (h e) | inr found ↦ found ]

put-ne-none :
    {V : Type 0} (m : Dict V) (k j : Text) (v : V) → get m j ≢ none → get (put m k v) j ≢ none
put-ne-none m k j v h e = ground (arith, get-put m k j v, h)

module _ (records : Dict MessageRecord) (ds : Dict MessageDelivery) (l : IsLinked records ds) where
  -- A record under its own id, new or changed.
  pub put_record-IsLinked :
      (id : Text) (r : MessageRecord) → r.message.message_id ≡ id → IsLinked (put records id r) ds
  put_record-IsLinked id r e = record {
    keyed = λ j q h. ground (arith, get-put records id j r, text_eq_iff id j, l.keyed j q);
    recorded = λ j d h. put-ne-none records id d.message_id r (l.recorded j d h);
  }

  -- A delivery of a message that has a record.
  pub put_delivery-IsLinked :
      (id : Text) (d : MessageDelivery)
      → get records d.message_id ≢ none
      → IsLinked records (put ds id d)
  put_delivery-IsLinked id d e = record {
    keyed = l.keyed;
    recorded = λ j q h. elim (Bool-cases (text_eq id j)) [
      | inl same ↦
          let k : d ≡ q = ground (arith, get-put ds id j d) in
          subst (λ (x : MessageDelivery). get records x.message_id ≢ none) k e
      | inr other ↦ l.recorded j q (ground (arith, get-put ds id j d))
    ];
  }

  pub remove_delivery-IsLinked : (id : Text) → IsLinked records (remove ds id)
  remove_delivery-IsLinked id = record {
    keyed = l.keyed;
    recorded = λ j q h. l.recorded j q (ground (arith, get-remove ds id j));
  }

  -- A record goes, if no delivery is of its message.
  pub remove_record-IsLinked :
      (id : Text)
      → ((j : Text) (d : MessageDelivery) → get ds j ≡ some d → d.message_id ≢ id)
      → IsLinked (remove records id) ds
  remove_record-IsLinked id idle = record {
    keyed = λ j q h. l.keyed j q (ground (arith, get-remove records id j));
    recorded = λ j d h gone. l.recorded j d h (
        ground
          (arith, get-remove records id d.message_id, text_eq_iff id d.message_id, idle j d h));
  }
