-- ===== src/Nats/Delivery/Laws.antt =====
-- When a message is acknowledged.
use rusi.Prelude.{String, ◌≡◌, ◌↔◌, true, Option, none, arith, Error}
use rusi.Messaging.{MessageEnvelope}
use rusi.Nats.Delivery.{ServerMessage, with_id, deliver}

module _ (unmarshal : String → MessageEnvelope × Option Error)
    (handler : MessageEnvelope → Option Error) (m : ServerMessage) where
  -- A message is acknowledged exactly when the handler returns no error for the envelope that it is
  -- given, whether or not the message decodes; the envelope is the decoded one, with the sequence
  -- number for an id where it has none.
  deliver-acked_iff :
      ((deliver unmarshal handler m).acked ≡ true)
      ↔ (handler (with_id m.sequence (unmarshal m.bytes).0) ≡ none)
  unfolding deliver
  deliver-acked_iff = ground arith
