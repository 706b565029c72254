-- ===== src/System/Server.antt =====
-- actor/remote.go: the server side of the transport.
use deqin_actor.Base.{◌⊎◌, inl, inr, Bool, true, false, Option, none, some, [], ◌∷◌}
use deqin_actor.Base.Str.{Str}
use deqin_actor.Types.{Error, Message, EnvelopeMeta, Target}
use deqin_actor.Registry
use deqin_actor.System.{
  System, RemoteEnvelope, RemoteAck, returns, throttled, no_room, blocked, Result,
}
use deqin_actor.System.Deliver.{tell_found}

-- "actor not found"
abbrev not_found_text : Str
not_found_text =
    97 ∷ 99 ∷ 116 ∷ 111 ∷ 114 ∷ 32 ∷ 110 ∷ 111 ∷ 116 ∷ 32 ∷ 102 ∷ 111 ∷ 117 ∷ 110 ∷ 100 ∷ []

-- What `Deliver` comes to: a reply, or it waits for room in a mailbox.
pub data Served : Type 0 where
  replies : RemoteAck → Served
  waits : Served

abbrev not_ok : Str → Served
not_ok text = replies (record { ok = false; err = text })

abbrev pub acknowledged : Served
acknowledged = replies (record { ok = true; err = [] })

abbrev pub meta_of : RemoteEnvelope → EnvelopeMeta
meta_of env = record {
  kind = env.kind;
  from_id = env.from_id;
  correlation_id = env.correlation_id;
  reply_to = env.reply_to;
}

module _ {V : Type 0} where
  -- The error of `tell` is ignored.
  abbrev pub served : Result V → Option (System V × Served)
  served none = none
  served (some (s, returns e)) = some (s, acknowledged)
  served (some (s, throttled)) = some (s, waits)
  served (some (s, no_room)) = some (s, waits)
  served (some (s, blocked)) = some (s, waits)

  abbrev pub deliver_msg :
      System V → RemoteEnvelope → Message V → Option Target × Bool → Option (System V × Served)
  deliver_msg s env msg (a, false) = some (s, not_ok not_found_text)
  deliver_msg s env msg (a, true) = served (tell_found s a msg (meta_of env) env.priority false)

  abbrev pub deliver_decoded :
      (Error → Str) → System V → RemoteEnvelope → Error ⊎ Message V → Option (System V × Served)
  deliver_decoded text s env (inl e) = some (s, not_ok (text e))
  deliver_decoded text s env (inr msg) = deliver_msg s env msg (Registry.get s.registry env.to_id)

  -- `Deliver`; the parameter is the text of an error of the serializer.
  unfoldable pub deliver : (Error → Str) → System V → RemoteEnvelope → Option (System V × Served)
  deliver text s env = deliver_decoded text s env (s.serializer.unmarshal env.payload)
