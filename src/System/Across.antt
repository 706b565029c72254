-- ===== src/System/Across.antt =====
-- A message that actor/remote.go takes from one node to another.
use deqin_actor.Base.{
  ℕ, ◌≡◌, ◌≢◌, inr, sym, ap, ap₂, ◌∙◌, if◌then◌else◌, Bool, true, false, Option, none, some, [],
  ◌∷◌, ◌++◌,
}
use deqin_actor.Base.Str.{Str, same}
use deqin_actor.Types
use deqin_actor.Types.{Error, Message, EnvelopeMeta, Target, base_actor}
use deqin_actor.Registry
use deqin_actor.System.{System, BaseActor, Host, Transport, RemoteEnvelope, returns, set_actor}
use deqin_actor.System.Remote.{
  location_of, conn, dialed, remote_deliver, invoked, deliver_by, acked,
}
use deqin_actor.System.Deliver.{
  deliver_to_id, deliver_found, deliver_at, send_marshalled, returning, remote_envelope, actor_tell,
  push_to, hooked, envelope,
}
use deqin_actor.System.Server.{deliver, deliver_decoded, deliver_msg, served, acknowledged}
use deqin_actor.System.Accepted.{hooked-urgent, hooked-normal, set_actor_self, set_actor_ne}
use deqin_actor.System.Refused.{push_to-closed}

module _ {V : Type 0} where
  -- A local delivery, by what the registry finds.
  deliver_to_id-found :
      (host : Host) (s : System V) (to_id : Str) (meta : EnvelopeMeta) (pri : ℕ)
      (payload : Message V) (persist : Bool) (g : Option Target × Bool)
      → same to_id [] ≡ false
      → Registry.get s.registry to_id ≡ g
      → deliver_to_id host s to_id meta pri payload persist
        ≡ deliver_found host s g to_id meta pri payload persist
  unfolding deliver_to_id
  deliver_to_id-found host s to_id meta pri payload persist g named e =
      ap₂
        (λ p o.
          if p
          then some (s, returns (some Error.actor_not_found))
          else deliver_found host s o to_id meta pri payload persist)
        named e

  -- What the sender does with a message for an actor that it does not have, but knows the place of.
  deliver_to_id-remote :
      (host : Host) (s : System V) (to_id addr b : Str) (meta : EnvelopeMeta) (pri : ℕ)
      (payload : Message V) (persist : Bool) (a : Option Target) (rt : Transport)
      → same to_id [] ≡ false
      → Registry.get s.registry to_id ≡ (a, false)
      → s.locations to_id ≡ some addr
      → s.serializer.marshal payload ≡ inr b
      → s.remote ≡ some rt
      → rt.conns addr ≡ true
      → deliver_to_id host s to_id meta pri payload persist
        ≡ some (
          record s {
            remote = some rt;
            sent = s.sent ++ (addr, remote_envelope to_id meta pri b) ∷ [];
          },
          returns (acked (host.invoke addr (remote_envelope to_id meta pri b))),
        )
  unfolding remote_deliver conn location_of
  deliver_to_id-remote host s to_id addr b meta pri payload persist a rt named here at marshalled on
        connected =
      let env = remote_envelope to_id meta pri b in
      deliver_to_id-found host s to_id meta pri payload persist (a, false) named here
      ∙ ap (λ o. deliver_at host s o to_id meta pri payload) at
      ∙ ap (send_marshalled host s addr to_id meta pri) marshalled
      ∙ ap (λ o. returning (deliver_by host s addr env o)) on
      ∙ ap
          (λ c.
            returning
              (invoked host s addr env (if c then (rt, none) else dialed rt addr (host.dial addr))))
          connected

  deliver-found :
      (text : Error → Str) (s : System V) (env : RemoteEnvelope) (msg : Message V)
      (g : Option Target × Bool)
      → s.serializer.unmarshal env.payload ≡ inr msg
      → Registry.get s.registry env.to_id ≡ g
      → deliver text s env ≡ deliver_msg s env msg g
  unfolding deliver
  deliver-found text s env msg g decoded e =
      ap (deliver_decoded text s env) decoded ∙ ap (deliver_msg s env msg) e

  -- A message for an actor that one node does not have, but that it knows the address of and has a
  -- connection to, while the node at that address has it; what the first node's serializer writes,
  -- the second one's reads back. Then the first node hands the message to the network and returns
  -- what the acknowledgement says, and does nothing else; and the second node, when the envelope
  -- comes in, does to its own state exactly what a local delivery of the message without persistence
  -- does, and acknowledges unless it waits for room.
  pub remote_as_local :
      (host : Host) (text : Error → Str) (here there : System V) (to_id addr b : Str)
      (meta : EnvelopeMeta) (pri : ℕ) (payload : Message V) (persist : Bool) (a t : Option Target)
      (rt : Transport)
      → same to_id [] ≡ false
      → Registry.get here.registry to_id ≡ (a, false)
      → here.locations to_id ≡ some addr
      → here.serializer.marshal payload ≡ inr b
      → here.remote ≡ some rt
      → rt.conns addr ≡ true
      → there.serializer.unmarshal b ≡ inr payload
      → Registry.get there.registry to_id ≡ (t, true)
      → (deliver_to_id host here to_id meta pri payload persist
          ≡ some (
            record here {
              remote = some rt;
              sent = here.sent ++ (addr, remote_envelope to_id meta pri b) ∷ [];
            },
            returns (acked (host.invoke addr (remote_envelope to_id meta pri b))),
          ))
        × (deliver text there (remote_envelope to_id meta pri b)
            ≡ served (deliver_to_id host there to_id meta pri payload false))
  remote_as_local host text here there to_id addr b meta pri payload persist a t rt named absent at
        marshalled on connected decoded found =
      (
        deliver_to_id-remote host here to_id addr b meta pri payload persist a rt named absent at
            marshalled on connected,
        deliver-found text there (remote_envelope to_id meta pri b) payload (t, true) decoded found
            ∙ sym (
                ap served (
                  deliver_to_id-found host there to_id meta pri payload false (t, true) named
                    found)),
      )

  -- The actor of a node has a closed mailbox, as one that is being stopped. A message for it comes
  -- in from another node: no mailbox has it afterwards, and it is acknowledged as delivered,
  -- though the same delivery within the node returns an error.
  pub refusal_lost :
      (host : Host) (text : Error → Str) (s : System V) (to_id b : Str) (meta : EnvelopeMeta)
      (pri : ℕ) (payload : Message V) (addr : ℕ) (a : BaseActor V)
      → same to_id [] ≡ false
      → s.serializer.unmarshal b ≡ inr payload
      → Registry.get s.registry to_id ≡ (some (base_actor addr), true)
      → s.actors addr ≡ some a
      → a.mailbox.is_closed ≡ true
      → (s' : System V) × (a' : BaseActor V) × (deliver text s (remote_envelope to_id meta pri b)
          ≡ some (s', acknowledged))
        × (deliver_to_id host s to_id meta pri payload false
            ≡ some (s', returns (some Types.mailbox_closed)))
        × (s'.actors addr ≡ some a')
        × (a'.mailbox.urgent ≡ a.mailbox.urgent)
        × (a'.mailbox.normal ≡ a.mailbox.normal)
        × ((k : ℕ) → k ≢ addr → s'.actors k ≡ s.actors k)
  unfolding actor_tell
  refusal_lost host text s to_id b meta pri payload addr a named decoded found there closed =
      let meta_env = envelope payload meta pri false in
      let a' = record a { mailbox = hooked s.serializer a.wal a.mailbox } in
      let told =
        ap (λ o. push_to s addr o meta_env) there ∙ push_to-closed s addr a meta_env closed in
      (
        set_actor s addr a',
        a',
        deliver-found text s (remote_envelope to_id meta pri b) payload
              (some (base_actor addr), true) decoded found
            ∙ ap served told,
        deliver_to_id-found host s to_id meta pri payload false (some (base_actor addr), true) named
              found
            ∙ told,
        set_actor_self s addr a',
        hooked-urgent a.mailbox s.serializer a.wal,
        hooked-normal a.mailbox s.serializer a.wal,
        λ k n. set_actor_ne s addr k a' n,
      )
