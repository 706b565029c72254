-- ===== src/System/Kept/Sending.antt =====
-- What `SendAsync` of actor/ask.go and the server's `Deliver` of actor/remote.go leave alone: the registry,
-- and the life of each actor.
use deqin_actor.Base.{ℕ, ◌⊎◌, inl, inr, refl, Bool, true, false, Option, none, some, List}
use deqin_actor.Base.Int.{ℤ}
use deqin_actor.Base.Str.{Str}
use deqin_actor.Types.{Error, Message, Target, SendOptions}
use deqin_actor.Registry
use deqin_actor.System.{
  System, Host, RemoteEnvelope, returns, throttled, no_room, blocked, Result, id_of_actor,
  track_pending,
}
use deqin_actor.System.Server.{deliver, deliver_decoded, deliver_msg, served, Served, meta_of}
use deqin_actor.System.Async.{send_async, async_options, request_to}
use deqin_actor.System.Kept.{Kept, KeptIn, carry_over, tell_found-KeptIn, send_request-KeptIn}
use deqin_actor.System.Kept.Handling.{ignoring-KeptIn}

module _ {V : Type 0} where
  request_to-KeptIn :
      (host : Host) (s : System V) (times : List ℤ) (addr : ℕ) (t : Option Target) (cid : Str)
      (msg : Message V) (reply_to : Str) (o : SendOptions)
      → KeptIn s (request_to host s times addr t cid msg reply_to o)
  request_to-KeptIn host s times addr none cid msg reply_to o = tt
  request_to-KeptIn host s times addr (some t) cid msg reply_to o =
      send_request-KeptIn host s times (some addr) t cid msg reply_to o.priority o.persist

  pub send_async-KeptIn :
      (host : Host) (s : System V) (times : List ℤ) (cid : Str) (f addr : ℕ) (t : Option Target)
      (msg : Message V) (opts : Option SendOptions)
      → KeptIn s (send_async host s times cid f addr t msg opts).result
  unfolding send_async track_pending
  send_async-KeptIn host s times cid f addr t msg opts =
      let r =
        request_to host (track_pending s cid f) times addr t cid msg (id_of_actor (s.actors addr))
          (async_options opts) in
      ignoring-KeptIn s r (
        carry_over s (track_pending s cid f) r (refl, refl, λ k. refl)
          (request_to-KeptIn host (track_pending s cid f) times addr t cid msg _
            (async_options opts)))

  abbrev pub KeptServed : System V → Option (System V × Served) → Type 0
  KeptServed s none = Unit {0}
  KeptServed s (some (s', o)) = Kept s s'

  served-KeptServed : (s : System V) (r : Result V) → KeptIn s r → KeptServed s (served r)
  served-KeptServed s none h = tt
  served-KeptServed s (some (s', returns e)) h = h
  served-KeptServed s (some (s', throttled)) h = h
  served-KeptServed s (some (s', no_room)) h = h
  served-KeptServed s (some (s', blocked)) h = h

  deliver_msg-KeptServed :
      (s : System V) (env : RemoteEnvelope) (msg : Message V) (g : Option Target × Bool)
      → KeptServed s (deliver_msg s env msg g)
  deliver_msg-KeptServed s env msg (t, false) = (refl, refl, λ k. refl)
  deliver_msg-KeptServed s env msg (t, true) =
      served-KeptServed s _ (tell_found-KeptIn s t msg (meta_of env) env.priority false)

  deliver_decoded-KeptServed :
      (text : Error → Str) (s : System V) (env : RemoteEnvelope) (m : Error ⊎ Message V)
      → KeptServed s (deliver_decoded text s env m)
  deliver_decoded-KeptServed text s env (inl e) = (refl, refl, λ k. refl)
  deliver_decoded-KeptServed text s env (inr msg) =
      deliver_msg-KeptServed s env msg (Registry.get s.registry env.to_id)

  pub deliver-KeptServed :
      (text : Error → Str) (s : System V) (env : RemoteEnvelope) → KeptServed s (deliver text s env)
  unfolding deliver
  deliver-KeptServed text s env =
      deliver_decoded-KeptServed text s env (s.serializer.unmarshal env.payload)
