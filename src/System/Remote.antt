-- ===== src/System/Remote.antt =====
-- actor/remote.go: where remote actors are, and the client side of the transport.
use deqin_actor.Base.{
  ◌⊎◌, inl, inr, if◌then◌else◌, true, false, not, ◌&&◌, Option, none, some, [], ◌∷◌, ◌++◌,
}
use deqin_actor.Base.Str.{Str, same, put_key, delete_key}
use deqin_actor.Types.{Error, remote_not_enabled, other_error}
use deqin_actor.System.{System, Host, Transport, RemoteEnvelope, RemoteAck}

-- ":50051"
abbrev default_listen : Str
default_listen = 58 ∷ 53 ∷ 48 ∷ 48 ∷ 53 ∷ 49 ∷ []

-- `conn`: the transport, and the error of `Dial` for an address that it has no connection to.
abbrev pub dialed : Transport → Str → Option Error → Transport × Option Error
dialed rt addr none = (record rt { conns = λ k. if same k addr then true else rt.conns k }, none)
dialed rt addr (some e) = (rt, some e)

unfoldable pub conn : Host → Transport → Str → Transport × Option Error
conn host rt addr = if rt.conns addr then (rt, none) else dialed rt addr (host.dial addr)

-- What `remoteDeliver` makes of the reply of `Invoke`.
abbrev pub acked : Error ⊎ RemoteAck → Option Error
acked (inl e) = some e
acked (inr ack) = if not ack.ok && not (same ack.err []) then some (other_error ack.err) else none

abbrev addr_of : Option Transport → Str
addr_of none = []
addr_of (some rt) = rt.addr

module _ {V : Type 0} where
  abbrev pub listening : System V → Error ⊎ Str → System V × Option Error
  listening s (inl e) = (s, some e)
  listening s (inr addr) =
      (record s { remote = some (record { addr = addr; conns = λ k. false }) }, none)

  abbrev pub enable_when : Host → System V → Str → Option Transport → System V × Option Error
  enable_when host s listen_addr none = listening s (host.listen listen_addr)
  enable_when host s listen_addr (some rt) = (s, none)

  unfoldable pub enable_remote : Host → System V → Str → System V × Option Error
  enable_remote host s listen_addr =
      enable_when host s (if same listen_addr [] then default_listen else listen_addr) s.remote

  unfoldable remote_addr : System V → Str
  remote_addr s = addr_of s.remote

  -- It closes the connections, which nothing refers to afterwards.
  unfoldable pub stop_remote : System V → System V
  stop_remote s = record s { remote = none }

  unfoldable pub set_location : System V → Str → Str → System V
  set_location s actor_id addr =
      if same actor_id []
      then s
      else if same addr []
      then record s { locations = delete_key s.locations actor_id }
      else record s { locations = put_key s.locations actor_id addr }

  unfoldable pub location_of : System V → Str → Option Str
  location_of s actor_id = s.locations actor_id

  abbrev pub invoked :
      Host → System V → Str → RemoteEnvelope → Transport × Option Error → System V × Option Error
  invoked host s addr env (rt, some e) = (record s { remote = some rt }, some e)
  invoked host s addr env (rt, none) = (
    record s { remote = some rt; sent = s.sent ++ (addr, env) ∷ [] },
    acked (host.invoke addr env),
  )

  abbrev pub deliver_by :
      Host → System V → Str → RemoteEnvelope → Option Transport → System V × Option Error
  deliver_by host s addr env none = (s, some remote_not_enabled)
  deliver_by host s addr env (some rt) = invoked host s addr env (conn host rt addr)

  unfoldable pub remote_deliver : Host → System V → Str → RemoteEnvelope → System V × Option Error
  remote_deliver host s addr env = deliver_by host s addr env s.remote
