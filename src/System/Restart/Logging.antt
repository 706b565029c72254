-- ===== src/System/Restart/Logging.antt =====
-- Messages that actor/system.go and actor/base_actor.go write to the log of an actor.
use deqin_actor.Base.{
  ℕ, ◌^◌, ◌≤◌, ◌<◌, ◌≡◌, inl, inr, refl, sym, ap, ◌∙◌, arith, if◌then◌else◌, ◌==◌, Bool-cases, Bool,
  true, false, Option, none, some, List, [], ◌∷◌, length,
}
use deqin_actor.Base.Str.{Str, same_self}
use deqin_actor.Types.{Message, EnvelopeMeta}
use deqin_actor.Mailbox
use deqin_actor.Mailbox.{
  Envelope, Mailbox, Pushed, mailbox_closed, push, push_by, persisted, offer, is_urgent,
}
use deqin_actor.Mailbox.Spec.{verdict}
use deqin_actor.Mailbox.Policies.{push_open}
use deqin_actor.Mailbox.Order.{Sizes, Mail, offer-Offered}
use deqin_actor.Wal.{open_file, append}
use deqin_actor.Wal.RoundTrip.{append_all}
use deqin_actor.System.{System, BaseActor, Serializer, Outcome, Result, set_actor}
use deqin_actor.System.Deliver.{
  actor_tell, push_to, stored, logged, hooked, envelope, user_meta, pushed_outcome, encoded_bytes,
}
use deqin_actor.System.Accepted.{hooked-Mail, hooked-policy, hooked-is_closed, set_actor_self}

-- A message with its sender and its priority.
abbrev pub Posted : Type 0 → Type 0
Posted V = Str × ℕ × Message V

abbrev pub message_of : {V : Type 0} → Posted V → Message V
message_of (from_id, pri, v) = v

-- The serializer writes the messages as these records, which are not empty and fit a header, and
-- reads them back.
abbrev pub Coded : {V : Type 0} → Serializer V → List (Posted V) → List (List ℕ) → Type 0
Coded r [] [] = Unit {0}
Coded r (p ∷ ps) (b ∷ bs) =
    (r.marshal (message_of p) ≡ inr b)
    × (r.unmarshal b ≡ inr (message_of p))
    × (1 ≤ length b)
    × (length b < 2 ^ 32)
    × Coded r ps bs
Coded r [] (b ∷ bs) = ⊥
Coded r (p ∷ ps) [] = ⊥

append-open :
    (content b : List ℕ)
    → (append (open_file content) b).0 ≡ open_file (append (open_file content) b).0.bytes
unfolding append
append-open content b = elim (Bool-cases (length b == 0)) [ inl e ↦ rw e refl | inr e ↦ rw e refl ]

module _ {V : Type 0} where
  abbrev then_post : (System V → Option (System V)) → Result V → Option (System V)
  then_post go none = none
  then_post go (some (s, o)) = go s

  abbrev post : System V → ℕ → Posted V → Result V
  post s addr (from_id, pri, v) = actor_tell s addr v (user_meta from_id) pri true

  -- The messages are told to an actor with persistence, whatever becomes of each.
  unfoldable pub post_all : System V → ℕ → List (Posted V) → Option (System V)
  post_all s addr [] = some s
  post_all s addr (p ∷ ps) = then_post (λ s'. post_all s' addr ps) (post s addr p)

  -- An actor with an open mailbox and an open log, which has this content.
  pub record Logs (z : Sizes) (path : Str) (content : List ℕ) (addr : ℕ) (s : System V)
      : Type 0 where
    pub actor : BaseActor V
    pub us : List (Envelope (Message V) EnvelopeMeta)
    pub ns : List (Envelope (Message V) EnvelopeMeta)
    pub there : s.actors addr ≡ some actor
    pub wal : actor.wal ≡ some (path, true)
    pub mail : Mail z us ns actor.mailbox
    pub known : actor.mailbox.policy ≤ 2
    pub is_open : actor.mailbox.is_closed ≡ false
    pub disk : s.disk path ≡ content

  persisted-hooked :
      (r : Serializer V) (w : Option (Str × Bool)) (path : Str)
      (mb : Mailbox (Message V) EnvelopeMeta) (v : Message V) (meta : EnvelopeMeta) (pri : ℕ)
      (b : Str)
      → w ≡ some (path, true)
      → r.marshal v ≡ inr b
      → persisted (hooked r w mb) (envelope v meta pri true) ≡ b ∷ []
  unfolding persisted
  persisted-hooked r w path mb v meta pri b e m =
      ap (λ w'. persisted (hooked r w' mb) (envelope v meta pri true)) e
      ∙ ap (λ t. Mailbox.encoded (encoded_bytes t)) m

  abbrev by_closed :
      Mailbox (Message V) EnvelopeMeta
      → Envelope (Message V) EnvelopeMeta
      → Bool
      → Option (Mailbox (Message V) EnvelopeMeta × Pushed) × List (List ℕ)
  by_closed m env c =
      if c then (some (m, mailbox_closed), []) else (push_by m.policy [] m env, persisted m env)

  bytes_pushed :
      (m : Mailbox (Message V) EnvelopeMeta) (env : Envelope (Message V) EnvelopeMeta)
      → m.is_closed ≡ false
      → (push [] m env).1 ≡ persisted m env
  unfolding push
  bytes_pushed m env e = ap (λ c. (by_closed m env c).1) e

  -- What a call of `tell` with persistence does to the log.
  record Logging (z : Sizes) (path : Str) (content b : List ℕ) (addr : ℕ) (s : System V)
      (out : Result V) : Type 0 where
    after : System V
    outcome : Outcome
    replied : out ≡ some (after, outcome)
    logs : Logs z path (append (open_file content) b).0.bytes addr after
    same_serializer : after.serializer ≡ s.serializer

  actor_tell-Logging :
      (z : Sizes) (path : Str) (content : List ℕ) (addr : ℕ) (s : System V) (v : Message V)
      (meta : EnvelopeMeta) (pri : ℕ) (b : Str)
      → Logs z path content addr s
      → s.serializer.marshal v ≡ inr b
      → Logging z path content b addr s (actor_tell s addr v meta pri true)
  unfolding actor_tell
  actor_tell-Logging z path content addr s v meta pri b h m =
      let a = h.actor in
      let env = envelope v meta pri true in
      let hm = hooked s.serializer a.wal a.mailbox in
      let open_now = hooked-is_closed a.mailbox s.serializer a.wal ∙ h.is_open in
      let same_policy = hooked-policy a.mailbox s.serializer a.wal in
      let (accepted, o) =
        offer-Offered z h.us h.ns hm env
          (hooked-Mail z h.us h.ns a.mailbox s.serializer a.wal h.mail) in
      let a' = record a { mailbox = o.after } in
      let s' = set_actor (logged s (some (path, true)) (b ∷ [])) addr a' in
      record {
        after = s';
        outcome = pushed_outcome (verdict hm.policy accepted);
        replied =
            ap (λ t. push_to s addr t env) h.there
            ∙ ap (stored (logged s a.wal (push [] hm env).1) addr a) (
                push_open hm o.after env accepted (omega (arith, same_policy, h.known)) open_now
                  (o.same_closed ∙ open_now) o.replied)
            ∙ ap
                (λ bs.
                  stored (logged s a.wal bs) addr a (some (o.after, verdict hm.policy accepted)))
                (bytes_pushed hm env open_now
                  ∙ persisted-hooked s.serializer a.wal path a.mailbox v meta pri b h.wal m)
            ∙ ap
                (λ w.
                  stored (logged s w (b ∷ [])) addr a (some (o.after, verdict hm.policy accepted)))
                h.wal;
        logs = record {
          actor = a';
          us = _;
          ns = _;
          there = set_actor_self (logged s (some (path, true)) (b ∷ [])) addr a';
          wal = h.wal;
          mail = o.mail;
          known = omega (arith, o.same_policy, same_policy, h.known);
          is_open = o.same_closed ∙ open_now;
          disk =
              ap (λ t. if t then (append (open_file (s.disk path)) b).0.bytes else s.disk path)
                (same_self path)
              ∙ ap (λ d. (append (open_file d) b).0.bytes) h.disk;
        };
        same_serializer = refl;
      }

  -- Each message is in the log, whatever the mailbox makes of it.
  pub post_all-Logs :
      (z : Sizes) (path : Str) (addr : ℕ) (r : Serializer V) (ps : List (Posted V))
      (bs : List (List ℕ)) (content : List ℕ) (s : System V)
      → Logs z path content addr s
      → s.serializer ≡ r
      → Coded r ps bs
      → (s' : System V) × (post_all s addr ps ≡ some s')
        × (s'.disk path ≡ (append_all (open_file content) bs).bytes)
  unfolding post_all append_all
  post_all-Logs z path addr r [] [] content s h e c = (s, refl, h.disk)
  post_all-Logs z path addr r [] (b ∷ bs) content s h e c = absurd c
  post_all-Logs z path addr r (p ∷ ps) [] content s h e c = absurd c
  post_all-Logs z path addr r ((from_id, pri, v) ∷ ps) (b ∷ bs) content s h e c =
      let t =
        actor_tell-Logging z path content addr s v (user_meta from_id) pri b h
          (ap (λ q. q.marshal v) e ∙ c.0) in
      let (s', e', d) =
        post_all-Logs z path addr r ps bs (append (open_file content) b).0.bytes t.after t.logs
          (t.same_serializer ∙ e) c.4 in
      (
        s',
        ap (then_post (λ q. post_all q addr ps)) t.replied ∙ e',
        d ∙ ap (λ w. (append_all w bs).bytes) (sym (append-open content b)),
      )
