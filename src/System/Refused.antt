-- ===== src/System/Refused.antt =====
-- A message of actor/system.go for an actor whose mailbox is closed.
use deqin_actor.Base.{
  ℕ, ◌≡◌, inl, inr, refl, sym, ap, ◌∙◌, if◌then◌else◌, Bool-cases, Bool, true, Option, none, some,
  List, [],
}
use mathlib.Core.Path.{fun_ext}
use deqin_actor.Base.Str.{Str, same, same-eq}
use deqin_actor.Types
use deqin_actor.Types.{Error, Message, EnvelopeMeta, Target, base_actor}
use deqin_actor.Mailbox.{Envelope, Mailbox, mailbox_closed, Pushed, push, push_by, persisted}
use deqin_actor.System.{System, BaseActor, returns, set_actor}
use deqin_actor.System.Deliver.{push_to, stored, logged, hooked}
use deqin_actor.System.Accepted.{hooked-is_closed}

module _ {V : Type 0} where
  same_disk :
      (s : System V) (path p : Str) → (if same p path then s.disk path else s.disk p) ≡ s.disk p
  same_disk s path p = elim (Bool-cases (same p path)) [
    | inl e ↦ ap (λ b. if b then s.disk path else s.disk p) e ∙ ap s.disk (sym (same-eq p path e))
    | inr e ↦ ap (λ b. if b then s.disk path else s.disk p) e
  ]

  logged-nil : (s : System V) (w : Option (Str × Bool)) → logged s w [] ≡ s
  logged-nil s none = refl
  logged-nil s (some (path, is_open)) =
      ap (λ d. record s { disk = d }) (fun_ext (λ p. same_disk s path p))

  -- A push into a mailbox that is closed.
  pub push_to-closed :
      (s : System V) (addr : ℕ) (a : BaseActor V) (env : Envelope (Message V) EnvelopeMeta)
      → a.mailbox.is_closed ≡ true
      → push_to s addr (some a) env
        ≡ some (
          set_actor s addr (record a { mailbox = hooked s.serializer a.wal a.mailbox }),
          returns (some Types.mailbox_closed),
        )
  unfolding push
  push_to-closed s addr a env closed =
      let hm = hooked s.serializer a.wal a.mailbox in
      let then_stored =
        λ (out : Option (Mailbox (Message V) EnvelopeMeta × Pushed) × List (List ℕ)).
          stored (logged s a.wal out.1) addr a out.0 in
      ap
        (λ c. then_stored (
          if c
          then (some (hm, mailbox_closed), [])
          else (push_by hm.policy [] hm env, persisted hm env)))
        (hooked-is_closed a.mailbox s.serializer a.wal ∙ closed)
      ∙ ap (λ t. stored t addr a (some (hm, mailbox_closed))) (logged-nil s a.wal)
