-- ===== src/Dispatch/Payloads.antt =====
-- The payload of /send on Zigbee and the rows that are written with it.
use ota_server.Base.{
  ◌≡◌, ◌⊎◌, refl, subst, ◌∙◌, Text, some, ◌∷◌, text_eq, text_eq_refl, Option-cases, Bool-cases, inl,
  inr, arith,
}
use mathlib.Core.Option.{some-injective}
use ota_server.Db.{ImageRow}
use ota_server.Ident.{normalize_device_id}
use ota_server.Dispatch.{
  Env, Device, Dispatcher, write_payload, save_dispatch, save_device_provisioning, record_failure,
  record_success, send_payloads, noop_provision_payload,
}

-- Nothing was sent and no grant touched.
pub record Quiet (st st' : Dispatcher) : Type 0 where
  pub outbox : st'.outbox ≡ st.outbox
  pub pending : st'.pending ≡ st.pending
  pub grants : st'.db.download_grants ≡ st.db.download_grants

record_failure-Quiet :
    (env : Env) (device : Device) (image : ImageRow) (st : Dispatcher)
    → Quiet st (record_failure env device image st).1
unfolding record_failure save_dispatch save_device_provisioning
record_failure-Quiet env device image st = elim (Option-cases (normalize_device_id device.ieee)) [
  | inl e ↦
      rw (e, record_failure, save_device_provisioning)
        (record { outbox = refl; pending = refl; grants = refl })
  | inr (n, e) ↦
      rw (e, record_failure, save_device_provisioning)
        (record { outbox = refl; pending = refl; grants = refl })
]

record_success-Quiet :
    (env : Env) (device : Device) (image : ImageRow) (st : Dispatcher)
    → Quiet st (record_success env device image st).1
unfolding record_success save_dispatch save_device_provisioning
record_success-Quiet env device image st = elim (Option-cases (normalize_device_id device.ieee)) [
  | inl e ↦
      rw (e, record_success, save_device_provisioning) (record_failure-Quiet env device image st)
  | inr (n, e) ↦
      rw (e, record_success, save_device_provisioning)
        (record { outbox = refl; pending = refl; grants = refl })
]

-- At most the one payload went out, and no grant was touched.
pub record SentOnly (ieee payload : Text) (st st' : Dispatcher) : Type 0 where
  pub outbox : (st'.outbox ≡ st.outbox) ⊎ (st'.outbox ≡ (ieee, payload) ∷ st.outbox)
  pub pending : st'.pending ≡ st.pending
  pub grants : st'.db.download_grants ≡ st.db.download_grants

Quiet-SentOnly :
    (ieee payload : Text) (st st' : Dispatcher) → Quiet st st' → SentOnly ieee payload st st'
Quiet-SentOnly ieee payload st st' q = record {
  outbox = inl q.outbox;
  pending = q.pending;
  grants = q.grants;
}

first_payload :
    (env : Env) (ieee : Text) (st : Dispatcher)
    → write_payload env ieee noop_provision_payload st ≡ some st
unfolding write_payload
first_payload env ieee st = rw (text_eq_refl noop_provision_payload)

write_payload-some :
    (env : Env) (ieee payload : Text) (st st' : Dispatcher)
    → write_payload env ieee payload st ≡ some st'
    → SentOnly ieee payload st st'
unfolding write_payload
write_payload-some env ieee payload st st' h =
    elim (Bool-cases (text_eq payload noop_provision_payload)) [
      | inl noop ↦
          let same = some-injective st st' (rw (noop) at h) in
          subst (SentOnly ieee payload st) same
            (record { outbox = inl refl; pending = refl; grants = refl })
      | inr real ↦ elim (Bool-cases (env.zigbee ieee payload)) [
        | inr lost ↦ absurd (ground (arith, real, lost, h))
        | inl out ↦
            let after : Dispatcher = record st { outbox = (ieee, payload) ∷ st.outbox } in
            let same = some-injective after st' (rw (real, out) at h) in
            subst (SentOnly ieee payload st) same
              (record { outbox = inr refl; pending = refl; grants = refl })
      ]
    ]

sent_then-Quiet :
    (ieee payload : Text) (st st' st'' : Dispatcher)
    → SentOnly ieee payload st st'
    → Quiet st' st''
    → SentOnly ieee payload st st''
sent_then-Quiet ieee payload st st' st'' s q = record {
  outbox = elim s.outbox [ inl e ↦ inl (q.outbox ∙ e) | inr e ↦ inr (q.outbox ∙ e) ];
  pending = q.pending ∙ s.pending;
  grants = q.grants ∙ s.grants;
}

pub send_payloads-SentOnly :
    (env : Env) (device : Device) (image : ImageRow) (wire : Text) (st : Dispatcher)
    → SentOnly device.ieee wire st (send_payloads env device image wire st).1
unfolding send_payloads
send_payloads-SentOnly env device image wire st =
    elim (Option-cases (write_payload env device.ieee wire st)) [
      | inl lost ↦
          rw (first_payload env device.ieee st, lost, send_payloads)
            (Quiet-SentOnly device.ieee wire st (record_failure env device image st).1
              (record_failure-Quiet env device image st))
      | inr (sent, out) ↦
          rw (first_payload env device.ieee st, out, send_payloads)
            (sent_then-Quiet device.ieee wire st sent (record_success env device image sent).1
              (write_payload-some env device.ieee wire st sent out)
              (record_success-Quiet env device image sent))
    ]
