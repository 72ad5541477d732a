-- ===== src/Ua/Local.antt =====
-- What the UA asks of a message body and of its surroundings, and UasStateGeneric
-- ._delayLocalSdpUpdate (sippy/UasStateGeneric.py), whose test UacStateIdle and UaStateConnected
-- repeat.
use b2bua.Prelude.{ℕ, String, Bool, Option, none, some, if◌then◌else◌}
use b2bua.Sip.Message.{Url}
use b2bua.Ua.Types.{Event, LocalOutcome, update_local_sdp, Next, stay, raised, raised_other}
use b2bua.Ua.State.{Ua}
use b2bua.Ua.Timers.{call}

-- MsgBody: `needs_update`, `str(body)`, `body.localStr(fake_laddr)`, and a parsed copy in which the
-- connection address of every section is 0.0.0.0.
pub record BodyOps (B : Type 0) : Type 0 where
  pub needs_update : B → Bool
  pub text : B → String
  pub local_text : B → String
  pub hold : B → B

-- The time, and what the Idle states draw at random or take from SipConf.
pub record Env : Type 0 where
  pub now : ℕ
  pub made_call_id : String
  pub made_cseq : ℕ
  pub own_url : Url

module _ {B : Type 0} where
  abbrev pub settle_local : LocalOutcome → Ua B → Next × Ua B
  settle_local LocalOutcome.started s = (stay, s)
  settle_local (LocalOutcome.sdp_error x) s = (raised x, s)
  settle_local (LocalOutcome.crashed m) s = (raised_other m, s)

  -- A body that needs it goes to `on_local_sdp_change` first, and the event comes again by
  -- `delayed_local_sdp_update`: then the handler ends as in the `some`.
  unfoldable pub delay_local : BodyOps B → Option B → Event B → Ua B → Option (Next × Ua B)
  delay_local ops none e s = none
  delay_local ops (some b) e s = elim s.media.on_local [
    | none ↦ none
    | some hook ↦
        if ops.needs_update b
        then some (settle_local (hook b) (call (update_local_sdp b e) s))
        else none
  ]

  -- What the handler does with a body that is ready, unless it was handed to the hook.
  unfoldable pub unless_delayed : Option (Next × Ua B) → Next × Ua B → Next × Ua B
  unless_delayed (some d) r = d
  unless_delayed none r = r
