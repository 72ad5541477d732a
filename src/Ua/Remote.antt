-- ===== src/Ua/Remote.antt =====
-- Handing a remote session description to `on_remote_sdp_change`, the block that the states repeat:
-- with no body `rSDP = None`; with no hook, or with one that returns a body, `rSDP` is a copy of it;
-- a hook that returns `None` delivers the event later, and one that raises ends the handler.
use b2bua.Prelude.{ℕ, String, Option, none, some, leb, if◌then◌else◌}
use b2bua.Sip.Message.{SdpError}
use b2bua.Ua.Types.{Event, update_remote_sdp, RemoteOutcome}
use b2bua.Ua.State.{Ua}
use b2bua.Ua.Timers.{call}

-- Where the block ends, with the state that it leaves.
pub data Taken (B : Type 0) : Type 0 where
  done waiting : Ua B → Taken B
  failed : SdpError → Ua B → Taken B
  broken : String → Ua B → Taken B

-- `disconnect_ts = rtime`, unless that is before the call was set up: then the current time.
abbrev pub end_time : ℕ → ℕ → Option ℕ → ℕ
end_time now rtime none = rtime
end_time now rtime (some setup) = if leb setup rtime then rtime else now

module _ {B : Type 0} where
  abbrev pub set_rsdp : Option B → Ua B → Ua B
  set_rsdp b s = record s { media = record s.media { rsdp = b } }

  abbrev settle : RemoteOutcome B → Ua B → Taken B
  settle (RemoteOutcome.replaced b) s = done (set_rsdp (some b) s)
  settle RemoteOutcome.pending s = waiting s
  settle (RemoteOutcome.sdp_error x) s = failed x s
  settle (RemoteOutcome.crashed m) s = broken m s

  unfoldable pub take_remote : Option B → Event B → Ua B → Taken B
  take_remote none e s = done (set_rsdp none s)
  take_remote (some b) e s = elim s.media.on_remote [
    | none ↦ done (set_rsdp (some b) s)
    | some hook ↦ settle (hook b) (call (update_remote_sdp b e) s)
  ]

  unfoldable pub stamp_end : ℕ → ℕ → Ua B → Ua B
  stamp_end now rtime s = record s {
    stamps = record s.stamps { disconnect = some (end_time now rtime s.stamps.setup) };
  }
