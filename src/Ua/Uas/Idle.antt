-- ===== src/Ua/Uas/Idle.antt =====
-- sippy/UasStateIdle.py: the INVITE that opens the call.
use b2bua.Prelude.{ℕ, Option, none, some, ◌∷◌}
use b2bua.Sip.Message.{Url, InRequest}
use b2bua.Sip.Routing.{route_dialog}
use b2bua.Ua.Types.{State, Event, TryData, try_call, provisional, register, Next, become}
use b2bua.Ua.State.{Ua}
use b2bua.Ua.Timers.{arm_expires, arm_no_progress}
use b2bua.Ua.Queue.{make_event, count_event}
use b2bua.Ua.Requests.{is_some, with_routes}
use b2bua.Ua.Remote.{take_remote}
use b2bua.Ua.Local.{Env}
use b2bua.Ua.Uac.Idle.{trim_no_progress, set_expire_mtime}
use b2bua.Ua.Uac.Answer.{finish_remote}

abbrev contact_or : Url → Option Url → Option Url
contact_or own none = some own
contact_or own (some u) = some u

module _ {B : Type 0} where
  -- The dialog that the INVITE opens: its 100 response gives the URIs, the call id and the routes.
  unfoldable pub accept_dialog : Env → InRequest B → Ua B → Ua B
  unfolding route_dialog
  accept_dialog env req s =
      let r =
        route_dialog (is_some s.config.outbound_proxy) req.record_routes req.contact
          s.dialog.raddr in
      let d = with_routes r s.dialog in
      record s {
        origin = some "caller";
        answering = some req.cseq;
        dialog = record d {
          lcseq = env.made_cseq;
          lcontact = contact_or env.own_url d.lcontact;
          raddr0 = r.raddr;
          luri = some (record req.to { tag = some d.ltag });
          ruri = some req.from;
          call_id = some req.call_id;
          branch = req.branch;
        };
        calls = register req.call_id ∷ provisional ∷ s.calls;
      }

  -- `data`, `reason_rfc3326` and `max_forwards` of the Try event.
  abbrev try_event : InRequest B → Ua B → Event B
  try_event req s =
      let d : TryData B = record {
        call_id = some req.call_id;
        calling = req.from.url.username;
        called = req.ruri.username;
        body = req.body;
        auth = req.auth;
        name = req.from.name;
      } in
      record (make_event (try_call d) req.rtime s.origin req.reason s) {
        max_forwards = req.max_forwards;
      }

  -- The one timer that starts: no-progress, else expire.
  unfoldable pub arm_progress : Ua B → Ua B
  arm_progress s = elim s.limits.no_progress_time [
    | some _ ↦ arm_no_progress s
    | none ↦ elim s.limits.expire_time [ some _ ↦ arm_expires s | none ↦ s ]
  ]

  abbrev stamp_setup : ℕ → Ua B → Ua B
  stamp_setup rtime s = record s { stamps = record s.stamps { setup = some rtime } }

  unfoldable pub idle_invite : Env → InRequest B → Ua B → Next × Ua B
  unfolding accept_dialog arm_progress trim_no_progress set_expire_mtime
  idle_invite env req s =
      let s1 = accept_dialog env req s in
      let e = try_event req s1 in
      let s2 = count_event s1 in
      let s3 = record s2 {
        limits = trim_no_progress req.rtime (set_expire_mtime req.rtime s2.limits);
      } in
      finish_remote (take_remote req.body e (arm_progress s3)) e (stamp_setup req.rtime)
        (become State.uas_trying none)
