-- ===== src/Ua/Uac/Cancelling.antt =====
-- sippy/UacStateCancelling.py: the final response to a cancelled INVITE.
use b2bua.Prelude.{false, none, [], ◌&&◌, ltb, leb, if◌then◌else◌}
use b2bua.Sip.Message.{bye, Response}
use b2bua.Ua.Types.{State, go_idle, disarm, Next, stay, become}
use b2bua.Ua.State.{Ua}
use b2bua.Ua.Timers.{call}
use b2bua.Ua.Requests.{send_request, update_routes, set_remote_tag}

module _ {B : Type 0} where
  abbrev cancel_te : Ua B → Ua B
  cancel_te s = if s.te then call (disarm go_idle) (record s { te = false }) else s

  unfoldable pub cancelling_response : Response B → Ua B → Next × Ua B
  cancelling_response resp s =
      if ltb resp.code 200
      then (stay, s)
      else (let s1 = cancel_te s in
          if leb 200 resp.code && ltb resp.code 300
          then (
            become State.disconnected none,
            send_request bye [] (set_remote_tag resp.to_tag (update_routes resp s1)),
          )
          else (become State.dead none, s1))
