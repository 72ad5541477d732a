-- ===== src/Ua/Account.antt =====
-- sippy/UA.py: isYours, getAcct, resetCreditTime, and the timers that belong to a state object
-- (goDead, goIdle of sippy/UaStateFailed.py, UaStateDisconnected.py and UacStateCancelling.py;
-- keepAlive and keepAliveResp of sippy/UaStateConnected.py).
use b2bua.Prelude.{
  ℕ, suc, ◌-◌, String, Bool, true, false, Option, none, some, List, [], ◌∷◌, ◌&&◌, ◌||◌, ◌==◌, not,
  ltb, str_eq, if◌then◌else◌,
}
use b2bua.Prelude.Assoc.{Assoc}
use b2bua.Sip.Message.{Method, invite, bye, Party, Challenge, InRequest, Response}
use b2bua.Ua.Types.{
  State, keep_alive, late_disconnect, start, to_keep_alive, arm, Next, stay, raised_other,
}
use b2bua.Ua.State.{Ua}
use b2bua.Ua.Timers.{call, start_credit_timer, cancel_credit_timer, update_times}
use b2bua.Ua.Requests.{is_some, gen_request, has_credentials, send_request}
use b2bua.Ua.Change.{change_state}
use b2bua.Ua.Local.{BodyOps, Env}
use b2bua.Ua.Agent.{disconnect_ua, is_connected}

abbrev is_bye : Method → Bool
is_bye bye = true
is_bye _ = false

abbrev opt_eq : Option String → Option String → Bool
opt_eq none none = true
opt_eq (some a) (some b) = str_eq a b
opt_eq _ _ = false

-- `self.rUri != None and self.rUri.getTag() != tag`, negated.
abbrev tag_fits : Option Party → Option String → Bool
tag_fits none tag = true
tag_fits (some p) tag = opt_eq p.tag tag

-- `self.branch != None and self.branch != branch`, negated.
abbrev branch_fits : Option String → Option String → Bool
branch_fits none b = true
branch_fits (some a) b = opt_eq (some a) b

abbrev id_fits : Option String → String → Bool
id_fits none id = str_eq "None" id
id_fits (some a) id = str_eq a id

abbrev has_challenge : List Challenge → Bool
has_challenge [] = false
has_challenge (_ ∷ _) = true

module _ {B : Type 0} where
  -- isYours(req): whether the request is for this dialog.
  unfoldable pub is_yours : InRequest B → Ua B → Bool
  is_yours req s =
      (is_bye req.method || branch_fits s.dialog.branch req.branch)
      && (id_fits s.dialog.call_id req.call_id
          && (tag_fits s.dialog.ruri req.from.tag && tag_fits s.dialog.luri req.to.tag))

  -- getAcct: how long the call lasted, how long it took to connect, whether it was connected and
  -- whether it has ended. (Times are taken as they come in: a later one is not less.)
  unfoldable pub get_acct : ℕ → ℕ → Ua B → ℕ × ℕ × Bool × Bool
  get_acct now setup s =
      let ended : ℕ = elim s.stamps.disconnect [ none ↦ now | some t ↦ t ] in
      elim s.stamps.connect [
        | some c ↦ (ended - c, c - setup, true, is_some s.stamps.disconnect)
        | none ↦ (0, ended - setup, false, is_some s.stamps.disconnect)
      ]

  unfoldable pub reset_credit_time : ℕ → Assoc ℕ (Option ℕ) → Ua B → Ua B
  reset_credit_time rtime times s =
      let s1 = record s {
        limits = record s.limits { credit_times = update_times s.limits.credit_times times };
      } in
      if is_connected s1 then start_credit_timer rtime (cancel_credit_timer s1) else s1

  -- goDead of Failed and Disconnected, goIdle of Cancelling.
  unfoldable pub go_dead : Ua B → Ua B
  go_dead s = change_state State.dead none s

  unfoldable pub go_idle : Ua B → Ua B
  go_idle s = change_state State.dead none (record s { te = false })

  -- `self.ua.state == self`, for the state object with this number.
  abbrev is_current : ℕ → Ua B → Bool
  is_current k s = s.instance_no == k

  unfoldable pub on_keep_alive : ℕ → Ua B → Ua B
  unfolding gen_request
  on_keep_alive k s =
      let (req, s1) = gen_request invite s.media.lsdp [] [] none s in
      if is_current k s
      then record s1 {
        triedauth = false;
        ka_tr = some req.cseq;
        calls = start req to_keep_alive [] ∷ s1.calls;
      }
      else s

  -- A challenge to a keep-alive is handed to genRequest as it is, where a pair is unpacked.
  abbrev pub challenged : Response B → Ua B → Bool
  challenged resp s =
      ((resp.code == 401 && has_challenge resp.www)
        || (resp.code == 407 && has_challenge resp.proxy))
      && (has_credentials s && not s.triedauth)

  -- keepAliveResp.
  unfoldable pub on_keep_alive_response : BodyOps B → Env → ℕ → Response B → Ua B → Next × Ua B
  on_keep_alive_response ops env k resp s =
      let s1 = record s { ka_tr = none; keepalives = suc s.keepalives } in
      if not (is_current k s)
      then (stay, s)
      else if challenged resp s
      then (raised_other "cannot unpack non-iterable challenge", s)
      else if ltb resp.code 200
      then (stay, s)
      else if resp.code == 408 || (resp.code == 481 || resp.code == 486)
      then (if s1.keepalives == 1
          then (stay, call (arm late_disconnect 600000) s1)
          else disconnect_ua ops env env.now none s1)
      else (stay, call (arm keep_alive s1.config.ka_interval) s1)

  -- rComplete: the REFER was answered.
  unfoldable pub on_refer_complete : Ua B → Ua B
  on_refer_complete s = send_request bye [] s
