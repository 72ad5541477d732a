-- ===== src/Ua/State.antt =====
-- The attributes of UA (sippy/UA.py, class UA), in groups, with those of its current state object.
-- Times are milliseconds; an attribute that holds a timer holds its deadline.
use b2bua.Prelude.{ℕ, String, Bool, Option, List}
use b2bua.Prelude.Assoc.{Assoc}
use b2bua.Sip.Message.{Url, Target, Party, Header, Request}
use b2bua.Ua.Types.{State, Event, Call, RemoteOutcome, LocalOutcome}

pub record Config : Type 0 where
  pub username : Option String
  pub password : Option String
  pub auth_enalgs : Option (List String)
  pub pass_auth : Bool
  pub use_refer : Bool
  pub outbound_proxy : Option Target
  pub extra_headers : List Header
  pub ka_interval : ℕ
  pub godead_timeout : ℕ

-- The times allowed for each phase of a call. `expire_mtime` and `no_progress_mtime` are the
-- deadlines that the Idle states compute.
pub record Limits : Type 0 where
  pub expire_time : Option ℕ
  pub no_progress_time : Option ℕ
  pub no_reply_time : Option ℕ
  pub credit_time : Option ℕ
  pub credit_times : Assoc ℕ (Option ℕ)
  pub expire_mtime : ℕ
  pub no_progress_mtime : ℕ

pub record Timers : Type 0 where
  pub expires : Option ℕ
  pub no_progress : Option ℕ
  pub no_reply : Option ℕ
  pub credit : Option ℕ

pub record Stamps : Type 0 where
  pub setup : Option ℕ
  pub p100 : Option ℕ
  pub p1xx : Option ℕ
  pub connect : Option ℕ
  pub disconnect : Option ℕ

pub record Dialog (B : Type 0) : Type 0 where
  pub call_id : Option String
  pub ltag : String
  pub luri : Option Party
  pub ruri : Option Party
  pub lcseq : ℕ
  pub rcseq : Option ℕ
  pub lcontact : Option Url
  pub rtarget : Url
  pub raddr : Target
  pub raddr0 : Target
  pub routes : List Url
  pub branch : Option String
  pub reqs : Assoc ℕ (Request B)

pub record Media (B : Type 0) : Type 0 where
  pub lsdp : Option B
  pub rsdp : Option B
  pub late : Bool
  pub on_local : Option (B → LocalOutcome)
  pub on_remote : Option (B → RemoteOutcome B)

-- Events that wait in `equeue`, `elast_seq`, the class variable `CCEventGeneric.seq`, whether
-- `event_cb` is set, and what it was called with, the newest first.
pub record Queue (B : Type 0) : Type 0 where
  pub equeue : List (Event B)
  pub elast_seq : Option ℕ
  pub next_seq : ℕ
  pub listening : Bool
  pub delivered : List (Event B)

pub record Callbacks : Type 0 where
  pub conn : List ℕ
  pub disc : List ℕ
  pub fail : List ℕ
  pub ring : List ℕ
  pub dead : List ℕ

-- Transactions are named by the CSeq of their request; `answering` is `uasResp`. `keepalives`,
-- `ka_tr`, `triedauth` and `te` belong to the state object, and `instance_no` tells it from those
-- before it.
pub record Ua (B : Type 0) : Type 0 where
  pub state : Option State
  pub instance_no : ℕ
  pub keepalives : ℕ
  pub ka_tr : Option ℕ
  pub triedauth : Bool
  pub te : Bool
  pub tr : Option ℕ
  pub pending_tr : Option ℕ
  pub answering : Option ℕ
  pub last_scode : ℕ
  pub origin : Option String
  pub remote_agent : Option String
  pub config : Config
  pub limits : Limits
  pub timers : Timers
  pub stamps : Stamps
  pub dialog : Dialog B
  pub media : Media B
  pub queue : Queue B
  pub cbs : Callbacks
  -- the calls made, the newest first
  pub calls : List (Call B)

-- `self.state.dead`, `self.state.connected`.
abbrev pub is_dead_state : State → Bool
is_dead_state State.dead = Bool.true
is_dead_state _ = Bool.false

abbrev pub is_connected_state : State → Bool
is_connected_state State.connected = Bool.true
is_connected_state State.uas_updating = Bool.true
is_connected_state State.uac_updating = Bool.true
is_connected_state _ = Bool.false
