-- ===== src/Ua/Laws/Frame/Parts.antt =====
-- What the operations that handlers are made of leave alone: the events delivered, the number of the
-- last one, the last CSeq taken, and the settings. Numbers for events only grow.
use b2bua.Prelude.{ℕ, ◌≤◌, ◌≡◌, ◌∙◌, Option, none, some, List, [], ◌∷◌, String, arith}
use b2bua.Prelude.Assoc.{nat_key}
use b2bua.Sip.Message.{Method, Header, Response}
use b2bua.Ua.Types.{Event, EventKind, Next, Notice, State}
use b2bua.Ua.State.{Ua}
use b2bua.Ua.Queue.{post}
use b2bua.Ua.Requests.{send_request, update_routes, gen_request}
use b2bua.Ua.Timers.{
  cancel_expires, cancel_no_progress, cancel_no_reply, cancel_credit_timer, start_credit_timer,
}
use b2bua.Ua.Change.{change_state, enter, leave, leave_current, notify_each, notify_all}
use b2bua.Ua.Remote.{Taken, done, waiting, failed, broken, take_remote}
use b2bua.Ua.Uac.Answer.{finish_remote}
use b2bua.Ua.Local.{BodyOps, delay_local, unless_delayed}

module _ {B : Type 0} where
  pub record Frame (s t : Ua B) : Type 0 where
    pub delivered : t.queue.delivered ≡ s.queue.delivered
    pub elast_seq : t.queue.elast_seq ≡ s.queue.elast_seq
    pub rcseq : t.dialog.rcseq ≡ s.dialog.rcseq
    pub next_seq : s.queue.next_seq ≤ t.queue.next_seq
    pub config : t.config ≡ s.config

  pub Frame-refl : (s : Ua B) → Frame s s
  Frame-refl s = ground arith

  pub Frame-trans : {s t u : Ua B} → Frame s t → Frame t u → Frame s u
  Frame-trans h k = record {
    delivered = k.delivered ∙ h.delivered;
    elast_seq = k.elast_seq ∙ h.elast_seq;
    rcseq = k.rcseq ∙ h.rcseq;
    next_seq = omega arith;
    config = k.config ∙ h.config;
  }

  pub cancel_expires-Frame : (s : Ua B) → Frame s (cancel_expires s)
  unfolding cancel_expires
  cancel_expires-Frame s = ground arith

  pub cancel_no_progress-Frame : (s : Ua B) → Frame s (cancel_no_progress s)
  unfolding cancel_no_progress
  cancel_no_progress-Frame s = ground arith

  pub cancel_no_reply-Frame : (s : Ua B) → Frame s (cancel_no_reply s)
  unfolding cancel_no_reply
  cancel_no_reply-Frame s = ground arith

  pub cancel_credit_timer-Frame : (s : Ua B) → Frame s (cancel_credit_timer s)
  unfolding cancel_credit_timer
  cancel_credit_timer-Frame s = ground arith

  pub start_credit_timer-Frame : (rtime : ℕ) (s : Ua B) → Frame s (start_credit_timer rtime s)
  unfolding start_credit_timer
  start_credit_timer-Frame rtime s = ground arith

  pub gen_request-Frame :
      (m : Method) (body : Option B) (auth eh : List Header) (mf : Option ℕ) (s : Ua B)
      → Frame s (gen_request m body auth eh mf s).1
  unfolding gen_request
  gen_request-Frame m body auth eh mf s = ground arith

  pub send_request-Frame :
      (m : Method) (eh : List Header) (s : Ua B) → Frame s (send_request m eh s)
  unfolding send_request
  send_request-Frame m eh s = ground arith

  pub update_routes-Frame : (resp : Response B) (s : Ua B) → Frame s (update_routes resp s)
  unfolding update_routes
  update_routes-Frame resp s = ground arith

  pub post-Frame :
      (k : EventKind B) (rtime : ℕ) (origin : Option String) (reason : Option Header) (s : Ua B)
      → Frame s (post k rtime origin reason s)
  unfolding post
  post-Frame k rtime origin reason s = ground arith

  pub notify_each-Frame : (fs : List ℕ) (n : Notice) (s : Ua B) → Frame s (notify_each fs n s)
  unfolding notify_each
  notify_each-Frame [] n s = Frame-refl s
  notify_each-Frame (f ∷ fs) n s = Frame-trans (ground arith) (notify_each-Frame fs n _)

  pub notify_all-Frame : (n : Option Notice) (s : Ua B) → Frame s (notify_all n s)
  unfolding notify_all
  notify_all-Frame none s = Frame-refl s
  notify_all-Frame (some n) s = notify_each-Frame n.callbacks n s

  -- The state that a `Taken` holds.
  abbrev pub taken_state : Taken B → Ua B
  taken_state (done t) = t
  taken_state (waiting t) = t
  taken_state (failed x t) = t
  taken_state (broken m t) = t

  pub take_remote-Frame :
      (b : Option B) (e : Event B) (s : Ua B) → Frame s (taken_state (take_remote b e s))
  unfolding take_remote
  take_remote-Frame b e s = ground arith

  pub finish_remote-Frame :
      (k : Taken B) (e : Event B) (f : Ua B → Ua B) (next : Next) (s : Ua B)
      → ((t : Ua B) → Frame t (f t))
      → Frame s (taken_state k)
      → Frame s (finish_remote k e f next).1
  unfolding finish_remote
  finish_remote-Frame (done t) e f next s h k = Frame-trans (Frame-trans k (ground arith)) (h _)
  finish_remote-Frame (waiting t) e f next s h k = Frame-trans k (h t)
  finish_remote-Frame (failed x t) e f next s h k = k
  finish_remote-Frame (broken m t) e f next s h k = k

  pub finish_take-Frame :
      (b : Option B) (e : Event B) (f : Ua B → Ua B) (next : Next) (s t : Ua B)
      → ((u : Ua B) → Frame u (f u))
      → Frame s t
      → Frame s (finish_remote (take_remote b e t) e f next).1
  finish_take-Frame b e f next s t h k =
      finish_remote-Frame (take_remote b e t) e f next s h (Frame-trans k (take_remote-Frame b e t))

  -- The form that a chain of steps is put together with.
  pub then_notify-Frame : (n : Option Notice) (s t : Ua B) → Frame s t → Frame s (notify_all n t)
  then_notify-Frame n s t h = Frame-trans h (notify_all-Frame n t)

  -- A handler that lets the local hook have the body first.
  pub delayed-Frame :
      (ops : BodyOps B) (b : Option B) (e : Event B) (r : Next × Ua B) (s t : Ua B)
      → Frame s t
      → Frame s r.1
      → Frame s (unless_delayed (delay_local ops b e t) r).1
  unfolding delay_local unless_delayed
  delayed-Frame ops b e r s t h k = ground arith

  pub enter-Frame : (st : State) (s : Ua B) → Frame s (enter st s)
  unfolding enter
  enter-Frame State.connected s = ground arith
  enter-Frame State.dead s = ground arith
  enter-Frame _ s = ground arith

  pub leave-Frame : (st : State) (s : Ua B) → Frame s (leave st s)
  unfolding leave cancel_expires
  leave-Frame State.connected s = ground arith
  leave-Frame _ s = ground arith

  pub change_state-Frame :
      (st : State) (n : Option Notice) (s : Ua B) → Frame s (change_state st n s)
  unfolding change_state
  change_state-Frame st n s =
      Frame-trans (left s.state)
        (Frame-trans (enter-Frame st _) (Frame-trans (ground arith) (notify_all-Frame n _)))
    where
      left : (o : Option State) → Frame s (leave_current o s)
      left none = Frame-refl s
      left (some old) = leave-Frame old s
