-- ===== src/Ua/Laws/Delivery.antt =====
-- The order in which a UA hands events to the application (sippy/UA.py, emitEvent and
-- emitPendingEvents), and its answer to old requests (recvRequest), over every run.
use b2bua.Prelude.{
  ℕ, ◌<◌, ◌≤◌, ◌≡◌, refl, true, false, Option, none, some, List, [], ◌∷◌, arith, if_elim,
}
use b2bua.Sip.Message.{InRequest}
use b2bua.Ua.Types.{Event}
use b2bua.Ua.State.{Ua, Queue}
use b2bua.Ua.Queue.{is_newer, deliver}
use b2bua.Ua.Requests.{update_ua}
use b2bua.Ua.Local.{BodyOps, Env}
use b2bua.Ua.Incoming.{Verdict, answer, is_stale, note_agent, set_rcseq, recv_request}
use b2bua.Ua.Machine.{Input, run}
use b2bua.Ua.Laws.Induction.{run-IsFine, request_in-IsFine}

-- A request with CSeq `c`, or a later one, was taken.
abbrev pub HasTaken : ℕ → Option ℕ → Type 0
HasTaken c none = ⊥
HasTaken c (some n) = c ≤ n

HasTaken-later :
    (c n : ℕ) (r : Option ℕ) → is_stale n r ≡ false → HasTaken c r → HasTaken c (some n)
HasTaken-later c n none fresh h = absurd h
HasTaken-later c n (some m) fresh h = ground arith

HasTaken-stale : (c : ℕ) (r : Option ℕ) → is_stale c r ≡ true → HasTaken c r
HasTaken-stale c none h = ground arith
HasTaken-stale c (some m) h = ground arith

is_stale-taken : (c d : ℕ) (r : Option ℕ) → d ≤ c → HasTaken c r → is_stale d r ≡ true
is_stale-taken c d none le h = absurd h
is_stale-taken c d (some m) le h = ground arith

module _ {B : Type 0} where
  abbrev pub Below : ℕ → List (Event B) → Type 0
  Below n [] = Unit
  Below n (e ∷ es) = (e.seq < n) × Below e.seq es

  -- Newest first, the numbers fall from the last one on.
  abbrev pub Falling : Option ℕ → List (Event B) → Type 0
  Falling none [] = Unit
  Falling none (_ ∷ _) = ⊥
  Falling (some n) [] = ⊥
  Falling (some n) (e ∷ es) = (e.seq ≡ n) × Below e.seq es

  abbrev pub IsOrdered : Queue B → Type 0
  IsOrdered q = Falling q.elast_seq q.delivered

  Falling-cons :
      (o : Option ℕ) (e : Event B) (es : List (Event B))
      → Falling o es
      → ((n : ℕ) → o ≡ some n → n < e.seq)
      → Falling (some e.seq) (e ∷ es)
  Falling-cons none e [] h k = (refl, tt)
  Falling-cons none e (_ ∷ _) h k = absurd h
  Falling-cons (some n) e [] h k = absurd h
  Falling-cons (some n) e (d ∷ ds) h k = let lt = k n refl in (refl, (omega arith, h.1))

  deliver-IsOrdered : (e : Event B) (q : Queue B) → IsOrdered q → IsOrdered (deliver e q)
  unfolding deliver
  deliver-IsOrdered e q h =
      if_elim IsOrdered (is_newer e.seq q.elast_seq)
        (λ new. Falling-cons q.elast_seq e q.delivered h (λ n k. ground arith)) (λ _. h)

  -- Whatever reaches a UA, in whatever order, the numbers of the events that it delivers to the
  -- application rise strictly from one to the next: `delivered` (newest first) stays ordered from
  -- `elast_seq` down.
  pub run-IsOrdered :
      (ops : BodyOps B) (is : List (Env × Input B)) (s : Ua B)
      → IsOrdered s.queue
      → IsOrdered (run ops is s).queue
  run-IsOrdered =
      run-IsFine (λ o d _. Falling o d) (λ e q _. deliver-IsOrdered e q) (λ _ _ _ _ _ h. h)

  run-HasTaken :
      (c : ℕ) (ops : BodyOps B) (is : List (Env × Input B)) (s : Ua B)
      → HasTaken c s.dialog.rcseq
      → HasTaken c (run ops is s).dialog.rcseq
  run-HasTaken c =
      run-IsFine (λ _ _ r. HasTaken c r) (λ _ _ _ h. h)
        (λ n _ _ r fresh h. HasTaken-later c n r fresh h)

  note_agent-rcseq :
      (req : InRequest B) (s : Ua B) → (note_agent req s).dialog.rcseq ≡ s.dialog.rcseq
  unfolding update_ua
  note_agent-rcseq req s = ground arith

  recv_request-HasTaken :
      (ops : BodyOps B) (env : Env) (req : InRequest B) (s : Ua B)
      → HasTaken req.cseq (recv_request ops env req s).1.dialog.rcseq
  unfolding recv_request
  recv_request-HasTaken ops env req s =
      let s0 = note_agent req s in
      if_elim (λ (r : Verdict × Ua B). HasTaken req.cseq r.1.dialog.rcseq)
        (is_stale req.cseq s0.dialog.rcseq) (λ old. HasTaken-stale req.cseq s0.dialog.rcseq old)
        (λ _.
          request_in-IsFine (λ _ _ r. HasTaken req.cseq r) (λ _ _ _ h. h)
            (λ n _ _ r fresh h. HasTaken-later req.cseq n r fresh h) ops env req s0.state
            (set_rcseq req.cseq s0) (ground arith))

  recv_request-old :
      (ops : BodyOps B) (env : Env) (req : InRequest B) (c : ℕ) (s : Ua B)
      → req.cseq ≤ c
      → HasTaken c s.dialog.rcseq
      → recv_request ops env req s ≡ (answer 500 "Server Internal Error", note_agent req s)
  unfolding recv_request
  recv_request-old ops env req c s le h =
      let same = note_agent-rcseq req s in
      let old = is_stale-taken c req.cseq s.dialog.rcseq le h in ground (arith, same, old)

  -- Once a request was given to a UA, and after anything else that reaches it, a request whose CSeq
  -- is not higher is answered "500 Server Internal Error" and changes nothing but the name of the
  -- remote agent: no request of a dialog is handled twice.
  pub recv_request_once :
      (ops : BodyOps B) (env1 env2 : Env) (req1 req2 : InRequest B) (is : List (Env × Input B))
      (s : Ua B)
      → req2.cseq ≤ req1.cseq
      → let t = run ops is (recv_request ops env1 req1 s).1 in
        recv_request ops env2 req2 t ≡ (answer 500 "Server Internal Error", note_agent req2 t)
  recv_request_once ops env1 env2 req1 req2 is s le =
      recv_request-old ops env2 req2 req1.cseq _ le
        (run-HasTaken req1.cseq ops is _ (recv_request-HasTaken ops env1 req1 s))
