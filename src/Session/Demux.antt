-- ===== src/Session/Demux.antt =====
-- The demultiplexer of AsyncSandbox in client.py: the tables of replies that are waited for, and what
-- the reader task does with a message or with the end of the connection (_dispatch, _fail_pending,
-- _discard_pong_waiter, and the registrations of _rpc, act, ping and exec_stream). A future and an
-- event queue are numbers, in the order of their creation; `B` is what a message carries besides the
-- keys that the demultiplexer reads. Frames that are pushed are kept in order: Session/Frames says
-- what becomes of them.
pub mod Futures
pub mod Laws
pub mod Loss
mod Tests
use shinken.Prelude.{
  nat_eq, string_eq, ℕ, zero, suc, String, Bool, true, false, not, ◌&&◌, ◌||◌, Option, none, some,
  List, [], ◌∷◌, ◌++◌, Result, ok, raised, length, ◌==◌, if◌then◌else◌,
}
use shinken.Prelude.Dict
use shinken.Prelude.Dict.{Dict}
use shinken.Errors.{Exc, session_closed}

pub record Message (B : Type 0) : Type 0 where
  pub kind : String
  pub stream : Option String
  pub call_id : Option String
  pub cause : Option String
  pub body : B

-- A future: it is done once it is no longer `waiting`.
pub data Future (B : Type 0) : Type 0 where
  waiting : Future B
  answered : Message B → Future B
  failed : Exc → Future B
  cancelled : Future B

-- What an exec consumer reads off its queue.
pub data ExecItem (B : Type 0) : Type 0 where
  event : Message B → ExecItem B
  lost : Exc → ExecItem B

pub record Demux (B : Type 0) : Type 0 where
  pub futures : List (Future B)
  pub pending : Dict String ℕ
  pub pending_obs : Dict String ℕ
  pub pong_waiters : List ℕ
  pub queues : List (List (ExecItem B))
  pub exec_streams : Dict String ℕ
  pub pushed : List (Message B)
  pub closed : Bool

module _ {B : Type 0} where
  pub is_waiting : Future B → Bool
  is_waiting waiting = true
  is_waiting _ = false

  -- A number that names no future is taken for a done one.
  unfoldable pub future_of : List (Future B) → ℕ → Future B
  future_of [] i = cancelled
  future_of (f ∷ fs) zero = f
  future_of (f ∷ fs) (suc i) = future_of fs i

  -- `if not fut.done(): fut.set_result(…)`, or `set_exception`.
  unfoldable pub settled : Future B → Future B → Future B
  settled waiting outcome = outcome
  settled f outcome = f

  unfoldable pub settle : ℕ → Future B → List (Future B) → List (Future B)
  unfolding settled
  settle i outcome [] = []
  settle zero outcome (f ∷ fs) = settled f outcome ∷ fs
  settle (suc i) outcome (f ∷ fs) = f ∷ settle i outcome fs

  unfoldable pub settle_all : List ℕ → Future B → List (Future B) → List (Future B)
  unfolding settle
  settle_all [] outcome fs = fs
  settle_all (i ∷ is) outcome fs = settle_all is outcome (settle i outcome fs)

  unfoldable pub add_item : ℕ → ExecItem B → List (List (ExecItem B)) → List (List (ExecItem B))
  add_item i item [] = []
  add_item zero item (q ∷ qs) = (q ++ item ∷ []) ∷ qs
  add_item (suc i) item (q ∷ qs) = q ∷ add_item i item qs

  unfoldable pub add_to_all :
      List ℕ → ExecItem B → List (List (ExecItem B)) → List (List (ExecItem B))
  unfolding add_item
  add_to_all [] item qs = qs
  add_to_all (i ∷ is) item qs = add_to_all is item (add_item i item qs)

-- `dict.values()`
abbrev pub values : {V : Type 0} → Dict String V → List V
values [] = []
values ((k, v) ∷ d) = v ∷ values d

-- `deque.remove`: the first occurrence.
remove : ℕ → List ℕ → List ℕ
remove i [] = []
remove i (j ∷ is) = if j == i then is else j ∷ remove i is

-- `msg.get("call_id") or msg.get("cause")`
unfoldable pub reply_key : Option String → Option String → Option String
reply_key none cause = cause
reply_key (some c) cause = if c == "" then cause else some c

module _ {B : Type 0} where
  -- The loop over the pong waiters: done ones are passed over.
  unfoldable pub pong : Message B → List ℕ → Demux B → Demux B
  unfolding future_of settle is_waiting
  pong m [] d = record d { pong_waiters = [] }
  pong m (i ∷ is) d =
      let rest = pong m is d in
      if is_waiting (future_of d.futures i)
      then record d { pong_waiters = is; futures = settle i (answered m) d.futures }
      else rest

  exec_event : Message B → Option ℕ → Demux B → Demux B
  unfolding add_item
  exec_event m none d = d
  exec_event m (some i) d = record d { queues = add_item i (event m) d.queues }

  -- `self._exec_streams.get(msg.get("cause"))`
  stream_queue : Option String → Demux B → Option ℕ
  unfolding Dict.lookup
  stream_queue none d = none
  stream_queue (some c) d = Dict.lookup c d.exec_streams

  -- A second reply on one call id: the observation after an action.
  follow_up : Message B → String → Option ℕ → Demux B → Demux B
  unfolding settle Dict.erase
  follow_up m cid none d = d
  follow_up m cid (some i) d = record d {
    pending_obs = Dict.erase cid d.pending_obs;
    futures = settle i (answered m) d.futures;
  }

  reply : Message B → String → Option ℕ → Demux B → Demux B
  unfolding settle follow_up Dict.erase Dict.lookup
  reply m cid none d = follow_up m cid (Dict.lookup cid d.pending_obs) d
  reply m cid (some i) d = record d {
    pending = Dict.erase cid d.pending;
    futures = settle i (answered m) d.futures;
  }

  correlate : Message B → Option String → Demux B → Demux B
  unfolding reply Dict.lookup
  correlate m none d = d
  correlate m (some cid) d = reply m cid (Dict.lookup cid d.pending) d

  unfoldable pub is_stream_frame : Message B → Bool
  is_stream_frame m = m.kind == "observation" && elim m.stream [ none ↦ false | some s ↦ true ]

  -- `_dispatch`
  unfoldable pub dispatch : Message B → Demux B → Demux B
  unfolding exec_event stream_queue correlate pong reply_key is_stream_frame
  dispatch m d =
      if is_stream_frame m
      then record d { pushed = d.pushed ++ m ∷ [] }
      else if m.kind == "exec_output" || m.kind == "exec_exit"
      then exec_event m (stream_queue m.cause d) d
      else if m.kind == "pong"
      then pong m d.pong_waiters d
      else correlate m (reply_key m.call_id m.cause) d

  -- `_fail_pending`
  unfoldable pub fail_pending : Exc → Demux B → Demux B
  unfolding settle_all add_to_all
  fail_pending exc d =
      let failing = values d.pending ++ (values d.pending_obs ++ d.pong_waiters) in
      record d {
        futures = settle_all failing (failed exc) d.futures;
        pending = [];
        pending_obs = [];
        pong_waiters = [];
        queues = add_to_all (values d.exec_streams) (lost exc) d.queues;
        exec_streams = [];
      }

  -- `_ensure_open`
  ensure_open : Demux B → Result Exc Unit
  ensure_open d =
      if d.closed
      then raised (record { class = session_closed; message = "session is closed" })
      else ok tt

  new_future : Demux B → ℕ × Demux B
  new_future d = (length d.futures, record d { futures = d.futures ++ waiting ∷ [] })

  -- A call id is registered before its message is sent.
  register : String → Demux B → Demux B
  unfolding new_future Dict.insert
  register cid d =
      let (i, d') = new_future d in record d' { pending = Dict.insert cid i d'.pending }

  register_obs : String → Demux B → Demux B
  unfolding new_future Dict.insert
  register_obs cid d =
      let (i, d') = new_future d in record d' { pending_obs = Dict.insert cid i d'.pending_obs }

  register_ping : Demux B → Demux B
  unfolding new_future
  register_ping d =
      let (i, d') = new_future d in record d' { pong_waiters = d'.pong_waiters ++ i ∷ [] }

  register_stream : String → Demux B → Demux B
  unfolding Dict.insert
  register_stream cid d = record d {
    queues = d.queues ++ [] ∷ [];
    exec_streams = Dict.insert cid (length d.queues) d.exec_streams;
  }

-- What the session does to its tables: calls that register, what ends their wait (a send that fails, a
-- deadline, the caller's own cancellation, which leaves the entry behind), and the reader. `close`
-- sets the flag; the losses that follow it are those of the cancelled reader and of close itself.
pub data Op (B : Type 0) : Type 0 where
  rpc obs exec forget forget_obs forget_stream : String → Op B
  ping : Op B
  timeout timeout_obs : String → ℕ → Op B
  cancel discard_ping : ℕ → Op B
  receive : Message B → Op B
  lose : Exc → Op B
  close : Op B

module _ {B : Type 0} where
  -- An RPC or a ping of a closed session raises and registers nothing. `act` and `exec_stream` register
  -- the observation and the event queue before the RPC that looks at the flag.
  unfoldable pub step : Op B → Demux B → Result Exc Unit × Demux B
  unfolding ensure_open register register_obs register_ping register_stream remove Dict.erase settle
  step (rpc cid) d = (ensure_open d, if d.closed then d else register cid d)
  step (obs cid) d = (ok tt, register_obs cid d)
  step ping d = (ensure_open d, if d.closed then d else register_ping d)
  step (exec cid) d = (ok tt, register_stream cid d)
  step (forget cid) d = (ok tt, record d { pending = Dict.erase cid d.pending })
  step (forget_obs cid) d = (ok tt, record d { pending_obs = Dict.erase cid d.pending_obs })
  step (forget_stream cid) d = (ok tt, record d { exec_streams = Dict.erase cid d.exec_streams })
  step (timeout cid i) d = (
    ok tt,
    record d { pending = Dict.erase cid d.pending; futures = settle i cancelled d.futures },
  )
  step (timeout_obs cid i) d = (
    ok tt,
    record d { pending_obs = Dict.erase cid d.pending_obs; futures = settle i cancelled d.futures },
  )
  step (cancel i) d = (ok tt, record d { futures = settle i cancelled d.futures })
  step (discard_ping i) d = (
    ok tt,
    record d { pong_waiters = remove i d.pong_waiters; futures = settle i cancelled d.futures },
  )
  step (receive m) d = (ok tt, dispatch m d)
  step (lose exc) d = (ok tt, fail_pending exc d)
  step close d = (ok tt, record d { closed = true })

  unfoldable pub run : List (Op B) → Demux B → Demux B
  unfolding step
  run [] d = d
  run (op ∷ ops) d = run ops (step op d).1
