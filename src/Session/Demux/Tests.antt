-- ===== src/Session/Demux/Tests.antt =====
-- A session with an action that asked for an observation, a ping and an exec stream.
use shinken.Prelude.{
  ◌≡◌, refl, String, false, none, some, [], ◌∷◌, ◌++◌, arith, if◌then◌else◌, nat_eq, string_eq,
}
use shinken.Prelude.Dict
use shinken.Prelude.Keyed.{elem}
use shinken.Errors.{Exc, session_closed}
use shinken.Session.Demux.{
  Message, waiting, answered, failed, cancelled, event, lost, Demux, is_waiting, future_of, settled,
  settle, dispatch, fail_pending, is_stream_frame, reply_key, values, rpc, obs, ping, receive,
  cancel, run,
}
use shinken.Session.Demux.Laws.{dispatch-pong, IsReply, ack_then_observation}
use shinken.Session.Demux.Loss.{
  queue_of, count, repeat, registered, fail_pending-futures, dispatch-fail_pending,
  fail_pending-queues,
}

abbrev message : String → String → Message Unit
message kind cid = record {
  kind = kind;
  stream = none;
  call_id = some cid;
  cause = none;
  body = tt;
}

abbrev empty : Demux Unit
empty = record {
  futures = [];
  pending = [];
  pending_obs = [];
  pong_waiters = [];
  queues = [];
  exec_streams = [];
  pushed = [];
  closed = false;
}

-- What `act` with an observation registers, and a ping and an exec.
abbrev live : Demux Unit
live = record {
  futures = waiting ∷ waiting ∷ cancelled ∷ waiting ∷ [];
  pending = ("c1", 1) ∷ [];
  pending_obs = ("c1", 0) ∷ [];
  pong_waiters = 2 ∷ 3 ∷ [];
  queues = (event (message "exec_output" "c2") ∷ []) ∷ [];
  exec_streams = ("c2", 0) ∷ [];
  pushed = [];
  closed = false;
}

reaches_live :
    (run (obs "c1" ∷ rpc "c1" ∷ ping ∷ cancel 2 ∷ ping ∷ []) empty).futures ≡ live.futures
unfolding run
reaches_live = refl

lost_connection : Exc
lost_connection = record { class = session_closed; message = "connection closed" }

-- The first waiter was cancelled: the second is answered.
dispatch-pong_example : dispatch (message "pong" "c1") live ≡ record live {
  pong_waiters = [];
  futures = settle 3 (answered (message "pong" "c1")) live.futures;
}
dispatch-pong_example =
    dispatch-pong (message "pong" "c1") (2 ∷ []) 3 [] live refl refl
      (unfold future_of is_waiting in (refl, tt)) (unfold future_of is_waiting in refl)

ack-IsReply : IsReply "c1" (message "ack" "c1")
unfolding is_stream_frame reply_key
ack-IsReply = record { no_stream = refl; no_exec = refl; no_pong = refl; key = refl }

observation-IsReply : IsReply "c1" (message "observation" "c1")
unfolding is_stream_frame reply_key
observation-IsReply = record { no_stream = refl; no_exec = refl; no_pong = refl; key = refl }

ack_then_observation_example :
    run (receive (message "ack" "c1") ∷ receive (message "observation" "c1") ∷ []) live
    ≡ record live {
      pending = Dict.erase "c1" live.pending;
      pending_obs = Dict.erase "c1" live.pending_obs;
      futures =
          settle 0
            (answered (message "observation" "c1"))
            (settle 1 (answered (message "ack" "c1")) live.futures);
    }
ack_then_observation_example =
    ack_then_observation "c1" (message "ack" "c1") (message "observation" "c1") 1 0 live ack-IsReply
      observation-IsReply (unfold Dict.lookup in refl) (unfold Dict.lookup in refl)

fail_pending-futures_example : future_of (fail_pending lost_connection live).futures 1 ≡ (
    if elem 1 (registered live)
    then settled (future_of live.futures 1) (failed lost_connection)
    else future_of live.futures 1)
fail_pending-futures_example = fail_pending-futures lost_connection live 1 (omega arith)

dispatch-fail_pending_example :
    dispatch (message "ack" "c1") (fail_pending lost_connection live) ≡ (
      if is_stream_frame (message "ack" "c1")
      then record (fail_pending lost_connection live) {
        pushed = live.pushed ++ message "ack" "c1" ∷ [];
      }
      else fail_pending lost_connection live)
dispatch-fail_pending_example = dispatch-fail_pending lost_connection (message "ack" "c1") live

fail_pending-queues_example :
    queue_of (fail_pending lost_connection live).queues 0
    ≡ queue_of live.queues 0 ++ repeat (count 0 (values live.exec_streams)) (lost lost_connection)
fail_pending-queues_example = fail_pending-queues lost_connection live 0 (omega arith)
