-- ===== src/Session/Demux/Laws.antt =====
-- Replies: an acknowledgement comes before its observation, and pongs answer the waiters in order.
use shinken.Prelude.{
  ℕ, String, ◌≡◌, refl, ap, ◌∙◌, true, false, some, List, [], ◌∷◌, ◌++◌, ◌==◌, nat_eq, string_eq,
  All, ◌||◌,
}
use shinken.Prelude.Dict
use shinken.Session.Demux.{
  Message, answered, Demux, is_waiting, future_of, settle, dispatch, pong, follow_up, reply,
  correlate, reply_key, is_stream_frame, step, run, receive,
}

module _ {B : Type 0} where
  pub pong_first :
      (m : Message B) (before : List ℕ) (i : ℕ) (after : List ℕ) (d : Demux B)
      → All (λ j. is_waiting (future_of d.futures j) ≡ false) before
      → is_waiting (future_of d.futures i) ≡ true
      → pong m (before ++ i ∷ after) d
        ≡ record d { pong_waiters = after; futures = settle i (answered m) d.futures }
  unfolding pong
  pong_first m [] i after d h w = rw w refl
  pong_first m (j ∷ before) i after d h w = rw h.0 (pong_first m before i after d h.1 w)

  dispatch_kind :
      (m : Message B) (d : Demux B) → m.kind ≡ "pong" → dispatch m d ≡ pong m d.pong_waiters d
  unfolding dispatch is_stream_frame
  dispatch_kind m d k = simp k

  -- A pong message answers the first waiter that is not done. It drops the done ones before it, and
  -- leaves the later waiters, every other future and all else as they are.
  pub dispatch-pong :
      (m : Message B) (before : List ℕ) (i : ℕ) (after : List ℕ) (d : Demux B)
      → m.kind ≡ "pong"
      → d.pong_waiters ≡ before ++ i ∷ after
      → All (λ j. is_waiting (future_of d.futures j) ≡ false) before
      → is_waiting (future_of d.futures i) ≡ true
      → dispatch m d ≡ record d { pong_waiters = after; futures = settle i (answered m) d.futures }
  dispatch-pong m before i after d k ws h w =
      dispatch_kind m d k ∙ (ap (λ is. pong m is d) ws ∙ pong_first m before i after d h w)

  -- A message that answers a call: not one of a stream, of an exec or a pong.
  pub record IsReply (cid : String) (m : Message B) : Type 0 where
    pub no_stream : is_stream_frame m ≡ false
    pub no_exec : (m.kind == "exec_output" || m.kind == "exec_exit") ≡ false
    pub no_pong : (m.kind == "pong") ≡ false
    pub key : reply_key m.call_id m.cause ≡ some cid

  dispatch-IsReply :
      (cid : String) (m : Message B) (d : Demux B)
      → IsReply cid m
      → dispatch m d ≡ reply m cid (Dict.lookup cid d.pending) d
  unfolding dispatch correlate
  dispatch-IsReply cid m d h = rw h.no_stream (rw h.no_exec (rw h.no_pong (rw h.key refl)))

  -- Two replies on the call id of an action that asked for an observation: the first answers the
  -- action's future and the second the observation's, which leaves both tables without the call and
  -- all else as it was.
  pub ack_then_observation :
      (cid : String) (ack observation : Message B) (i j : ℕ) (d : Demux B)
      → IsReply cid ack
      → IsReply cid observation
      → Dict.lookup cid d.pending ≡ some i
      → Dict.lookup cid d.pending_obs ≡ some j
      → run (receive ack ∷ receive observation ∷ []) d ≡ record d {
        pending = Dict.erase cid d.pending;
        pending_obs = Dict.erase cid d.pending_obs;
        futures = settle j (answered observation) (settle i (answered ack) d.futures);
      }
  unfolding run step reply follow_up
  ack_then_observation cid ack observation i j d ha ho p o =
      let first = reply ack cid (some i) d in
      ap (λ e. dispatch observation e)
        (dispatch-IsReply cid ack d ha ∙ ap (λ x. reply ack cid x d) p)
      ∙ (dispatch-IsReply cid observation first ho
          ∙ (ap (λ x. reply observation cid x first) (Dict.lookup-erase_self cid d.pending)
              ∙ ap (λ x. follow_up observation cid x first) o))
