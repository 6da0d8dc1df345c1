-- ===== src/Session/Demux/Loss.antt =====
-- The end of the connection: nothing that waits is left waiting.
use shinken.Prelude.{
  ℕ, zero, suc, String, ◌<◌, ◌≡◌, ◌≢◌, refl, sym, ap, ◌∙◌, subst, Bool, true, false, Option, none,
  some, List, [], ◌∷◌, ◌++◌, length, arith, append-nil, append_assoc, if◌then◌else◌, ◌==◌, nat_eq,
  string_eq, Bool-cases, inl, inr, ◌||◌,
}
use shinken.Prelude.Dict
use shinken.Prelude.Dict.{Dict}
use shinken.Prelude.Keyed.{elem}
use shinken.Errors.{Exc}
use shinken.Session.Demux.{
  Message, failed, Demux, is_waiting, future_of, settled, fail_pending, values, dispatch, ExecItem,
  lost, add_item, add_to_all, is_stream_frame, reply_key, pong, correlate, reply, follow_up,
  exec_event, stream_queue,
}
use shinken.Session.Demux.Futures.{settle_all-elem, settle_all-other}

-- The event queue of a number.
abbrev pub queue_of : {B : Type 0} → List (List (ExecItem B)) → ℕ → List (ExecItem B)
queue_of [] i = []
queue_of (q ∷ qs) zero = q
queue_of (q ∷ qs) (suc i) = queue_of qs i

abbrev pub count : ℕ → List ℕ → ℕ
count i [] = 0
count i (j ∷ is) = let rest = count i is in if j == i then suc rest else rest

either : {A : Type 0} (b : Bool) (x y z : A) → x ≡ z → y ≡ z → (if b then x else y) ≡ z
either true x y z hx hy = hx
either false x y z hx hy = hy

lookup-empty : (k : String) (t : Dict String ℕ) → t ≡ [] → Dict.lookup k t ≡ none
lookup-empty k t e = ap (λ t. Dict.lookup k t) e ∙ Dict.lookup-nil k

count-same : (i j : ℕ) (is : List ℕ) → (j == i) ≡ true → count i (j ∷ is) ≡ suc (count i is)
count-same i j is e = ground arith

count-other : (i j : ℕ) (is : List ℕ) → (j == i) ≡ false → count i (j ∷ is) ≡ count i is
count-other i j is e = ground arith

module _ {B : Type 0} where
  -- The futures that some call waits for.
  abbrev pub registered : Demux B → List ℕ
  registered d = values d.pending ++ (values d.pending_obs ++ d.pong_waiters)

  -- When the connection ends, a future that a table holds is failed with the error, unless it was done
  -- before, in which case it keeps what it held; a future that no table holds is left alone.
  pub fail_pending-futures :
      (exc : Exc) (d : Demux B) (i : ℕ)
      → i < length d.futures
      → future_of (fail_pending exc d).futures i ≡ (
          if elem i (registered d)
          then settled (future_of d.futures i) (failed exc)
          else future_of d.futures i)
  unfolding fail_pending
  fail_pending-futures exc d i h = elim (Bool-cases (elem i (registered d))) [
    | inl e ↦
        rw e
          (settle_all-elem (registered d) (failed exc) d.futures i (unfold is_waiting in refl) h e)
    | inr e ↦ rw e (settle_all-other (registered d) (failed exc) d.futures i e)
  ]

  pong-none :
      (m : Message B) (is : List ℕ) (d : Demux B) → is ≡ [] → d.pong_waiters ≡ [] → pong m is d ≡ d
  unfolding pong
  pong-none m [] d e w = ap (λ t. record d { pong_waiters = t }) (sym w)
  pong-none m (i ∷ is) d e w = absurd (ground arith)

  exec_event-none : (m : Message B) (o : Option ℕ) (d : Demux B) → o ≡ none → exec_event m o d ≡ d
  unfolding exec_event
  exec_event-none m none d e = refl
  exec_event-none m (some i) d e = absurd (ground arith)

  stream_queue-none :
      (cause : Option String) (d : Demux B) → d.exec_streams ≡ [] → stream_queue cause d ≡ none
  unfolding stream_queue
  stream_queue-none none d x = refl
  stream_queue-none (some c) d x = lookup-empty c d.exec_streams x

  correlate-none :
      (m : Message B) (o : Option String) (d : Demux B)
      → d.pending ≡ []
      → d.pending_obs ≡ []
      → correlate m o d ≡ d
  unfolding correlate reply follow_up
  correlate-none m none d p q = refl
  correlate-none m (some cid) d p q =
      ap (λ o. reply m cid o d) (lookup-empty cid d.pending p)
      ∙ ap (λ o. follow_up m cid o d) (lookup-empty cid d.pending_obs q)

  idle :
      (m : Message B) (d : Demux B)
      → d.pending ≡ []
      → d.pending_obs ≡ []
      → d.pong_waiters ≡ []
      → d.exec_streams ≡ []
      → (if m.kind == "exec_output" || m.kind == "exec_exit"
          then exec_event m (stream_queue m.cause d) d
          else if m.kind == "pong"
          then pong m d.pong_waiters d
          else correlate m (reply_key m.call_id m.cause) d)
        ≡ d
  idle m d p q w x = either _ _ _ _ (exec_event-none m _ d (stream_queue-none m.cause d x)) (
      either _ _ _ _ (pong-none m d.pong_waiters d w w)
        (correlate-none m (reply_key m.call_id m.cause) d p q))

  -- After the end of the connection no call is waited for, so a message that still comes changes no
  -- future and no event queue.
  pub dispatch-fail_pending :
      (exc : Exc) (m : Message B) (d : Demux B)
      → dispatch m (fail_pending exc d) ≡ (
          if is_stream_frame m
          then record (fail_pending exc d) { pushed = d.pushed ++ m ∷ [] }
          else fail_pending exc d)
  unfolding dispatch fail_pending
  dispatch-fail_pending exc m d = elim (Bool-cases (is_stream_frame m)) [
    | inl s ↦ rw s refl
    | inr s ↦ rw s (idle m (fail_pending exc d) refl refl refl refl)
  ]

  length-add_item :
      (i : ℕ) (item : ExecItem B) (qs : List (List (ExecItem B)))
      → length (add_item i item qs) ≡ length qs
  unfolding add_item
  length-add_item i item [] = refl
  length-add_item zero item (q ∷ qs) = refl
  length-add_item (suc i) item (q ∷ qs) = ap suc (length-add_item i item qs)

  add_item-other :
      (i : ℕ) (item : ExecItem B) (qs : List (List (ExecItem B))) (j : ℕ)
      → j ≢ i
      → queue_of (add_item i item qs) j ≡ queue_of qs j
  unfolding add_item
  add_item-other i item [] j h = refl
  add_item-other zero item (q ∷ qs) zero h = absurd (h refl)
  add_item-other zero item (q ∷ qs) (suc j) h = refl
  add_item-other (suc i) item (q ∷ qs) zero h = refl
  add_item-other (suc i) item (q ∷ qs) (suc j) h = add_item-other i item qs j (λ e. h (ap suc e))

  add_item_self :
      (i : ℕ) (item : ExecItem B) (qs : List (List (ExecItem B)))
      → i < length qs
      → queue_of (add_item i item qs) i ≡ queue_of qs i ++ item ∷ []
  unfolding add_item
  add_item_self i item [] h = absurd (omega arith)
  add_item_self zero item (q ∷ qs) h = refl
  add_item_self (suc i) item (q ∷ qs) h = add_item_self i item qs (omega arith)

  abbrev pub repeat : ℕ → ExecItem B → List (ExecItem B)
  repeat zero item = []
  repeat (suc n) item = item ∷ repeat n item

  add_to_all_lem :
      (is : List ℕ) (item : ExecItem B) (qs : List (List (ExecItem B))) (i : ℕ)
      → i < length qs
      → queue_of (add_to_all is item qs) i ≡ queue_of qs i ++ repeat (count i is) item
  unfolding add_to_all
  add_to_all_lem [] item qs i h = sym (append-nil (queue_of qs i))
  add_to_all_lem (j ∷ is) item qs i h = elim (Bool-cases (j == i)) [
    | inl e ↦
        add_to_all_lem is item (add_item j item qs) i (omega (arith, length-add_item j item qs, h))
        ∙ (ap (λ q. q ++ repeat (count i is) item) (at_self e)
            ∙ (append_assoc (queue_of qs i) (item ∷ []) (repeat (count i is) item)
                ∙ ap (λ n. queue_of qs i ++ repeat n item) (sym (count-same i j is e))))
    | inr n ↦
        add_to_all_lem is item (add_item j item qs) i (omega (arith, length-add_item j item qs, h))
        ∙ (ap (λ q. q ++ repeat (count i is) item)
              (add_item-other j item qs i (λ q. ground (arith, nat_eq.eqb_iff j i)))
            ∙ ap (λ n. queue_of qs i ++ repeat n item) (sym (count-other i j is n)))
  ]
    where
      at_self : (j == i) ≡ true → queue_of (add_item j item qs) i ≡ queue_of qs i ++ item ∷ []
      at_self e =
          subst (λ k. queue_of (add_item k item qs) i ≡ queue_of qs i ++ item ∷ [])
            (sym ((nat_eq.eqb_iff j i).0 e)) (add_item_self i item qs h)

  -- Each exec stream that still runs gets the error behind the events its consumer has not read, once
  -- for each call that is registered on its queue, and no other queue changes.
  pub fail_pending-queues :
      (exc : Exc) (d : Demux B) (i : ℕ)
      → i < length d.queues
      → queue_of (fail_pending exc d).queues i
        ≡ queue_of d.queues i ++ repeat (count i (values d.exec_streams)) (lost exc)
  unfolding fail_pending
  fail_pending-queues exc d i h = add_to_all_lem (values d.exec_streams) (lost exc) d.queues i h
