-- ===== src/Session/Shots/Truth.antt =====
-- What is kept of frames is true of every screen that has their hash.
use shinken.Prelude.{
  ℕ, String, string_eq, ◌≡◌, refl, sym, ap, ◌∙◌, subst, Bool, true, false, Option, none, some, List,
  [], ◌∷◌, ◌++◌, if◌then◌else◌, arith,
}
use shinken.Prelude.Dict
use shinken.Prelude.Dict.{Dict}
use shinken.FrameCache.{
  FrameCache, Op, candidate_op, lookup_op, put_op, touch_op, record_op, candidate, init, run, apply,
  Key, key_eq,
}
use shinken.FrameCache.Reads.{stored, candidate-run}
use shinken.Session.Shots.{Frame, Reply, observation, not_modified, failed, Shots, ask, offer}

pub some_injective : {A : Type 0} (x y : A) → some x ≡ some y → x ≡ y
some_injective {A} x y e = ap (λ (o : Option A). elim o as (λ p. A) [ none ↦ x | some z ↦ z ]) e

-- Encodings of one hash agree: the hash is one of the pixels.
unfoldable pub IsContentHash : {P X : Type 0} → (P → Option String) → (String → P → X) → Type 0
IsContentHash {P} hash encode =
    (key h : String) (px qx : P)
    → hash px ≡ some h
    → hash qx ≡ some h
    → encode key px ≡ encode key qx

-- A runtime: the hash of the raw pixels `P`, if it computes one, and the encoding under the parameters.
module _ {P X D : Type 0} (hash : P → Option String) (encode : String → P → X) where
  -- A frame that is kept under `key` and `h` is the encoding of whatever pixels have the hash `h`.
  unfoldable pub IsTrue : String → String × Frame X D → Type 0
  IsTrue key (h, f) = (px : P) → hash px ≡ some h → f.content ≡ encode key px

  -- Every frame that is put under a hash is true.
  unfoldable pub AreTrue : List (Op (Frame X D)) → Type 0
  AreTrue [] = Unit
  AreTrue (put_op p h f ∷ ops) = IsTrue p (h, f) × AreTrue ops
  AreTrue (candidate_op p ∷ ops) = AreTrue ops
  AreTrue (lookup_op p h ∷ ops) = AreTrue ops
  AreTrue (touch_op p h ∷ ops) = AreTrue ops
  AreTrue (record_op b ∷ ops) = AreTrue ops

  -- What a runtime answers about a screen `px`: the frame with its hash, `not_modified` only where the
  -- offered hash is that of the screen, or a failure.
  unfoldable pub IsHonest : String → Option (String × Frame X D) → P → Reply X D → Type 0
  IsHonest key c px (observation f h) = (f.content ≡ encode key px) × (hash px ≡ h)
  IsHonest key none px (not_modified h display pointer) = Unit
  IsHonest key (some (g, f)) px (not_modified h display pointer) = hash px ≡ some g
  IsHonest key c px (failed e) = Unit

  -- The cache is what true calls made of a new one, and the session's own frames are true.
  pub record IsSound (s : Shots X D) : Type 0 where
    pub cap : ℕ
    pub ops : List (Op (Frame X D))
    pub reached : s.cache ≡ run ops (init cap)
    pub true_ops : AreTrue ops
    pub own :
        (key : String) (c : String × Frame X D)
        → Dict.lookup key s.last_shot ≡ some c
        → IsTrue key c

  put-IsTrue :
      (p h q g : String) (k : Frame X D) (o : Option (Frame X D)) (b : Bool)
      → key_eq.eqb (q, g) (p, h) ≡ b
      → IsTrue q (g, k)
      → ((x : Frame X D) → o ≡ some x → IsTrue p (h, x))
      → (x : Frame X D) → (if b then some k else o) ≡ some x
      → IsTrue p (h, x)
  put-IsTrue p h q g k o true same t w x e =
      subst (λ (j : Key). IsTrue j.0 (j.1, x)) ((key_eq.eqb_iff (q, g) (p, h)).0 same)
        (subst (λ y. IsTrue q (g, y)) (some_injective k x e) t)
  put-IsTrue p h q g k o false same t w x e = w x e

  stored-IsTrue :
      (p h : String) (ops : List (Op (Frame X D))) (o : Option (Frame X D)) (f : Frame X D)
      → AreTrue ops
      → ((g : Frame X D) → o ≡ some g → IsTrue p (h, g))
      → stored (p, h) ops o ≡ some f
      → IsTrue p (h, f)
  unfolding stored AreTrue
  stored-IsTrue p h [] o f t w e = w f e
  stored-IsTrue p h (candidate_op q ∷ ops) o f t w e = stored-IsTrue p h ops o f t w e
  stored-IsTrue p h (lookup_op q g ∷ ops) o f t w e = stored-IsTrue p h ops o f t w e
  stored-IsTrue p h (touch_op q g ∷ ops) o f t w e = stored-IsTrue p h ops o f t w e
  stored-IsTrue p h (record_op b ∷ ops) o f t w e = stored-IsTrue p h ops o f t w e
  stored-IsTrue p h (put_op q g k ∷ ops) o f t w e =
      stored-IsTrue p h ops (if key_eq.eqb (q, g) (p, h) then some k else o) f t.1
        (put-IsTrue p h q g k o (key_eq.eqb (q, g) (p, h)) refl t.0 w) e

  append-AreTrue : (xs ys : List (Op (Frame X D))) → AreTrue xs → AreTrue ys → AreTrue (xs ++ ys)
  unfolding AreTrue
  append-AreTrue [] ys hx hy = hy
  append-AreTrue (put_op p h f ∷ xs) ys hx hy = (hx.0, append-AreTrue xs ys hx.1 hy)
  append-AreTrue (candidate_op p ∷ xs) ys hx hy = append-AreTrue xs ys hx hy
  append-AreTrue (lookup_op p h ∷ xs) ys hx hy = append-AreTrue xs ys hx hy
  append-AreTrue (touch_op p h ∷ xs) ys hx hy = append-AreTrue xs ys hx hy
  append-AreTrue (record_op b ∷ xs) ys hx hy = append-AreTrue xs ys hx hy

  run-append :
      (xs ys : List (Op (Frame X D))) (c : FrameCache (Frame X D))
      → run (xs ++ ys) c ≡ run ys (run xs c)
  unfolding run
  run-append [] ys c = refl
  run-append (op ∷ xs) ys c = run-append xs ys (apply op c)

  -- Calls on the cache, by this session or another, keep a session sound where what they put is true.
  pub calls-IsSound :
      (more : List (Op (Frame X D))) (s : Shots X D)
      → IsSound s
      → AreTrue more
      → IsSound (record s { cache = run more s.cache })
  calls-IsSound more s h t = record {
    cap = h.cap;
    ops = h.ops ++ more;
    reached = ap (run more) h.reached ∙ sym (run-append h.ops more (init h.cap));
    true_ops = append-AreTrue h.ops more h.true_ops t;
    own = h.own;
  }

  offer-IsTrue :
      (key : String) (o : Option (String × Frame X D)) (s : Shots X D) (c : String × Frame X D)
      → IsSound s
      → Dict.lookup key s.last_shot ≡ o
      → (offer key o s).0 ≡ some c
      → IsTrue key c
  unfolding offer
  offer-IsTrue key (some d) s c h l e = h.own key c (l ∙ e)
  offer-IsTrue key none s (g, f) h l e =
      stored-IsTrue key g h.ops none f h.true_ops (λ x q. absurd (ground arith))
        (candidate-run h.cap h.ops key g f (sym (ap (λ c. (candidate key c).0) h.reached) ∙ e))

  -- What is offered to the runtime is true.
  pub ask-IsTrue :
      (dedup : Bool) (key : String) (s : Shots X D) (c : String × Frame X D)
      → IsSound s
      → (ask dedup key s).0 ≡ some c
      → IsTrue key c
  unfolding ask
  ask-IsTrue false key s c h e = absurd (ground arith)
  ask-IsTrue true key s c h e = offer-IsTrue key (Dict.lookup key s.last_shot) s c h refl e
