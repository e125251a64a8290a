-- ===== src/Database/Action/Rules.antt =====
-- Proof rules for handlers: what a call that ended well has done, and relations that every call
-- keeps between the state before and the state after, however it ends.
use mathlib.Core.Option
use mathlib.Core.Path.{subst}
use wa_graph_rag_backend.Prelude.{
  ◌≡◌, ◌⊎◌, inl, inr, refl, sym, ap, Bool, true, false, Option, none, some, List, [], ◌∷◌, arith,
  if◌then◌else◌,
}
use wa_graph_rag_backend.Database.Action.{
  Fault, Result, ok, err, Action, ◌>>=◌, ◌>>◌, pure, raise, raise_if, read, write, or_raise, when,
  for_each, resume, answer, store, maybe,
}

-- Inversion of a handler that ended well, one statement at a time.
module _ {D A : Type 0} where
  pub >>=-eq-ok :
      {B : Type 0} (m : Action D A) (f : A → Action D B) (d : D) {b : B} {d' : D}
      → (m >>= f) d ≡ (ok b, d')
      → (a : A) × (e : D) × (m d ≡ (ok a, e)) × (f a e ≡ (ok b, d'))
  unfolding ◌>>=◌
  >>=-eq-ok {B} m f d {b} {d'} h = go (m d) refl h
    where
      go :
          (r : Result A × D)
          → m d ≡ r
          → resume r f ≡ (ok b, d')
          → (a : A) × (e : D) × (m d ≡ (ok a, e)) × (f a e ≡ (ok b, d'))
      go (ok a, e) p h = (a, e, p, h)
      go (err x, e) p h = cc

  pub pure-eq-ok : {x a : A} {d d' : D} → pure x d ≡ (ok a, d') → (x ≡ a) × (d ≡ d')
  unfolding pure
  pure-eq-ok h = ground arith

  pub answer-eq-ok :
      (o : Option A) {d d' : D} {a : A} → answer o d ≡ (ok a, d') → (o ≡ some a) × (d ≡ d')
  unfolding answer
  answer-eq-ok o h = ground arith

  module _ {B : Type 0} (f : A → Action D B) {d d' : D} {b : B} where
    pub after_read :
        (q : D → Option A)
        → (read q >>= f) d ≡ (ok b, d')
        → (a : A) × (q d ≡ some a) × (f a d ≡ (ok b, d'))
    unfolding read ◌>>=◌
    after_read q h = go (q d) refl h
      where
        go :
            (o : Option A)
            → q d ≡ o
            → resume (answer o d) f ≡ (ok b, d')
            → (a : A) × (q d ≡ some a) × (f a d ≡ (ok b, d'))
        go none e h = cc
        go (some a) e h = (a, e, h)

    pub after_answer :
        (o : Option A)
        → (answer o >>= f) d ≡ (ok b, d')
        → (a : A) × (o ≡ some a) × (f a d ≡ (ok b, d'))
    unfolding answer ◌>>=◌
    after_answer none h = cc
    after_answer (some a) h = (a, refl, h)

    pub after_or_raise :
        (o : Option A) (x : Fault)
        → (or_raise o x >>= f) d ≡ (ok b, d')
        → (a : A) × (o ≡ some a) × (f a d ≡ (ok b, d'))
    unfolding or_raise ◌>>=◌
    after_or_raise none x h = cc
    after_or_raise (some a) x h = (a, refl, h)

  -- A call that leaves the state alone when it ends well.
  pub after_pure :
      {B : Type 0} (m : Action D A) (f : A → Action D B) {d d' : D} {b : B}
      → ((a : A) (e : D) → m d ≡ (ok a, e) → d ≡ e)
      → (m >>= f) d ≡ (ok b, d')
      → (a : A) × (m d ≡ (ok a, d)) × (f a d ≡ (ok b, d'))
  after_pure m f {d} {d'} {b} keep h =
      let (a, e, first, rest) = >>=-eq-ok m f d h in
      let same = keep a e first in
      (
        a,
        subst (λ x. m d ≡ (ok a, x)) (sym same) first,
        subst (λ x. f a x ≡ (ok b, d')) (sym same) rest,
      )

module _ {D B : Type 0} (k : Action D B) {d d' : D} {b : B} where
  pub after_raise_if :
      (c : Bool) (x : Fault) → (raise_if c x >> k) d ≡ (ok b, d') → (c ≡ false) × (k d ≡ (ok b, d'))
  unfolding raise_if ◌>>=◌
  after_raise_if true x h = cc
  after_raise_if false x h = (refl, h)

  -- A call that replaces one table.
  pub after_put :
      {T : Type 0} (q : D → Option T) (set : D → T → D)
      → (write (λ d. Option.map (set d) (q d)) >> k) d ≡ (ok b, d')
      → (t : T) × (q d ≡ some t) × (k (set d t) ≡ (ok b, d'))
  unfolding write ◌>>=◌
  after_put {T} q set h = go (q d) refl h
    where
      go :
          (o : Option T)
          → q d ≡ o
          → resume (store (Option.map (set d) o) d) (λ _. k) ≡ (ok b, d')
          → (t : T) × (q d ≡ some t) × (k (set d t) ≡ (ok b, d'))
      go none e h = cc
      go (some t) e h = (t, e, h)

-- The same call at the end of a handler.
pub put-eq-ok :
    {D T : Type 0} (q : D → Option T) (set : D → T → D) {d d' : D} {b : Unit {0}}
    → write (λ d. Option.map (set d) (q d)) d ≡ (ok b, d')
    → (t : T) × (q d ≡ some t) × (set d t ≡ d')
unfolding write
put-eq-ok {D} {T} q set {d} {d'} {b} h = go (q d) refl h
  where
    go :
        (o : Option T)
        → q d ≡ o
        → store (Option.map (set d) o) d ≡ (ok b, d')
        → (t : T) × (q d ≡ some t) × (set d t ≡ d')
    go none e h = cc
    go (some t) e h = (t, e, ap (λ r. r.1) h)

-- A relation between states that is reflexive and transitive, and the handlers that keep it on
-- every path, also when they raise.
module _ {D : Type 0} (R : D → D → Type 0) where
  abbrev pub Keeps : {A : Type 0} → Action D A → Type 0
  Keeps m = (d : D) → R d (m d).1

  module _ (reflexive : (d : D) → R d d) where
    pub pure-Keeps : {A : Type 0} (a : A) → Keeps (pure a)
    unfolding pure
    pure-Keeps a d = reflexive d

    pub raise-Keeps : (A : Type 0) (x : Fault) → Keeps {A = A} (raise x)
    unfolding raise
    raise-Keeps A x d = reflexive d

    pub raise_if-Keeps : (c : Bool) (x : Fault) → Keeps (raise_if c x)
    unfolding raise_if
    raise_if-Keeps c x d = reflexive d

    pub or_raise-Keeps : {A : Type 0} (o : Option A) (x : Fault) → Keeps (or_raise o x)
    unfolding or_raise
    or_raise-Keeps none x d = reflexive d
    or_raise-Keeps (some a) x d = reflexive d

    pub answer-Keeps : {A : Type 0} (o : Option A) → Keeps (answer o)
    unfolding answer
    answer-Keeps none d = reflexive d
    answer-Keeps (some a) d = reflexive d

    pub read-Keeps : {A : Type 0} (q : D → Option A) → Keeps (read q)
    unfolding read
    read-Keeps q d = answer-Keeps (q d) d

    pub write-Keeps : (q : D → Option D) → ((d e : D) → q d ≡ some e → R d e) → Keeps (write q)
    unfolding write
    write-Keeps q step d = go (q d) refl
      where
        go : (o : Option D) → q d ≡ o → R d (store o d).1
        go none e = reflexive d
        go (some d') e = step d d' e

    -- The calls of the client that replace one table.
    pub put-Keeps :
        {T : Type 0} (q : D → Option T) (set : D → T → D)
        → ((d : D) (t : T) → q d ≡ some t → R d (set d t))
        → Keeps (write (λ d. Option.map (set d) (q d)))
    unfolding write
    put-Keeps {T} q set step d = go (q d) refl
      where
        go : (o : Option T) → q d ≡ o → R d (store (Option.map (set d) o) d).1
        go none e = reflexive d
        go (some t) e = step d t e

    pub when-Keeps : (c : Bool) (m : Action D (Unit {0})) → Keeps m → Keeps (when c m)
    unfolding when
    when-Keeps true m k d = k d
    when-Keeps false m k d = reflexive d

  pub if-Keeps :
      {A : Type 0} (c : Bool) (m n : Action D A) → Keeps m → Keeps n → Keeps (if c then m else n)
  if-Keeps true m n h k = h
  if-Keeps false m n h k = k

  pub maybe-Keeps :
      {A B : Type 0} (o : Option A) (m : Action D B) (f : A → Action D B)
      → Keeps m
      → ((a : A) → Keeps (f a))
      → Keeps (maybe o m f)
  maybe-Keeps none m f h k = h
  maybe-Keeps (some a) m f h k = k a

  module _ (transitive : (d e f : D) → R d e → R e f → R d f) where
    pub >>=-Keeps :
        {A B : Type 0} (m : Action D A) (f : A → Action D B)
        → Keeps m
        → ((a : A) → Keeps (f a))
        → Keeps (m >>= f)
    unfolding ◌>>=◌
    >>=-Keeps {A} {B} m f h k d = go (m d) (h d)
      where
        go : (r : Result A × D) → R d r.1 → R d (resume r f).1
        go (ok a, e) s = transitive d e _ s (k a e)
        go (err x, e) s = s

  module _ (reflexive : (d : D) → R d d) (transitive : (d e f : D) → R d e → R e f → R d f) where
    pub for_each-Keeps :
        {A : Type 0} (xs : List A) (body : A → Action D (Unit {0}))
        → ((x : A) → Keeps (body x))
        → Keeps (for_each xs body)
    unfolding for_each
    for_each-Keeps [] body h = pure-Keeps reflexive tt
    for_each-Keeps (x ∷ xs) body h =
        >>=-Keeps transitive (body x) (λ _. for_each xs body) (h x) (λ _. for_each-Keeps xs body h)

pub after_maybe :
    {D A B : Type 0} (o : Option A) (m : Action D B) (f : A → Action D B) {d d' : D} {b : B}
    → maybe o m f d ≡ (ok b, d')
    → ((o ≡ none) × (m d ≡ (ok b, d'))) ⊎ ((a : A) × (o ≡ some a) × (f a d ≡ (ok b, d')))
after_maybe none m f h = inl (refl, h)
after_maybe (some a) m f h = inr (a, refl, h)

-- The same at one state, where what a call has read is known.
module _ {D A B : Type 0} (R : D → Type 0) (f : A → Action D B) {d : D} (now : R d) where
  pub read_then :
      (q : D → Option A) → ((a : A) → q d ≡ some a → R (f a d).1) → R ((read q >>= f) d).1
  unfolding read ◌>>=◌
  read_then q step = go (q d) refl
    where
      go : (o : Option A) → q d ≡ o → R (resume (answer o d) f).1
      go none e = now
      go (some a) e = step a e

  pub answer_then : (o : Option A) → ((a : A) → o ≡ some a → R (f a d).1) → R ((answer o >>= f) d).1
  unfolding answer ◌>>=◌
  answer_then none step = now
  answer_then (some a) step = step a refl

module _ {D B : Type 0} (R : D → Type 0) (k : Action D B) {d : D} (now : R d) where
  pub raise_if_then : (c : Bool) (x : Fault) → (c ≡ false → R (k d).1) → R ((raise_if c x >> k) d).1
  unfolding raise_if ◌>>=◌
  raise_if_then true x step = now
  raise_if_then false x step = step refl

  pub put_then :
      {T : Type 0} (q : D → Option T) (set : D → T → D)
      → ((t : T) → q d ≡ some t → R (k (set d t)).1)
      → R ((write (λ d. Option.map (set d) (q d)) >> k) d).1
  unfolding write ◌>>=◌
  put_then {T} q set step = go (q d) refl
    where
      go : (o : Option T) → q d ≡ o → R (resume (store (Option.map (set d) o) d) (λ _. k)).1
      go none e = now
      go (some t) e = step t e

-- A predicate of the values with which a handler ends well.
abbrev pub Holds : {A : Type 0} → (A → Type 0) → Result A → Type 0
Holds P (ok a) = P a
Holds P (err x) = Unit {0}

abbrev pub Answers : {D A : Type 0} → (A → Type 0) → Action D A → Type 0
Answers {D} P m = (d : D) → Holds P (m d).0

module _ {D : Type 0} where
  pub pure-Answers : {A : Type 0} (P : A → Type 0) (a : A) → P a → Answers {D = D} P (pure a)
  unfolding pure
  pure-Answers P a h d = h

  pub >>=-Answers :
      {A B : Type 0} (P : B → Type 0) (m : Action D A) (f : A → Action D B)
      → ((a : A) → Answers P (f a))
      → Answers P (m >>= f)
  unfolding ◌>>=◌
  >>=-Answers {A} {B} P m f h d = go (m d)
    where
      go : (r : Result A × D) → Holds P (resume r f).0
      go (ok a, e) = h a e
      go (err x, e) = tt

  pub if-Answers :
      {A : Type 0} (P : A → Type 0) (c : Bool) (m n : Action D A)
      → Answers P m
      → Answers P n
      → Answers P (if c then m else n)
  if-Answers P true m n h k = h
  if-Answers P false m n h k = k

  pub maybe-Answers :
      {A B : Type 0} (P : B → Type 0) (o : Option A) (m : Action D B) (f : A → Action D B)
      → Answers P m
      → ((a : A) → Answers P (f a))
      → Answers P (maybe o m f)
  maybe-Answers P none m f h k = h
  maybe-Answers P (some a) m f h k = k a
