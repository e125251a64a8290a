-- ===== src/Database/Action.antt =====
-- A request handler: a state, which is the database, and an exception. What was written before a
-- raise stays written, since the handlers open no transaction.
pub mod Rules
use Prim.Native.String.{String}
use wa_graph_rag_backend.Prelude.{ℕ, Bool, Option, none, some, List, [], ◌∷◌, if◌then◌else◌}

-- `http` is a raised HTTPException, `unprocessable` FastAPI's answer 422 to a request body that its
-- model refuses, `crash` an exception that nothing catches, such as one of the client's: FastAPI
-- answers 500.
pub data Fault : Type 0 where
  http : ℕ → String → Fault
  unprocessable : Fault
  crash : Fault

pub data Result (A : Type 0) : Type 0 where
  ok : A → Result A
  err : Fault → Result A

abbrev pub Action : Type 0 → Type 0 → Type 0
Action D A = D → Result A × D

module _ {D A : Type 0} where
  unfoldable pub pure : A → Action D A
  pure a d = (ok a, d)

  unfoldable pub raise : Fault → Action D A
  raise e d = (err e, d)

abbrev pub resume : {D A B : Type 0} → Result A × D → (A → Action D B) → Result B × D
resume (ok a, d) f = f a d
resume (err e, d) f = (err e, d)

infixl 5 ◌>>=◌ ◌>>◌
unfoldable pub ◌>>=◌ : {D A B : Type 0} → Action D A → (A → Action D B) → Action D B
◌>>=◌ m f d = resume (m d) f

abbrev pub ◌>>◌ : {D A B : Type 0} → Action D A → Action D B → Action D B
m >> k = m >>= λ _. k

module _ {D : Type 0} where
  unfoldable pub raise_if : Bool → Fault → Action D (Unit {0})
  raise_if c e d = (if c then err e else ok tt, d)

  unfoldable pub answer : {A : Type 0} → Option A → Action D A
  answer none d = (err crash, d)
  answer (some a) d = (ok a, d)

  abbrev pub store : Option D → Action D (Unit {0})
  store none d = (err crash, d)
  store (some d') d = (ok tt, d')

  -- A call that only reads; `none` is an exception of the client.
  unfoldable pub read : {A : Type 0} → (D → Option A) → Action D A
  unfolding answer
  read q d = answer (q d) d

  -- A call that writes.
  unfoldable pub write : (D → Option D) → Action D (Unit {0})
  write q d = store (q d) d

  -- A row that must be there, or the fault.
  unfoldable pub or_raise : {A : Type 0} → Option A → Fault → Action D A
  unfolding pure raise
  or_raise none e = raise e
  or_raise (some a) e = pure a

  unfoldable pub when : Bool → Action D (Unit {0}) → Action D (Unit {0})
  when c m d = if c then m d else (ok tt, d)

  -- `for x in xs: body(x)`
  unfoldable pub for_each : {A : Type 0} → List A → (A → Action D (Unit {0})) → Action D (Unit {0})
  unfolding pure ◌>>=◌
  for_each [] body = pure tt
  for_each (x ∷ xs) body = body x >> for_each xs body

-- The two cases of a row that may be missing.
abbrev pub maybe : {D A B : Type 0} → Option A → Action D B → (A → Action D B) → Action D B
maybe none m f = m
maybe (some a) m f = f a

-- The name to unfold where a handler is to be run.
unfoldable pub running : Unit {0}
unfolding pure raise ◌>>=◌ raise_if read write or_raise when for_each answer
running = tt
