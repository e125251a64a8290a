-- ===== src/Chats/Preview.antt =====
-- `text[:n]` of a Python string, counted in code points (agent/conversation_store.py).
use Prim.Native.Nat.{ℕ, zero, suc}
use Prim.Native.String.{String, [], ◌∷◌}

abbrev pub first_chars : ℕ → String → String
first_chars zero s = []
first_chars (suc n) [] = []
first_chars (suc n) (c ∷ s) = c ∷ first_chars n s
