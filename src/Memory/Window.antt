-- ===== src/Memory/Window.antt =====
-- What agent/session_memory.py remembers: the last turns of each session, with both backends.
use Prim.Native.String.{String}
use mathlib.Core.Bool.{false≢true}
use mathlib.Core.List.{append_assoc}
use text.Mathlib.Text.{◌==◌}
use text.Mathlib.TextEquality.{eq_iff}
use text.Mathlib.TextLemmas.{append_cancel_left}
use wa_graph_rag_backend.Prelude.{
  ℕ, ◌*◌, ◌<◌, ltb, ◌≡◌, ◌≢◌, inl, inr, refl, sym, ap, ◌∙◌, Bool, true, false, some, List, [], ◌∷◌,
  ◌++◌, map, length, arith, if◌then◌else◌, Bool-cases,
}
use wa_graph_rag_backend.Database.Action.{Action, ok, ◌>>=◌, resume}
use wa_graph_rag_backend.Memory.{
  Message, human, ai, last_items, Redis, Settings, Backend, redis, memory, Manager, with_history,
  or_empty, decode, key, connect, resolve, client, history, trim, pipeline,
}
use wa_graph_rag_backend.Memory.LastItems.{last_items_short, last_items-map, map-append}

module _ (R : Redis) (cfg : Settings) where
  -- The entry that `add_turn` writes for a message.
  abbrev pub written : Message → R.Item
  written (human text) = R.dumps (record { role = some "user"; content = some text })
  written (ai text) = R.dumps (record { role = some "assistant"; content = some text })

  pub decode-written : (ms : List Message) → decode R cfg (map written ms) ≡ some ms
  decode-written [] = refl
  decode-written (human text ∷ ms) =
      rw (decode-written ms, R.loads-dumps (record { role = some "user"; content = some text }))
  decode-written (ai text ∷ ms) =
      rw
        (decode-written ms, R.loads-dumps (record { role = some "assistant"; content = some text }))

  -- The messages are in the dictionary of the process.
  pub record InProcess (m : Manager R) (f : String → List Message) : Type 0 where
    pub backend : m.backend ≡ memory
    pub held : (sid : String) → or_empty (m.histories sid) ≡ f sid

  -- The messages are in Redis, and the manager is connected to it.
  pub record InRedis (m : Manager R) (f : String → List Message) : Type 0 where
    pub backend : m.backend ≡ redis
    pub checked : m.redis_checked ≡ true
    pub connected : m.connected ≡ true
    pub up : R.up m.server ≡ true
    pub held : (sid : String) → R.content m.server (key R cfg sid) ≡ map written (f sid)

  -- The manager has not asked for the server yet.
  pub record Unasked (m : Manager R) (f : String → List Message) : Type 0 where
    pub backend : m.backend ≡ redis
    pub checked : m.redis_checked ≡ false
    pub held : (sid : String) → or_empty (m.histories sid) ≡ f sid
    pub held_there : (sid : String) → R.content m.server (key R cfg sid) ≡ map written (f sid)

  -- The manager remembers the messages that `f` gives for each session.
  pub data Remembers (m : Manager R) (f : String → List Message) : Type 0 where
    in_process : InProcess m f → Remembers m f
    in_redis : InRedis m f → Remembers m f
    unasked : Unasked m f → Remembers m f

  abbrev pub Mode : Bool → Manager R → (String → List Message) → Type 0
  Mode true m f = InRedis m f
  Mode false m f = InProcess m f

  answered :
      (m m' : Manager R) (live : Bool)
      → resolve R cfg m.backend m.redis_checked m ≡ (live, m')
      → client R cfg m ≡ (ok live, m')
  unfolding client
  answered m m' live e = ap (λ r. (ok r.0, r.1)) e

  resolved :
      (m : Manager R) (b : Backend) (checked : Bool)
      → m.backend ≡ b
      → m.redis_checked ≡ checked
      → resolve R cfg m.backend m.redis_checked m ≡ resolve R cfg b checked m
  resolved m b checked e k =
      ap (λ b. resolve R cfg b m.redis_checked m) e ∙ ap (λ k. resolve R cfg b k m) k

  pub client_lem :
      (m : Manager R) (f : String → List Message)
      → Remembers m f
      → (live : Bool) × (m' : Manager R) × (client R cfg m ≡ (ok live, m')) × Mode live m' f
  client_lem m f (in_process h) =
      (false, m, answered m m false (resolved m memory m.redis_checked h.backend refl), h)
  client_lem m f (in_redis h) =
      let here = resolved m redis true h.backend h.checked ∙ ap (λ k. (k, m)) h.connected in
      (true, m, answered m m true here, h)
  client_lem m f (unasked h) =
      let asked = resolved m redis false h.backend h.checked in
      let found = λ (u : Bool) (e : R.up m.server ≡ u).
        answered m (connect R cfg u m) u (asked ∙ ap (λ u. (u, connect R cfg u m)) e) in
      elim (Bool-cases (R.up m.server)) [
        | inl up ↦ (
          true,
          connect R cfg true m,
          found true up,
          record {
            backend = h.backend;
            checked = refl;
            connected = refl;
            up = up;
            held = h.held_there;
          },
        )
        | inr down ↦ (
          false,
          connect R cfg false m,
          found false down,
          record { backend = refl; held = h.held },
        )
      ]

  pub after_client :
      {B : Type 0} (k : Bool → Action (Manager R) B) (m m' : Manager R) (live : Bool)
      → client R cfg m ≡ (ok live, m')
      → (client R cfg >>= k) m ≡ k live m'
  unfolding ◌>>=◌
  after_client k m m' live e = ap (λ r. resume r k) e

  abbrev pub window : ℕ
  window = cfg.window_size * 2

  -- What a turn leaves of the messages.
  abbrev pub after_turn : (String → List Message) → String → String → String → String → List Message
  after_turn f sid u a other =
      if other == sid then last_items window (f sid ++ (human u ∷ ai a ∷ [])) else f other

  trim_lem : (ms : List Message) → trim R cfg ms ≡ last_items window ms
  trim_lem ms = elim (Bool-cases (ltb window (length ms))) [
    | inl long ↦ rw long
    | inr short ↦ rw short (sym (last_items_short window ms (ground arith)))
  ]

  pub process_turn :
      (m : Manager R) (f : String → List Message) (sid u a : String)
      → InProcess m f
      → InProcess
          (record m {
            histories =
                with_history m.histories sid
                  (some (trim R cfg (history R cfg sid m ++ (human u ∷ ai a ∷ []))));
          })
          (after_turn f sid u a)
  process_turn m f sid u a h = record {
    backend = h.backend;
    held = λ other. elim (Bool-cases (other == sid)) [
      | inl same ↦ rw same (
          trim_lem (history R cfg sid m ++ (human u ∷ ai a ∷ []))
          ∙ ap (λ ms. last_items window (ms ++ (human u ∷ ai a ∷ []))) (h.held sid))
      | inr differs ↦ rw differs (h.held other)
    ];
  }

  pipeline_self :
      (k u a : String) (s : R.Server) (ms : List Message)
      → 0 < cfg.ttl
      → R.content s k ≡ map written ms
      → R.content (pipeline R cfg k u a s) k
        ≡ map written (last_items window (ms ++ (human u ∷ ai a ∷ [])))
  pipeline_self k u a s ms lasting e =
      R.content-expire k cfg.ttl _ lasting
      ∙ R.content-ltrim k window _
      ∙ ap (last_items window) (
          R.content-rpush k (written (ai a)) _
          ∙ ap (λ xs. xs ++ (written (ai a) ∷ []))
              (R.content-rpush k (written (human u)) s
                ∙ ap (λ xs. xs ++ (written (human u) ∷ [])) e)
          ∙ append_assoc (map written ms) (written (human u) ∷ []) (written (ai a) ∷ [])
          ∙ sym (map-append written ms (human u ∷ ai a ∷ [])))
      ∙ last_items-map written window (ms ++ (human u ∷ ai a ∷ []))

  pipeline_other :
      (k j u a : String) (s : R.Server)
      → j ≢ k
      → R.content (pipeline R cfg k u a s) j ≡ R.content s j
  pipeline_other k j u a s ne =
      R.content-expire_other k j cfg.ttl _ ne
      ∙ R.content-ltrim_other k j _ _ _ ne
      ∙ R.content-rpush_other k j _ _ ne
      ∙ R.content-rpush_other k j _ _ ne

  -- The server goes on answering: where it answered before a turn is stored, it does so afterwards.
  abbrev pub KeepsAnswering : Type 0
  KeepsAnswering =
      (k u a : String) (s : R.Server) → R.up s ≡ true → R.up (pipeline R cfg k u a s) ≡ true

  pub redis_turn :
      (m : Manager R) (f : String → List Message) (sid u a : String)
      → 0 < cfg.ttl
      → KeepsAnswering
      → InRedis m f
      → InRedis
          (record m { server = pipeline R cfg (key R cfg sid) u a m.server })
          (after_turn f sid u a)
  redis_turn m f sid u a lasting steady h = record {
    backend = h.backend;
    checked = h.checked;
    connected = h.connected;
    up = steady (key R cfg sid) u a m.server h.up;
    held = λ other. elim (Bool-cases (other == sid)) [
      | inl same ↦ rw same (
          ap (λ x. R.content (pipeline R cfg (key R cfg sid) u a m.server) (key R cfg x))
            ((eq_iff _ _).0 same)
          ∙ pipeline_self (key R cfg sid) u a m.server (f sid) lasting (h.held sid))
      | inr differs ↦ rw differs (
          pipeline_other (key R cfg sid) (key R cfg other) u a m.server (λ e.
            false≢true (sym differs ∙ (eq_iff _ _).1 (append_cancel_left cfg.prefix other sid e)))
          ∙ h.held other)
    ];
  }
