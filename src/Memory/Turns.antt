-- ===== src/Memory/Turns.antt =====
-- Sequences of turns through agent/session_memory.py, and what is remembered of them.
use Prim.Native.String.{String}
use mathlib.Core.List.{append-nil, append_assoc}
use text.Mathlib.Text.{◌==◌}
use text.Mathlib.TextEquality.{eq_iff}
use wa_graph_rag_backend.Prelude.{
  ◌*◌, ◌<◌, ◌≡◌, inl, inr, refl, sym, ap, ◌∙◌, Bool, true, false, none, some, List, [], ◌∷◌, ◌++◌,
  arith, if◌then◌else◌, Bool-cases,
}
use wa_graph_rag_backend.Database.Action.{
  Action, ok, ◌>>=◌, pure, read, write, answer, resume, store, for_each,
}
use wa_graph_rag_backend.Memory.{
  Message, human, ai, last_items, Redis, Settings, Manager, with_history, or_empty, decode, key,
  client, history, trim, pipeline, add_turn, get_messages, redis_messages, memory_messages,
}
use wa_graph_rag_backend.Memory.LastItems.{last_items-append, last_items_short}
use wa_graph_rag_backend.Memory.Window.{
  Remembers, KeepsAnswering, in_process, in_redis, Mode, client_lem, after_client, window,
  after_turn, process_turn, redis_turn, decode-written,
}

-- One turn of a session: the message of the user and the answer.
pub record Turn : Type 0 where
  pub session_id : String
  pub user_message : String
  pub ai_message : String

-- All that was said in a session, in order.
abbrev pub said : List Turn → String → List Message
said [] sid = []
said (t ∷ ts) sid =
    if sid == t.session_id
    then human t.user_message ∷ ai t.ai_message ∷ said ts sid
    else said ts sid

module _ (R : Redis) (cfg : Settings) where
  add_turn_lem :
      (m : Manager R) (f : String → List Message) (sid u a : String)
      → 0 < cfg.ttl
      → KeepsAnswering R cfg
      → Remembers R cfg m f
      → (m' : Manager R) × (add_turn R cfg sid u a m ≡ (ok tt, m'))
        × Remembers R cfg m' (after_turn R cfg f sid u a)
  unfolding add_turn write
  add_turn_lem m f sid u a lasting steady h = go (client_lem R cfg m f h)
    where
      go :
          (live : Bool) × (m' : Manager R) × (client R cfg m ≡ (ok live, m')) × Mode R cfg live m' f
          → (m' : Manager R) × (add_turn R cfg sid u a m ≡ (ok tt, m'))
            × Remembers R cfg m' (after_turn R cfg f sid u a)
      go (true, m', e, here) = (
        record m' { server = pipeline R cfg (key R cfg sid) u a m'.server },
        after_client R cfg _ m m' true e
            ∙ ap
                (λ up.
                  store
                    (if up
                      then some
                          (record m' { server = pipeline R cfg (key R cfg sid) u a m'.server })
                      else none)
                    m')
                here.up,
        in_redis (redis_turn R cfg m' f sid u a lasting steady here),
      )
      go (false, m', e, here) = (
        record m' {
          histories =
              with_history m'.histories sid
                (some (trim R cfg (history R cfg sid m' ++ (human u ∷ ai a ∷ []))));
        },
        after_client R cfg _ m m' false e,
        in_process (process_turn R cfg m' f sid u a here),
      )

  get_messages_lem :
      (m : Manager R) (f : String → List Message) (sid : String)
      → Remembers R cfg m f
      → (m' : Manager R) × (get_messages R cfg sid m ≡ (ok (f sid), m'))
  unfolding get_messages redis_messages memory_messages ◌>>=◌ read write answer
  get_messages_lem m f sid h = go (client_lem R cfg m f h)
    where
      go :
          (live : Bool) × (m' : Manager R) × (client R cfg m ≡ (ok live, m')) × Mode R cfg live m' f
          → (m' : Manager R) × (get_messages R cfg sid m ≡ (ok (f sid), m'))
      go (true, m', e, here) = (
        m',
        after_client R cfg _ m m' true e
            ∙ ap
                (λ up.
                  resume
                    (answer (if up then some (R.content m'.server (key R cfg sid)) else none) m')
                    (λ raw. answer (decode R cfg raw)))
                here.up
            ∙ ap (λ raw. answer (decode R cfg raw) m') (here.held sid)
            ∙ ap (λ o. answer o m') (decode-written R cfg (f sid)),
      )
      go (false, m', e, here) =
          let kept = history R cfg sid m' in
          let m'' : Manager R = record m' {
            histories = with_history m'.histories sid (some kept);
          } in
          (
            m'',
            after_client R cfg _ m m' false e
                ∙ ap (λ b. (ok (or_empty (if b then some kept else m'.histories sid)), m''))
                    ((eq_iff sid sid).1 refl)
                ∙ ap (λ x. (ok x, m'')) (here.held sid),
          )

  -- The turns, added one after the other.
  unfoldable pub play : List Turn → Action (Manager R) (Unit {0})
  play turns = for_each turns (λ t. add_turn R cfg t.session_id t.user_message t.ai_message)

  -- `f` keeps the window of `g`.
  abbrev Tracks : (String → List Message) → (String → List Message) → Type 0
  Tracks f g = (sid : String) → f sid ≡ last_items (window R cfg) (g sid)

  abbrev spoken : (String → List Message) → Turn → String → List Message
  spoken g t sid =
      if sid == t.session_id then g sid ++ (human t.user_message ∷ ai t.ai_message ∷ []) else g sid

  after_turn-Tracks :
      (f g : String → List Message) (t : Turn)
      → Tracks f g
      → Tracks (after_turn R cfg f t.session_id t.user_message t.ai_message) (spoken g t)
  after_turn-Tracks f g t h sid = elim (Bool-cases (sid == t.session_id)) [
    | inl same ↦
        let news = human t.user_message ∷ ai t.ai_message ∷ [] in
        rw same (
          ap (λ x. last_items (window R cfg) (f x ++ news)) (sym ((eq_iff _ _).0 same))
          ∙ ap (λ ms. last_items (window R cfg) (ms ++ news)) (h sid)
          ∙ last_items-append (window R cfg) (g sid) news)
    | inr differs ↦ rw differs (h sid)
  ]

  spoken-said :
      (g : String → List Message) (t : Turn) (ts : List Turn) (sid : String)
      → spoken g t sid ++ said ts sid ≡ g sid ++ said (t ∷ ts) sid
  spoken-said g t ts sid = elim (Bool-cases (sid == t.session_id)) [
    | inl same ↦
        rw same (append_assoc (g sid) (human t.user_message ∷ ai t.ai_message ∷ []) (said ts sid))
    | inr differs ↦ rw differs
  ]

  play_lem :
      (turns : List Turn) (m : Manager R) (f g : String → List Message)
      → 0 < cfg.ttl
      → KeepsAnswering R cfg
      → Remembers R cfg m f
      → Tracks f g
      → (m' : Manager R) × (f' : String → List Message) × (play turns m ≡ (ok tt, m'))
        × Remembers R cfg m' f'
        × Tracks f' (λ sid. g sid ++ said turns sid)
  unfolding play for_each pure ◌>>=◌
  play_lem [] m f g lasting steady h t =
      (m, f, refl, h, λ sid. t sid ∙ ap (last_items (window R cfg)) (sym (append-nil (g sid))))
  play_lem (x ∷ xs) m f g lasting steady h t =
      let (m1, e1, h1) =
        add_turn_lem m f x.session_id x.user_message x.ai_message lasting steady h in
      let (m2, f2, e2, h2, t2) =
        play_lem xs m1 _ (spoken g x) lasting steady h1 (after_turn-Tracks f g x t) in
      (
        m2,
        f2,
        ap (λ r. resume r (λ _. play xs)) e1 ∙ e2,
        h2,
        λ sid. t2 sid ∙ ap (last_items (window R cfg)) (spoken-said g x xs sid),
      )

  -- Let the lifetime of the keys not be 0, and let Redis, where it answers, go on answering through
  -- the turns, with no key reaching the end of its lifetime. From a manager that remembers nothing
  -- yet, with Redis or, if Redis does not answer at the first use, in the process, every sequence of
  -- turns is then stored without an exception, and afterwards the messages of each session are the
  -- last `window_size` turns of what was said in this session, or all of it if `window_size` is 0,
  -- whatever was said in other sessions.
  pub get_messages-play :
      (turns : List Turn) (m : Manager R) (sid : String)
      → 0 < cfg.ttl
      → KeepsAnswering R cfg
      → Remembers R cfg m (λ other. [])
      → (m' : Manager R) × (m'' : Manager R) × (play turns m ≡ (ok tt, m'))
        × (get_messages R cfg sid m'
            ≡ (ok (last_items (cfg.window_size * 2) (said turns sid)), m''))
  get_messages-play turns m sid lasting steady h =
      let (m', f', e, h', t) =
        play_lem turns m (λ other. []) (λ other. []) lasting steady h
          (λ other. sym (last_items_short (window R cfg) [] (omega arith))) in
      let (m'', e') = get_messages_lem m' f' sid h' in
      (m', m'', e, e' ∙ ap (λ ms. (ok ms, m'')) (t sid))
