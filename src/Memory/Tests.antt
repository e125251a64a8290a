-- ===== src/Memory/Tests.antt =====
-- The theorem on the session memory at a run with a small Redis server.
use wa_graph_rag_backend.Prelude.{◌≡◌, refl, List, [], ◌∷◌, arith}
use wa_graph_rag_backend.Database.Action.{ok}
use wa_graph_rag_backend.Memory.{human, ai, last_items, Manager, get_messages}
use wa_graph_rag_backend.Memory.Sample.{small_redis, one_turn, new_manager}
use wa_graph_rag_backend.Memory.Window.{Remembers, unasked}
use wa_graph_rag_backend.Memory.Turns.{Turn, said, play, get_messages-play}

abbrev talk : List Turn
talk =
    record { session_id = "a"; user_message = "fees?"; ai_message = "1000" }
    ∷ record { session_id = "b"; user_message = "hostel?"; ai_message = "yes" }
    ∷ record { session_id = "a"; user_message = "dates?"; ai_message = "June" }
    ∷ []

new_manager-Remembers : Remembers small_redis one_turn new_manager (λ other. [])
new_manager-Remembers =
    unasked
      (record { backend = refl; checked = refl; held = λ sid. refl; held_there = λ sid. refl })

window_of_a : last_items 2 (said talk "a") ≡ human "dates?" ∷ ai "June" ∷ []
window_of_a = refl

get_messages-play_example :
    (m' : Manager small_redis) × (m'' : Manager small_redis) × (play small_redis one_turn talk
        new_manager
      ≡ (ok tt, m'))
    × (get_messages small_redis one_turn "a" m' ≡ (ok (last_items 2 (said talk "a")), m''))
get_messages-play_example =
    get_messages-play small_redis one_turn talk new_manager "a" (omega arith) (λ k u a s up. up)
      new_manager-Remembers
