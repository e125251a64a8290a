-- ===== src/Chunker/Tests.antt =====
-- Runs of the chunker, and the theorems at inputs of such runs.
use wa_graph_rag_backend.Prelude.{
  ℕ, zero, suc, ◌<◌, ◌≤◌, ◌≡◌, refl, true, false, some, List, [], ◌∷◌, arith, get_elem?,
}
use wa_graph_rag_backend.Prelude.Int.{◌+ℤ◌, ◌-ℤ◌}
use wa_graph_rag_backend.Chunker.{
  Text, ChunkingConfig, validated, boundary, is_sentence_end, chunk_end, chunks, running,
  simple_split_from, simple_split,
}
use wa_graph_rag_backend.Chunker.Split.{stitch, AllWithin, IsSound, simple_split_lem}
use wa_graph_rag_backend.Chunker.Endless.{IsStuck, simple_split_endless}

splitting : Unit {0}
unfolding validated boundary is_sentence_end chunk_end simple_split_from simple_split
splitting = tt

abbrev small : ChunkingConfig
small = record {
  chunk_size = 5;
  chunk_overlap = 1;
  max_chunk_size = 10;
  min_chunk_size = 1;
  use_semantic_splitting = false;
  preserve_structure = true;
}

-- "ab.cdefg"
abbrev text : Text
text = 97 ∷ 98 ∷ 46 ∷ 99 ∷ 100 ∷ 101 ∷ 102 ∷ 103 ∷ []

split_runs :
    simple_split small 9 text
    ≡ chunks ((97 ∷ 98 ∷ 46 ∷ []) ∷ (46 ∷ 99 ∷ 100 ∷ 101 ∷ 102 ∷ []) ∷ (102 ∷ 103 ∷ []) ∷ [])
unfolding splitting ◌+ℤ◌ ◌-ℤ◌
split_runs = refl

small-IsSound : IsSound small
small-IsSound = record { less = omega arith; near = omega arith }

-- The defaults of the source are sound.
defaults-IsSound : IsSound (record {
  chunk_size = 1000;
  chunk_overlap = 200;
  max_chunk_size = 2000;
  min_chunk_size = 100;
  use_semantic_splitting = true;
  preserve_structure = true;
})
defaults-IsSound = record { less = omega arith; near = omega arith }

simple_split_lem_example :
    (cs : List Text) × (simple_split small 9 text ≡ chunks cs)
    × (stitch 1 cs ≡ text)
    × AllWithin 6 cs
simple_split_lem_example = simple_split_lem small small-IsSound text 9 (omega arith)

abbrev stuck : ChunkingConfig
stuck = record small { chunk_overlap = 3 }

none_later :
    (j : ℕ) → 2 < j → j ≤ 5 → (d : ℕ) × (get_elem? text j ≡ some d) × (is_sentence_end d ≡ false)
unfolding is_sentence_end
none_later zero h m = absurd (omega arith)
none_later (suc zero) h m = absurd (omega arith)
none_later (suc (suc zero)) h m = absurd (omega arith)
none_later (suc (suc (suc zero))) h m = (99, refl, refl)
none_later (suc (suc (suc (suc zero)))) h m = (100, refl, refl)
none_later (suc (suc (suc (suc (suc zero))))) h m = (101, refl, refl)
none_later (suc (suc (suc (suc (suc (suc j)))))) h m = absurd (omega arith)

stuck_stays : IsStuck stuck text
unfolding is_sentence_end
stuck_stays = record {
  overlap = refl;
  less = omega arith;
  some_min = omega arith;
  longer = omega arith;
  last = record { char = 46; at = refl; ends = refl; rest = none_later };
}

simple_split_endless_example :
    (simple_split stuck 1000 text ≡ running) × (validated stuck ≡ some stuck)
simple_split_endless_example = simple_split_endless stuck text 1000 stuck_stays
