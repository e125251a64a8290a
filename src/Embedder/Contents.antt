-- ===== src/Embedder/Contents.antt =====
-- No chunk is lost on the way through ingestion/embedder.py.
use mathlib.Core.Path.{subst}
use wa_graph_rag_backend.Prelude.{
  ℕ, zero, suc, ◌+◌, ◌≤◌, ◌<◌, ◌≡◌, refl, ap, ◌∙◌, Option, List, [], ◌∷◌, ◌++◌, map, length, take,
  drop, length-map, length-drop, take-append-drop, arith,
}
use wa_graph_rag_backend.Chunker.{Text}
use wa_graph_rag_backend.Chunker.Objects.{DocumentChunk}
use wa_graph_rag_backend.Embedder.{
  Answer, vectors, rate_limit, api_error, other_error, Outcome, value, nothing, raised, Service,
  EmbedderConfig, Vector, EmbeddedChunk, all_some, given_up, batch_settled, batch_attempts,
  generate_embeddings_batch, process_individually, processed, zipped, without_vector, batch_chunks,
  embed_batches, embed_chunks,
}

module _ (s : Service) (cfg : EmbedderConfig)
    (generate : Text → s.World → Outcome (Vector s) × s.World) where
  -- The service answers a request with one vector for each text.
  abbrev pub AnswersAll : Type 0
  AnswersAll =
      (ts : List Text) (w : s.World) (vs : List (List s.Number))
      → (s.create ts w).0 ≡ vectors vs
      → length vs ≡ length ts

  -- The value, if there is one, has `n` vectors.
  abbrev HasLength : ℕ → Outcome (List (Option (Vector s))) → Type 0
  HasLength n (value vs) = length vs ≡ n
  HasLength n nothing = Unit {0}
  HasLength n raised = Unit {0}

  length-process_individually :
      (ts : List Text) (w : s.World)
      → length (process_individually s cfg generate ts w).0 ≡ length ts
  unfolding process_individually
  length-process_individually [] w = refl
  length-process_individually (t ∷ ts) w = ap suc (length-process_individually ts _)

  length-all_some : (vs : List (Vector s)) → length (all_some s cfg generate vs) ≡ length vs
  length-all_some [] = refl
  length-all_some (v ∷ vs) = ap suc (length-all_some vs)

  given_up-HasLength :
      (a : Answer (Vector s)) (ts : List Text) (w : s.World)
      → ((vs : List (Vector s)) → a ≡ vectors vs → length vs ≡ length ts)
      → HasLength (length ts) (given_up s cfg generate a ts w).0
  given_up-HasLength (vectors vs) ts w all = length-all_some vs ∙ all vs refl
  given_up-HasLength rate_limit ts w all = tt
  given_up-HasLength api_error ts w all = length-process_individually ts w
  given_up-HasLength other_error ts w all = length-process_individually ts w

  settled-HasLength :
      (a : Answer (Vector s)) (w : s.World) (n : ℕ)
      (failed : Outcome (List (Option (Vector s))) × s.World)
      → ((vs : List (Vector s)) → a ≡ vectors vs → length vs ≡ n)
      → HasLength n failed.0
      → HasLength n (batch_settled s cfg generate a w failed).0
  settled-HasLength (vectors vs) w n failed all h = length-all_some vs ∙ all vs refl
  settled-HasLength rate_limit w n failed all h = h
  settled-HasLength api_error w n failed all h = h
  settled-HasLength other_error w n failed all h = h

  batch_attempts-HasLength :
      (left attempt : ℕ) (ts : List Text) (w : s.World)
      → AnswersAll
      → HasLength (length ts) (batch_attempts s cfg generate left attempt ts w).0
  unfolding batch_attempts
  batch_attempts-HasLength zero attempt ts w all = tt
  batch_attempts-HasLength (suc zero) attempt ts w all =
      settled-HasLength (s.create ts w).0 _ (length ts) _ (λ vs e. all ts w vs e)
        (given_up-HasLength (s.create ts w).0 ts _ (λ vs e. all ts w vs e))
  batch_attempts-HasLength (suc (suc left)) attempt ts w all =
      settled-HasLength (s.create ts w).0 _ (length ts) _ (λ vs e. all ts w vs e)
        (batch_attempts-HasLength (suc left) (attempt + 1) ts _ all)

  -- The chunk without its metadata.
  abbrev pub SamePart : DocumentChunk → DocumentChunk → Type 0
  SamePart c d =
      (c.content ≡ d.content)
      × (c.index ≡ d.index)
      × (c.start_char ≡ d.start_char)
      × (c.end_char ≡ d.end_char)
      × (c.token_count ≡ d.token_count)

  -- The embedded chunks are the given ones, one by one and in order, up to their metadata.
  abbrev pub AreEmbedded : List DocumentChunk → List (EmbeddedChunk s) → Type 0
  AreEmbedded [] [] = Unit {0}
  AreEmbedded [] (e ∷ es) = ⊥
  AreEmbedded (c ∷ cs) [] = ⊥
  AreEmbedded (c ∷ cs) (e ∷ es) = SamePart e.chunk c × AreEmbedded cs es

  zipped-AreEmbedded :
      (cs : List DocumentChunk) (vs : List (Option (Vector s))) (w : s.World)
      → length vs ≡ length cs
      → AreEmbedded cs (zipped s cfg generate (s.now w) cs vs)
  zipped-AreEmbedded [] vs w h = tt
  zipped-AreEmbedded (c ∷ cs) [] w h = absurd (omega (arith, h))
  zipped-AreEmbedded (c ∷ cs) (v ∷ vs) w h =
      ((refl, refl, refl, refl, refl), zipped-AreEmbedded cs vs w (omega (arith, h)))

  failed-AreEmbedded :
      (cs : List DocumentChunk) (a b : _)
      → AreEmbedded cs (map (without_vector s cfg generate a b) cs)
  failed-AreEmbedded [] a b = tt
  failed-AreEmbedded (c ∷ cs) a b = ((refl, refl, refl, refl, refl), failed-AreEmbedded cs a b)

  batch-AreEmbedded :
      (o : Outcome (List (Option (Vector s)))) (w : s.World) (cs : List DocumentChunk)
      → HasLength (length cs) o
      → AreEmbedded cs (batch_chunks s cfg generate o w cs)
  batch-AreEmbedded (value vs) w cs h = zipped-AreEmbedded cs vs w h
  batch-AreEmbedded nothing w cs h = failed-AreEmbedded cs _ _
  batch-AreEmbedded raised w cs h = failed-AreEmbedded cs _ _

  append-AreEmbedded :
      (cs ds : List DocumentChunk) (es fs : List (EmbeddedChunk s))
      → AreEmbedded cs es
      → AreEmbedded ds fs
      → AreEmbedded (cs ++ ds) (es ++ fs)
  append-AreEmbedded [] ds [] fs h k = k
  append-AreEmbedded [] ds (e ∷ es) fs h k = elim h [ ]
  append-AreEmbedded (c ∷ cs) ds [] fs h k = elim h [ ]
  append-AreEmbedded (c ∷ cs) ds (e ∷ es) fs (h, hs) k = (h, append-AreEmbedded cs ds es fs hs k)

  batches-AreEmbedded :
      (fuel : ℕ) (cs : List DocumentChunk) (w : s.World)
      → AnswersAll
      → 0 < cfg.batch_size
      → length cs ≤ fuel
      → AreEmbedded cs (embed_batches s cfg generate fuel cs w).0
  unfolding embed_batches generate_embeddings_batch
  batches-AreEmbedded zero [] w all some_batch enough = tt
  batches-AreEmbedded zero (c ∷ cs) w all some_batch enough = absurd (omega arith)
  batches-AreEmbedded (suc fuel) [] w all some_batch enough = tt
  batches-AreEmbedded (suc fuel) (c ∷ cs) w all some_batch enough =
      let batch = take cfg.batch_size (c ∷ cs) in
      let rest = drop cfg.batch_size (c ∷ cs) in
      let texts = map (processed s cfg) (map (λ (d : DocumentChunk). d.content) batch) in
      let sizes : length texts ≡ length batch =
        length-map (map (λ (d : DocumentChunk). d.content) batch) (processed s cfg)
        ∙ length-map batch (λ (d : DocumentChunk). d.content) in
      let answered =
        subst (λ n. HasLength n (batch_attempts s cfg generate cfg.max_retries 0 texts w).0) sizes
          (batch_attempts-HasLength cfg.max_retries 0 texts w all) in
      let left : length rest ≤ fuel = omega (arith, length-drop {0} cfg.batch_size (c ∷ cs)) in
      subst (λ ds. AreEmbedded ds (embed_batches s cfg generate (suc fuel) (c ∷ cs) w).0)
        (take-append-drop cfg.batch_size (c ∷ cs))
        (append-AreEmbedded batch rest _ _ (batch-AreEmbedded _ _ batch answered)
          (batches-AreEmbedded fuel rest _ all some_batch left))

  -- If the service answers with one vector for each text, and the batches are not empty, then
  -- `embed_chunks` gives back all chunks in their order, with text, index, place and token count
  -- unchanged, whichever calls of the service fail and how often.
  pub embed_chunks-AreEmbedded :
      (cs : List DocumentChunk) (w : s.World)
      → AnswersAll
      → 0 < cfg.batch_size
      → AreEmbedded cs (embed_chunks s cfg generate cs w).0
  unfolding embed_chunks
  embed_chunks-AreEmbedded cs w all some_batch =
      batches-AreEmbedded (length cs) cs w all some_batch (omega arith)
