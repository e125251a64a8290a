-- ===== src/Documents/Bulk/Counts.antt =====
-- The counts of a run of ingestion/ingest_service.py on the S3 buckets.
use Prim.Native.String.{String}
use wa_graph_rag_backend.Prelude.{
  ℕ, ◌+◌, ◌≡◌, refl, sym, ap, ◌∙◌, Bool, true, false, List, [], ◌∷◌, ◌++◌, map, length,
  length-append, arith, if◌then◌else◌, inl, inr, Bool-cases, Option,
}
use wa_graph_rag_backend.Chunker.{Text}
use wa_graph_rag_backend.Chunker.Objects.{Metadata, DocumentChunk}
use wa_graph_rag_backend.Embedder.{Service, EmbedderConfig, Vector, Outcome, EmbeddedChunk}
use wa_graph_rag_backend.Database.Action.{Result, ok, err}
use wa_graph_rag_backend.Database.Action.Rules.{
  Answers, Holds, pure-Answers, >>=-Answers, if-Answers, maybe-Answers,
}
use wa_graph_rag_backend.Documents.{Library, Fresh, Archive}
use wa_graph_rag_backend.Documents.Ingest.{
  Status, inserted, updated, skipped, failed, IngestResult, Pipeline, ingest_document, finish,
  embed_missing, insert_new, update_existing, ingest_body, caught,
}
use wa_graph_rag_backend.Documents.Bulk.{
  IngestStats, total, no_stats, counted, tally, merged, Bucket, ingest_parsed, ingest_downloaded,
  ingest_object, ingest_keys, ingest_from_s3, ingest_all_s3_buckets,
}

abbrev pub is_status : Status → Status → ℕ
is_status inserted inserted = 1
is_status updated updated = 1
is_status skipped skipped = 1
is_status failed failed = 1
is_status inserted updated = 0
is_status inserted skipped = 0
is_status inserted failed = 0
is_status updated inserted = 0
is_status updated skipped = 0
is_status updated failed = 0
is_status skipped inserted = 0
is_status skipped updated = 0
is_status skipped failed = 0
is_status failed inserted = 0
is_status failed updated = 0
is_status failed skipped = 0

-- How many of the results have a status.
abbrev pub count_status : Status → List IngestResult → ℕ
count_status x [] = 0
count_status x (r ∷ rs) = is_status x r.status + count_status x rs

-- Each counter is the number of the results with its status, and the total is that of all results.
pub record IsCounted (stats : IngestStats) : Type 0 where
  pub inserted_count : stats.inserted ≡ count_status inserted stats.results
  pub updated_count : stats.updated ≡ count_status updated stats.results
  pub skipped_count : stats.skipped ≡ count_status skipped stats.results
  pub failed_count : stats.failed ≡ count_status failed stats.results
  pub total_count : total stats ≡ length stats.results

count_append :
    (x : Status) (qs rs : List IngestResult)
    → count_status x (qs ++ rs) ≡ count_status x qs + count_status x rs
count_append x [] rs = omega arith
count_append x (q ∷ qs) rs = omega (arith, count_append x qs rs)

abbrev pub sources : List IngestResult → List String
sources rs = map (λ (r : IngestResult). r.source) rs

merged-IsCounted : (a b : IngestStats) → IsCounted a → IsCounted b → IsCounted (merged a b)
unfolding total
merged-IsCounted a b h k = record {
  inserted_count =
      omega (arith, h.inserted_count, k.inserted_count, count_append inserted a.results b.results);
  updated_count =
      omega (arith, h.updated_count, k.updated_count, count_append updated a.results b.results);
  skipped_count =
      omega (arith, h.skipped_count, k.skipped_count, count_append skipped a.results b.results);
  failed_count =
      omega (arith, h.failed_count, k.failed_count, count_append failed a.results b.results);
  total_count = omega (arith, h.total_count, k.total_count, length-append a.results b.results);
}

module _ (source : String) (id : Option String) (n : ℕ) (error : Option String)
    (stats : IngestStats) (h : IsCounted stats) where
  one : Status → IngestResult
  one x = record {
    source = source;
    status = x;
    document_id = id;
    chunks_created = n;
    error = error;
  }

  one-IsCounted : (x : Status) → IsCounted (tally (one x) stats)
  unfolding total one
  one-IsCounted inserted = record {
    inserted_count =
        omega (arith, h.inserted_count, count_append inserted stats.results (one inserted ∷ []));
    updated_count =
        omega (arith, h.updated_count, count_append updated stats.results (one inserted ∷ []));
    skipped_count =
        omega (arith, h.skipped_count, count_append skipped stats.results (one inserted ∷ []));
    failed_count =
        omega (arith, h.failed_count, count_append failed stats.results (one inserted ∷ []));
    total_count = omega (arith, h.total_count, length-append stats.results (one inserted ∷ []));
  }
  one-IsCounted updated = record {
    inserted_count =
        omega (arith, h.inserted_count, count_append inserted stats.results (one updated ∷ []));
    updated_count =
        omega (arith, h.updated_count, count_append updated stats.results (one updated ∷ []));
    skipped_count =
        omega (arith, h.skipped_count, count_append skipped stats.results (one updated ∷ []));
    failed_count =
        omega (arith, h.failed_count, count_append failed stats.results (one updated ∷ []));
    total_count = omega (arith, h.total_count, length-append stats.results (one updated ∷ []));
  }
  one-IsCounted skipped = record {
    inserted_count =
        omega (arith, h.inserted_count, count_append inserted stats.results (one skipped ∷ []));
    updated_count =
        omega (arith, h.updated_count, count_append updated stats.results (one skipped ∷ []));
    skipped_count =
        omega (arith, h.skipped_count, count_append skipped stats.results (one skipped ∷ []));
    failed_count =
        omega (arith, h.failed_count, count_append failed stats.results (one skipped ∷ []));
    total_count = omega (arith, h.total_count, length-append stats.results (one skipped ∷ []));
  }
  one-IsCounted failed = record {
    inserted_count =
        omega (arith, h.inserted_count, count_append inserted stats.results (one failed ∷ []));
    updated_count =
        omega (arith, h.updated_count, count_append updated stats.results (one failed ∷ []));
    skipped_count =
        omega (arith, h.skipped_count, count_append skipped stats.results (one failed ∷ []));
    failed_count =
        omega (arith, h.failed_count, count_append failed stats.results (one failed ∷ []));
    total_count = omega (arith, h.total_count, length-append stats.results (one failed ∷ []));
  }

tally-IsCounted :
    (r : IngestResult) (stats : IngestStats) → IsCounted stats → IsCounted (tally r stats)
unfolding one
tally-IsCounted r stats h =
    one-IsCounted r.source r.document_id r.chunks_created r.error stats h r.status

no_stats-IsCounted : IsCounted no_stats
unfolding total
no_stats-IsCounted = record {
  inserted_count = refl;
  updated_count = refl;
  skipped_count = refl;
  failed_count = refl;
  total_count = refl;
}

sources-append : (qs rs : List IngestResult) → sources (qs ++ rs) ≡ sources qs ++ sources rs
sources-append [] rs = refl
sources-append (q ∷ qs) rs = ap (◌∷◌ q.source) (sources-append qs rs)

append_assoc : {A : Type 0} (xs ys zs : List A) → (xs ++ ys) ++ zs ≡ xs ++ (ys ++ zs)
append_assoc [] ys zs = refl
append_assoc (x ∷ xs) ys zs = ap (◌∷◌ x) (append_assoc xs ys zs)

append_nil : {A : Type 0} (xs : List A) → xs ++ [] ≡ xs
append_nil [] = refl
append_nil (x ∷ xs) = ap (◌∷◌ x) (append_nil xs)

tally-results :
    (r : IngestResult) (stats : IngestStats) → (tally r stats).results ≡ stats.results ++ (r ∷ [])
tally-results r stats = go r.status
  where
    go : (x : Status) → (counted x stats).results ++ (r ∷ []) ≡ stats.results ++ (r ∷ [])
    go inserted = refl
    go updated = refl
    go skipped = refl
    go failed = refl

module _ (s : Service) (l : Library s) (cfg : EmbedderConfig)
    (generate : Text → s.World → Outcome (Vector s) × s.World) (p : Pipeline s l)
    (s3 : Bucket s) where
  -- The keys of a bucket, none if S3 does not answer.
  abbrev pub listed_keys : String → Archive s l → List String
  listed_keys bucket_type a =
      if s3.verify_s3_access a.world then s3.list_documents bucket_type "" a.world else []

  -- The result is named by the source.
  abbrev IsNamed : String → IngestResult → Type 0
  IsNamed source r = r.source ≡ source

  finish-IsNamed :
      (fresh : Fresh) (status : Status) (id source : String) (metadata : Metadata) (level : String)
      (es : List (EmbeddedChunk s))
      → Answers
          (IsNamed source)
          (finish s l cfg generate p fresh status id source metadata level es)
  unfolding finish
  finish-IsNamed fresh status id source metadata level es =
      >>=-Answers (IsNamed source) _ _ (λ u. pure-Answers (IsNamed source) _ refl)

  embed_missing-IsNamed :
      (fresh : Fresh) (id source : String) (metadata : Metadata) (level : String)
      (cs : List DocumentChunk)
      → Answers
          (IsNamed source)
          (embed_missing s l cfg generate p fresh id source metadata level cs)
  unfolding embed_missing
  embed_missing-IsNamed fresh id source metadata level [] = pure-Answers (IsNamed source) _ refl
  embed_missing-IsNamed fresh id source metadata level (c ∷ cs) =
      >>=-Answers (IsNamed source) _ _ (λ es.
        >>=-Answers (IsNamed source) _ _
          (λ u. finish-IsNamed fresh updated id source metadata level es))

  body-IsNamed :
      (fresh : Fresh) (content : Text) (source title : String) (metadata : Metadata)
      (level : String)
      → Answers
          (IsNamed source)
          (ingest_body s l cfg generate p fresh content source title metadata level)
  unfolding ingest_body insert_new update_existing
  body-IsNamed fresh content source title metadata level = >>=-Answers (IsNamed source) _ _ (λ x.
      if-Answers (IsNamed source) _ _ _ (pure-Answers (IsNamed source) _ refl) (
        >>=-Answers (IsNamed source) _ _ (λ cs.
          maybe-Answers (IsNamed source) x _ _
            (>>=-Answers (IsNamed source) _ _ (λ id. >>=-Answers (IsNamed source) _ _ (λ es.
              >>=-Answers (IsNamed source) _ _
                (λ u. finish-IsNamed fresh inserted id source metadata level es))))
            (λ d. >>=-Answers (IsNamed source) _ _ (λ old.
              >>=-Answers (IsNamed source) _ _
                (λ id. embed_missing-IsNamed fresh d.id source metadata level _))))))

  document_source :
      (fresh : Fresh) (content : Text) (source title : String) (metadata : Metadata)
      (level : String) (a : Archive s l)
      → (ingest_document s l cfg generate p fresh content source title metadata level a).0.source
        ≡ source
  unfolding ingest_document
  document_source fresh content source title metadata level a =
      go _ (body-IsNamed fresh content source title metadata level a)
    where
      go :
          (r : Result IngestResult × Archive s l)
          → Holds (IsNamed source) r.0
          → (caught s l cfg generate p fresh source r).0.source ≡ source
      go (ok r, b) h = h
      go (err x, b) h = refl

  object_source :
      (fresh : Fresh) (bucket_type key : String) (a : Archive s l)
      → (ingest_object s l cfg generate p s3 fresh bucket_type key a).0.source ≡ key
  unfolding ingest_object
  object_source fresh bucket_type key a = go (s3.download key bucket_type a.world).0 _
    where
      parsed :
          (content : Text) (meta : Metadata) (b : Archive s l)
          → (ingest_parsed s l cfg generate p s3 fresh bucket_type key (content, meta) b).0.source
            ≡ key
      parsed [] meta b = refl
      parsed (x ∷ xs) meta b = document_source fresh (x ∷ xs) key _ _ _ b

      go :
          (done : Bool) (b : Archive s l)
          → (ingest_downloaded s l cfg generate p s3 fresh bucket_type key done b).0.source ≡ key
      go false b = refl
      go true b = parsed (s3.parse_document key b.world).0 (s3.parse_document key b.world).1 b

  keys_lem :
      (fresh : ℕ → Fresh) (bucket_type : String) (i : ℕ) (keys : List String) (stats : IngestStats)
      (a : Archive s l)
      → IsCounted stats
      → IsCounted (ingest_keys s l cfg generate p s3 fresh bucket_type i keys stats a).0
        × (sources (ingest_keys s l cfg generate p s3 fresh bucket_type i keys stats a).0.results
            ≡ sources stats.results ++ keys)
  unfolding ingest_keys
  keys_lem fresh bucket_type i [] stats a h = (h, sym (append_nil _))
  keys_lem fresh bucket_type i (key ∷ keys) stats a h =
      let r = ingest_object s l cfg generate p s3 (fresh i) bucket_type key a in
      let (counts, all) =
        keys_lem fresh bucket_type (i + 1) keys (tally r.0 stats) r.1
          (tally-IsCounted r.0 stats h) in
      (
        counts,
        all
            ∙ ap (λ rs. sources rs ++ keys) (tally-results r.0 stats)
            ∙ ap (λ xs. xs ++ keys) (sources-append stats.results (r.0 ∷ []))
            ∙ append_assoc (sources stats.results) (r.0.source ∷ []) keys
            ∙ ap (λ k. sources stats.results ++ (k ∷ keys))
                (object_source (fresh i) bucket_type key a),
      )

  from_s3_lem :
      (fresh : ℕ → Fresh) (bucket_type : String) (a : Archive s l)
      → IsCounted (ingest_from_s3 s l cfg generate p s3 fresh bucket_type "" a).0
        × (sources (ingest_from_s3 s l cfg generate p s3 fresh bucket_type "" a).0.results
            ≡ listed_keys bucket_type a)
  unfolding ingest_from_s3
  from_s3_lem fresh bucket_type a = elim (Bool-cases (s3.verify_s3_access a.world)) [
    | inl up ↦ rw up (keys_lem fresh bucket_type 0 _ no_stats a no_stats-IsCounted)
    | inr down ↦ rw down ((no_stats-IsCounted, refl))
  ]

  -- A run on both buckets accounts for every object: there is one result for each key that the
  -- private bucket and then the public one list, in this order and named by the key, whether the
  -- object was ingested, was skipped, or failed at the download, the parser or the ingestion; each
  -- of the four counters is the number of the results with its status; and `total` is the number of
  -- all results.
  pub ingest_all_s3_buckets-IsCounted :
      (fresh fresh' : ℕ → Fresh) (a : Archive s l)
      → IsCounted (ingest_all_s3_buckets s l cfg generate p s3 fresh fresh' a).0
        × (map
              (λ (r : IngestResult). r.source)
              (ingest_all_s3_buckets s l cfg generate p s3 fresh fresh' a).0.results
            ≡ listed_keys "private" a
              ++ listed_keys "public" (ingest_from_s3 s l cfg generate p s3 fresh "private" "" a).1)
  unfolding ingest_all_s3_buckets
  ingest_all_s3_buckets-IsCounted fresh fresh' a =
      let first = ingest_from_s3 s l cfg generate p s3 fresh "private" "" a in
      let second = ingest_from_s3 s l cfg generate p s3 fresh' "public" "" first.1 in
      let (counts, keys) = from_s3_lem fresh "private" a in
      let (counts', keys') = from_s3_lem fresh' "public" first.1 in
      (
        merged-IsCounted _ _ (merged-IsCounted no_stats first.0 no_stats-IsCounted counts) counts',
        sources-append first.0.results second.0.results
            ∙ ap (λ xs. xs ++ sources second.0.results) keys
            ∙ ap (λ xs. listed_keys "private" a ++ xs) keys',
      )
