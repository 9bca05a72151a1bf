-- ===== src/UseCase/Process/Embedding.antt =====
-- What the embedding loop of the pipeline does to the chunks, the token sum and the job.
use ai_backend_api.Base.{
  ℕ, zero, suc, ◌+◌, ◌-◌, ◌*◌, min, ◌≡◌, refl, sym, ap, ◌∙◌, subst, List, [], ◌∷◌, ◌++◌, take, drop,
  length, append-nil, append_assoc, take-append-drop, length-drop, length-append, arith,
}
use ai_backend_api.Base.Result.{ok, >>=-eq-ok, ok_inj}
use ai_backend_api.Entity.Values.{EmbeddingVector}
use ai_backend_api.Entity.Job.{IngestionJob, record_progress}
use ai_backend_api.Entity.Chunk.{Chunk, set_embedding}
use ai_backend_api.Exec.Returns.{Returns, bind-Returns, pure-Returns, lift-Returns, modify-Returns}
use ai_backend_api.UseCase.Process.{
  Backend, Run, on_store, on_job, sum_tokens, attach, rounds, embed_round, embed_loop,
  embedding_batch_size,
}

sum_tokens-append : (xs ys : List Chunk) → sum_tokens (xs ++ ys) ≡ sum_tokens xs + sum_tokens ys
unfolding sum_tokens
sum_tokens-append [] ys = omega arith
sum_tokens-append (x ∷ xs) ys = omega (arith, sum_tokens-append xs ys)

attach-append :
    (now : ℕ) (xs ys : List Chunk) (es fs : List EmbeddingVector) (done bs : List Chunk)
    → attach now xs es ≡ ok done
    → attach now ys fs ≡ ok bs
    → attach now (xs ++ ys) (es ++ fs) ≡ ok (done ++ bs)
unfolding attach
attach-append now [] ys [] fs done bs h k = let e : done ≡ [] = sym (ok_inj refl h) in rw e k
attach-append now [] ys (e ∷ es) fs done bs h k = absurd (cc)
attach-append now (x ∷ xs) ys [] fs done bs h k = absurd (cc)
attach-append now (x ∷ xs) ys (e ∷ es) fs done bs h k =
    let (rest, r, q) = >>=-eq-ok (attach now xs es) (λ rest. ok (set_embedding now e x ∷ rest)) h in
    let e : done ≡ set_embedding now e x ∷ rest = sym (ok_inj refl q) in
    rw (attach-append now xs ys es fs rest bs r k) (rw e refl)

attach-length :
    (now : ℕ) (xs : List Chunk) (es : List EmbeddingVector) (done : List Chunk)
    → attach now xs es ≡ ok done
    → length done ≡ length xs
unfolding attach
attach-length now [] [] done h = ap length (sym (ok_inj refl h))
attach-length now [] (e ∷ es) done h = absurd (cc)
attach-length now (x ∷ xs) [] done h = absurd (cc)
attach-length now (x ∷ xs) (e ∷ es) done h =
    let (rest, r, q) = >>=-eq-ok (attach now xs es) (λ rest. ok (set_embedding now e x ∷ rest)) h in
    ap length (sym (ok_inj refl q)) ∙ ap (λ n. suc n) (attach-length now xs es rest r)

module _ (now : ℕ) (chunks : List Chunk) (job : IngestionJob) where
  -- The loop has embedded a prefix of the chunks and counted its tokens.
  record IsPartly (state : List Chunk × List Chunk × ℕ) (current : IngestionJob) : Type 0 where
    before : List Chunk
    vectors : List EmbeddingVector
    whole : before ++ state.1 ≡ chunks
    embedded : attach now before vectors ≡ ok state.0
    counted : state.2 ≡ sum_tokens before
    status : current.status ≡ job.status
    processed : current.processed_chunks ≡ length before
    total : current.total_chunks ≡ length chunks

  -- The invariant with the batch `part` appended.
  IsPartly-append :
      (old new : IngestionJob) (state : List Chunk × List Chunk × ℕ) (part rest : List Chunk)
      (fresh : List EmbeddingVector) (attached : List Chunk)
      → IsPartly state old
      → part ++ rest ≡ state.1
      → attach now part fresh ≡ ok attached
      → new.status ≡ old.status
      → new.processed_chunks ≡ min (length state.0 + length part) (length state.0 + length state.1)
      → new.total_chunks ≡ length state.0 + length state.1
      → IsPartly (state.0 ++ attached, rest, state.2 + sum_tokens part) new
  IsPartly-append old new state part rest fresh attached inv cut joined kept processed total =
      let e1 = attach-length now inv.before inv.vectors state.0 inv.embedded in
      let e2 = ap length inv.whole in
      let e3 = ap length cut in
      record {
        before = inv.before ++ part;
        vectors = inv.vectors ++ fresh;
        whole = append_assoc inv.before part rest ∙ (ap (λ l. inv.before ++ l) cut ∙ inv.whole);
        embedded =
            attach-append now inv.before part inv.vectors fresh state.0 attached inv.embedded
              joined;
        counted = omega (arith, sum_tokens-append inv.before part, inv.counted);
        status = kept ∙ inv.status;
        processed =
            omega
              (arith, processed, e1, e3, length-append part rest, length-append inv.before part);
        total = omega (arith, total, e1, e2, length-append inv.before state.1);
      }

module _ (backend : Backend) (chunk_size chunk_overlap now : ℕ) (chunks : List Chunk)
    (job : IngestionJob) where
  abbrev Partly : List Chunk × List Chunk × ℕ → Run backend.State → Type 0
  Partly state run = IsPartly now chunks job state run.job

  round-IsPartly :
      (state : List Chunk × List Chunk × ℕ)
      → Returns
          (Partly state)
          (embed_round backend chunk_size chunk_overlap now state)
          (λ next run. Partly next run × (next.1 ≡ drop embedding_batch_size state.1))
  unfolding embed_round on_store on_job record_progress
  round-IsPartly state =
      let batch = take embedding_batch_size state.1 in
      let count = length state.0 + length state.1 in
      bind-Returns {Q = λ _ run. Partly state run} (record { at = λ s p a e. p })
        (λ fresh. bind-Returns (lift-Returns (attach now batch fresh)) (λ attached.
          bind-Returns
            {Q = λ _ run.
              Partly
                (state.0 ++ attached, drop embedding_batch_size state.1, state.2 + sum_tokens batch)
                run}
            (modify-Returns _ (λ run p.
              IsPartly-append now chunks job run.job
                (record_progress now (min (length state.0 + length batch) count) count run.job)
                state batch (drop embedding_batch_size state.1) fresh attached p.0
                (take-append-drop embedding_batch_size state.1) p.1 refl refl refl))
            (λ _. pure-Returns _ (λ run p. (p, refl)))))

  loop-IsPartly :
      (n : ℕ) (state : List Chunk × List Chunk × ℕ)
      → Returns
          (Partly state)
          (embed_loop backend chunk_size chunk_overlap now n state)
          (λ next run. Partly next run × (length next.1 ≡ length state.1 - n * 50))
  unfolding embed_loop
  loop-IsPartly zero state = pure-Returns state (λ run p. (p, omega arith))
  loop-IsPartly (suc n) state = bind-Returns (round-IsPartly state) (λ next. record {
    at = λ run p last e.
        let (q, left) = (loop-IsPartly n next).at run p.0 last e in
        let gone = ap length p.1 ∙ length-drop embedding_batch_size state.1 in
        (q, omega (arith, left, gone));
  })

  -- What `embed_loop` returns for `chunks`, and the job beside it.
  pub record IsEmbedded (done rest : List Chunk) (total_tokens : ℕ) (current : IngestionJob)
      : Type 0 where
    all_done : rest ≡ []
    vectors : List EmbeddingVector
    embedded : attach now chunks vectors ≡ ok done
    counted : total_tokens ≡ sum_tokens chunks
    status : current.status ≡ job.status
    processed : current.processed_chunks ≡ length chunks
    total : current.total_chunks ≡ length chunks

  no_more : (n : ℕ) → n - rounds n * 50 ≡ 0
  no_more n = omega arith

  length-zero : (xs : List Chunk) → length xs ≡ 0 → xs ≡ []
  length-zero [] h = refl
  length-zero (x ∷ xs) h = absurd (omega (arith, h))

  -- If the embedding loop returns, whatever the provider does, it has given each of the chunks, in
  -- their order and each once, a vector (the batches together are one `attach` of the whole list),
  -- has summed the token counts of all of them, and has left the job at the status it had, with all
  -- chunks processed; the job starts at progress 0 of the number of chunks.
  pub embed_loop-IsEmbedded :
      (run : Run backend.State) (done rest : List Chunk) (total_tokens : ℕ)
      → run.job.status ≡ job.status
      → run.job.processed_chunks ≡ 0
      → run.job.total_chunks ≡ length chunks
      → (embed_loop backend chunk_size chunk_overlap now
          (rounds (length chunks))
          ([], chunks, 0)
          run).0
        ≡ ok (done, rest, total_tokens)
      → IsEmbedded done rest total_tokens
          (embed_loop backend chunk_size chunk_overlap now
            (rounds (length chunks))
            ([], chunks, 0)
            run).1.job
  embed_loop-IsEmbedded run done rest total_tokens kept none_yet all e =
      let start : Partly ([], chunks, 0) run = record {
        before = [];
        vectors = [];
        whole = refl;
        embedded = unfold attach in refl;
        counted = unfold sum_tokens in refl;
        status = kept;
        processed = none_yet;
        total = all;
      } in
      let (p, left) =
        (loop-IsPartly (rounds (length chunks)) ([], chunks, 0)).at run start
          (done, rest, total_tokens) e in
      let finished = length-zero rest (left ∙ no_more (length chunks)) in
      let whole = sym (append-nil p.before) ∙ (ap (λ l. p.before ++ l) (sym finished) ∙ p.whole) in
      record {
        all_done = finished;
        vectors = p.vectors;
        embedded = subst (λ l. attach now l p.vectors ≡ ok done) whole p.embedded;
        counted = p.counted ∙ ap sum_tokens whole;
        status = p.status;
        processed = p.processed ∙ ap length whole;
        total = p.total;
      }
