-- ===== src/Jobs/Sync/Waiting.antt =====
-- Whether the loop of `process_sync_job` comes to an end.
use mathlib.Core.Path.{subst}
use openeo_argoworkflows.Base.{
  ℕ, zero, suc, ◌+◌, ◌<◌, String, Option, none, some, List, ◌≡◌, ◌≢◌, refl, ap, ◌∙◌, arith,
}
use openeo_argoworkflows.Jobs.Model.{Status, finished, error, status_eq}
use openeo_argoworkflows.Jobs.Services.{Services, World}
use openeo_argoworkflows.Jobs.Handlers.{Fresh}
use openeo_argoworkflows.Jobs.Sync.{
  SyncProcess, SyncRequest, sync_job, done, job_failed, row_gone, waiting, pause, wait, File,
  SyncReply, send_files, after_wait, http_error, raised, no_answer, process_sync_job,
}

-- A look that decides nothing: the job is there, and neither finished nor failed.
abbrev pub Undecided : Option Status → Type 0
Undecided look = (status : Status) × (look ≡ some status) × ◌≢◌ status finished × ◌≢◌ status error

-- The pauses that so many looks from the n-th on make.
unfoldable pub pauses_of : (ℕ → Option Status) → ℕ → ℕ → ℕ
pauses_of looks n zero = 0
pauses_of looks n (suc m) =
    (elim (looks n) [ none ↦ 0 | some status ↦ pause status ]) + pauses_of looks (suc n) m

finished_not_error : ◌≢◌ finished error
finished_not_error e = cc

wait_at :
    (looks : ℕ → Option Status) {n m p q f g : ℕ}
    → n ≡ m
    → p ≡ q
    → f ≡ g
    → wait looks n p f ≡ wait looks m q g
wait_at looks a b c = cc

waiting_at : {n m p q : ℕ} → n ≡ m → p ≡ q → waiting n p ≡ waiting m q
waiting_at a b = cc

module _ (looks : ℕ → Option Status) where
  wait_step :
      (n pauses fuel : ℕ) (status : Status)
      → looks n ≡ some status
      → ◌≢◌ status finished
      → ◌≢◌ status error
      → wait looks n pauses (suc fuel) ≡ wait looks (suc n) (pauses + pause status) fuel
  unfolding wait
  wait_step n pauses fuel status e f g = ground (arith, e, f, g)

  pauses_step :
      (n m : ℕ) (status : Status)
      → looks n ≡ some status
      → pauses_of looks n (suc m) ≡ pause status + pauses_of looks (suc n) m
  unfolding pauses_of
  pauses_step n m status e =
      ap
        (λ (o : Option Status).
          (elim o as (λ _. ℕ) [ none ↦ 0 | some t ↦ pause t ]) + pauses_of looks (suc n) m)
        e

  wait-Undecided :
      (m n pauses extra : ℕ)
      → ((i : ℕ) → i < m → Undecided (looks (n + i)))
      → wait looks n pauses (m + extra) ≡ wait looks (n + m) (pauses + pauses_of looks n m) extra
  unfolding pauses_of
  wait-Undecided zero n pauses extra u = wait_at looks (omega arith) (omega arith) (omega arith)
  wait-Undecided (suc m) n pauses extra u =
      let (status, e, f, g) = u 0 (omega arith) in
      let e' : looks n ≡ some status = ap looks (omega arith) ∙ e in
      let later : (i : ℕ) → i < m → Undecided (looks (suc n + i)) =
        λ i l. subst (λ k. Undecided (looks k)) (omega arith) (u (suc i) (omega arith)) in
      let first : wait looks n pauses (suc m + extra) ≡ wait looks n pauses (suc (m + extra)) =
        wait_at looks refl refl (omega arith) in
      let last : wait looks (suc n + m) ((pauses + pause status) + pauses_of looks (suc n) m) extra
          ≡ wait looks (n + suc m) (pauses + pauses_of looks n (suc m)) extra =
        wait_at looks (omega arith) (omega (arith, pauses_step n m status e')) refl in
      first
      ∙ wait_step n pauses (m + extra) status e' f g
      ∙ wait-Undecided m (suc n) (pauses + pause status) extra later
      ∙ last

  wait_decided :
      (n pauses extra : ℕ)
      → ((looks n ≡ some finished) → wait looks n pauses (suc extra) ≡ done (suc n) pauses)
        × ((looks n ≡ some error) → wait looks n pauses (suc extra) ≡ job_failed (suc n) pauses)
        × ((looks n ≡ none) → wait looks n pauses (suc extra) ≡ row_gone (suc n) pauses)
  unfolding wait
  wait_decided n pauses extra =
      (λ e. ground (arith, e), λ e. ground (arith, e, finished_not_error), λ e. ground (arith, e))

  wait_out_of_fuel : (n pauses : ℕ) → wait looks n pauses 0 ≡ waiting n pauses
  unfolding wait
  wait_out_of_fuel n pauses = refl

module _ {S : Services} (body : SyncRequest S.Graph) (p : SyncProcess S.Graph) (user_id : String)
    (f : Fresh) (files : List File) (w : World S) (db : S.Db) (has_process : body.process ≡ some p)
    (stored : S.create w.db (sync_job body.title p user_id f) ≡ some db)
    (looks : ℕ → Option Status) where
  answer : ℕ → SyncReply
  answer fuel = (process_sync_job body user_id f looks fuel files w).0

  answer_lem : (fuel : ℕ) → answer fuel ≡ after_wait (wait looks 0 0 fuel) files
  unfolding answer process_sync_job
  answer_lem fuel = ground (arith, has_process, stored)

  -- The first look that shows a finished job ends the wait, with the files; one that shows a failed
  -- job ends it with the error 500; one that finds no row raises. As long as the looks show another
  -- status there is no answer: for ever, if the job is canceled or no worker takes it.
  pub process_sync_job-answers :
      (n extra : ℕ)
      → ((i : ℕ) → i < n → Undecided (looks i))
      → ((looks n ≡ some finished)
          → (process_sync_job body user_id f looks (n + suc extra) files w).0 ≡ send_files files)
        × ((looks n ≡ some error)
            → (process_sync_job body user_id f looks (n + suc extra) files w).0
              ≡ http_error 500 "Failed to process. Submit as batch job to view logs.")
        × ((looks n ≡ none)
            → (process_sync_job body user_id f looks (n + suc extra) files w).0 ≡ raised)
        × ((process_sync_job body user_id f looks n files w).0 ≡ no_answer)
        × (wait looks 0 0 n ≡ waiting n (pauses_of looks 0 n))
  unfolding answer after_wait
  process_sync_job-answers n extra u =
      let v : (i : ℕ) → i < n → Undecided (looks (0 + i)) =
        λ i l. subst (λ k. Undecided (looks k)) (omega arith) (u i l) in
      let zero_n : looks (0 + n) ≡ looks n = ap looks (omega arith) in
      let q = 0 + pauses_of looks 0 n in
      let before = wait-Undecided looks n 0 0 (suc extra) v in
      let decided = wait_decided looks (0 + n) q extra in
      let none_yet : wait looks 0 0 n ≡ waiting n (pauses_of looks 0 n) =
        wait_at looks refl refl (omega arith)
        ∙ wait-Undecided looks n 0 0 0 v
        ∙ wait_out_of_fuel looks (0 + n) q
        ∙ waiting_at (omega arith) (omega arith) in
      (
        λ e.
            answer_lem (n + suc extra)
            ∙ ap (λ x. after_wait x files) (before ∙ decided.0 (zero_n ∙ e)),
        λ e.
            answer_lem (n + suc extra)
            ∙ ap (λ x. after_wait x files) (before ∙ decided.1 (zero_n ∙ e)),
        λ e.
            answer_lem (n + suc extra)
            ∙ ap (λ x. after_wait x files) (before ∙ decided.2 (zero_n ∙ e)),
        answer_lem n ∙ ap (λ x. after_wait x files) none_yet,
        none_yet,
      )
