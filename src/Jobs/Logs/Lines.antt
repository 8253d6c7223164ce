-- ===== src/Jobs/Logs/Lines.antt =====
-- The entries of the log, as lines of the text that Argo gives.
use mathlib.Core.Path.{subst}
use openeo_argoworkflows.Base.{
  ℕ, String, zero, suc, ◌+◌, ◌<◌, Option, none, some, List, [], ◌∷◌, ◌≡◌, ◌≢◌, refl, sym, ap, ◌∙◌,
  ◌⊎◌, inl, inr, arith, ◌>>=◌,
}
use openeo_argoworkflows.Base.Json.{Json}
use openeo_argoworkflows.Base.Decimal.{decimal}
use openeo_argoworkflows.Base.Lists.{length, In}
use openeo_argoworkflows.Base.Text.{Text}
use openeo_argoworkflows.Base.Split.{split}
use openeo_argoworkflows.Jobs.Model.{Job, Workflow, found, Argo, Settings}
use openeo_argoworkflows.Jobs.Services.{Services, World, get}
use openeo_argoworkflows.Jobs.Logs.{
  LogEntry, message_of, add_entry, entries, LogReply, entries_reply, raised, read_logs,
  workflow_logs, named_logs, logs,
}

-- The line with that index, counted from 0.
unfoldable pub line_at : ℕ → List Text → Option Text
line_at i [] = none
line_at zero (line ∷ lines) = some line
line_at (suc i) (line ∷ lines) = line_at i lines

-- An entry stands for a line: its index, and the message in it.
pub record IsLine (loads : Text → Option Json) (first : ℕ) (lines : List Text) (e : LogEntry)
    : Type 0 where
  pub index : ℕ
  pub in_bounds : index < length lines
  pub line : Text
  pub here : line_at index lines ≡ some line
  pub says : message_of loads line ≡ some (some e.message)
  pub numbered : e.id ≡ decimal (first + index)

none_not_some : {A : Type 0} {a : A} → ◌≢◌ none (some a)
none_not_some e = cc

some_injective : {A : Type 0} {a b : A} → some a ≡ some b → b ≡ a
some_injective e = cc

entry_at :
    {i j : ℕ} {m : Json}
    → i ≡ j
    → ◌≡◌ {A = LogEntry}
        (record { id = decimal i; message = m })
        (record { id = decimal j; message = m })
entry_at {m = m} e = ap (λ k. record { id = decimal k; message = m }) e

raised_not_entries : {es : List LogEntry} → ◌≢◌ raised (entries_reply es)
raised_not_entries e = cc

entries_of_reply :
    (o : Option (List LogEntry)) (es : List LogEntry)
    → (elim o as (λ _. LogReply) [ none ↦ raised | some es ↦ entries_reply es ]) ≡ entries_reply es
    → o ≡ some es
entries_of_reply none es e = absurd (raised_not_entries e)
entries_of_reply (some es') es e = cc

both_steps :
    {A B C : Type 0} (oa : Option A) (ob : Option B) (f : A → B → C) (c : C)
    → (oa >>= λ a. ob >>= λ b. some (f a b)) ≡ some c
    → (a : A) × (b : B) × (oa ≡ some a) × (ob ≡ some b) × (c ≡ f a b)
both_steps none ob f c e = absurd (none_not_some e)
both_steps (some a) none f c e = absurd (none_not_some e)
both_steps (some a) (some b) f c e = (a, b, refl, refl, some_injective e)

module _ (loads : Text → Option Json) where
  head_entry :
      (idx : ℕ) (content : Json) (rest : List LogEntry)
      → In
          (record { id = decimal (idx + 0); message = content })
          (add_entry loads idx (some content) rest)
  unfolding add_entry
  head_entry idx content rest = inl (entry_at (omega arith))

  no_entries : (idx : ℕ) (es : List LogEntry) → entries loads idx [] ≡ some es → es ≡ []
  unfolding entries
  no_entries idx es e = some_injective e

  entries_step :
      (idx : ℕ) (line : Text) (lines : List Text) (es : List LogEntry)
      → entries loads idx (line ∷ lines) ≡ some es
      → (m : Option Json) × (rest : List LogEntry) × (message_of loads line ≡ some m)
        × (entries loads (suc idx) lines ≡ some rest)
        × (es ≡ add_entry loads idx m rest)
  unfolding entries
  entries_step idx line lines es e =
      both_steps (message_of loads line) (entries loads (suc idx) lines) (add_entry loads idx) es e

  later-IsLine :
      (idx : ℕ) (line : Text) (lines : List Text) (e : LogEntry)
      → IsLine loads (suc idx) lines e
      → IsLine loads idx (line ∷ lines) e
  unfolding line_at
  later-IsLine idx line lines e l = record {
    index = suc l.index;
    in_bounds = omega (arith, l.in_bounds);
    line = l.line;
    here = l.here;
    says = l.says;
    numbered = l.numbered ∙ ap decimal (omega arith);
  }

  first-IsLine :
      (idx : ℕ) (line : Text) (lines : List Text) (content : Json)
      → message_of loads line ≡ some (some content)
      → IsLine loads idx (line ∷ lines) (record { id = decimal idx; message = content })
  unfolding line_at
  first-IsLine idx line lines content p = record {
    index = 0;
    in_bounds = omega arith;
    line = line;
    here = refl;
    says = p;
    numbered = ap decimal (omega arith);
  }

  IsLine-or_later :
      (idx : ℕ) (line : Text) (lines : List Text) (m : Option Json) (rest : List LogEntry)
      (e : LogEntry)
      → message_of loads line ≡ some m
      → In e (add_entry loads idx m rest)
      → IsLine loads idx (line ∷ lines) e ⊎ In e rest
  unfolding add_entry
  IsLine-or_later idx line lines none rest e says j = inr j
  IsLine-or_later idx line lines (some content) rest e says (inl same) = inl (
      subst (IsLine loads idx (line ∷ lines)) (sym same) (first-IsLine idx line lines content says))
  IsLine-or_later idx line lines (some content) rest e says (inr j) = inr j

  In-entries :
      (idx : ℕ) (lines : List Text) (es : List LogEntry) (e : LogEntry)
      → entries loads idx lines ≡ some es
      → In e es
      → IsLine loads idx lines e
  In-entries idx [] es e p i = absurd (subst (In e) (no_entries idx es p) i)
  In-entries idx (line ∷ lines) es e p i =
      let (m, rest, says, tail, is) = entries_step idx line lines es p in
      elim (IsLine-or_later idx line lines m rest e says (subst (In e) is i)) [
        | inl here ↦ here
        | inr later ↦ later-IsLine idx line lines e (In-entries (suc idx) lines rest e tail later)
      ]

  kept_entry :
      (idx : ℕ) (m : Option Json) (rest : List LogEntry) (e : LogEntry)
      → In e rest
      → In e (add_entry loads idx m rest)
  unfolding add_entry
  kept_entry idx none rest e j = j
  kept_entry idx (some content) rest e j = inr j

  entries-In :
      (idx i : ℕ) (lines : List Text) (es : List LogEntry) (line : Text) (content : Json)
      → entries loads idx lines ≡ some es
      → line_at i lines ≡ some line
      → message_of loads line ≡ some (some content)
      → In (record { id = decimal (idx + i); message = content }) es
  unfolding line_at
  entries-In idx i [] es line content p at says = absurd (none_not_some at)
  entries-In idx zero (l ∷ lines) es line content p at says =
      let (m, rest, says', tail, is) = entries_step idx l lines es p in
      let same : m ≡ some content =
        some_injective (sym says ∙ ap (message_of loads) (some_injective at) ∙ says') in
      subst (In (record { id = decimal (idx + 0); message = content })) (sym is) (
        subst
          (λ o.
            In (record { id = decimal (idx + 0); message = content }) (add_entry loads idx o rest))
          (sym same) (head_entry idx content rest))
  entries-In idx (suc i) (l ∷ lines) es line content p at says =
      let (m, rest, says', tail, is) = entries_step idx l lines es p in
      subst (In (record { id = decimal (idx + suc i); message = content })) (sym is) (
        kept_entry idx m rest (record { id = decimal (idx + suc i); message = content })
          (subst (λ k. In (record { id = decimal k; message = content }) rest) (omega arith)
            (entries-In (suc idx) i lines rest line content tail at says)))

module _ {S : Services} (s : Settings) (argo : Argo) (loads : Text → Option Json)
    (fetch : String → Option (ℕ × Text)) where
  -- The entries of a log are the lines of Argo's text that have a message, each with the index of
  -- its line, which is in bounds; no line with a message is left out.
  pub logs-entries :
      (w : World S) (job_id name : String) (job : Job S.Graph) (workflow : Workflow)
      (content : Text) (es : List LogEntry)
      → get w job_id ≡ some job
      → job.workflowname ≡ some name
      → ◌≢◌ name ""
      → argo.get_workflow name s.argo_workflows_namespace ≡ found workflow
      → fetch name ≡ some (200, content)
      → logs s argo loads fetch job_id w ≡ entries_reply es
      → ((e : LogEntry) → In e es → IsLine loads 0 (split b'\n' content) e)
        × ((i : ℕ) (line : Text) (message : Json)
            → line_at i (split b'\n' content) ≡ some line
            → message_of loads line ≡ some (some message)
            → In (record { id = decimal i; message = message }) es)
  unfolding logs named_logs workflow_logs read_logs
  logs-entries w job_id name job workflow content es known named given there fetched answer =
      let reply : (elim (entries loads 0 (split b'\n' content)) as (λ _. LogReply) [
        | none ↦ raised
        | some es ↦ entries_reply es
      ])
          ≡ entries_reply es =
        ground (arith, known, named, given, there, fetched, answer) in
      let read = entries_of_reply (entries loads 0 (split b'\n' content)) es reply in
      let count : (i : ℕ) → 0 + i ≡ i = λ i. omega arith in
      (
        λ e i. In-entries loads 0 (split b'\n' content) es e read i,
        λ i line message at says.
            subst (λ k. In (record { id = decimal k; message = message }) es) (count i)
              (entries-In loads 0 i (split b'\n' content) es line message read at says),
      )
