-- ===== src/Pipeline/Process.antt =====
-- `Pipeline.process`, `_disposition` and the plugin runner (dlpduck/pipeline.py,
-- dlpduck/plugins/base.py). The extractor, the scan and the plugins come in by their outcomes.
use dlpduck.Prelude.{
  ℕ, String, Bool, Option, none, some, List, [], ◌∷◌, ◌++◌, concat, if◌then◌else◌,
}
use dlpduck.Document.{DlpHit, DocumentText}
use dlpduck.Disposition.{failed, decide}
use dlpduck.Run.{Run, pure, raise, durable, ◌>>=◌, ◌>>◌, handle}
use dlpduck.Pipeline.State.{JobContext, JobEvent, failure, plugin_failed, Stores}

pub data Extraction : Type 0 where
  extracted : DocumentText → Extraction
  too_many_pages encrypted : Extraction
  extraction_failed : String → Extraction

pub data Scanned : Type 0 where
  found : List DlpHit → Scanned
  budget_exceeded : String → Scanned  -- the rule's id
  scan_raised : String → Scanned  -- the exception's type

-- A plugin, and what the exception says with which it fails.
pub record Plugin : Type 0 where
  pub name : String
  pub critical : Bool
  pub outcome : Option String

abbrev pub log : JobEvent → Stores → Stores
log e w = record w { trail = w.trail ++ e ∷ [] }

-- Running a plugin is one external effect, and its failure is an event of its own.
unfoldable pub run_plugins : ℕ → String → (String → Stores → Stores) → List Plugin → Run Stores Unit
unfolding ◌>>=◌
run_plugins today job_id run [] = pure tt
run_plugins today job_id run (p ∷ ps) = do
  durable (run p.name)
  elim p.outcome [
    | none ↦ run_plugins today job_id run ps
    | some error ↦ do
      durable (log (plugin_failed today job_id p.name error))
      if p.critical then raise p.name else run_plugins today job_id run ps
  ]

-- An enrich plugin leaves the stores alone. What it adds to the context's metadata is left out.
abbrev pub no_effect : String → Stores → Stores
no_effect name w = w

unfoldable pub give_up : ℕ → JobContext → String → Run Stores JobContext
unfolding ◌>>=◌
give_up today ctx reason = do
  durable (log (failure today ctx.job_id (some reason)))
  pure (record ctx { disposition = failed; reason = some reason })

-- `_disposition`
unfoldable pub dispose : Bool → JobContext → DocumentText → JobContext
unfolding decide
dispose on_degraded ctx text =
    let (disposition, reason) = decide text ctx.hits on_degraded in
    record ctx { disposition = disposition; reason = reason }

module _ (today : ℕ) (on_degraded : Bool) (scan_text : DocumentText → Scanned)
    (plugins : List Plugin) where
  abbrev pub assess_scanned : JobContext → DocumentText → Scanned → Run Stores JobContext
  assess_scanned ctx text (budget_exceeded rule_id) =
      give_up today ctx (concat "rule_budget_exceeded: " rule_id)
  assess_scanned ctx text (scan_raised error) = give_up today ctx (concat "scan_error: " error)
  assess_scanned ctx text (found hits) = λ n w.
      handle (run_plugins today ctx.job_id no_effect plugins n w)
        (λ _. pure (dispose on_degraded (record ctx { hits = hits }) text))
        (λ e. give_up today (record ctx { hits = hits }) (concat "enrich_plugin_failed: " e)) n

  -- The text was extracted: scan it, run the enrich plugins, and decide.
  unfoldable pub assess : JobContext → DocumentText → Run Stores JobContext
  unfolding give_up dispose run_plugins
  assess ctx text = assess_scanned ctx text (scan_text text)

  unfoldable pub process : JobContext → Extraction → Run Stores JobContext
  unfolding give_up assess
  process ctx too_many_pages = give_up today ctx "page_count_exceeds_limit"
  process ctx encrypted = give_up today ctx "encrypted"
  process ctx (extraction_failed error) = give_up today ctx (concat "extraction_error: " error)
  process ctx (extracted text) = assess (record ctx { text = some text }) text
